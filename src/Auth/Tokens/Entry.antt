-- ===== src/Auth/Tokens/Entry.antt =====
-- internal/auth/auth.go: the credential that New makes of an entry.
use Prim.Native.String.{◌++◌}
use text.Mathlib.TextLemmas.{nil-append, cons-append}
use secure_dev.Prelude.{
  String, true, false, ◌≡◌, refl, sym, ap, ◌∙◌, Option, none, some, List, [], ◌∷◌, ltb, ◌==◌,
  Bool-cases, inl, inr,
}
use secure_dev.Prelude.Text.{trim_space, join}
use secure_dev.Prelude.Text.Bytes.{byte_length}
use secure_dev.Prelude.Text.Cut.{cut_first, cut_first_sound}
use secure_dev.Auth.{Role, Scope, Parsed, parsed, empty_field, no_project, parse_role, parse_scope}
use secure_dev.Auth.Tokens.{
  Credential, accepted, has_label, has_digest, check_secret, check_scope, check_rest, check_role,
  check_label, check_pair, min_token_length,
}

colon-append : (t : String) → ":" ++ t ≡ String.◌∷◌ ":" t
colon-append t = cons-append ":" "" t ∙ ap (λ r. String.◌∷◌ ":" r) (nil-append t)

cut_colon : (s a b : String) → cut_first 58 s ≡ some (a, b) → s ≡ a ++ ":" ++ b
cut_colon s a b h =
    (cut_first_sound 58 ":" s a b refl h).0 ∙ ap (λ t. a ++ t) (sym (colon-append b))

module _ (hash : String → String) where
  -- The entry is `label:role:scope:secret`, and the credential is what it says.
  pub record IsEntry (pair : String) (c : Credential) : Type 0 where
    pub label_field : String
    pub role_field : String
    pub scope_field : String
    pub secret : String
    pub composed : pair ≡ join (label_field ∷ role_field ∷ scope_field ∷ secret ∷ []) ":"
    pub label : c.label ≡ trim_space label_field
    pub labelled : (c.label == "") ≡ false
    pub role : parse_role role_field ≡ (c.role, true)
    pub scope : parse_scope scope_field ≡ parsed c.scope
    pub digest : c.digest ≡ hash secret
    pub strong : ltb (byte_length secret) min_token_length ≡ false

  -- What the last of the checks establishes.
  secret_accepted :
      (creds : List Credential) (c : Credential) (label : String) (role : Role) (secret : String)
      (scope : Scope)
      → check_secret hash creds label role secret scope ≡ accepted c
      → (c ≡ record { label = label; role = role; scope = scope; digest = hash secret })
        × ((label == "") ≡ false)
        × (ltb (byte_length secret) min_token_length ≡ false)
        × (has_label label creds ≡ false)
        × (has_digest (hash secret) creds ≡ false)
  secret_accepted creds c label role secret scope h = elim (Bool-cases (label == "")) [
    | inl e ↦ let k = rw e at h in cc
    | inr e ↦ elim (Bool-cases (ltb (byte_length secret) min_token_length)) [
      | inl f ↦ let k = rw (e, f) at h in cc
      | inr f ↦ elim (Bool-cases (has_label label creds)) [
        | inl g ↦ let k = rw (e, f, g) at h in cc
        | inr g ↦ elim (Bool-cases (has_digest (hash secret) creds)) [
          | inl d ↦ let k = rw (e, f, g, d) at h in cc
          | inr d ↦ let k = rw (e, f, g, d) at h in (cc, e, f, g, d)
        ]
      ]
    ]
  ]

  scope_accepted :
      (creds : List Credential) (c : Credential) (label : String) (role : Role) (secret : String)
      (o : Parsed)
      → check_scope hash creds label role secret o ≡ accepted c
      → (scope : Scope) × (o ≡ parsed scope)
        × (check_secret hash creds (trim_space label) role secret scope ≡ accepted c)
  scope_accepted creds c label role secret empty_field h = cc
  scope_accepted creds c label role secret (no_project raw) h = cc
  scope_accepted creds c label role secret (parsed scope) h = (scope, refl, h)

  rest_accepted :
      (creds : List Credential) (c : Credential) (label role_text : String)
      (o : Option (String × String))
      → check_rest hash creds label role_text o ≡ accepted c
      → (scope_field : String) × (secret : String) × (o ≡ some (scope_field, secret))
        × ((parse_role role_text).1 ≡ true)
        × (check_scope hash creds label (parse_role role_text).0 secret (parse_scope scope_field)
            ≡ accepted c)
  rest_accepted creds c label role_text none h = cc
  rest_accepted creds c label role_text (some (scope_field, secret)) h =
      elim (Bool-cases (parse_role role_text).1) [
        | inl e ↦ (scope_field, secret, refl, e, let k = rw e at h in k)
        | inr e ↦ let k = rw e at h in cc
      ]

  role_accepted :
      (creds : List Credential) (c : Credential) (label : String) (o : Option (String × String))
      → check_role hash creds label o ≡ accepted c
      → (role_text : String) × (rest : String) × (o ≡ some (role_text, rest))
        × (check_rest hash creds label role_text (cut_first 58 rest) ≡ accepted c)
  role_accepted creds c label none h = cc
  role_accepted creds c label (some (role_text, rest)) h = (role_text, rest, refl, h)

  label_accepted :
      (creds : List Credential) (c : Credential) (o : Option (String × String))
      → check_label hash creds o ≡ accepted c
      → (label : String) × (rest : String) × (o ≡ some (label, rest))
        × (check_role hash creds label (cut_first 58 rest) ≡ accepted c)
  label_accepted creds c none h = cc
  label_accepted creds c (some (label, rest)) h = (label, rest, refl, h)

  pub check_pair_sound :
      (creds : List Credential) (pair : String) (c : Credential)
      → check_pair hash creds pair ≡ accepted c
      → IsEntry pair c × (has_label c.label creds ≡ false) × (has_digest c.digest creds ≡ false)
  unfolding check_pair join
  check_pair_sound creds pair c h =
      let (label, rest, e1, h1) = label_accepted creds c (cut_first 58 pair) h in
      let (role_text, rest', e2, h2) = role_accepted creds c label (cut_first 58 rest) h1 in
      let (scope_field, secret, e3, known, h3) =
        rest_accepted creds c label role_text (cut_first 58 rest') h2 in
      let (scope, e4, h4) =
        scope_accepted creds c label (parse_role role_text).0 secret (parse_scope scope_field) h3 in
      let (same, labelled, strong, new_label, new_digest) =
        secret_accepted creds c (trim_space label) (parse_role role_text).0 secret scope h4 in
      rw same (
        record {
          label_field = label;
          role_field = role_text;
          scope_field = scope_field;
          secret = secret;
          composed =
              cut_colon pair label rest e1
              ∙ ap (λ t. label ++ ":" ++ t)
                  (cut_colon rest role_text rest' e2
                    ∙ ap (λ t. role_text ++ ":" ++ t) (cut_colon rest' scope_field secret e3));
          label = refl;
          labelled = labelled;
          role = ap (λ ok. ((parse_role role_text).0, ok)) known;
          scope = e4;
          digest = refl;
          strong = strong;
        },
        new_label,
        new_digest,
      )
