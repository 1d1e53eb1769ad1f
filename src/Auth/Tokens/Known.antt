-- ===== src/Auth/Tokens/Known.antt =====
-- internal/auth/auth.go: the credentials that New makes, and whom Authenticate knows.
use mathlib.Core.List.{Memᴰ, append-nil, append_assoc}
use secure_dev.Prelude.{
  String, true, false, ◌≡◌, ◌↔◌, ◌⊎◌, refl, sym, ap, subst, ◌∙◌, Option, none, some, List, [], ◌∷◌,
  ◌++◌, any-snoc, ◌==◌, eq_iff, eqb_comm, arith, Bool-cases, Option-cases, inl, inr,
}
use secure_dev.Auth.Tokens.Entry.{IsEntry, check_pair_sound}
use secure_dev.Auth.Tokens.{
  Credential, Principal, TokenError, Checked, accepted, rejected, authenticator, has_label,
  has_digest, last_match, principal_of, principal_from, check_pair, add_all, new, match_of,
  authenticate, parse_bearer,
}

-- No two credentials share a label, and no two a digest.
abbrev pub AllDistinct : List Credential → Type 0
AllDistinct [] = Unit
AllDistinct (c ∷ rest) =
    (has_digest c.digest rest ≡ false) × (has_label c.label rest ≡ false) × AllDistinct rest

AllDistinct-snoc :
    (creds : List Credential) (c : Credential)
    → has_digest c.digest creds ≡ false
    → has_label c.label creds ≡ false
    → AllDistinct creds
    → AllDistinct (creds ++ c ∷ [])
unfolding has_digest has_label
AllDistinct-snoc [] c h k distinct = (refl, refl, tt)
AllDistinct-snoc (d ∷ rest) c h k (h', k', distinct) = (
  ground (arith, any-snoc (λ x. x.digest == d.digest) rest c, eqb_comm c.digest d.digest),
  ground (arith, any-snoc (λ x. x.label == d.label) rest c, eqb_comm c.label d.label),
  AllDistinct-snoc rest c (ground arith) (ground arith) distinct,
)

last_match-none :
    (d : String) (creds : List Credential) → has_digest d creds ≡ false → last_match d creds ≡ none
unfolding last_match has_digest
last_match-none d [] h = refl
last_match-none d (c ∷ rest) h =
    rw (last_match-none d rest (ground arith)) (ground (arith, eqb_comm c.digest d))

has_digest-of :
    (c : Credential) (creds : List Credential) → Memᴰ c creds → has_digest c.digest creds ≡ true
unfolding has_digest
has_digest-of c [] m = elim m [ ]
has_digest-of c (b ∷ rest) (Memᴰ.head e) = rw (← e, (eq_iff c.digest c.digest).1 refl) refl
has_digest-of c (b ∷ rest) (Memᴰ.tail m) = ground (arith, has_digest-of c rest m)

last_match-here :
    (c : Credential) (rest : List Credential)
    → has_digest c.digest rest ≡ false
    → last_match c.digest (c ∷ rest) ≡ some c
unfolding last_match
last_match-here c rest h =
    rw (last_match-none c.digest rest h, (eq_iff c.digest c.digest).1 refl) refl

-- The only credential with the digest is the last one with it.
last_match-of :
    (c : Credential) (creds : List Credential)
    → AllDistinct creds
    → Memᴰ c creds
    → last_match c.digest creds ≡ some c
unfolding last_match
last_match-of c [] distinct m = elim m [ ]
last_match-of c (b ∷ rest) (h, k, distinct) (Memᴰ.head e) =
    subst (λ x. last_match x.digest (b ∷ rest) ≡ some x) (sym e) (last_match-here b rest h)
last_match-of c (b ∷ rest) (h, k, distinct) (Memᴰ.tail m) =
    rw (last_match-of c rest distinct m) refl

last_match_sound :
    (d : String) (creds : List Credential) (c : Credential)
    → last_match d creds ≡ some c
    → Memᴰ c creds × (d ≡ c.digest)
unfolding last_match
last_match_sound d [] c h = cc
last_match_sound d (b ∷ rest) c h = elim (Option-cases (last_match d rest)) [
  | inr (b', e) ↦ let (m, same) = last_match_sound d rest c (e ∙ (rw e at h)) in (Memᴰ.tail m, same)
  | inl e ↦ elim (Bool-cases (d == b.digest)) [
    | inl f ↦
        let same : b ≡ c = let k = rw (e, f) at h in cc in
        (Memᴰ.head (sym same), (eq_iff d b.digest).0 f ∙ ap (λ x. x.digest) same)
    | inr f ↦ let k = rw (e, f) at h in cc
  ]
]

principal_from_sound :
    (o : Option Credential) (p : Principal)
    → principal_from o ≡ some p
    → (c : Credential) × (o ≡ some c) × (p ≡ principal_of c)
principal_from_sound none p h = cc
principal_from_sound (some c) p h = (c, refl, cc)

checked_cases :
    (o : Checked) → ((e : TokenError) × (o ≡ rejected e)) ⊎ ((c : Credential) × (o ≡ accepted c))
checked_cases (rejected e) = inl (e, refl)
checked_cases (accepted c) = inr (c, refl)

module _ (hash : String → String) where
  -- One credential for each entry, in order.
  pub data Entries : List String → List Credential → Type 0 where
    no_entries : Entries [] []
    next_entry :
        {pair : String} {c : Credential} {pairs : List String} {creds : List Credential}
        → IsEntry hash pair c
        → Entries pairs creds
        → Entries (pair ∷ pairs) (c ∷ creds)

  add_all_sound :
      (creds : List Credential) (pairs : List String) (out : List Credential)
      → AllDistinct creds
      → add_all hash creds pairs ≡ authenticator out
      → (made : List Credential) × (out ≡ creds ++ made) × Entries pairs made × AllDistinct out
  unfolding add_all
  add_all_sound creds [] out distinct h =
      let same : creds ≡ out = cc in
      ([], sym (append-nil creds ∙ same), no_entries, subst AllDistinct same distinct)
  add_all_sound creds (pair ∷ rest) out distinct h =
      elim (checked_cases (check_pair hash creds pair)) [
        | inl (e, off) ↦ let k = rw off at h in cc
        | inr (c, on) ↦
            let (entry, new_label, new_digest) = check_pair_sound hash creds pair c on in
            let (made, same, entries, all_distinct) =
              add_all_sound (creds ++ c ∷ []) rest out
                (AllDistinct-snoc creds c new_digest new_label distinct)
                (let k = rw on at h in k) in
            (
              c ∷ made,
              same ∙ append_assoc creds (c ∷ []) made,
              next_entry entry entries,
              all_distinct,
            )
      ]

  -- From entries that are accepted come one credential for each, in order: the entry is
  -- `label:role:scope:secret` with a known role, a scope that is not empty and a secret of at least 32
  -- bytes, and the credential has that label, trimmed, that role and scope, and the secret's digest.
  -- No two credentials share a label, and no two a digest.
  pub new_sound :
      (pairs : List String) (creds : List Credential)
      → new hash pairs ≡ authenticator creds
      → Entries pairs creds × AllDistinct creds
  new_sound [] creds h = cc
  new_sound (pair ∷ rest) creds h =
      let (made, same, entries, distinct) = add_all_sound [] (pair ∷ rest) creds tt h in
      (rw same entries, distinct)

  authenticate_sound :
      (creds : List Credential) (o : Option String) (p : Principal)
      → match_of hash creds o ≡ some p
      → (token : String) × (c : Credential) × (o ≡ some token)
        × Memᴰ c creds
        × (hash token ≡ c.digest)
        × (p ≡ principal_of c)
  authenticate_sound creds none p h = cc
  authenticate_sound creds (some token) p h =
      let (c, e, is) = principal_from_sound (last_match (hash token) creds) p h in
      let (m, same) = last_match_sound (hash token) creds c e in (token, c, refl, m, same, is)

  -- With credentials that New accepted, a request is that of a principal exactly if it has a token
  -- whose digest is that of one of the credentials, and the principal is that credential's. So a token
  -- is never taken for another credential than its own, and no request passes without one.
  pub authenticate_iff :
      (pairs : List String) (creds : List Credential)
      → new hash pairs ≡ authenticator creds
      → (header : String) (p : Principal)
      → (authenticate hash creds header ≡ some p) ↔ (
          (token : String) × (c : Credential) × (parse_bearer header ≡ some token)
          × Memᴰ c creds
          × (hash token ≡ c.digest)
          × (p ≡ principal_of c))
  unfolding authenticate
  authenticate_iff pairs creds h header p = (
    authenticate_sound creds (parse_bearer header) p,
    λ (token, c, there, m, same, is).
        ap (match_of hash creds) there
        ∙ ap (λ d. principal_from (last_match d creds)) same
        ∙ ap principal_from (last_match-of c creds (new_sound pairs creds h).1 m)
        ∙ ap some (sym is),
  )
