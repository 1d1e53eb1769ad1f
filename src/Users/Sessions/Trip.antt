-- ===== src/Users/Sessions/Trip.antt =====
-- internal/users/session.go: which tokens verify.
use Prim.Native.String.{◌++◌}
use Prim.Native.Nat.{◌/◌}
use text.Mathlib.TextLemmas.{nil-append, cons-append}
use secure_dev.Prelude.{
  ℕ, ℤ, pos, negsuc, ◌+◌, ◌*◌, ◌<◌, ◌≤◌, String, false, ◌≡◌, refl, sym, ap, ◌∙◌, Option, none, some,
  ◌==◌, ltb, arith, leb, leb→le, le→leb, ◌&&◌, eq_iff, eq_refl, Bool-cases, inl, inr, lt→ltb,
  ltb→lt,
}
use secure_dev.Prelude.Text.{trim_space, itoa, strip, has_code}
use secure_dev.Prelude.Text.Cut.{
  cut_first, cut_last, cut_last-append, cut_first-append, cut_last_sound, cut_first_sound,
  strip-append, strip_sound,
}
use secure_dev.Prelude.Text.Decimal.{parse_int, parse_int-itoa}
use secure_dev.Users.Sessions.{
  second, session_ttl, session_prefix, of_user, still_before, check_expiry, check_payload, issue,
  max_unix, signed, check_signature, check_rest, verify,
}

-- The expiry of a session issued now, in seconds.
abbrev pub expiry_of : ℕ → ℕ
expiry_of now = (now + session_ttl) / second

-- A separator before a text, as one text.
dot-append : (t : String) → "." ++ t ≡ String.◌∷◌ "." t
dot-append t = cons-append "." "" t ∙ ap (String.◌∷◌ ".") (nil-append t)

-- What is left of each step when the session is accepted.
expiry_accepted :
    (now : ℕ) (u v : String) (o : Option ℤ)
    → check_expiry now u o ≡ of_user v
    → (u ≡ v)
      × ((expiry : ℕ) × (o ≡ some (pos expiry)) × (expiry ≤ max_unix) × (now < expiry * second))
unfolding still_before
expiry_accepted now u v none h = cc
expiry_accepted now u v (some (negsuc expiry)) h = cc
expiry_accepted now u v (some (pos expiry)) h =
    elim (Bool-cases (leb expiry max_unix && ltb now (expiry * second))) [
      | inl e ↦
          let same : of_user u ≡ of_user v = rw e at h in
          (
            cc,
            (
              expiry,
              refl,
              leb→le expiry max_unix (ground arith),
              ltb→lt now (expiry * second) (ground arith),
            ),
          )
      | inr e ↦ let off = rw e at h in cc
    ]

payload_accepted :
    (now : ℕ) (v : String) (o : Option (String × String))
    → check_payload now o ≡ of_user v
    → (text : String) × (o ≡ some (v, text))
      × ((trim_space v == "") ≡ false)
      × ((expiry : ℕ) × (parse_int text ≡ some (pos expiry))
          × (expiry ≤ max_unix)
          × (now < expiry * second))
payload_accepted now v none h = cc
payload_accepted now v (some (u, text)) h = elim (Bool-cases (trim_space u == "")) [
  | inl e ↦ let off = rw e at h in cc
  | inr e ↦
      let (same, rest) = expiry_accepted now u v (parse_int text) (rw e at h) in
      (text, rw same refl, rw same at e, rest)
]

module _ (sign : String → String) where
  -- A session verifies, as that of its user, until it expires, whatever the key: if the user's id is
  -- not blank and has no separator in it, no signature has a separator, and the expiry is an
  -- instant of Go's time.
  pub verify-issue :
      ((payload : String) → has_code 46 (sign payload) ≡ false)
      → (user_id : String) (issued now : ℕ) → (trim_space user_id == "") ≡ false
      → has_code 46 user_id ≡ false
      → expiry_of issued ≤ max_unix
      → now < expiry_of issued * second
      → verify sign (issue sign user_id issued) now ≡ of_user user_id
  unfolding verify issue signed still_before
  verify-issue hex user_id issued now named clear fits early =
      let payload = user_id ++ "." ++ itoa (expiry_of issued) in
      ap (check_rest sign now) (strip-append session_prefix (payload ++ "." ++ sign payload))
      ∙ ap (λ t. check_signature sign now (cut_last 46 (payload ++ t))) (dot-append (sign payload))
      ∙ ap (check_signature sign now)
          (cut_last-append 46 "." payload (sign payload) refl (hex payload))
      ∙ rw (eq_refl (sign payload)) (
          ap (λ t. check_payload now (cut_first 46 (user_id ++ t)))
            (dot-append (itoa (expiry_of issued)))
          ∙ ap (check_payload now)
              (cut_first-append 46 "." user_id (itoa (expiry_of issued)) refl clear)
          ∙ rw
              (
                named,
                parse_int-itoa (expiry_of issued) (omega (arith, fits)),
                le→leb (expiry_of issued) max_unix fits,
                lt→ltb now (expiry_of issued * second) early,
              )
              refl)

  -- What a verified token is made of.
  pub record IsSession (token user_id : String) (now : ℕ) : Type 0 where
    pub expiry_text : String
    pub expiry : ℕ
    pub composed :
        token
        ≡ session_prefix
          ++ (user_id ++ "." ++ expiry_text)
          ++ "."
          ++ sign (user_id ++ "." ++ expiry_text)
    pub parsed : parse_int expiry_text ≡ some (pos expiry)
    pub in_range : expiry ≤ max_unix
    pub unexpired : now < expiry * second
    pub named : (trim_space user_id == "") ≡ false
    pub clear : has_code 46 user_id ≡ false

  signature_accepted :
      (now : ℕ) (v : String) (o : Option (String × String))
      → check_signature sign now o ≡ of_user v
      → (payload : String) × (o ≡ some (payload, sign payload))
        × (check_payload now (cut_first 46 payload) ≡ of_user v)
  unfolding signed
  signature_accepted now v none h = cc
  signature_accepted now v (some (payload, signature)) h =
      elim (Bool-cases (sign payload == signature)) [
        | inl e ↦ (payload, rw ((eq_iff (sign payload) signature).0 e) refl, rw e at h)
        | inr e ↦ let off = rw e at h in cc
      ]

  rest_accepted :
      (now : ℕ) (v : String) (o : Option String)
      → check_rest sign now o ≡ of_user v
      → (rest : String) × (o ≡ some rest)
        × (check_signature sign now (cut_last 46 rest) ≡ of_user v)
  rest_accepted now v none h = cc
  rest_accepted now v (some rest) h = (rest, refl, h)

  -- A token that verifies is the prefix, the payload and the payload's own signature, the payload
  -- being the user's id and an expiry that is still to come; the id is not blank and has no
  -- separator in it.
  pub verify-IsSession :
      (token user_id : String) (now : ℕ)
      → verify sign token now ≡ of_user user_id
      → IsSession token user_id now
  unfolding verify
  verify-IsSession token user_id now h =
      let (rest, stripped, h1) = rest_accepted now user_id (strip session_prefix token) h in
      let (payload, cut, h2) = signature_accepted now user_id (cut_last 46 rest) h1 in
      let (text, halves, named, (expiry, parsed, in_range, early)) =
        payload_accepted now user_id (cut_first 46 payload) h2 in
      let (composed, clear) = cut_first_sound 46 "." payload user_id text refl halves in
      let whole : payload ≡ user_id ++ "." ++ text =
        composed ∙ ap (λ t. user_id ++ t) (sym (dot-append text)) in
      record {
        expiry_text = text;
        expiry = expiry;
        composed = rw (← whole) (
            strip_sound session_prefix token rest stripped
            ∙ ap (λ t. session_prefix ++ t)
                (cut_last_sound 46 "." rest payload (sign payload) refl cut
                  ∙ ap (λ t. payload ++ t) (sym (dot-append (sign payload)))));
        parsed = parsed;
        in_range = in_range;
        unexpired = early;
        named = named;
        clear = clear;
      }
