-- ===== src/Auth/Tokens.antt =====
-- internal/auth/auth.go: the configured bearer tokens, and the authentication of a request.
-- `hash` is the SHA-256 digest of a text; it is a parameter. The comparison in constant time answers
-- what `==` does. The maps of the labels and digests seen so far hold those of the credentials so
-- far.
pub mod Entry
pub mod Known
pub mod Setting
use secure_dev.Prelude.{
  ℕ, String, Bool, true, false, not, Option, none, some, List, [], ◌∷◌, ◌++◌, any, map, ltb, ◌==◌,
  if◌then◌else◌,
}
use secure_dev.Prelude.Text.{trim_space, to_lower}
use secure_dev.Prelude.Text.Bytes.{byte_length}
use secure_dev.Prelude.Text.Cut.{cut_first}
use secure_dev.Prelude.Sort.{sort_by, text_lt}
use secure_dev.Auth.{Role, Scope, Parsed, parsed, empty_field, no_project, parse_role, parse_scope}

abbrev pub min_token_length : ℕ
min_token_length = 32

pub record Principal : Type 0 where
  pub label : String
  pub role : Role
  pub scope : Scope
  pub user_id : String

unfoldable pub is_user : Principal → Bool
unfolding trim_space
is_user p = not (trim_space p.user_id == "")

pub record Credential : Type 0 where
  pub label : String
  pub role : Role
  pub scope : Scope
  pub digest : String

pub data TokenError : Type 0 where
  no_tokens wrong_form unknown_role no_scope empty_label : TokenError
  short_secret repeated_label repeated_secret : TokenError

-- What New does with one entry, and with all of them.
pub data Checked : Type 0 where
  accepted : Credential → Checked
  rejected : TokenError → Checked

pub data Configured : Type 0 where
  authenticator : List Credential → Configured
  misconfigured : TokenError → Configured

abbrev pub bearer : Option (String × String) → Option String
bearer none = none
bearer (some (scheme, rest)) =
    if not (to_lower scheme == "bearer")
    then none
    else if trim_space rest == ""
    then none
    else some (trim_space rest)

unfoldable pub parse_bearer : String → Option String
unfolding cut_first to_lower trim_space
parse_bearer header = if header == "" then none else bearer (cut_first 32 header)

abbrev pub principal_of : Credential → Principal
principal_of c = record { label = c.label; role = c.role; scope = c.scope; user_id = "" }

abbrev pub principal_from : Option Credential → Option Principal
principal_from none = none
principal_from (some c) = some (principal_of c)

unfoldable pub has_label : String → List Credential → Bool
has_label label creds = any (λ c. c.label == label) creds

unfoldable pub has_digest : String → List Credential → Bool
has_digest digest creds = any (λ c. c.digest == digest) creds

-- The loop of Authenticate, whose last match stays.
unfoldable pub last_match : String → List Credential → Option Credential
last_match presented [] = none
last_match presented (c ∷ rest) =
    let later = last_match presented rest in
    elim later [ some d ↦ some d | none ↦ if presented == c.digest then some c else none ]

unfoldable pub labels : List Credential → List String
unfolding sort_by
labels creds = sort_by text_lt (map (λ c. c.label) creds)

-- A rejected entry ends the loop.
abbrev pub go_on : Checked → (Credential → Configured) → Configured
go_on (rejected e) later = misconfigured e
go_on (accepted c) later = later c

module _ (hash : String → String) where
  abbrev pub check_secret : List Credential → String → Role → String → Scope → Checked
  check_secret creds label role secret scope =
      if label == ""
      then rejected empty_label
      else if ltb (byte_length secret) min_token_length
      then rejected short_secret
      else if has_label label creds
      then rejected repeated_label
      else if has_digest (hash secret) creds
      then rejected repeated_secret
      else accepted (record { label = label; role = role; scope = scope; digest = hash secret })

  abbrev pub check_scope : List Credential → String → Role → String → Parsed → Checked
  check_scope creds label role secret empty_field = rejected no_scope
  check_scope creds label role secret (no_project raw) = rejected no_scope
  check_scope creds label role secret (parsed scope) =
      check_secret creds (trim_space label) role secret scope

  -- The scope and the secret, behind the label and the role.
  abbrev pub check_rest : List Credential → String → String → Option (String × String) → Checked
  check_rest creds label role_text none = rejected wrong_form
  check_rest creds label role_text (some (scope_field, secret)) =
      let (role, ok) = parse_role role_text in
      if not ok
      then rejected unknown_role
      else check_scope creds label role secret (parse_scope scope_field)

  abbrev pub check_role : List Credential → String → Option (String × String) → Checked
  check_role creds label none = rejected wrong_form
  check_role creds label (some (role_text, rest)) =
      check_rest creds label role_text (cut_first 58 rest)

  abbrev pub check_label : List Credential → Option (String × String) → Checked
  check_label creds none = rejected wrong_form
  check_label creds (some (label, rest)) = check_role creds label (cut_first 58 rest)

  unfoldable pub check_pair : List Credential → String → Checked
  unfolding cut_first parse_role parse_scope trim_space byte_length has_label has_digest
  check_pair creds pair = check_label creds (cut_first 58 pair)

  -- The loop of New, with the credentials so far.
  unfoldable pub add_all : List Credential → List String → Configured
  unfolding check_pair
  add_all creds [] = authenticator creds
  add_all creds (pair ∷ rest) = go_on (check_pair creds pair) (λ c. add_all (creds ++ c ∷ []) rest)

  abbrev pub new : List String → Configured
  new [] = misconfigured no_tokens
  new (pair ∷ rest) = add_all [] (pair ∷ rest)

  abbrev pub match_of : List Credential → Option String → Option Principal
  match_of creds none = none
  match_of creds (some token) = principal_from (last_match (hash token) creds)

  -- `none` is ErrUnauthenticated.
  unfoldable pub authenticate : List Credential → String → Option Principal
  unfolding parse_bearer last_match
  authenticate creds header = match_of creds (parse_bearer header)
