-- ===== src/Examples/Admitting.antt =====
-- Runs of the theorems on configured tokens, with the secret itself in place of its digest.
use mathlib.Core.List.{Memᴰ}
use secure_dev.Prelude.{String, ◌≡◌, ◌↔◌, refl, some, List, [], ◌∷◌, All}
use secure_dev.Prelude.Text.Bytes.{char_bytes}
use secure_dev.Config.{split_list}
use secure_dev.Auth.{service, admin, global_scope, scope_to}
use secure_dev.Auth.Tokens.{
  Credential, authenticator, new, authenticate, principal_of, parse_bearer, add_all,
}
use secure_dev.Auth.Tokens.Known.{Entries, AllDistinct, new_sound, authenticate_iff}
use secure_dev.Auth.Tokens.Setting.{IsNarrow, split_list-IsNarrow}

abbrev ops_token : String
ops_token = "0123456789abcdef0123456789abcdef"

abbrev ci_token : String
ci_token = "fedcba9876543210fedcba9876543210"

abbrev setting : String
setting =
    "ops:admin:*:0123456789abcdef0123456789abcdef, ci:service:Shop:fedcba9876543210fedcba9876543210"

abbrev entries : List String
entries =
    "ops:admin:*:0123456789abcdef0123456789abcdef"
    ∷ "ci:service:Shop:fedcba9876543210fedcba9876543210" ∷ []

abbrev ci : Credential
ci = record { label = "ci"; role = service; scope = scope_to ("shop" ∷ []); digest = ci_token }

abbrev known : List Credential
known = record { label = "ops"; role = admin; scope = global_scope; digest = ops_token } ∷ ci ∷ []

entries_known : new (λ s. s) entries ≡ authenticator known
unfolding add_all char_bytes
entries_known = refl

setting_known : new (λ s. s) (split_list setting) ≡ authenticator known
unfolding add_all split_list char_bytes
setting_known = refl

new_sound_example : Entries (λ s. s) entries known × AllDistinct known
new_sound_example = new_sound (λ s. s) entries known entries_known

authenticate_example :
    (authenticate (λ s. s) known "bearer fedcba9876543210fedcba9876543210" ≡ some (principal_of ci))
    ↔ ((token : String) × (c : Credential) × (parse_bearer "bearer fedcba9876543210fedcba9876543210"
          ≡ some token)
        × Memᴰ c known
        × (token ≡ c.digest)
        × (principal_of ci ≡ principal_of c))
authenticate_example =
    authenticate_iff (λ s. s) entries known entries_known "bearer fedcba9876543210fedcba9876543210"
      (principal_of ci)

split_list-IsNarrow_example : All (λ c. IsNarrow c.scope) known
split_list-IsNarrow_example = split_list-IsNarrow (λ s. s) setting known setting_known
