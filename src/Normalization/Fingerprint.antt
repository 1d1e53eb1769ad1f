-- ===== src/Normalization/Fingerprint.antt =====
-- internal/normalization/fingerprint.go: the identity of a finding.
-- `digest` is the hexadecimal text of the SHA-256 of a text, from Go's standard library.
pub mod Identity
use secure_dev.Prelude.{
  ℕ, suc, String, Bool, true, false, ◌&&◌, Option, none, some, List, [], ◌∷◌, ◌==◌, if◌then◌else◌,
}
use secure_dev.Prelude.Text.{to_lower, to_upper, trim_space, has_code, trim_prefix, join}
use secure_dev.Prelude.Paths.{replace_code, clean}
use secure_dev.Scanners.{Category, category_text}

abbrev pub field_separator : String
field_separator = "\u{1f}"

pub record FingerprintInput : Type 0 where
  pub category : Category
  pub rule_id : String
  pub location : String
  pub package_id : String
  pub vulnerability_id : String

-- What `NormalizeLocation` does with a path that is not blank.
abbrev relative : String → String
relative p = trim_prefix "/" (trim_prefix "./" (clean (replace_code 92 "/" p)))

unfoldable pub normalize_location : String → String
unfolding trim_space clean replace_code trim_prefix
normalize_location raw =
    let p = trim_space raw in let cleaned = relative p in if p == "" then "" else cleaned

unfoldable pub normalize_rule_id : String → String
unfolding to_lower trim_space
normalize_rule_id s = to_lower (trim_space s)

unfoldable pub normalize_package : String → String
unfolding to_lower trim_space
normalize_package s = to_lower (trim_space s)

unfoldable pub normalize_vulnerability_id : String → String
unfolding to_upper trim_space
normalize_vulnerability_id s = to_upper (trim_space s)

-- What the identity is made of, normalized.
unfoldable pub fields_of : FingerprintInput → List String
unfolding normalize_rule_id normalize_package normalize_vulnerability_id normalize_location to_lower
    trim_space
fields_of i =
    to_lower (trim_space (category_text i.category))
    ∷ normalize_rule_id i.rule_id
    ∷ normalize_location i.location
    ∷ normalize_package i.package_id
    ∷ normalize_vulnerability_id i.vulnerability_id
    ∷ []

pub data Identified : Type 0 where
  identity : String → Identified
  holds_separator : ℕ → Identified
  indistinct : Identified

-- The position of the first field that holds the separator, counted from `i`.
unfoldable pub separator_at : ℕ → List String → Option ℕ
unfolding has_code
separator_at i [] = none
separator_at i (f ∷ rest) =
    let later = separator_at (suc i) rest in if has_code 31 f then some i else later

-- Every field after the category is empty.
unfoldable pub only_category : List String → Bool
only_category (c ∷ rule ∷ location ∷ package_id ∷ vulnerability ∷ []) =
    rule == "" && location == "" && package_id == "" && vulnerability == ""
only_category _ = true

unfoldable pub identify : (String → String) → List String → Option ℕ → Identified
unfolding only_category join
identify digest fields (some i) = holds_separator i
identify digest fields none =
    if only_category fields then indistinct else identity (digest (join fields field_separator))

unfoldable pub fingerprint : (String → String) → FingerprintInput → Identified
unfolding fields_of separator_at identify
fingerprint digest i = let fields = fields_of i in identify digest fields (separator_at 0 fields)
