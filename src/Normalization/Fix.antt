-- ===== src/Normalization/Fix.antt =====
-- internal/normalization/fix.go.
use secure_dev.Prelude.{
  String, Bool, true, false, ◌&&◌, ◌||◌, ◌≡◌, ◌≢◌, ◌⊎◌, Option, none, some, List, [], any, length,
  ltb, ◌==◌, arith, if◌then◌else◌,
}
use secure_dev.Prelude.Text.{to_lower, trim_space}

pub data FixState : Type 0 where
  unknown fixed not_fixed wont_fix : FixState
  other : String → FixState

unfoldable pub fix_state_valid : FixState → Bool
fix_state_valid (FixState.other t) = false
fix_state_valid _ = true

abbrev fix_state_of_word : String → FixState
fix_state_of_word w =
    if w == "fixed"
    then fixed
    else if w == "not-fixed" || w == "not_fixed"
    then not_fixed
    else if w == "wont-fix" || w == "wont_fix" || w == "will-not-fix"
    then wont_fix
    else unknown

unfoldable pub map_fix_state : String → FixState
unfolding to_lower trim_space
map_fix_state raw = fix_state_of_word (to_lower (trim_space raw))

pub record Fix : Type 0 where
  pub state : FixState
  pub fixed_versions : List String
  pub references : List String

abbrev pub is_fixed : FixState → Bool
is_fixed fixed = true
is_fixed _ = false

-- `f.State == FixStateWontFix || f.State == FixStateNotFixed`
abbrev pub rules_out_fix : FixState → Bool
rules_out_fix wont_fix = true
rules_out_fix not_fixed = true
rules_out_fix _ = false

unfoldable pub fix_available : Fix → Bool
fix_available f = is_fixed f.state && ltb 0 (length f.fixed_versions)

abbrev pub blank : String → Bool
blank t = trim_space t == ""

pub data FixError : Type 0 where
  unknown_fix_state blank_version versions_on_unfixable blank_reference : FixError

-- `Validate`: `none` is Go's nil error.
unfoldable pub fix_validate : Fix → Option FixError
unfolding fix_state_valid
fix_validate f =
    if fix_state_valid f.state
    then if any blank f.fixed_versions
      then some blank_version
      else if ltb 0 (length f.fixed_versions) && rules_out_fix f.state
      then some versions_on_unfixable
      else if any blank f.references
      then some blank_reference
      else none
    else some unknown_fix_state

-- A fix that passes validation has versions only where the state leaves room for a fix: it is
-- `fixed`, or no scanner said.
pub fix_validate_sound :
    (f : Fix)
    → fix_validate f ≡ none
    → f.fixed_versions ≢ []
    → ((f.state ≡ fixed) ⊎ (f.state ≡ unknown)) × (any blank f.fixed_versions ≡ false)
unfolding fix_validate
fix_validate_sound f h v = ground arith
