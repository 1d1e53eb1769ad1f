-- ===== src/Policies.antt =====
-- internal/policies/policy.go: the rules of a project's gate, and which policies are usable.
-- `F` is the type of Go's float64. The values of Verdict are made by the package alone, so it has the
-- three constants and no other value.
pub mod Validate
pub mod Evaluate
pub mod Gate
pub mod Counts
pub mod Monotone
use secure_dev.Prelude.{ℕ, String, Bool, true, false, List, [], ◌∷◌, ◌==◌, if◌then◌else◌, not}
use secure_dev.Prelude.Float.{Float}
use secure_dev.Prelude.Sort.{sort_by, text_lt}

pub data Verdict : Type 0 where
  pass warn fail : Verdict

abbrev pub verdict_text : Verdict → String
verdict_text pass = "pass"
verdict_text warn = "warn"
verdict_text fail = "fail"

unfoldable pub verdict_rank : Verdict → ℕ
verdict_rank fail = 2
verdict_rank warn = 1
verdict_rank pass = 0

pub data Level : Type 0 where
  level_warn level_fail : Level
  other : String → Level

abbrev pub level_text : Level → String
level_text level_warn = "warn"
level_text level_fail = "fail"
level_text (Level.other t) = t

unfoldable pub level_valid : Level → Bool
level_valid level_warn = true
level_valid level_fail = true
level_valid (Level.other t) = false

unfoldable pub level_verdict : Level → Verdict
level_verdict level_fail = fail
level_verdict _ = warn

pub data Kind : Type 0 where
  severity_count category_count risk_score : Kind
  other : String → Kind

abbrev pub kind_text : Kind → String
kind_text severity_count = "severity_count"
kind_text category_count = "category_count"
kind_text risk_score = "risk_score"
kind_text (Kind.other t) = t

pub record Rule (F : Type 0) : Type 0 where
  pub kind : Kind
  pub selector : String
  pub max : F
  pub level : Level

pub record Policy (F : Type 0) : Type 0 where
  pub rules : List (Rule F)
  pub incomplete_scan : Level

unfoldable pub default_policy : (float : Float) → Policy float.Carrier
default_policy float =
    let n = float.of_nat in
    record {
      rules =
          record { kind = severity_count; selector = "critical"; max = n 0; level = level_fail }
          ∷ record { kind = severity_count; selector = "high"; max = n 5; level = level_fail }
          ∷ record { kind = category_count; selector = "secrets"; max = n 0; level = level_fail }
          ∷ record { kind = risk_score; selector = ""; max = n 70; level = level_fail }
          ∷ [];
      incomplete_scan = level_warn;
    }

-- The comparison of `sortedRules`.
unfoldable pub rule_less : {F : Type 0} → Rule F → Rule F → Bool
rule_less a b =
    if not (kind_text a.kind == kind_text b.kind)
    then text_lt (kind_text a.kind) (kind_text b.kind)
    else text_lt a.selector b.selector

unfoldable pub sorted_rules : {F : Type 0} → List (Rule F) → List (Rule F)
unfolding sort_by rule_less
sorted_rules rules = sort_by rule_less rules
