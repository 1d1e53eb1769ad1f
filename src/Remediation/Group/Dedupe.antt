-- ===== src/Remediation/Group/Dedupe.antt =====
-- internal/remediation/remediation.go: what the deduplication of texts yields.
use secure_dev.Prelude.{
  ℕ, Bool, true, ◌||◌, ◌≡◌, String, List, [], ◌∷◌, any, All, All-imp, All-take, ◌==◌, arith,
  eq_refl, Bool-cases, inl, inr,
}
use secure_dev.Prelude.Text.{trim_space}
use secure_dev.Prelude.Sort.{All-sort_by, text_lt}
use secure_dev.Remediation.Group.{dedupe_loop, dedupe}

-- The text, trimmed, is one of these.
abbrev pub reports : String → List String → Bool
reports v texts = any (λ r. trim_space r == v) texts

dedupe_loop-reported :
    (seen texts : List String) → All (λ v. reports v texts ≡ true) (dedupe_loop seen texts)
unfolding dedupe_loop
dedupe_loop-reported seen [] = tt
dedupe_loop-reported seen (t ∷ rest) =
    elim (Bool-cases (trim_space t == "" || any (λ u. u == trim_space t) seen)) [
      | inl e ↦ rw e (
          All-imp (λ v (h : reports v rest ≡ true). ground (arith, h)) _
            (dedupe_loop-reported seen rest))
      | inr e ↦ rw e (
        ground (arith, eq_refl (trim_space t)),
        All-imp (λ v (h : reports v rest ≡ true). ground (arith, h)) _
            (dedupe_loop-reported (trim_space t ∷ seen) rest),
      )
    ]

pub dedupe-reported :
    (texts : List String) (cap : ℕ) → All (λ v. reports v texts ≡ true) (dedupe texts cap)
unfolding dedupe
dedupe-reported texts cap =
    All-take _ cap _ (All-sort_by text_lt _ _ (dedupe_loop-reported [] texts))
