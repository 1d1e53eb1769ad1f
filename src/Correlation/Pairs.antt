-- ===== src/Correlation/Pairs.antt =====
-- internal/correlation/link.go: the links of one pair of findings.
use secure_dev.Prelude.{ℕ, ◌≤◌, List, count_if}
use secure_dev.Correlation.{Link}
use secure_dev.Correlation.Buckets.{Buckets}
use secure_dev.Correlation.Links.{same_pair}

-- The links of the pair of `p`.
abbrev pub of_pair : Link → List Link → ℕ
of_pair p = count_if (λ x. same_pair x p)

abbrev pub OnePerPair : List Link → Type 0
OnePerPair links = (p : Link) → of_pair p links ≤ 1
