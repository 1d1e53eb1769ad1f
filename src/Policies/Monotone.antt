-- ===== src/Policies/Monotone.antt =====
-- internal/policies/evaluate.go: the verdicts on two scans, compared.
use secure_dev.Prelude.{
  ℕ, ◌≤◌, String, Bool, true, false, not, ◌&&◌, ◌||◌, ◌≡◌, arith, any_mono, refl,
}
use secure_dev.Prelude.Float.{Float}
use secure_dev.Policies.{
  Kind, severity_count, category_count, risk_score, verdict_rank, Rule, Policy,
}
use secure_dev.Policies.Evaluate.{Input, Result, count_of, observe, evaluate, decided}
use secure_dev.Policies.Gate.{breached_in, verdict_from, fails, evaluate-verdict}

module _ (float : Float) where
  open float use {Carrier, less, of_nat}

  -- A larger whole number converts to a value that is over every ceiling that the smaller one is
  -- over: Go's conversion rounds to nearest, and rounding keeps the order.
  abbrev pub ConversionGrows : Type 0
  ConversionGrows =
      (m : Carrier) (a b : ℕ) → a ≤ b → less m (of_nat a) ≡ true → less m (of_nat b) ≡ true

  -- `j` shows at least what `i` shows: no count is lower, the score is over every ceiling that the
  -- other is over, and coverage is no better.
  pub record IsWorse (i j : Input Carrier) : Type 0 where
    pub severities : (k : String) → count_of i.severity_counts k ≤ count_of j.severity_counts k
    pub categories : (k : String) → count_of i.category_counts k ≤ count_of j.category_counts k
    pub score : (m : Carrier) → less m i.risk_score_seen ≡ true → less m j.risk_score_seen ≡ true
    pub coverage : i.scan_complete ≡ false → j.scan_complete ≡ false

  observe_severity :
      (i : Input Carrier) (r : Rule Carrier)
      → r.kind ≡ severity_count
      → observe float r i ≡ of_nat (count_of i.severity_counts r.selector)
  unfolding observe
  observe_severity i r e = rw e

  observe_category :
      (i : Input Carrier) (r : Rule Carrier)
      → r.kind ≡ category_count
      → observe float r i ≡ of_nat (count_of i.category_counts r.selector)
  unfolding observe
  observe_category i r e = rw e

  observe_score :
      (i : Input Carrier) (r : Rule Carrier)
      → r.kind ≡ risk_score
      → observe float r i ≡ i.risk_score_seen
  unfolding observe
  observe_score i r e = rw e

  observe_other :
      (i : Input Carrier) (r : Rule Carrier) (t : String)
      → r.kind ≡ Kind.other t
      → observe float r i ≡ of_nat 0
  unfolding observe
  observe_other i r t e = rw e

  kind_breach :
      (grows : ConversionGrows) (i j : Input Carrier) (r : Rule Carrier) (kind : Kind)
      → r.kind ≡ kind
      → IsWorse i j
      → less r.max (observe float r i) ≡ true
      → less r.max (observe float r j) ≡ true
  kind_breach grows i j r severity_count e w =
      rw (observe_severity i r e, observe_severity j r e)
        (grows r.max _ _ (w.severities r.selector))
  kind_breach grows i j r category_count e w =
      rw (observe_category i r e, observe_category j r e)
        (grows r.max _ _ (w.categories r.selector))
  kind_breach grows i j r risk_score e w =
      rw (observe_score i r e, observe_score j r e) (w.score r.max)
  kind_breach grows i j r (Kind.other t) e w =
      rw (observe_other i r t e, observe_other j r t e) (λ h. h)

  breach_mono :
      (grows : ConversionGrows) (i j : Input Carrier) (r : Rule Carrier)
      → IsWorse i j
      → breached_in float i r ≡ true
      → breached_in float j r ≡ true
  breach_mono grows i j r w = kind_breach grows i j r r.kind refl w

  fails_mono :
      (grows : ConversionGrows) (i j : Input Carrier) (r : Rule Carrier)
      → IsWorse i j
      → fails float i r ≡ true
      → fails float j r ≡ true
  fails_mono grows i j r w h = let grown = breach_mono grows i j r w in ground arith

  rank_mono :
      (a b c d : Bool)
      → (a ≡ true → c ≡ true)
      → (b ≡ true → d ≡ true)
      → verdict_rank (verdict_from a b) ≤ verdict_rank (verdict_from c d)
  unfolding verdict_rank
  rank_mono a b c d f g = ground arith

  or_mono :
      (a b c d : Bool)
      → (a ≡ true → c ≡ true)
      → (b ≡ true → d ≡ true)
      → a || b ≡ true
      → c || d ≡ true
  or_mono a b c d f g h = ground arith

  open_mono : (a c x : Bool) → (a ≡ false → c ≡ false) → not a && x ≡ true → not c && x ≡ true
  open_mono a c x f h = ground arith

  not_mono : (a c : Bool) → (a ≡ false → c ≡ false) → not a ≡ true → not c ≡ true
  not_mono a c f h = ground arith

  -- A scan that shows at least as much as another, and whose coverage is no better, never gets a
  -- better verdict from the same policy, when the conversion of whole numbers keeps their order.
  pub evaluate-verdict_mono :
      ConversionGrows
      → (p : Policy Carrier) (i j : Input Carrier) (seen worse : Result Carrier) → IsWorse i j
      → evaluate float p i ≡ decided seen
      → evaluate float p j ≡ decided worse
      → verdict_rank seen.verdict ≤ verdict_rank worse.verdict
  evaluate-verdict_mono grows p i j seen worse w h k =
      rw (evaluate-verdict float p i seen h, evaluate-verdict float p j worse k)
        (rank_mono _ _ _ _
          (or_mono _ _ _ _ (any_mono _ _ p.rules (λ r. fails_mono grows i j r w))
            (open_mono _ _ _ w.coverage))
          (or_mono _ _ _ _ (any_mono _ _ p.rules (λ r. breach_mono grows i j r w))
            (not_mono _ _ w.coverage)))
