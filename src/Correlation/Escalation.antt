-- ===== src/Correlation/Escalation.antt =====
-- internal/correlation/issue.go: the severity of an issue.
use secure_dev.Prelude.{
  ◌≤◌, ◌<◌, ltb→lt, String, Bool, true, false, ◌≡◌, refl, ◌⊎◌, inl, inr, List, [], ◌∷◌, any, All,
  length, ltb, arith, sym, subst, eq_refl, ◌==◌, if◌then◌else◌, Bool-cases,
}
use secure_dev.Normalization.Severity.{
  Severity, critical, high, medium, low, info, unknown, severity_rank, severity_text,
}
use secure_dev.Correlation.{Subject}

-- One step up the ladder; a severity that is not on it, or at its top, stays and is not raised.
unfoldable pub escalate : Severity → Severity × Bool
escalate info = (low, true)
escalate low = (medium, true)
escalate medium = (high, true)
escalate high = (critical, true)
escalate s = (s, false)

unfoldable pub raised : Bool → Severity → Severity × Bool
unfolding escalate
raised one_domain worst = if one_domain then (worst, false) else escalate worst

-- The ladder of severities, a step at a time.
infix 40 ◌⟶◌
pub data ◌⟶◌ : Severity → Severity → Type 0 where
  to_low : info ⟶ low
  to_medium : low ⟶ medium
  to_high : medium ⟶ high
  to_critical : high ⟶ critical

-- Information, or a severity above it.
abbrev IsRated : Severity → Type 0
IsRated s = (s ≡ info) ⊎ (0 < severity_rank s)

raised_rules :
    (one_domain : Bool) (worst : Severity)
    → IsRated worst
    → (severity_rank worst ≤ severity_rank (raised one_domain worst).0)
      × ((raised one_domain worst).1 ≡ true
          → (one_domain ≡ false) × (worst ⟶ (raised one_domain worst).0))
      × ((raised one_domain worst).1 ≡ false
          → ((raised one_domain worst).0 ≡ worst)
            × ((one_domain ≡ true) ⊎ ((worst ≡ critical) ⊎ (worst ≡ unknown))))
unfolding raised escalate severity_rank
raised_rules true worst rated = (ground arith, λ h. cc, λ h. (refl, inl refl))
raised_rules false info rated = (ground arith, λ h. (refl, to_low), λ h. cc)
raised_rules false low rated = (ground arith, λ h. (refl, to_medium), λ h. cc)
raised_rules false medium rated = (ground arith, λ h. (refl, to_high), λ h. cc)
raised_rules false high rated = (ground arith, λ h. (refl, to_critical), λ h. cc)
raised_rules false critical rated = (ground arith, λ h. cc, λ h. (refl, inr (inl refl)))
raised_rules false unknown rated = (ground arith, λ h. cc, λ h. (refl, inr (inr refl)))
raised_rules false (Severity.other t) (inl same) = cc
raised_rules false (Severity.other t) (inr rated) = absurd (omega arith)

module _ {F : Type 0} where
  unfoldable pub worst_of : Severity → List (Subject F) → Severity
  unfolding severity_rank
  worst_of worst [] = worst
  worst_of worst (m ∷ rest) =
      let s = m.finding.severity in
      worst_of (if ltb (severity_rank worst) (severity_rank s) then s else worst) rest

  unfoldable pub issue_severity : List (Subject F) → List String → Severity × Bool
  unfolding worst_of raised
  issue_severity members categories = raised (ltb (length categories) 2) (worst_of info members)

  -- No member is worse than `s`.
  abbrev pub Bounds : Severity → List (Subject F) → Type 0
  Bounds s = All (λ m. severity_rank m.finding.severity ≤ severity_rank s)

  worst_of-grows :
      (worst : Severity) (members : List (Subject F))
      → severity_rank worst ≤ severity_rank (worst_of worst members)
  unfolding worst_of
  worst_of-grows worst [] = ground arith
  worst_of-grows worst (m ∷ rest) =
      let next =
        if ltb (severity_rank worst) (severity_rank m.finding.severity)
        then m.finding.severity
        else worst in
      ground (arith, worst_of-grows next rest)

  worst_of-IsRated :
      (worst : Severity) (members : List (Subject F))
      → IsRated worst
      → IsRated (worst_of worst members)
  unfolding worst_of
  worst_of-IsRated worst [] rated = rated
  worst_of-IsRated worst (m ∷ rest) rated =
      elim (Bool-cases (ltb (severity_rank worst) (severity_rank m.finding.severity))) [
        | inl e ↦ rw e (worst_of-IsRated m.finding.severity rest (inr (ground (arith, e))))
        | inr e ↦ rw e (worst_of-IsRated worst rest rated)
      ]

  worst_of-Bounds :
      (worst : Severity) (members : List (Subject F)) → Bounds (worst_of worst members) members
  unfolding worst_of
  worst_of-Bounds worst [] = tt
  worst_of-Bounds worst (m ∷ rest) =
      let next =
        if ltb (severity_rank worst) (severity_rank m.finding.severity)
        then m.finding.severity
        else worst in
      (ground (arith, worst_of-grows next rest), worst_of-Bounds next rest)

  -- Some member has severity `s`.
  abbrev pub reported : Severity → List (Subject F) → Bool
  reported s = any (λ m. severity_text m.finding.severity == severity_text s)

  reported-now :
      (w : Severity) (m : Subject F) (rest : List (Subject F))
      → m.finding.severity ≡ w
      → reported w (m ∷ rest) ≡ true
  reported-now w m rest e = rw (e, eq_refl (severity_text w)) refl

  reported-later :
      (w : Severity) (m : Subject F) (rest : List (Subject F))
      → reported w rest ≡ true
      → reported w (m ∷ rest) ≡ true
  reported-later w m rest h = ground (arith, h)

  worst_of-worse :
      (worst : Severity) (m : Subject F) (rest : List (Subject F))
      → ltb (severity_rank worst) (severity_rank m.finding.severity) ≡ true
      → worst_of worst (m ∷ rest) ≡ worst_of m.finding.severity rest
  unfolding worst_of
  worst_of-worse worst m rest h = rw h refl

  worst_of-kept :
      (worst : Severity) (m : Subject F) (rest : List (Subject F))
      → ltb (severity_rank worst) (severity_rank m.finding.severity) ≡ false
      → worst_of worst (m ∷ rest) ≡ worst_of worst rest
  unfolding worst_of
  worst_of-kept worst m rest h = rw h refl

  worst_of-reported :
      (worst : Severity) (members : List (Subject F))
      → (worst_of worst members ≡ worst) ⊎ (reported (worst_of worst members) members ≡ true)
  unfolding worst_of
  worst_of-reported worst [] = inl refl
  worst_of-reported worst (m ∷ rest) =
      let s = m.finding.severity in
      elim (Bool-cases (ltb (severity_rank worst) (severity_rank s))) [
        | inl e ↦ inr (
            subst (λ w. reported w (m ∷ rest) ≡ true) (sym (worst_of-worse worst m rest e))
              (elim (worst_of-reported s rest) [
                | inl same ↦ reported-now (worst_of s rest) m rest (sym same)
                | inr later ↦ reported-later (worst_of s rest) m rest later
              ]))
        | inr e ↦
            subst (λ w. (w ≡ worst) ⊎ (reported w (m ∷ rest) ≡ true))
              (sym (worst_of-kept worst m rest e))
              (elim (worst_of-reported worst rest) [
                | inl same ↦ inl same
                | inr later ↦ inr (reported-later (worst_of worst rest) m rest later)
              ])
      ]

  -- The worst member's severity, or information where no member is worse.
  abbrev pub IsWorst : Severity → List (Subject F) → Type 0
  IsWorst w members = Bounds w members × ((w ≡ info) ⊎ (reported w members ≡ true))

  Bounds-mono :
      (a b : Severity) (members : List (Subject F))
      → severity_rank a ≤ severity_rank b
      → Bounds a members
      → Bounds b members
  Bounds-mono a b [] h all = tt
  Bounds-mono a b (m ∷ rest) h (now, later) = (omega arith, Bounds-mono a b rest h later)

  -- An issue is at least as severe as each of its members. If it was raised, its members span two
  -- categories or more, and it stands one step of the ladder above the worst of them: low above
  -- information, medium above low, high above medium, critical above high. If it was not raised, it
  -- has the severity of its worst member, or is informational, and then its members span at most one
  -- category, or that severity is critical or unknown.
  pub issue_severity_rules :
      (members : List (Subject F)) (categories : List String)
      → Bounds (issue_severity members categories).0 members
        × ((issue_severity members categories).1 ≡ false
            → IsWorst (issue_severity members categories).0 members
              × ((length categories < 2)
                  ⊎ (((issue_severity members categories).0 ≡ critical)
                      ⊎ ((issue_severity members categories).0 ≡ unknown))))
        × ((issue_severity members categories).1 ≡ true
            → (2 ≤ length categories)
              × ((w : Severity) × IsWorst w members × (w ⟶ (issue_severity members categories).0)))
  unfolding issue_severity
  issue_severity_rules members categories =
      let (grows, steps, stays) =
        raised_rules (ltb (length categories) 2) (worst_of info members)
          (worst_of-IsRated info members (inl refl)) in
      let worst : IsWorst (worst_of info members) members =
        (worst_of-Bounds info members, worst_of-reported info members) in
      (
        Bounds-mono _ _ members grows (worst_of-Bounds info members),
        λ e. (
          subst (λ w. IsWorst w members) (sym (stays e).0) worst,
          elim (stays e).1 [
            | inl few ↦ inl (ltb→lt (length categories) 2 few)
            | inr top ↦ inr (rw (stays e).0 top)
          ],
        ),
        λ e. (ground (arith, (steps e).0), (worst_of info members, worst, (steps e).1)),
      )
