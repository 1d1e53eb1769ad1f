-- ===== src/Normalization/Dedup/Reports.antt =====
-- internal/normalization/dedup.go: what the merged finding of an identity owes to its reports.
use secure_dev.Prelude.{
  String, Bool, true, false, ◌≡◌, refl, ◌||◌, ◌&&◌, Option, none, some, List, [], ◌∷◌, ◌++◌, any,
  ◌==◌, arith, eq_iff, eq_refl, ltb, if◌then◌else◌, Bool-cases, any-snoc, inl, inr, subst, sym, ap,
  ◌∙◌, any-eq_false_of_imp, ℕ, count_if, count_if-snoc, count_if-eq_zero, any-of_count,
}
use secure_dev.Normalization.Severity.{Severity, severity_rank, severity_text}
use secure_dev.Normalization.Finding.{Finding}
use secure_dev.Normalization.Dedup.{MergedFinding, fresh, raise, merge, absorb}

-- How often what is there once is there.
abbrev pub once : Bool → ℕ
once true = 1
once false = 0

-- The sources after a report by a scanner.
extended : List String → String → List String
extended l s = if any (λ n. n == s) l then l else l ++ s ∷ []

extended_same :
    (l : List String) (name : String) (b : Bool)
    → count_if (λ n. n == name) l ≡ once b
    → count_if (λ n. n == name) (extended l name) ≡ 1
unfolding extended
extended_same l name b h = elim (Bool-cases (any (λ n. n == name) l)) [
  | inl e ↦ rw e (counted_once b h e)
  | inr e ↦
      rw
        (
          e,
          count_if-snoc (λ n. n == name) l name,
          count_if-eq_zero (λ n. n == name) l e,
          eq_refl name,
        )
        refl
]
  where
    counted_once :
        (b : Bool)
        → count_if (λ n. n == name) l ≡ once b
        → any (λ n. n == name) l ≡ true
        → count_if (λ n. n == name) l ≡ 1
    counted_once true h e = h
    counted_once false h e = let off = any-of_count (λ n. n == name) l h in cc

extended_other :
    (l : List String) (s name : String)
    → (s == name) ≡ false
    → count_if (λ n. n == name) (extended l s) ≡ count_if (λ n. n == name) l
unfolding extended
extended_other l s name other = elim (Bool-cases (any (λ n. n == s) l)) [
  | inl e ↦ rw e refl
  | inr e ↦ rw (e, count_if-snoc (λ n. n == name) l s, other) refl
]

count_if-extended :
    (l : List String) (s name : String) (b : Bool)
    → count_if (λ n. n == name) l ≡ once b
    → count_if (λ n. n == name) (extended l s) ≡ once (b || s == name)
count_if-extended l s name b h = elim (Bool-cases (s == name)) [
  | inl e ↦ rw e (
      subst (λ x. count_if (λ n. n == name) (extended l x) ≡ once (b || true))
        (sym ((eq_iff s name).0 e)) (extended_same l name b h ∙ sym (once_true b)))
  | inr e ↦ rw e (extended_other l s name e ∙ h ∙ sym (once_false b))
]
  where
    once_true : (b : Bool) → once (b || true) ≡ 1
    once_true b = ground arith

    once_false : (b : Bool) → once (b || false) ≡ once b
    once_false b = ground arith

module _ {F : Type 0} (fp : String) where
  -- The merged finding of the identity `fp`.
  abbrev pub entry : List (MergedFinding F) → Option (MergedFinding F)
  entry [] = none
  entry (m ∷ l) = if m.finding.fingerprint == fp then some m else entry l

  -- The first report of `fp`.
  abbrev pub first_report : List (Finding F) → Option (Finding F)
  first_report [] = none
  first_report (f ∷ fs) = if f.fingerprint == fp then some f else first_report fs

  abbrev pub reports : Finding F → Bool
  reports f = f.fingerprint == fp

  abbrev pub worse_than : Severity → Finding F → Bool
  worse_than s f = reports f && ltb (severity_rank s) (severity_rank f.severity)

  abbrev pub rated : Severity → Finding F → Bool
  rated s f = reports f && severity_text f.severity == severity_text s

  abbrev pub reported_by : String → Finding F → Bool
  reported_by name f = reports f && f.scanner == name

  -- What `m` owes to the reports `fs` of `fp`.
  pub record IsMerged (fs : List (Finding F)) (m : MergedFinding F) : Type 0 where
    pub first : Finding F
    pub reported : first_report fs ≡ some first
    -- All but the severity is the first report's.
    pub prose : m.finding ≡ record first { severity = m.finding.severity }
    -- No report is worse, and some report has the severity.
    pub worst : any (worse_than m.finding.severity) fs ≡ false
    pub attained : any (rated m.finding.severity) fs ≡ true
    -- Each scanner that reported it is a source once, and no other is.
    pub sourced :
        (name : String) → count_if (λ n. n == name) m.sources ≡ once (any (reported_by name) fs)

  -- `none` where no finding reports `fp`.
  abbrev pub IsEntry : List (Finding F) → Option (MergedFinding F) → Type 0
  IsEntry fs none = any reports fs ≡ false
  IsEntry fs (some m) = IsMerged fs m

  pub merge_into : Option (MergedFinding F) → Finding F → MergedFinding F
  merge_into none f = fresh f
  merge_into (some m) f = merge m f

  merge-fingerprint :
      (m : MergedFinding F) (f : Finding F)
      → (merge m f).finding.fingerprint ≡ m.finding.fingerprint
  unfolding merge
  merge-fingerprint m f = ground arith

  pub entry-absorb :
      (f : Finding F) (l : List (MergedFinding F))
      → entry (absorb f l) ≡ (if reports f then some (merge_into (entry l) f) else entry l)
  unfolding absorb merge_into
  entry-absorb f [] = refl
  entry-absorb f (m ∷ l) = ground (
    arith,
    entry-absorb f l,
    merge-fingerprint m f,
    eq_iff m.finding.fingerprint f.fingerprint,
    eq_iff m.finding.fingerprint fp,
    eq_iff f.fingerprint fp,
  )

  first_report-append :
      (fs gs : List (Finding F))
      → first_report (fs ++ gs) ≡ (if any reports fs then first_report fs else first_report gs)
  first_report-append [] gs = refl
  first_report-append (f ∷ fs) gs = ground (arith, first_report-append fs gs)

  any-reports_of_first :
      (fs : List (Finding F)) (g : Finding F) → first_report fs ≡ some g → any reports fs ≡ true
  any-reports_of_first [] g h = cc
  any-reports_of_first (f ∷ fs) g h = ground (arith, any-reports_of_first fs g)

  any_of_none :
      (q : Finding F → Bool) (fs : List (Finding F))
      → any reports fs ≡ false
      → any (λ f. reports f && q f) fs ≡ false
  any_of_none q fs = any-eq_false_of_imp (λ f. reports f && q f) reports fs (λ f h. ground arith)

  -- A finding of another identity changes nothing.
  IsMerged-skip :
      (fs : List (Finding F)) (f : Finding F) (m : MergedFinding F)
      → reports f ≡ false
      → IsMerged fs m
      → IsMerged (fs ++ f ∷ []) m
  IsMerged-skip fs f m e w = record {
    first = w.first;
    reported = ground (
      arith,
      first_report-append fs (f ∷ []),
      any-reports_of_first fs w.first w.reported,
      w.reported,
    );
    prose = w.prose;
    worst = rw (any-snoc (worse_than m.finding.severity) fs f, w.worst, e);
    attained = rw (any-snoc (rated m.finding.severity) fs f, w.attained);
    sourced = λ name. rw (any-snoc (reported_by name) fs f, e) (ground (arith, w.sourced name));
  }

  fresh-IsMerged :
      (fs : List (Finding F)) (f : Finding F)
      → reports f ≡ true
      → any reports fs ≡ false
      → IsMerged (fs ++ f ∷ []) (fresh f)
  unfolding fresh
  fresh-IsMerged fs f e none_before = record {
    first = f;
    reported = ground (arith, first_report-append fs (f ∷ []));
    prose = refl;
    worst = ground (
      arith,
      any-snoc (worse_than f.severity) fs f,
      any_of_none (λ g. ltb (severity_rank f.severity) (severity_rank g.severity)) fs none_before,
    );
    attained = ground (arith, any-snoc (rated f.severity) fs f, eq_refl (severity_text f.severity));
    sourced = λ name. ground (
      arith,
      any-snoc (reported_by name) fs f,
      any_of_none (λ g. g.scanner == name) fs none_before,
    );
  }

  raise-prose :
      (k f g : Finding F)
      → k ≡ record g { severity = k.severity }
      → raise k f ≡ record g { severity = (raise k f).severity }
  unfolding raise
  raise-prose k f g h =
      elim (Bool-cases (ltb (severity_rank k.severity) (severity_rank f.severity))) [
        | inl e ↦ rw e (ap (λ (x : Finding F). record x { severity = f.severity }) h)
        | inr e ↦ rw e h
      ]

  raise-worst :
      (fs : List (Finding F)) (k f : Finding F)
      → any (worse_than k.severity) fs ≡ false
      → any (worse_than (raise k f).severity) (fs ++ f ∷ []) ≡ false
  unfolding raise
  raise-worst fs k f h =
      elim (Bool-cases (ltb (severity_rank k.severity) (severity_rank f.severity))) [
        | inl e ↦
            let others =
              any-eq_false_of_imp (worse_than f.severity) (worse_than k.severity) fs
                (λ x p. ground arith) h in
            rw (e, any-snoc (worse_than f.severity) fs f, others) (ground arith)
        | inr e ↦ rw (e, any-snoc (worse_than k.severity) fs f, h, e) (ground arith)
      ]

  raise-attained :
      (fs : List (Finding F)) (k f : Finding F)
      → reports f ≡ true
      → any (rated k.severity) fs ≡ true
      → any (rated (raise k f).severity) (fs ++ f ∷ []) ≡ true
  unfolding raise
  raise-attained fs k f r h =
      elim (Bool-cases (ltb (severity_rank k.severity) (severity_rank f.severity))) [
        | inl e ↦
            rw (e, any-snoc (rated f.severity) fs f, r, eq_refl (severity_text f.severity))
              (ground arith)
        | inr e ↦ rw (e, any-snoc (rated k.severity) fs f, h) (ground arith)
      ]

  merge-sourced :
      (fs : List (Finding F)) (f : Finding F) (m : MergedFinding F) (name : String)
      → reports f ≡ true
      → count_if (λ n. n == name) m.sources ≡ once (any (reported_by name) fs)
      → count_if (λ n. n == name) (merge m f).sources ≡ once (any (reported_by name) (fs ++ f ∷ []))
  unfolding merge extended
  merge-sourced fs f m name r h =
      rw (any-snoc (reported_by name) fs f, r)
        (count_if-extended m.sources f.scanner name (any (reported_by name) fs) h)

  merge-IsMerged :
      (fs : List (Finding F)) (f : Finding F) (m : MergedFinding F)
      → reports f ≡ true
      → IsMerged fs m
      → IsMerged (fs ++ f ∷ []) (merge m f)
  unfolding merge
  merge-IsMerged fs f m e w = record {
    first = w.first;
    reported = ground (
      arith,
      first_report-append fs (f ∷ []),
      any-reports_of_first fs w.first w.reported,
      w.reported,
    );
    prose = raise-prose m.finding f w.first w.prose;
    worst = raise-worst fs m.finding f w.worst;
    attained = raise-attained fs m.finding f e w.attained;
    sourced = λ name. merge-sourced fs f m name e (w.sourced name);
  }

  pub absorb-IsEntry :
      (fs : List (Finding F)) (f : Finding F) (o : Option (MergedFinding F))
      → IsEntry fs o
      → IsEntry (fs ++ f ∷ []) (if reports f then some (merge_into o f) else o)
  unfolding merge_into
  absorb-IsEntry fs f none w = elim (Bool-cases (reports f)) [
    | inl e ↦ rw e (fresh-IsMerged fs f e w)
    | inr e ↦ rw (e, any-snoc reports fs f, w, e)
  ]
  absorb-IsEntry fs f (some m) w = elim (Bool-cases (reports f)) [
    | inl e ↦ rw e (merge-IsMerged fs f m e w)
    | inr e ↦ rw e (IsMerged-skip fs f m e w)
  ]
