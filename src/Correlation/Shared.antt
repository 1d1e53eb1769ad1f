-- ===== src/Correlation/Shared.antt =====
-- internal/correlation/correlation.go: what every issue states of its findings.
use secure_dev.Prelude.{
  ℕ, ◌≤◌, suc, zero, Bool, true, false, ◌&&◌, ◌≡◌, refl, sym, ap, subst, ◌∙◌, Option, none, some,
  List, [], ◌∷◌, map, All, length, length-map, take, ltb, arith, ◌==◌, if◌then◌else◌, Option-cases,
  inl, inr,
}
use secure_dev.Correlation.{Key, key_kind_text, Inventory, Issue, Subject, Options}
use secure_dev.Correlation.Escalation.{issue_severity}
use secure_dev.Correlation.Deployment.{deployment_of}
use secure_dev.Correlation.Reports.{form_issue, issue_of, member_of, distinct_categories}
use secure_dev.Correlation.Engine.{bucket_limit, correlate_with}
use secure_dev.Correlation.Reference.{sharing, issue_at, issues_at, visited, correlate_with-issues}

guard_some {ℓ} :
    {A : Type ℓ} (b : Bool) (x i : A)
    → (if b then none else some x) ≡ some i
    → (b ≡ false) × (x ≡ i)
guard_some true x i h = cc
guard_some false x i h = (refl, cc)

otherwise_some {ℓ} :
    {A : Type ℓ} (b : Bool) (o : Option A) (i : A)
    → (if b then none else o) ≡ some i
    → (b ≡ false) × (o ≡ some i)
otherwise_some true o i h = cc
otherwise_some false o i h = (refl, h)

length-take {ℓ} : {A : Type ℓ} (n : ℕ) (l : List A) → length (take n l) ≤ n
length-take zero l = ground arith
length-take (suc n) [] = ground arith
length-take (suc n) (x ∷ l) = ground (arith, length-take n l)

module _ {F : Type 0} where
  -- The issue is about the findings `members`, which share its key: it lists them, its severity and
  -- its deployment are theirs, and if it is about a file they span two categories or more.
  pub record IsAbout (members : List (Subject F)) (artifact : Inventory) (i : Issue) : Type 0 where
    pub listed : i.members ≡ map (member_of i.key) members
    pub spanned : i.categories ≡ distinct_categories members
    pub severity : i.severity ≡ (issue_severity members i.categories).0
    pub escalated : i.escalated ≡ (issue_severity members i.categories).1
    pub deployment : i.deployment ≡ deployment_of i.key artifact
    pub cross_domain : (key_kind_text i.key.kind == "file") ≡ true → 2 ≤ length i.categories

  issue_of-key :
      (k : Key) (members : List (Subject F)) (a : Inventory) → (issue_of k members a).key ≡ k
  unfolding issue_of
  issue_of-key k members a = refl

  issue_of-IsAbout :
      (k : Key) (members : List (Subject F)) (a : Inventory)
      → key_kind_text k.kind == "file" && ltb (length (distinct_categories members)) 2 ≡ false
      → IsAbout members a (issue_of k members a)
  unfolding issue_of
  issue_of-IsAbout k members a h = record {
    listed = refl;
    spanned = refl;
    severity = refl;
    escalated = refl;
    deployment = refl;
    cross_domain = λ e. ground (arith, h, e);
  }

  form_issue-IsAbout :
      (k : Key) (members : List (Subject F)) (a : Inventory) (i : Issue)
      → form_issue k members a ≡ some i
      → (i.key ≡ k) × IsAbout members a i
  unfolding form_issue
  form_issue-IsAbout k members a i h =
      let (wide, same) =
        guard_some (key_kind_text k.kind == "file" && ltb (length (distinct_categories members)) 2)
          (issue_of k members a) i h in
      (
        ap (λ (x : Issue). x.key) (sym same) ∙ issue_of-key k members a,
        subst (IsAbout members a) same (issue_of-IsAbout k members a wide),
      )

  abbrev pub IsShared : Options → List (Subject F) → Issue → Type 0
  IsShared o subjects i =
      IsAbout (sharing o subjects i.key) o.artifact i
      × (2 ≤ length i.members)
      × (length i.members ≤ bucket_limit o)

  issue_at-IsShared :
      (o : Options) (subjects : List (Subject F)) (k : Key) (i : Issue)
      → issue_at o subjects k ≡ some i
      → IsShared o subjects i
  issue_at-IsShared o subjects k i h =
      let (enough, formed) = otherwise_some (ltb (length (sharing o subjects k)) 2) _ i h in
      let (key, about) = form_issue-IsAbout k (sharing o subjects k) o.artifact i formed in
      let count : length i.members ≡ length (sharing o subjects k) =
        rw about.listed (length-map (member_of i.key) (sharing o subjects k)) in
      (
        subst (λ (j : Key). IsAbout (sharing o subjects j) o.artifact i) (sym key) about,
        rw count (ground (arith, enough)),
        rw count (length-take (bucket_limit o) _),
      )

  All-issues_at :
      (o : Options) (subjects : List (Subject F)) (keys : List Key)
      → All (IsShared o subjects) (issues_at o subjects keys)
  All-issues_at o subjects [] = tt
  All-issues_at o subjects (k ∷ keys) = elim (Option-cases (issue_at o subjects k)) [
    | inl e ↦ rw e (All-issues_at o subjects keys)
    | inr (i, e) ↦ rw e (issue_at-IsShared o subjects k i e, All-issues_at o subjects keys)
  ]

  -- Every issue is about exactly the findings that carry its key, two at least and no more than the
  -- limit: it lists them, has the severity and the deployment that they and its key give, and spans
  -- two categories or more if its key is a file.
  pub correlate_with-IsShared :
      (subjects : List (Subject F)) (o : Options)
      → All (IsShared o subjects) (correlate_with subjects o).issues
  correlate_with-IsShared subjects o =
      rw (correlate_with-issues subjects o).0 (All-issues_at o subjects (visited subjects))
