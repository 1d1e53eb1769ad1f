-- ===== src/Remediation/Group/Partition.antt =====
-- internal/remediation/group.go: which findings an action has.
use mathlib.Core.List.{append-nil, append_assoc}
use secure_dev.Prelude.{
  String, Bool, true, false, ◌≡◌, refl, sym, ap, subst, ◌∙◌, List, [], ◌∷◌, ◌++◌, map, any, keep,
  count_if, All, arith, ◌==◌, eq_iff, eq_refl, if◌then◌else◌, Bool-cases, inl, inr, any-snoc,
  count_if-snoc, count_if-eq_zero, keep-append, map-append, All-map, All-imp, any-of_count,
  keep-eq_nil, All-any-false, All-append, count_if-map, count_if_ext, All-both, eqb_comm,
}
use secure_dev.Risk.{Subject}
use secure_dev.Remediation.{Action}
use secure_dev.Remediation.Group.{action_key, member_of, started, extended, absorb, collect}

module _ {F : Type 0} where
  -- The finding's work is that of this key.
  abbrev pub keyed : String → Subject F → Bool
  keyed k s = k == action_key s.finding

  abbrev pub versions_of : List (Subject F) → List String
  versions_of [] = []
  versions_of (s ∷ rest) = s.finding.fix.fixed_versions ++ versions_of rest

  versions_of-append :
      (xs ys : List (Subject F)) → versions_of (xs ++ ys) ≡ versions_of xs ++ versions_of ys
  versions_of-append [] ys = refl
  versions_of-append (x ∷ xs) ys =
      rw (versions_of-append xs ys) (sym (append_assoc x.finding.fix.fixed_versions _ _))

  keep_hit :
      (k : String) (seen : List (Subject F)) (s : Subject F)
      → keyed k s ≡ true
      → keep (keyed k) (seen ++ s ∷ []) ≡ keep (keyed k) seen ++ s ∷ []
  keep_hit k seen s e = keep-append (keyed k) seen (s ∷ []) ∙ rw e refl

  keep_miss :
      (k : String) (seen : List (Subject F)) (s : Subject F)
      → keyed k s ≡ false
      → keep (keyed k) (seen ++ s ∷ []) ≡ keep (keyed k) seen
  keep_miss k seen s e = keep-append (keyed k) seen (s ∷ []) ∙ rw e (append-nil _)

module _ {F : Type 0} (nought : F) (risk_of : String → F) where
  -- The action has the findings of its key, in their order, and the versions that they bring.
  abbrev pub HasMembers : List (Subject F) → Action F → Type 0
  HasMembers subjects a =
      (a.members ≡ map (member_of nought risk_of) (keep (keyed a.key) subjects))
      × (a.fixed_versions ≡ versions_of (keep (keyed a.key) subjects))

  pub record IsGrouped (subjects : List (Subject F)) (actions : List (Action F)) : Type 0 where
    pub keys :
        (k : String)
        → count_if (λ (a : Action F). a.key == k) actions
          ≡ (if any (keyed k) subjects then 1 else 0)
    pub exact : All (HasMembers subjects) actions

  extended-members :
      (s : Subject F) (seen : List (Subject F)) (a : Action F)
      → HasMembers seen a
      → keyed a.key s ≡ true
      → HasMembers (seen ++ s ∷ []) (extended nought risk_of s a)
  unfolding extended
  extended-members s seen a (m, v) e = rw (keep_hit a.key seen s e) (
    rw m (sym (map-append (member_of nought risk_of) (keep (keyed a.key) seen) (s ∷ []))),
    rw v (
        sym (
          versions_of-append (keep (keyed a.key) seen) (s ∷ [])
          ∙ ap (λ l. versions_of (keep (keyed a.key) seen) ++ l) (append-nil _))),
  )

  extended-HasMembers :
      (s : Subject F) (seen : List (Subject F)) (a : Action F)
      → HasMembers seen a
      → HasMembers
          (seen ++ s ∷ [])
          (if a.key == action_key s.finding then extended nought risk_of s a else a)
  extended-HasMembers s seen a h = elim (Bool-cases (a.key == action_key s.finding)) [
    | inl e ↦ rw e (extended-members s seen a h e)
    | inr e ↦ rw (e, keep_miss a.key seen s e) h
  ]

  extended-key :
      (s : Subject F) (k : String) (a : Action F)
      → ((if a.key == action_key s.finding then extended nought risk_of s a else a).key == k)
        ≡ (a.key == k)
  unfolding extended
  extended-key s k a = ground arith

  module _ (s : Subject F) (seen : List (Subject F)) (actions : List (Action F))
      (g : IsGrouped seen actions) where
    -- An action of the finding's key stands there exactly if a finding of the key came before.
    seen-known :
        any (λ (a : Action F). a.key == action_key s.finding) actions
        ≡ any (keyed (action_key s.finding)) seen
    seen-known = ground (
      arith,
      g.keys (action_key s.finding),
      any-of_count (λ (a : Action F). a.key == action_key s.finding) actions,
      count_if-eq_zero (λ (a : Action F). a.key == action_key s.finding) actions,
    )

    known_keys :
        (k : String)
        → any (λ (a : Action F). a.key == action_key s.finding) actions ≡ true
        → any (keyed k) seen ≡ any (keyed k) (seen ++ s ∷ [])
    known_keys k e = elim (Bool-cases (keyed k s)) [
      | inl h ↦
          let there : any (keyed k) seen ≡ true =
            subst (λ j. any (keyed j) seen ≡ true) (sym ((eq_iff k (action_key s.finding)).0 h))
              (sym seen-known ∙ e) in
          ground (arith, any-snoc (keyed k) seen s)
      | inr h ↦ ground (arith, any-snoc (keyed k) seen s)
    ]

    absorb_known :
        any (λ (a : Action F). a.key == action_key s.finding) actions ≡ true
        → IsGrouped (seen ++ s ∷ []) (
            map
              (λ (a : Action F).
                if a.key == action_key s.finding then extended nought risk_of s a else a)
              actions)
    absorb_known e = record {
      keys = λ k.
          count_if-map (λ (a : Action F). a.key == k) _ actions
          ∙ count_if_ext _ (λ (a : Action F). a.key == k) actions (extended-key s k)
          ∙ g.keys k
          ∙ ap (λ (b : Bool). if b then 1 else 0) (known_keys k e);
      exact =
          All-map (HasMembers (seen ++ s ∷ [])) _ actions
            (All-imp (extended-HasMembers s seen) actions g.exact);
    }

    fresh_keys :
        (k : String)
        → any (λ (a : Action F). a.key == action_key s.finding) actions ≡ false
        → count_if
            (λ (a : Action F). a.key == k)
            (actions ++ extended nought risk_of s (started nought risk_of s) ∷ [])
          ≡ (if any (keyed k) (seen ++ s ∷ []) then 1 else 0)
    unfolding extended started
    fresh_keys k e = elim (Bool-cases (keyed k s)) [
      | inl h ↦
          let same = (eq_iff k (action_key s.finding)).0 h in
          let none_there : count_if (λ (a : Action F). a.key == k) actions ≡ 0 =
            subst (λ j. count_if (λ (a : Action F). a.key == j) actions ≡ 0) (sym same)
              (count_if-eq_zero _ actions e) in
          rw
            (
              count_if-snoc (λ (a : Action F). a.key == k) actions,
              any-snoc (keyed k) seen s,
              none_there,
              eqb_comm (action_key s.finding) k,
              h,
            )
            (ground arith)
      | inr h ↦
          rw
            (
              count_if-snoc (λ (a : Action F). a.key == k) actions,
              any-snoc (keyed k) seen s,
              eqb_comm (action_key s.finding) k,
              h,
              g.keys k,
            )
            (ground arith)
    ]

    fresh_exact :
        any (λ (a : Action F). a.key == action_key s.finding) actions ≡ false
        → All
            (HasMembers (seen ++ s ∷ []))
            (actions ++ extended nought risk_of s (started nought risk_of s) ∷ [])
    unfolding started
    fresh_exact e =
        let empty = keep-eq_nil (keyed (action_key s.finding)) seen (sym seen-known ∙ e) in
        All-append (HasMembers (seen ++ s ∷ [])) actions _
          (All-imp
            (λ (a : Action F) (h : HasMembers seen a × (keyed a.key s ≡ false)).
              rw (keep_miss a.key seen s h.1) h.0)
            actions
            (All-both (HasMembers seen) (λ a. keyed a.key s ≡ false) actions g.exact
              (All-any-false (λ a. keyed a.key s) actions e)))
          (
            extended-members s seen (started nought risk_of s) (rw empty (refl, refl))
                (eq_refl (action_key s.finding)),
            tt,
          )

    absorb-IsGrouped : IsGrouped (seen ++ s ∷ []) (absorb nought risk_of s actions)
    unfolding absorb
    absorb-IsGrouped =
        elim (Bool-cases (any (λ (a : Action F). a.key == action_key s.finding) actions)) [
          | inl e ↦ rw e (absorb_known e)
          | inr e ↦ rw e (record { keys = λ k. fresh_keys k e; exact = fresh_exact e })
        ]

  collect-IsGrouped_from :
      (seen subjects : List (Subject F)) (actions : List (Action F))
      → IsGrouped seen actions
      → IsGrouped (seen ++ subjects) (collect nought risk_of actions subjects)
  unfolding collect
  collect-IsGrouped_from seen [] actions g = rw (append-nil seen) g
  collect-IsGrouped_from seen (s ∷ rest) actions g = rw (append_assoc seen (s ∷ []) rest) at (
      collect-IsGrouped_from (seen ++ s ∷ []) rest (absorb nought risk_of s actions)
        (absorb-IsGrouped s seen actions g))

  pub collect-IsGrouped :
      (subjects : List (Subject F)) → IsGrouped subjects (collect nought risk_of [] subjects)
  collect-IsGrouped subjects =
      collect-IsGrouped_from [] subjects [] (record { keys = λ k. refl; exact = tt })
