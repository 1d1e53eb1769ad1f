-- ===== src/Normalization/Dedup/Identity.antt =====
-- internal/normalization/dedup.go: which identities come out, and in which order.
use secure_dev.Prelude.{
  String, Bool, true, false, ◌≡◌, refl, not, ◌&&◌, any-append, List, [], ◌∷◌, ◌++◌, map, any, ◌==◌,
  arith, eq_iff, if◌then◌else◌, Bool-cases, inl, inr, ap, ◌∙◌,
}
use secure_dev.Normalization.Finding.{Finding}
use secure_dev.Normalization.Dedup.{
  MergedFinding, raise, absorb, collect, sort_sources, deduplicate,
}

-- Each text once, where it stands first.
abbrev pub first_only : List String → List String → List String
first_only seen [] = seen
first_only seen (t ∷ rest) =
    first_only (if any (λ s. s == t) seen then seen else seen ++ t ∷ []) rest

abbrev pub distinct : List String → Bool
distinct [] = true
distinct (t ∷ rest) = not (any (λ s. s == t) rest) && distinct rest

distinct-snoc :
    (l : List String) (t : String)
    → distinct l ≡ true
    → any (λ s. s == t) l ≡ false
    → distinct (l ++ t ∷ []) ≡ true
distinct-snoc [] t d h = refl
distinct-snoc (x ∷ l) t d h =
    ground (arith, distinct-snoc l t, any-append (λ s. s == x) l (t ∷ []), eq_iff t x, eq_iff x t)

distinct-first_only :
    (seen l : List String) → distinct seen ≡ true → distinct (first_only seen l) ≡ true
distinct-first_only seen [] d = d
distinct-first_only seen (t ∷ l) d = elim (Bool-cases (any (λ s. s == t) seen)) [
  | inl e ↦ rw e (distinct-first_only seen l d)
  | inr e ↦ rw e (distinct-first_only (seen ++ t ∷ []) l (distinct-snoc seen t d e))
]

module _ {F : Type 0} where
  abbrev pub identity : MergedFinding F → String
  identity m = m.finding.fingerprint

  raise-fingerprint : (k f : Finding F) → (raise k f).fingerprint ≡ k.fingerprint
  unfolding raise
  raise-fingerprint k f = ground arith

  absorb-identity :
      (f : Finding F) (l : List (MergedFinding F))
      → map identity (absorb f l) ≡ (
          if any (λ s. s == f.fingerprint) (map identity l)
          then map identity l
          else map identity l ++ f.fingerprint ∷ [])
  unfolding absorb
  absorb-identity f [] = refl
  absorb-identity f (m ∷ l) = elim (Bool-cases (m.finding.fingerprint == f.fingerprint)) [
    | inl e ↦ rw (e, raise-fingerprint m.finding f) refl
    | inr e ↦ rw e (ground (arith, absorb-identity f l))
  ]

  collect-identity :
      (l : List (MergedFinding F)) (fs : List (Finding F))
      → map identity (collect l fs) ≡ first_only (map identity l) (map (λ f. f.fingerprint) fs)
  unfolding collect
  collect-identity l [] = refl
  collect-identity l (f ∷ fs) =
      collect-identity (absorb f l) fs
      ∙ ap (λ seen. first_only seen (map (λ f. f.fingerprint) fs)) (absorb-identity f l)

  map-sort_sources :
      (l : List (MergedFinding F)) → map identity (map sort_sources l) ≡ map identity l
  unfolding sort_sources
  map-sort_sources [] = refl
  map-sort_sources (m ∷ l) = rw (map-sort_sources l)

  identities :
      (fs : List (Finding F))
      → map identity (deduplicate fs).findings ≡ first_only [] (map (λ f. f.fingerprint) fs)
  unfolding deduplicate
  identities fs = map-sort_sources (collect [] fs) ∙ collect-identity [] fs

  -- The output has the identities of the input in the order of their first report, and none twice.
  pub deduplicate-identity :
      (fs : List (Finding F))
      → (map identity (deduplicate fs).findings ≡ first_only [] (map (λ f. f.fingerprint) fs))
        × (distinct (map identity (deduplicate fs).findings) ≡ true)
  deduplicate-identity fs = (
    identities fs,
    rw (identities fs) (distinct-first_only [] (map (λ f. f.fingerprint) fs) refl),
  )
