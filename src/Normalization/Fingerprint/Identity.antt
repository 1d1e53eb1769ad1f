-- ===== src/Normalization/Fingerprint/Identity.antt =====
-- internal/normalization/fingerprint.go: when two findings have one identity.
use secure_dev.Prelude.{
  ℕ, suc, String, true, false, ◌≡◌, ◌↔◌, refl, Option, none, some, List, [], ◌∷◌, arith, ap, sym,
  ◌∙◌, Bool-cases, inl, inr,
}
use secure_dev.Prelude.Text.{join, split, split-join, all_clear}
use secure_dev.Normalization.Fingerprint.{
  field_separator, FingerprintInput, fields_of, identity, separator_at, only_category, identify,
  fingerprint,
}

separator_at-clear : (i : ℕ) (l : List String) → separator_at i l ≡ none → all_clear 31 l ≡ true
unfolding separator_at
separator_at-clear i [] h = refl
separator_at-clear i (f ∷ l) h = ground (arith, separator_at-clear (suc i) l)

-- The text that the digest is taken of.
abbrev pub identity_text : FingerprintInput → String
identity_text a = join (fields_of a) field_separator

identify-identity :
    (digest : String → String) (fields : List String) (o : Option ℕ) (h : String)
    → identify digest fields o ≡ identity h
    → (o ≡ none) × (only_category fields ≡ false) × (h ≡ digest (join fields field_separator))
unfolding identify
identify-identity digest fields none h e = elim (Bool-cases (only_category fields)) [
  | inl t ↦ ground (arith, e, t)
  | inr t ↦ ground (arith, e, t)
]
identify-identity digest fields (some i) h e = cc

fingerprint-identity :
    (digest : String → String) (a : FingerprintInput) (h : String)
    → fingerprint digest a ≡ identity h
    → (all_clear 31 (fields_of a) ≡ true) × (h ≡ digest (identity_text a))
unfolding fingerprint
fingerprint-identity digest a h e =
    let (clear, named, same) =
      identify-identity digest (fields_of a) (separator_at 0 (fields_of a)) h e in
    (separator_at-clear 0 (fields_of a) clear, same)

-- Joined lists of texts without the separator are equal only if the lists are.
join_injective :
    (s t : String) (l m : List String)
    → all_clear 31 (s ∷ l) ≡ true
    → all_clear 31 (t ∷ m) ≡ true
    → join (s ∷ l) field_separator ≡ join (t ∷ m) field_separator
    → s ∷ l ≡ t ∷ m
join_injective s t l m p q e =
    sym (split-join 31 _ s l refl p) ∙ ap (split 31) e ∙ split-join 31 _ t m refl q

fields-join :
    (a b : FingerprintInput)
    → all_clear 31 (fields_of a) ≡ true
    → all_clear 31 (fields_of b) ≡ true
    → identity_text a ≡ identity_text b
    → fields_of a ≡ fields_of b
unfolding fields_of
fields-join a b p q e = join_injective _ _ _ _ p q e

-- Two findings that both get an identity get the same one exactly if their five normalized fields
-- are equal, when the digest does not collide on their two identity texts.
pub fingerprint_iff :
    (digest : String → String) (a b : FingerprintInput) (h k : String)
    → (digest (identity_text a) ≡ digest (identity_text b) → identity_text a ≡ identity_text b)
    → fingerprint digest a ≡ identity h
    → fingerprint digest b ≡ identity k
    → (h ≡ k) ↔ (fields_of a ≡ fields_of b)
fingerprint_iff digest a b h k apart p q =
    let (clear, from) = fingerprint-identity digest a h p in
    let (clear', from') = fingerprint-identity digest b k q in
    (
      λ e. fields-join a b clear clear' (apart (sym from ∙ e ∙ from')),
      λ e. from ∙ ap (λ (l : List String). digest (join l field_separator)) e ∙ sym from',
    )
