-- ===== src/Risk/Weights/Digest/Order.antt =====
-- internal/risk/weights.go: the order of a map's keys does not show in the fingerprint.
use mathlib.Core.List.{Permᴰ}
use secure_dev.Prelude.{String, ◌≡◌, refl, List, [], ◌∷◌, map}
use secure_dev.Prelude.Sort.{
  sort_by, text_lt, sort_by_of_perm, text_lt_asymm, text_lt_connex, text_lt_negtrans,
}
use secure_dev.Risk.Weights.{Table, weight_of, Weights}
use secure_dev.Risk.Weights.Digest.{
  entry_of, entries_text, section_text, table_text, scalar_of, digest,
}

-- One map, whose keys come in another order.
pub record IsSameTable {F : Type 0} (t u : Table F) : Type 0 where
  pub keys_perm : Permᴰ (map (λ e. e.0) t) (map (λ e. e.0) u)
  pub lookups : (k : String) → weight_of t k ≡ weight_of u k

pub record IsSameWeights {F : Type 0} (w v : Weights F) : Type 0 where
  pub severities : IsSameTable w.severity v.severity
  pub environs : IsSameTable w.environment v.environment
  pub crits : IsSameTable w.criticality v.criticality
  pub confidences : IsSameTable w.confidence v.confidence
  pub facings : w.internet_facing ≡ v.internet_facing
  pub floors : w.exploitability_floor ≡ v.exploitability_floor
  pub tails : w.tail_weight ≡ v.tail_weight
  pub saturations : w.saturation ≡ v.saturation

module _ {F : Type 0} (exact : F → String) (hash : String → String) (nought : F) where
  entries_text_ext :
      (g h : String → F) (keys : List String)
      → ((k : String) → g k ≡ h k)
      → entries_text exact hash nought g keys ≡ entries_text exact hash nought h keys
  unfolding entries_text
  entries_text_ext g h [] same = refl
  entries_text_ext g h (k ∷ keys) same = rw (same k, entries_text_ext g h keys same) refl

  section_text_ext :
      (name : String) {ks ls : List String} (g h : String → F)
      → Permᴰ ks ls
      → ((k : String) → g k ≡ h k)
      → section_text exact hash nought name ks g ≡ section_text exact hash nought name ls h
  unfolding section_text
  section_text_ext name {ks = ks} {ls = ls} g h perm same =
      rw
        (
          sort_by_of_perm text_lt text_lt_asymm text_lt_negtrans text_lt_connex perm,
          entries_text_ext g h (sort_by text_lt ls) same,
        )
        refl

  table_text_ext :
      (name : String) (t u : Table F)
      → IsSameTable t u
      → table_text exact hash nought name t ≡ table_text exact hash nought name u
  unfolding table_text entry_of
  table_text_ext name t u same =
      section_text_ext name _ _ same.keys_perm λ k. rw (entry_of, same.lookups k) refl

  -- The same weights have the same fingerprint, in whatever order their maps yield the keys.
  pub digest-IsSameWeights :
      (w v : Weights F)
      → IsSameWeights w v
      → digest exact hash nought w ≡ digest exact hash nought v
  unfolding digest scalar_of
  digest-IsSameWeights w v same =
      rw
        (
          table_text_ext "severity" w.severity v.severity same.severities,
          table_text_ext "environment" w.environment v.environment same.environs,
          table_text_ext "criticality" w.criticality v.criticality same.crits,
          table_text_ext "confidence" w.confidence v.confidence same.confidences,
          same.facings,
          same.floors,
          same.tails,
          same.saturations,
        )
        refl
