-- ===== src/Risk/Weights/Digest.antt =====
-- internal/risk/weights.go: the fingerprint of the weights.
-- `exact` is strconv.FormatFloat in format 'g' with precision -1, and `hash` the hexadecimal text of
-- SHA-256; the two are parameters.
pub mod Order
use Prim.Native.String.{◌++◌}
use secure_dev.Prelude.{String, none, some, List, [], ◌∷◌, map, ◌==◌, if◌then◌else◌}
use secure_dev.Prelude.Sort.{sort_by, text_lt}
use secure_dev.Risk.Weights.{Table, weight_of, Weights}

module _ {F : Type 0} (exact : F → String) (hash : String → String) (nought : F) where
  -- A missing key reads as zero, as in Go.
  entry_of : Table F → String → F
  unfolding weight_of
  entry_of table k = elim (weight_of table k) [ some v ↦ v | none ↦ nought ]

  entries_text : (String → F) → List String → String
  entries_text get [] = ""
  entries_text get (k ∷ keys) = k ++ "=" ++ exact (get k) ++ ";" ++ entries_text get keys

  -- `write`: the keys are sorted first.
  unfoldable pub section_text : String → List String → (String → F) → String
  unfolding sort_by entries_text
  section_text name keys get = name ++ "{" ++ entries_text get (sort_by text_lt keys) ++ "}"

  abbrev pub table_keys : Table F → List String
  table_keys table = map (λ e. e.0) table

  unfoldable pub table_text : String → Table F → String
  unfolding section_text entry_of
  table_text name table = section_text name (table_keys table) (entry_of table)

  scalar_of : Weights F → String → F
  scalar_of w k =
      if k == "internet_facing"
      then w.internet_facing
      else if k == "exploitability_floor"
      then w.exploitability_floor
      else if k == "tail_weight"
      then w.tail_weight
      else w.saturation

  unfoldable pub digest : Weights F → String
  unfolding table_text section_text scalar_of
  digest w = hash (
      table_text "severity" w.severity
      ++ table_text "environment" w.environment
      ++ table_text "criticality" w.criticality
      ++ table_text "confidence" w.confidence
      ++ section_text "scalar"
          ("internet_facing" ∷ "exploitability_floor" ∷ "tail_weight" ∷ "saturation" ∷ [])
          (scalar_of w))
