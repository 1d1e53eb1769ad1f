-- ===== src/Scans/Create/Selected.antt =====
-- internal/scans/create.go: the scanners that a request asks for.
use secure_dev.Prelude.{
  ◌+◌, ◌≤◌, suc, String, Bool, true, false, not, ◌||◌, ◌≡◌, refl, subst, ◌∙◌, List, [], ◌∷◌, ◌++◌,
  any, any-snoc, All, length, length-append, count_if, count_if-snoc, count_if-eq_zero, ltb, arith,
  eq_iff, ◌==◌, if◌then◌else◌, Bool-cases, inl, inr,
}
use secure_dev.Prelude.Text.{to_lower, trim_space}
use secure_dev.Prelude.Sort.{
  sort_by, text_lt, text_lt_asymm, text_lt_negtrans, IsSorted, sort_by-IsSorted, any-sort_by,
  All-sort_by, length-sort_by, count_if-sort_by,
}
use secure_dev.Scans.Create.{
  scanner_name_pattern, CreateError, Selection, chosen, invalid, collect_names, sorted_selection,
  normalize_scanner_names,
}

abbrev pub scanner_of : String → String
scanner_of raw = to_lower (trim_space raw)

-- What the names so far and those to come make of a selection.
record IsCollected (out raw result : List String) : Type 0 where
  shaped :
      All (λ n. scanner_name_pattern n ≡ true) out → All (λ n. scanner_name_pattern n ≡ true) result
  asked :
      (n : String)
      → any (λ m. m == n) result ≡ (any (λ m. m == n) out || any (λ r. scanner_of r == n) raw)
  once :
      ((n : String) → count_if (λ m. m == n) out ≤ 1)
      → (n : String) → count_if (λ m. m == n) result ≤ 1
  short : length result ≤ length out + length raw

All-snoc {ℓ κ} :
    {A : Type ℓ} (P : A → Type κ) (l : List A) (x : A) → All P l → P x → All P (l ++ x ∷ [])
All-snoc P [] x all p = (p, tt)
All-snoc P (y ∷ l) x (now, later) p = (now, All-snoc P l x later p)

guarded :
    (b c : Bool) (e f : CreateError) (s : Selection) (result : List String)
    → (if b then invalid e else if c then invalid f else s) ≡ chosen result
    → (b ≡ false) × (c ≡ false) × (s ≡ chosen result)
guarded true c e f s result h = cc
guarded false true e f s result h = cc
guarded false false e f s result h = (refl, refl, h)

-- The names so far, after one more name.
abbrev with_name : List String → String → List String
with_name out name = if any (λ m. m == name) out then out else out ++ name ∷ []

with_name-any :
    (out : List String) (name n : String)
    → any (λ m. m == n) (with_name out name) ≡ (any (λ m. m == n) out || name == n)
with_name-any out name n = ground (arith, any-snoc (λ m. m == n) out name, eq_iff name n)

with_name-once :
    (out : List String) (name : String)
    → ((n : String) → count_if (λ m. m == n) out ≤ 1)
    → (n : String) → count_if (λ m. m == n) (with_name out name) ≤ 1
with_name-once out name once n = elim (Bool-cases (any (λ m. m == name) out)) [
  | inl e ↦ rw e (once n)
  | inr e ↦
      rw (e, count_if-snoc (λ m. m == n) out name)
        (elim (Bool-cases (name == n)) [
          | inl same ↦
              let none_yet = count_if-eq_zero (λ m. m == name) out e in
              rw (same, ← (eq_iff name n).0 same) (omega (arith, none_yet))
          | inr apart ↦ rw apart (once n)
        ])
]

with_name-shaped :
    (out : List String) (name : String)
    → scanner_name_pattern name ≡ true
    → All (λ n. scanner_name_pattern n ≡ true) out
    → All (λ n. scanner_name_pattern n ≡ true) (with_name out name)
with_name-shaped out name p all = elim (Bool-cases (any (λ m. m == name) out)) [
  | inl e ↦ rw e all
  | inr e ↦ rw e (All-snoc (λ n. scanner_name_pattern n ≡ true) out name all p)
]

with_name-short :
    (out : List String) (name : String) → length (with_name out name) ≤ suc (length out)
with_name-short out name = ground (arith, length-append out (name ∷ []))

collect_names-IsCollected :
    (out raw result : List String)
    → collect_names out raw ≡ chosen result
    → IsCollected out raw result
unfolding collect_names
collect_names-IsCollected out [] result h =
    let same : out ≡ result = cc in
    subst (IsCollected out []) same (record {
      shaped = λ all. all;
      asked = λ n. ground arith;
      once = λ one. one;
      short = ground arith;
    })
collect_names-IsCollected out (r ∷ raw) result h =
    let name = scanner_of r in
    let (named, shaped, later) =
      guarded (name == "") (not (scanner_name_pattern name)) _ _
        (collect_names (with_name out name) raw) result h in
    let c = collect_names-IsCollected (with_name out name) raw result later in
    record {
      shaped = λ all. c.shaped (with_name-shaped out name (ground (arith, shaped)) all);
      asked = λ n. c.asked n ∙ ground (arith, with_name-any out name n);
      once = λ one. c.once (with_name-once out name one);
      short = ground (arith, c.short, with_name-short out name);
    }

-- A selection that was accepted for the names `raw`.
pub record IsSelection (raw out : List String) : Type 0 where
  pub shaped : All (λ n. scanner_name_pattern n ≡ true) out
  pub sorted : IsSorted text_lt out
  pub asked : (n : String) → any (λ m. m == n) out ≡ any (λ r. scanner_of r == n) raw
  pub once : (n : String) → count_if (λ m. m == n) out ≤ 1
  pub short : length out ≤ 32

sorted-chosen :
    (s : Selection) (out : List String)
    → sorted_selection s ≡ chosen out
    → (l : List String) × (s ≡ chosen l) × (sort_by text_lt l ≡ out)
unfolding sorted_selection
sorted-chosen (chosen l) out h = (l, refl, cc)
sorted-chosen (invalid e) out h = cc

sorted-IsSelection :
    (raw l : List String)
    → length raw ≤ 32
    → IsCollected [] raw l
    → IsSelection raw (sort_by text_lt l)
sorted-IsSelection raw l few c = record {
  shaped = All-sort_by text_lt (λ n. scanner_name_pattern n ≡ true) l (c.shaped tt);
  sorted = sort_by-IsSorted text_lt text_lt_asymm text_lt_negtrans l;
  asked = λ n. any-sort_by text_lt (λ m. m == n) l ∙ c.asked n;
  once = λ n. rw (count_if-sort_by text_lt (λ m. m == n) l) (c.once (λ k. omega arith) n);
  short = rw (length-sort_by text_lt l) (omega (arith, few, c.short));
}

limited :
    (b : Bool) (e : CreateError) (s : Selection) (out : List String)
    → (if b then invalid e else s) ≡ chosen out
    → (b ≡ false) × (s ≡ chosen out)
limited true e s out h = cc
limited false e s out h = (refl, h)

pub normalize_scanner_names-IsSelection :
    (raw out : List String) → normalize_scanner_names raw ≡ chosen out → IsSelection raw out
unfolding normalize_scanner_names
normalize_scanner_names-IsSelection [] out h =
    let same : [] ≡ out = cc in
    subst (IsSelection []) same (record {
      shaped = tt;
      sorted = tt;
      asked = λ n. refl;
      once = λ n. omega arith;
      short = ground arith;
    })
normalize_scanner_names-IsSelection (r ∷ raw) out h =
    let (few, done) = limited (ltb 32 (length (r ∷ raw))) _ _ out h in
    let (l, found, same) = sorted-chosen (collect_names [] (r ∷ raw)) out done in
    subst (IsSelection (r ∷ raw)) same (
      sorted-IsSelection (r ∷ raw) l (ground (arith, few))
        (collect_names-IsCollected [] (r ∷ raw) l found))
