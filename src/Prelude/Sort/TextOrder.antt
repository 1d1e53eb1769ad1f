-- ===== src/Prelude/Sort/TextOrder.antt =====
-- The order of texts by their characters, as Go's `<` on strings.
use Prim.Native.Nat.{ℕ, compare as compare_ℕ, Ordering}
use Prim.Native.Char.{code}
use Prim.Native.String.{String, compare, then}
use Prim.Native.String.compare
use mathlib.Core.Path.{◌≡◌, refl, sym, ◌∙◌}
use mathlib.Core.Bool.{Bool, true, false, not}
use native.Mathlib.Omega.{arith}
use text.Mathlib.TextEquality.{path_by_compare}
use text.Mathlib.TextPositions.{compare_refl}

abbrev pub is_lt : Ordering → Bool
is_lt Ordering.lt = true
is_lt Ordering.eq = false
is_lt Ordering.gt = false

abbrev pub text_lt : String → String → Bool
text_lt s t = is_lt (compare s t)

-- `!(t < s)`
abbrev pub text_le : String → String → Bool
text_le s t = not (text_lt t s)

swap : Ordering → Ordering
swap Ordering.lt = Ordering.gt
swap Ordering.eq = Ordering.eq
swap Ordering.gt = Ordering.lt

swap-compare_ℕ : (m n : ℕ) → swap (compare_ℕ m n) ≡ compare_ℕ n m
unfolding swap
swap-compare_ℕ m n = ground arith

swap-then : (a b : Ordering) → swap (then a b) ≡ then (swap a) (swap b)
unfolding swap
swap-then Ordering.lt b = refl
swap-then Ordering.eq b = refl
swap-then Ordering.gt b = refl

swap-compare : (s t : String) → swap (compare s t) ≡ compare t s
unfolding swap
swap-compare String.[] String.[] = cc compare.nil-nil
swap-compare String.[] (String.◌∷◌ d t) = rw (compare.nil-cons d t) (sym (compare.cons-nil d t))
swap-compare (String.◌∷◌ c s) String.[] = rw (compare.cons-nil c s) (sym (compare.nil-cons c s))
swap-compare (String.◌∷◌ c s) (String.◌∷◌ d t) =
    rw (compare.cons-cons c d s t, compare.cons-cons d c t s, swap-then)
      (cc (swap-compare_ℕ (code c) (code d), swap-compare s t))

then_lt :
    (a b c : ℕ) (p q r : Ordering)
    → (p ≡ Ordering.lt → q ≡ Ordering.lt → r ≡ Ordering.lt)
    → then (compare_ℕ a b) p ≡ Ordering.lt
    → then (compare_ℕ b c) q ≡ Ordering.lt
    → then (compare_ℕ a c) r ≡ Ordering.lt
then_lt a b c p q r ih h k = ground arith

compare_cycle :
    (s t : String)
    → compare s t ≡ Ordering.lt
    → compare t s ≡ Ordering.lt
    → compare s s ≡ Ordering.lt
unfolding swap
compare_cycle s t h k = cc (swap-compare s t)

compare_trans :
    (s t u : String)
    → compare s t ≡ Ordering.lt
    → compare t u ≡ Ordering.lt
    → compare s u ≡ Ordering.lt
compare_trans String.[] t String.[] h k = compare_cycle _ t h k
compare_trans String.[] t (String.◌∷◌ e u) h k = compare.nil-cons e u
compare_trans (String.◌∷◌ c s) String.[] u h k = cc (compare.cons-nil c s)
compare_trans (String.◌∷◌ c s) (String.◌∷◌ d t) String.[] h k = cc (compare.cons-nil d t)
compare_trans (String.◌∷◌ c s) (String.◌∷◌ d t) (String.◌∷◌ e u) h k =
    compare.cons-cons c e s u
    ∙ then_lt (code c) (code d) (code e) (compare s t) (compare t u) (compare s u)
        (compare_trans s t u) (rw (compare.cons-cons c d s t) at h)
        (rw (compare.cons-cons d e t u) at k)

pub text_lt_irrefl : (s : String) → text_lt s s ≡ false
text_lt_irrefl s = rw (compare_refl s)

pub text_lt_trans : (s t u : String) → text_lt s t ≡ true → text_lt t u ≡ true → text_lt s u ≡ true
text_lt_trans s t u h k = ground (arith, compare_trans s t u)

pub text_lt_asymm : (s t : String) → text_lt s t ≡ true → text_lt t s ≡ false
unfolding swap
text_lt_asymm s t h = ground (arith, swap-compare s t)

-- Texts that are not ordered are equal.
pub text_lt_connex : (s t : String) → text_lt s t ≡ false → text_lt t s ≡ false → s ≡ t
unfolding swap
text_lt_connex s t h k = ground (arith, swap-compare s t, path_by_compare s t)

pub text_lt_negtrans :
    (s t u : String) → text_lt s t ≡ false → text_lt t u ≡ false → text_lt s u ≡ false
unfolding swap
text_lt_negtrans s t u h k = ground (
  arith,
  swap-compare s t,
  swap-compare t u,
  swap-compare s u,
  path_by_compare s t,
  path_by_compare t u,
  compare_trans u t s,
)
