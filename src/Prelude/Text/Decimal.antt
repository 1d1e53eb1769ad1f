-- ===== src/Prelude/Text/Decimal.antt =====
-- Go's strconv.Itoa, and strconv.ParseInt in base 10 and 64 bits.
use Prim.Native.Nat.{ℕ, zero, suc, ◌+◌, ◌-◌, ◌*◌, ◌/◌, ◌%◌, ◌≤◌, ◌<◌}
use Prim.Native.Char.{Char, code}
use Prim.Native.String.{String, ◌++◌}
use mathlib.Core.Path.{◌≡◌, refl, ap, ◌∙◌}
use mathlib.Core.Bool.{Bool, true, false, ◌&&◌}
use mathlib.Core.Option.{Option, none, some}
use native.Mathlib.Omega.{arith}
use text.Mathlib.TextLemmas.{nil-append, cons-append}
use secure_dev.Prelude.Int.{ℤ, pos, negsuc}
use secure_dev.Prelude.Tests.{ltb, leb, nat_eqb, if◌then◌else◌, Bool-cases, Bool-ext}
use mathlib.Core.Logic.{inl, inr}
use secure_dev.Prelude.Text.{digit_text, decimal, itoa}

abbrev pub is_digit : Char → Bool
is_digit c = leb 48 (code c) && leb (code c) 57

-- The number so far, and the digits still to be read.
unfoldable pub scan : ℕ → String → Option ℕ
scan n String.[] = some n
scan n (String.◌∷◌ c s) =
    let rest = scan (n * 10 + (code c - 48)) s in if is_digit c then rest else none

abbrev pub max_int64 : ℕ
max_int64 = 9223372036854775807

-- The sign's meaning, and the range.
abbrev positive : Option ℕ → Option ℤ
positive none = none
positive (some n) = if leb n max_int64 then some (pos n) else none

abbrev negated : Option ℕ → Option ℤ
negated none = none
negated (some zero) = some (pos 0)
negated (some (suc n)) = if leb n max_int64 then some (negsuc n) else none

digits : String → Option ℕ
unfolding scan
digits String.[] = none
digits (String.◌∷◌ c s) = scan 0 (String.◌∷◌ c s)

-- Without a result where Go's has an error.
unfoldable pub parse_int : String → Option ℤ
unfolding digits
parse_int String.[] = none
parse_int (String.◌∷◌ c s) =
    if nat_eqb (code c) 43
    then positive (digits s)
    else if nat_eqb (code c) 45
    then negated (digits s)
    else positive (digits (String.◌∷◌ c s))

abbrev starts_digit : String → Bool
starts_digit String.[] = false
starts_digit (String.◌∷◌ c s) = is_digit c

one_digit :
    (a : ℕ) (c : Char) (tail : String)
    → is_digit c ≡ true
    → (scan a (String.◌∷◌ c "" ++ tail) ≡ scan (a * 10 + (code c - 48)) tail)
      × (starts_digit (String.◌∷◌ c "" ++ tail) ≡ true)
unfolding scan
one_digit a c tail h = rw (cons-append c "" tail, nil-append tail, h) (refl, refl)

read_digit :
    (a n : ℕ) (tail : String)
    → n < 10
    → (scan a (digit_text n ++ tail) ≡ scan (a * 10 + n) tail)
      × (starts_digit (digit_text n ++ tail) ≡ true)
unfolding digit_text
read_digit a zero tail h = one_digit a "0" tail refl
read_digit a (suc zero) tail h = one_digit a "1" tail refl
read_digit a (suc (suc zero)) tail h = one_digit a "2" tail refl
read_digit a (suc (suc (suc zero))) tail h = one_digit a "3" tail refl
read_digit a (suc (suc (suc (suc zero)))) tail h = one_digit a "4" tail refl
read_digit a (suc (suc (suc (suc (suc zero))))) tail h = one_digit a "5" tail refl
read_digit a (suc (suc (suc (suc (suc (suc zero)))))) tail h = one_digit a "6" tail refl
read_digit a (suc (suc (suc (suc (suc (suc (suc zero))))))) tail h = one_digit a "7" tail refl
read_digit a (suc (suc (suc (suc (suc (suc (suc (suc zero)))))))) tail h = one_digit a "8" tail refl
read_digit a (suc (suc (suc (suc (suc (suc (suc (suc (suc zero))))))))) tail h =
    one_digit a "9" tail refl
read_digit a (suc (suc (suc (suc (suc (suc (suc (suc (suc (suc n)))))))))) tail h =
    absurd (omega arith)

scan-decimal : (fuel n : ℕ) (tail : String) → n < fuel → scan 0 (decimal fuel n tail) ≡ scan n tail
unfolding decimal
scan-decimal zero n tail h = absurd (omega arith)
scan-decimal (suc fuel) n tail h = elim (Bool-cases (ltb n 10)) [
  | inl e ↦
      rw e ((read_digit 0 (n % 10) tail (omega arith)).0 ∙ ap (λ m. scan m tail) (ground arith))
  | inr e ↦ rw e (
      scan-decimal fuel (n / 10) (digit_text (n % 10) ++ tail) (ground arith)
      ∙ (read_digit (n / 10) (n % 10) tail (omega arith)).0
      ∙ ap (λ m. scan m tail) (omega arith))
]

starts-decimal :
    (fuel n : ℕ) (tail : String)
    → starts_digit tail ≡ true
    → starts_digit (decimal fuel n tail) ≡ true
unfolding decimal
starts-decimal zero n tail h = h
starts-decimal (suc fuel) n tail h =
    let first = (read_digit 0 (n % 10) tail (omega arith)).1 in
    elim (Bool-cases (ltb n 10)) [
      | inl e ↦ rw e first
      | inr e ↦ rw e (starts-decimal fuel (n / 10) (digit_text (n % 10) ++ tail) first)
    ]

starts-itoa : (n : ℕ) → starts_digit (itoa n) ≡ true
unfolding itoa decimal
starts-itoa n =
    let first = (read_digit 0 (n % 10) "" (omega arith)).1 in
    elim (Bool-cases (ltb n 10)) [
      | inl e ↦ rw e first
      | inr e ↦ rw e (starts-decimal n (n / 10) (digit_text (n % 10) ++ "") first)
    ]

parse_int-unsigned : (s : String) → starts_digit s ≡ true → parse_int s ≡ positive (scan 0 s)
unfolding parse_int digits
parse_int-unsigned String.[] h = cc
parse_int-unsigned (String.◌∷◌ c s) h =
    let plus : nat_eqb (code c) 43 ≡ false = ground arith in
    let minus : nat_eqb (code c) 45 ≡ false = ground arith in rw (plus, minus) refl

-- A printed number is read back.
pub parse_int-itoa : (n : ℕ) → n ≤ max_int64 → parse_int (itoa n) ≡ some (pos n)
unfolding itoa scan
parse_int-itoa n h =
    rw
      (
        parse_int-unsigned (itoa n) (starts-itoa n),
        scan-decimal (suc n) n "" (omega arith),
        Bool-ext (leb n max_int64) true (λ _. refl) (λ _. ground (arith, h)),
      )
      refl
