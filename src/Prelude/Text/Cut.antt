-- ===== src/Prelude/Text/Cut.antt =====
-- Go's strings.Cut and strings.LastIndex at one character, and strings.CutPrefix.
use Prim.Native.Nat.{ℕ}
use Prim.Native.Char.{Char, code}
use Prim.Native.String.{String, ◌++◌}
use mathlib.Core.Path.{◌≡◌, refl, ap, sym}
use mathlib.Core.Bool.{true, false}
use mathlib.Core.Option.{Option, none, some}
use mathlib.Core.Logic.{inl, inr}
use native.Mathlib.Omega.{arith}
use text.Mathlib.TextEquality.{Char-path}
use text.Mathlib.TextLemmas.{nil-append, cons-append}
use secure_dev.Prelude.Tests.{nat_eqb, if◌then◌else◌, Bool-cases}
use secure_dev.Prelude.Text.{has_code, strip}

abbrev first_step : ℕ → Char → String → Option (String × String) → Option (String × String)
first_step k c s none = if nat_eqb k (code c) then some ("", s) else none
first_step k c s (some (a, b)) =
    if nat_eqb k (code c) then some ("", s) else some (String.◌∷◌ c a, b)

-- The texts before and behind the first such character.
unfoldable pub cut_first : ℕ → String → Option (String × String)
cut_first k String.[] = none
cut_first k (String.◌∷◌ c s) = first_step k c s (cut_first k s)

abbrev last_step : ℕ → Char → String → Option (String × String) → Option (String × String)
last_step k c s none = if nat_eqb k (code c) then some ("", s) else none
last_step k c s (some (a, b)) = some (String.◌∷◌ c a, b)

-- The texts before and behind the last such character.
unfoldable pub cut_last : ℕ → String → Option (String × String)
cut_last k String.[] = none
cut_last k (String.◌∷◌ c s) = last_step k c s (cut_last k s)

pub cut_last-none : (k : ℕ) (s : String) → has_code k s ≡ false → cut_last k s ≡ none
unfolding cut_last has_code
cut_last-none k String.[] h = refl
cut_last-none k (String.◌∷◌ c s) h = rw (cut_last-none k s (ground arith)) (ground arith)

pub cut_last-append :
    (k : ℕ) (c : Char) (s t : String)
    → nat_eqb k (code c) ≡ true
    → has_code k t ≡ false
    → cut_last k (s ++ String.◌∷◌ c t) ≡ some (s, t)
unfolding cut_last
cut_last-append k c String.[] t e h = rw (nil-append (String.◌∷◌ c t), cut_last-none k t h, e) refl
cut_last-append k c (String.◌∷◌ d s) t e h =
    rw (cons-append d s (String.◌∷◌ c t), cut_last-append k c s t e h) refl

first_here :
    (k : ℕ) (c : Char) (s : String) (o : Option (String × String))
    → nat_eqb k (code c) ≡ true
    → first_step k c s o ≡ some ("", s)
first_here k c s none e = rw e refl
first_here k c s (some (a, b)) e = rw e refl

pub cut_first-append :
    (k : ℕ) (c : Char) (s t : String)
    → nat_eqb k (code c) ≡ true
    → has_code k s ≡ false
    → cut_first k (s ++ String.◌∷◌ c t) ≡ some (s, t)
unfolding cut_first has_code
cut_first-append k c String.[] t e h =
    rw (nil-append (String.◌∷◌ c t)) (first_here k c t (cut_first k t) e)
cut_first-append k c (String.◌∷◌ d s) t e h =
    let off : nat_eqb k (code d) ≡ false = ground arith in
    rw (cons-append d s (String.◌∷◌ c t), cut_first-append k c s t e (ground arith), off) refl

same_char : (k : ℕ) (c d : Char) → nat_eqb k (code c) ≡ true → nat_eqb k (code d) ≡ true → c ≡ d
same_char k c d h e = Char-path c d (ground arith)

-- A cut at the first character.
here_sound :
    (k : ℕ) (c d : Char) (s a b : String)
    → nat_eqb k (code c) ≡ true
    → nat_eqb k (code d) ≡ true
    → ◌≡◌ {A = Option (String × String)} (some ("", s)) (some (a, b))
    → (String.◌∷◌ d s ≡ a ++ String.◌∷◌ c b) × (a ≡ "")
here_sound k c d s a b e g h =
    let front : "" ≡ a = cc in
    let back : s ≡ b = cc in
    (rw (← front, ← back, nil-append (String.◌∷◌ c s), same_char k d c g e) refl, sym front)

-- A cut behind the first character.
later_sound :
    (c d : Char) (s a b a' b' : String)
    → s ≡ a' ++ String.◌∷◌ c b'
    → ◌≡◌ {A = Option (String × String)} (some (String.◌∷◌ d a', b')) (some (a, b))
    → (String.◌∷◌ d s ≡ a ++ String.◌∷◌ c b) × (a ≡ String.◌∷◌ d a')
later_sound c d s a b a' b' there h =
    let front : String.◌∷◌ d a' ≡ a = cc in
    let back : b' ≡ b = cc in
    (rw (← front, ← back, cons-append d a' (String.◌∷◌ c b'), there) refl, sym front)

last_step_sound :
    (k : ℕ) (c d : Char) (s a b : String) (o : Option (String × String))
    → nat_eqb k (code c) ≡ true
    → ((a' b' : String) → o ≡ some (a', b') → s ≡ a' ++ String.◌∷◌ c b')
    → last_step k d s o ≡ some (a, b)
    → String.◌∷◌ d s ≡ a ++ String.◌∷◌ c b
last_step_sound k c d s a b none e ih h = elim (Bool-cases (nat_eqb k (code d))) [
  | inl g ↦ (here_sound k c d s a b e g (rw g at h)).0
  | inr g ↦ let off = rw g at h in cc
]
last_step_sound k c d s a b (some (a', b')) e ih h =
    (later_sound c d s a b a' b' (ih a' b' refl) h).0

-- What a cut finds is there.
pub cut_last_sound :
    (k : ℕ) (c : Char) (s a b : String)
    → nat_eqb k (code c) ≡ true
    → cut_last k s ≡ some (a, b)
    → s ≡ a ++ String.◌∷◌ c b
unfolding cut_last
cut_last_sound k c String.[] a b e h = cc
cut_last_sound k c (String.◌∷◌ d s) a b e h =
    last_step_sound k c d s a b (cut_last k s) e (λ a' b'. cut_last_sound k c s a' b' e) h

first_step_sound :
    (k : ℕ) (c d : Char) (s a b : String) (o : Option (String × String))
    → nat_eqb k (code c) ≡ true
    → ((a' b' : String) → o ≡ some (a', b') → (s ≡ a' ++ String.◌∷◌ c b') × (has_code k a' ≡ false))
    → first_step k d s o ≡ some (a, b)
    → (String.◌∷◌ d s ≡ a ++ String.◌∷◌ c b) × (has_code k a ≡ false)
unfolding has_code
first_step_sound k c d s a b none e ih h = elim (Bool-cases (nat_eqb k (code d))) [
  | inl g ↦ let (found, front) = here_sound k c d s a b e g (rw g at h) in (found, rw front refl)
  | inr g ↦ let off = rw g at h in cc
]
first_step_sound k c d s a b (some (a', b')) e ih h = elim (Bool-cases (nat_eqb k (code d))) [
  | inl g ↦ let (found, front) = here_sound k c d s a b e g (rw g at h) in (found, rw front refl)
  | inr g ↦
      let (there, clear) = ih a' b' refl in
      let (found, front) = later_sound c d s a b a' b' there (rw g at h) in
      (found, rw (front, g, clear) refl)
]

pub cut_first_sound :
    (k : ℕ) (c : Char) (s a b : String)
    → nat_eqb k (code c) ≡ true
    → cut_first k s ≡ some (a, b)
    → (s ≡ a ++ String.◌∷◌ c b) × (has_code k a ≡ false)
unfolding cut_first
cut_first_sound k c String.[] a b e h = cc
cut_first_sound k c (String.◌∷◌ d s) a b e h =
    first_step_sound k c d s a b (cut_first k s) e (λ a' b'. cut_first_sound k c s a' b' e) h

pub strip-append : (p s : String) → strip p (p ++ s) ≡ some s
unfolding strip
strip-append String.[] s = ap some (nil-append s)
strip-append (String.◌∷◌ d p) s = rw (cons-append d p s, strip-append p s) (ground arith)

pub strip_sound : (p s r : String) → strip p s ≡ some r → s ≡ p ++ r
unfolding strip
strip_sound String.[] s r h = let same : s ≡ r = cc in rw (nil-append r) same
strip_sound (String.◌∷◌ d p) String.[] r h = cc
strip_sound (String.◌∷◌ d p) (String.◌∷◌ c s) r h = elim (Bool-cases (nat_eqb (code d) (code c))) [
  | inl g ↦ rw (cons-append d p r, strip_sound p s r (rw g at h), Char-path d c (ground arith)) refl
  | inr g ↦ let off = rw g at h in cc
]
