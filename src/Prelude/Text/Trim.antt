-- ===== src/Prelude/Text/Trim.antt =====
-- Go's strings.TrimSpace.
use Prim.Native.String.{String}
use mathlib.Core.Path.{◌≡◌, refl}
use mathlib.Core.Bool.{Bool, true, ◌&&◌, not}
use mathlib.Core.Logic.{inl, inr}
use native.Mathlib.Omega.{arith}
use text.Mathlib.Text.{◌==◌}
use secure_dev.Prelude.Tests.{Bool-cases}
use secure_dev.Prelude.Text.{is_space, trim_left, trim_right, trim_space}

-- No space stands in front.
abbrev starts_clear : String → Bool
starts_clear String.[] = true
starts_clear (String.◌∷◌ c s) = not (is_space c)

left-clear : (s : String) → starts_clear (trim_left s) ≡ true
unfolding trim_left
left-clear String.[] = refl
left-clear (String.◌∷◌ c s) = ground (arith, left-clear s)

left-of_clear : (s : String) → starts_clear s ≡ true → trim_left s ≡ s
unfolding trim_left
left-of_clear String.[] h = refl
left-of_clear (String.◌∷◌ c s) h = ground (arith, h)

right-clear : (s : String) → starts_clear s ≡ true → starts_clear (trim_right s) ≡ true
unfolding trim_right
right-clear String.[] h = refl
right-clear (String.◌∷◌ c s) h = ground (arith, h)

right_idem : (s : String) → trim_right (trim_right s) ≡ trim_right s
unfolding trim_right
right_idem String.[] = refl
right_idem (String.◌∷◌ c s) = elim (Bool-cases (is_space c && trim_right s == "")) [
  | inl e ↦ rw e refl
  | inr e ↦ rw (e, right_idem s, e) refl
]

pub trim_space_idem : (s : String) → trim_space (trim_space s) ≡ trim_space s
unfolding trim_space
trim_space_idem s =
    rw (left-of_clear (trim_right (trim_left s)) (right-clear (trim_left s) (left-clear s)))
      (right_idem (trim_left s))
