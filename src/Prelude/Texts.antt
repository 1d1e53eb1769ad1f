-- ===== src/Prelude/Texts.antt =====
-- Go's `==` on texts.
use Prim.Native.String.{String}
use mathlib.Core.Path.{◌≡◌, sym}
use text.Mathlib.Text.{◌==◌}
use text.Mathlib.TextEquality.{eq_iff}
use secure_dev.Prelude.Tests.{Bool-ext}

pub eqb_comm : (s t : String) → (s == t) ≡ (t == s)
eqb_comm s t =
    Bool-ext (s == t) (t == s) (λ h. (eq_iff t s).1 (sym ((eq_iff s t).0 h)))
      (λ h. (eq_iff s t).1 (sym ((eq_iff t s).0 h)))
