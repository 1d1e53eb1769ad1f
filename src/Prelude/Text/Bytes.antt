-- ===== src/Prelude/Text/Bytes.antt =====
-- Go's `len` and `s[:n]`, which count the bytes of a text's UTF-8 form.
use Prim.Native.Nat.{ℕ, zero, suc, ◌+◌}
use Prim.Native.Char.{code}
use Prim.Native.String.{String}
use secure_dev.Prelude.Tests.{ltb, if◌then◌else◌}

-- Bytes of the UTF-8 form.
unfoldable pub char_bytes : ℕ → ℕ
char_bytes n = if ltb n 128 then 1 else if ltb n 2048 then 2 else if ltb n 65536 then 3 else 4

unfoldable pub byte_length : String → ℕ
byte_length String.[] = 0
byte_length (String.◌∷◌ c s) = char_bytes (code c) + byte_length s

-- `slug[:n]` of a text whose characters are one byte each.
unfoldable pub first_bytes : ℕ → String → String
first_bytes zero s = ""
first_bytes (suc n) String.[] = ""
first_bytes (suc n) (String.◌∷◌ c s) = String.◌∷◌ c (first_bytes n s)
