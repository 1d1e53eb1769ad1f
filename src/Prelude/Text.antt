-- ===== src/Prelude/Text.antt =====
-- What the program uses of Go's package strings, on texts as lists of characters.
-- Upper and lower case are those of ASCII, and of the characters outside it whose lower case (U+0130
-- and U+212A) or upper case (U+0131 and U+017F) stands in ASCII; any other character is left as it
-- is.
pub mod Trim
pub mod Bytes
pub mod Cut
pub mod Decimal
use Prim.Native.Nat.{ℕ, zero, suc, ◌/◌, ◌%◌}
use Prim.Native.Char.{Char, code}
use Prim.Native.String.{String, ◌++◌}
use mathlib.Core.Path.{◌≡◌, refl, ap, ◌∙◌}
use mathlib.Core.Bool.{Bool, true, false, ◌&&◌, ◌||◌, not}
use mathlib.Core.List.{List, [], ◌∷◌}
use mathlib.Core.Option.{Option, none, some}
use native.Mathlib.Omega.{arith}
use text.Mathlib.Text.{◌==◌}
use text.Mathlib.TextLemmas.{nil-append, cons-append}
use secure_dev.Prelude.Tests.{ltb, leb, nat_eqb, if◌then◌else◌}

-- unicode.IsSpace
abbrev is_space_code : ℕ → Bool
is_space_code n =
    (leb 9 n && leb n 13)
    || nat_eqb n 32
    || nat_eqb n 133
    || nat_eqb n 160
    || nat_eqb n 5760
    || (leb 8192 n && leb n 8202)
    || nat_eqb n 8232
    || nat_eqb n 8233
    || nat_eqb n 8239
    || nat_eqb n 8287
    || nat_eqb n 12288

unfoldable pub is_space : Char → Bool
is_space c = is_space_code (code c)

abbrev is_blank : String → Bool
is_blank String.[] = true
is_blank (String.◌∷◌ c s) = is_space c && is_blank s

-- strings.TrimLeftFunc with unicode.IsSpace
unfoldable pub trim_left : String → String
trim_left String.[] = ""
trim_left (String.◌∷◌ c s) = let rest = trim_left s in if is_space c then rest else String.◌∷◌ c s

-- A space is dropped where nothing but spaces follows.
unfoldable pub trim_right : String → String
trim_right String.[] = ""
trim_right (String.◌∷◌ c s) =
    let rest = trim_right s in if is_space c && rest == "" then "" else String.◌∷◌ c rest

-- strings.TrimSpace
unfoldable pub trim_space : String → String
unfolding trim_left trim_right is_space
trim_space s = trim_right (trim_left s)

-- Case mapping by a table from a character's number.
abbrev CaseTable : Type 0
CaseTable = List (ℕ × Char)

map_char : CaseTable → Char → Char
map_char [] c = c
map_char ((n, d) ∷ table) c = if nat_eqb n (code c) then d else map_char table c

map_text : CaseTable → String → String
map_text table String.[] = ""
map_text table (String.◌∷◌ c s) = String.◌∷◌ (map_char table c) (map_text table s)

lower_table : CaseTable
lower_table =
    (65, "a")
    ∷ (66, "b")
    ∷ (67, "c")
    ∷ (68, "d")
    ∷ (69, "e")
    ∷ (70, "f")
    ∷ (71, "g")
    ∷ (72, "h")
    ∷ (73, "i")
    ∷ (74, "j")
    ∷ (75, "k")
    ∷ (76, "l")
    ∷ (77, "m")
    ∷ (78, "n")
    ∷ (79, "o")
    ∷ (80, "p")
    ∷ (81, "q")
    ∷ (82, "r")
    ∷ (83, "s")
    ∷ (84, "t")
    ∷ (85, "u")
    ∷ (86, "v")
    ∷ (87, "w")
    ∷ (88, "x")
    ∷ (89, "y")
    ∷ (90, "z")
    ∷ (304, "i")
    ∷ (8490, "k")
    ∷ []

upper_table : CaseTable
upper_table =
    (97, "A")
    ∷ (98, "B")
    ∷ (99, "C")
    ∷ (100, "D")
    ∷ (101, "E")
    ∷ (102, "F")
    ∷ (103, "G")
    ∷ (104, "H")
    ∷ (105, "I")
    ∷ (106, "J")
    ∷ (107, "K")
    ∷ (108, "L")
    ∷ (109, "M")
    ∷ (110, "N")
    ∷ (111, "O")
    ∷ (112, "P")
    ∷ (113, "Q")
    ∷ (114, "R")
    ∷ (115, "S")
    ∷ (116, "T")
    ∷ (117, "U")
    ∷ (118, "V")
    ∷ (119, "W")
    ∷ (120, "X")
    ∷ (121, "Y")
    ∷ (122, "Z")
    ∷ (305, "I")
    ∷ (383, "S")
    ∷ []

-- strings.ToLower
unfoldable pub to_lower : String → String
unfolding map_text map_char lower_table
to_lower = map_text lower_table

-- strings.ToUpper
unfoldable pub to_upper : String → String
unfolding map_text map_char upper_table
to_upper = map_text upper_table

unfoldable pub digit_text : ℕ → String
digit_text n =
    if nat_eqb n 0
    then "0"
    else if nat_eqb n 1
    then "1"
    else if nat_eqb n 2
    then "2"
    else if nat_eqb n 3
    then "3"
    else if nat_eqb n 4
    then "4"
    else if nat_eqb n 5
    then "5"
    else if nat_eqb n 6
    then "6"
    else if nat_eqb n 7
    then "7"
    else if nat_eqb n 8
    then "8"
    else "9"

-- The digits of `n`, before `tail`.
unfoldable pub decimal : ℕ → ℕ → String → String
unfolding digit_text
decimal zero n tail = tail
decimal (suc fuel) n tail =
    let text = digit_text (n % 10) ++ tail in
    let rest = decimal fuel (n / 10) text in if ltb n 10 then text else rest

-- strconv.Itoa of a number that is not negative. Each step divides by ten, so `n + 1` steps suffice.
unfoldable pub itoa : ℕ → String
unfolding decimal
itoa n = decimal (suc n) n ""

-- strings.Join
unfoldable pub join : List String → String → String
join [] sep = ""
join (s ∷ []) sep = s
join (s ∷ t ∷ rest) sep = s ++ sep ++ join (t ∷ rest) sep

-- A character with this number stands in the text: strings.Contains of a text of one character.
unfoldable pub has_code : ℕ → String → Bool
has_code k String.[] = false
has_code k (String.◌∷◌ c s) = nat_eqb k (code c) || has_code k s

abbrev pub prepend : Char → List String → List String
prepend c [] = String.◌∷◌ c "" ∷ []
prepend c (w ∷ ws) = String.◌∷◌ c w ∷ ws

-- strings.Split at a character, given by its number
unfoldable pub split : ℕ → String → List String
split k String.[] = "" ∷ []
split k (String.◌∷◌ c s) =
    let rest = split k s in if nat_eqb k (code c) then "" ∷ rest else prepend c rest

-- The text after a prefix that it has.
unfoldable pub strip : String → String → Option String
strip String.[] s = some s
strip (String.◌∷◌ d p) String.[] = none
strip (String.◌∷◌ d p) (String.◌∷◌ c s) =
    let rest = strip p s in if nat_eqb (code d) (code c) then rest else none

-- strings.TrimPrefix, with the prefix first
unfoldable pub trim_prefix : String → String → String
unfolding strip
trim_prefix p s = elim (strip p s) [ some rest ↦ rest | none ↦ s ]

split_here :
    (k : ℕ) (c : Char) (t : String)
    → nat_eqb k (code c) ≡ true
    → split k (String.◌∷◌ c t) ≡ "" ∷ split k t
unfolding split
split_here k c t e = ground (arith, e)

split_there :
    (k : ℕ) (c : Char) (s : String)
    → nat_eqb k (code c) ≡ false
    → split k (String.◌∷◌ c s) ≡ prepend c (split k s)
unfolding split
split_there k c s e = ground (arith, e)

has_code_there :
    (k : ℕ) (c : Char) (s : String)
    → has_code k (String.◌∷◌ c s) ≡ false
    → (nat_eqb k (code c) ≡ false) × (has_code k s ≡ false)
unfolding has_code
has_code_there k c s h = (ground arith, ground arith)

split_cons :
    (k : ℕ) (s t : String) (c : Char)
    → nat_eqb k (code c) ≡ true
    → has_code k s ≡ false
    → split k (s ++ String.◌∷◌ c t) ≡ s ∷ split k t
split_cons k String.[] t c e h = rw (nil-append (String.◌∷◌ c t)) (split_here k c t e)
split_cons k (String.◌∷◌ d s) t c e h =
    let (other, clear) = has_code_there k d s h in
    rw (cons-append d s (String.◌∷◌ c t))
      (split_there k d (s ++ String.◌∷◌ c t) other ∙ ap (prepend d) (split_cons k s t c e clear))

pub split_one : (k : ℕ) (s : String) → has_code k s ≡ false → split k s ≡ s ∷ []
unfolding split
split_one k String.[] h = refl
split_one k (String.◌∷◌ d s) h =
    let (other, clear) = has_code_there k d s h in
    split_there k d s other ∙ ap (prepend d) (split_one k s clear)

abbrev pub all_clear : ℕ → List String → Bool
all_clear k [] = true
all_clear k (s ∷ rest) = not (has_code k s) && all_clear k rest

-- Joined texts that lack the separator are what the split gives back.
pub split-join :
    (k : ℕ) (c : Char) (s : String) (rest : List String)
    → nat_eqb k (code c) ≡ true
    → all_clear k (s ∷ rest) ≡ true
    → split k (join (s ∷ rest) (String.◌∷◌ c "")) ≡ s ∷ rest
unfolding join
split-join k c s [] e h = split_one k s (ground arith)
split-join k c s (t ∷ rest) e h =
    rw
      (
        cons-append c "" (join (t ∷ rest) (String.◌∷◌ c "")),
        nil-append (join (t ∷ rest) (String.◌∷◌ c "")),
      )
      (split_cons k s (join (t ∷ rest) (String.◌∷◌ c "")) c e (ground arith)
        ∙ ap (λ (l : List String). s ∷ l) (split-join k c t rest e (ground arith)))
