-- ===== src/Prelude/Paths.antt =====
-- What the program uses of Go's package path, on texts.
use Prim.Native.Nat.{ℕ}
use Prim.Native.Char.{Char, code}
use Prim.Native.String.{String, ◌++◌}
use mathlib.Core.Path.{◌≡◌, refl}
use mathlib.Core.Bool.{Bool, true, false, ◌||◌}
use mathlib.Core.List.{List, [], ◌∷◌, reverse}
use text.Mathlib.Text.{◌==◌}
use secure_dev.Prelude.Tests.{nat_eqb, if◌then◌else◌}
use secure_dev.Prelude.Text.{split, join}

-- strings.ReplaceAll of one character, given by its number, by another
unfoldable pub replace_code : ℕ → Char → String → String
replace_code k d String.[] = ""
replace_code k d (String.◌∷◌ c s) =
    String.◌∷◌ (if nat_eqb k (code c) then d else c) (replace_code k d s)

is_rooted : String → Bool
is_rooted String.[] = false
is_rooted (String.◌∷◌ c s) = nat_eqb 47 (code c)

-- `..` goes back over the last element, at the root to the root, and stays where nothing is left.
back : Bool → List String → List String
back true [] = []
back false [] = ".." ∷ []
back rooted (top ∷ rest) = if top == ".." then ".." ∷ top ∷ rest else rest

-- One element of the path, onto those before it, the last first.
step : Bool → List String → String → List String
unfolding back
step rooted stack element =
    if element == "" || element == "."
    then stack
    else if element == ".."
    then back rooted stack
    else element ∷ stack

steps : Bool → List String → List String → List String
unfolding step
steps rooted stack [] = stack
steps rooted stack (e ∷ rest) = steps rooted (step rooted stack e) rest

-- path.Clean
unfoldable pub clean : String → String
unfolding is_rooted steps split join
clean p =
    let rooted = is_rooted p in
    let body = join (reverse (steps rooted [] (split 47 p))) "/" in
    if rooted then "/" ++ body else if body == "" then "." else body

clean_test : clean "/a/./b/../../c//d" ≡ "/c/d"
unfolding clean
clean_test = refl

clean_up : clean "../a/../.." ≡ "../.."
unfolding clean
clean_up = refl
