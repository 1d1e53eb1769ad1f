-- ===== src/Projects/Slug.antt =====
-- internal/projects/project.go: slugs.
-- The regular expression ^[a-z0-9]+(-[a-z0-9]+)*$ is the automaton `slug_words`.
pub mod Shape
use Prim.Native.Char.{Char, code}
use secure_dev.Prelude.{
  ℕ, zero, suc, ◌+◌, ◌≤◌, String, Bool, true, false, ◌&&◌, ◌||◌, ◌≡◌, refl, ◌⊎◌, inl, inr, arith,
  leb, ltb, nat_eqb, ◌==◌, if◌then◌else◌, Bool-cases, eq_iff, ap,
}
use secure_dev.Prelude.Text.Bytes.{byte_length, first_bytes}
use secure_dev.Prelude.Text.{to_lower, trim_space, trim_left, trim_right, is_space}

-- `[a-z0-9]`
unfoldable pub is_word_char : Char → Bool
is_word_char c = (leb 97 (code c) && leb (code c) 122) || (leb 48 (code c) && leb (code c) 57)

unfoldable pub is_hyphen : Char → Bool
is_hyphen c = nat_eqb (code c) 45

-- The matcher; the flag says that a word must go on here, at the start or behind a hyphen.
unfoldable pub slug_words : Bool → String → Bool
slug_words true String.[] = false
slug_words false String.[] = true
slug_words start (String.◌∷◌ c s) =
    let behind_char = slug_words false s in
    let behind_hyphen = slug_words true s in
    if is_word_char c
    then behind_char
    else if start
    then false
    else if is_hyphen c
    then behind_hyphen
    else false

-- slugPattern.MatchString
unfoldable pub slug_matches : String → Bool
unfolding slug_words
slug_matches s = slug_words true s

-- The loop of `Slugify` over the lowered name.
unfoldable pub slug_loop : Bool → String → String
unfolding is_word_char
slug_loop last_hyphen String.[] = ""
slug_loop last_hyphen (String.◌∷◌ c s) =
    let behind_char = slug_loop false s in
    let behind_hyphen = slug_loop true s in
    if is_word_char c
    then String.◌∷◌ c behind_char
    else if last_hyphen
    then behind_hyphen
    else String.◌∷◌ "-" behind_hyphen

-- strings.Trim(s, "-")
unfoldable pub trim_hyphens_left : String → String
unfolding is_hyphen
trim_hyphens_left String.[] = ""
trim_hyphens_left (String.◌∷◌ c s) =
    let rest = trim_hyphens_left s in if is_hyphen c then rest else String.◌∷◌ c s

unfoldable pub trim_hyphens_right : String → String
unfolding is_hyphen
trim_hyphens_right String.[] = ""
trim_hyphens_right (String.◌∷◌ c s) =
    let rest = trim_hyphens_right s in if is_hyphen c && rest == "" then "" else String.◌∷◌ c rest

unfoldable pub trim_hyphens : String → String
unfolding trim_hyphens_left trim_hyphens_right
trim_hyphens s = trim_hyphens_right (trim_hyphens_left s)

abbrev pub max_slug_length : ℕ
max_slug_length = 64

unfoldable pub slugify : String → String
unfolding slug_loop trim_hyphens byte_length first_bytes
slugify name =
    let slug = trim_hyphens (slug_loop true (to_lower name)) in
    if ltb max_slug_length (byte_length slug)
    then trim_hyphens (first_bytes max_slug_length slug)
    else slug
