-- ===== src/Projects/Slug/Shape.antt =====
-- internal/projects/project.go: the shape of slugs.
use Prim.Native.Char.{Char}
use secure_dev.Prelude.{
  ℕ, zero, suc, ◌≤◌, String, Bool, true, false, ◌&&◌, ◌≡◌, refl, ◌⊎◌, inl, inr, arith, ltb, ◌==◌,
  if◌then◌else◌, Bool-cases, eq_iff, ap,
}
use secure_dev.Prelude.Text.{to_lower, trim_space, trim_left, trim_right, is_space}
use secure_dev.Prelude.Text.Bytes.{char_bytes, byte_length, first_bytes}
use secure_dev.Projects.Slug.{
  is_word_char, is_hyphen, slug_words, slug_matches, slug_loop, trim_hyphens_left,
  trim_hyphens_right, trim_hyphens, max_slug_length, slugify,
}

-- A text that a match may begin with: words with single hyphens between them, and perhaps a
-- hyphen at the end.
slug_prefix : Bool → String → Bool
slug_prefix start String.[] = true
slug_prefix start (String.◌∷◌ c s) =
    let behind_char = slug_prefix false s in
    let behind_hyphen = slug_prefix true s in
    if is_word_char c
    then behind_char
    else if start
    then false
    else if is_hyphen c
    then behind_hyphen
    else false

slug_loop-prefix : (b : Bool) (s : String) → slug_prefix b (slug_loop b s) ≡ true
unfolding slug_loop slug_prefix is_word_char is_hyphen
slug_loop-prefix b String.[] = refl
slug_loop-prefix b (String.◌∷◌ c s) =
    ground (arith, slug_loop-prefix false s, slug_loop-prefix true s)

words-prefix : (b : Bool) (s : String) → slug_words b s ≡ true → slug_prefix b s ≡ true
unfolding slug_words slug_prefix
words-prefix b String.[] h = refl
words-prefix b (String.◌∷◌ c s) h = ground (arith, words-prefix false s, words-prefix true s)

first_bytes-prefix :
    (n : ℕ) (b : Bool) (s : String)
    → slug_prefix b s ≡ true
    → slug_prefix b (first_bytes n s) ≡ true
unfolding first_bytes slug_prefix
first_bytes-prefix zero b s h = refl
first_bytes-prefix (suc n) b String.[] h = refl
first_bytes-prefix (suc n) b (String.◌∷◌ c s) h =
    ground (arith, first_bytes-prefix n false s, first_bytes-prefix n true s)

-- A prefix that starts a word has no hyphen in front.
left-prefix : (s : String) → slug_prefix true s ≡ true → trim_hyphens_left s ≡ s
unfolding trim_hyphens_left slug_prefix is_word_char is_hyphen
left-prefix String.[] h = refl
left-prefix (String.◌∷◌ c s) h = ground arith

words_empty : (t : String) → t ≡ "" → slug_words false t ≡ true
unfolding slug_words
words_empty t h = rw h refl

right-words :
    (b : Bool) (s : String)
    → slug_prefix b s ≡ true
    → (trim_hyphens_right s ≡ "") ⊎ (slug_words b (trim_hyphens_right s) ≡ true)
unfolding trim_hyphens_right slug_prefix slug_words is_word_char is_hyphen
right-words b String.[] h = inl refl
right-words b (String.◌∷◌ c s) h = ground (
  arith,
  right-words false s,
  right-words true s,
  (eq_iff (trim_hyphens_right s) "").1,
  words_empty (trim_hyphens_right s),
)

trim-words :
    (s : String)
    → slug_prefix true s ≡ true
    → (trim_hyphens s ≡ "") ⊎ (slug_words true (trim_hyphens s) ≡ true)
unfolding trim_hyphens
trim-words s h = rw (left-prefix s h) (right-words true s h)

first_bytes-length :
    (n : ℕ) (b : Bool) (s : String) → slug_prefix b s ≡ true → byte_length (first_bytes n s) ≤ n
unfolding first_bytes byte_length char_bytes slug_prefix is_word_char is_hyphen
first_bytes-length zero b s h = omega arith
first_bytes-length (suc n) b String.[] h = omega arith
first_bytes-length (suc n) b (String.◌∷◌ c s) h =
    ground (arith, first_bytes-length n false s, first_bytes-length n true s)

right-length : (s : String) → byte_length (trim_hyphens_right s) ≤ byte_length s
unfolding trim_hyphens_right byte_length is_hyphen
right-length String.[] = omega arith
right-length (String.◌∷◌ c s) = elim (Bool-cases (is_hyphen c && trim_hyphens_right s == "")) [
  | inl e ↦ rw e (omega arith)
  | inr e ↦ rw e (omega (arith, right-length s))
]

trim-length :
    (s : String) → slug_prefix true s ≡ true → byte_length (trim_hyphens s) ≤ byte_length s
unfolding trim_hyphens
trim-length s h = rw (left-prefix s h) (right-length s)

abbrev pub IsEmptyOrSlug : String → Type 0
IsEmptyOrSlug s = (s ≡ "") ⊎ (slug_matches s ≡ true)

trim-prefix : (s : String) → slug_prefix true s ≡ true → slug_prefix true (trim_hyphens s) ≡ true
unfolding slug_prefix
trim-prefix s h = elim (trim-words s h) [
  | inl e ↦ rw e refl
  | inr m ↦ words-prefix true (trim_hyphens s) m
]

-- The slug of a name is empty, or it matches the slug pattern; and it is at most 64 bytes long.
pub slugify-IsEmptyOrSlug :
    (name : String) → IsEmptyOrSlug (slugify name) × (byte_length (slugify name) ≤ max_slug_length)
unfolding slugify slug_matches
slugify-IsEmptyOrSlug name =
    let whole = trim_hyphens (slug_loop true (to_lower name)) in
    let fine = slug_loop-prefix true (to_lower name) in
    let cut = first_bytes-prefix max_slug_length true whole (trim-prefix _ fine) in
    elim (Bool-cases (ltb max_slug_length (byte_length whole))) [
      | inl e ↦ rw e (
        trim-words (first_bytes max_slug_length whole) cut,
        omega (
          arith,
          trim-length (first_bytes max_slug_length whole) cut,
          first_bytes-length max_slug_length true whole (trim-prefix _ fine),
        ),
      )
      | inr e ↦ rw e (trim-words _ fine, ground arith)
    ]

word-not_space : (c : Char) → is_word_char c ≡ true → is_space c ≡ false
unfolding is_word_char is_space
word-not_space c h = ground arith

hyphen-not_space : (c : Char) → is_hyphen c ≡ true → is_space c ≡ false
unfolding is_hyphen is_space
hyphen-not_space c h = ground arith

right-of_slug : (b : Bool) (s : String) → slug_words b s ≡ true → trim_right s ≡ s
unfolding slug_words trim_right
right-of_slug b String.[] h = refl
right-of_slug b (String.◌∷◌ c s) h =
    ground
      (arith, right-of_slug false s, right-of_slug true s, word-not_space c, hyphen-not_space c)

left-of_slug : (s : String) → slug_words true s ≡ true → trim_left s ≡ s
unfolding slug_words trim_left
left-of_slug String.[] h = refl
left-of_slug (String.◌∷◌ c s) h = ground (arith, word-not_space c)

-- A slug has no space at its ends.
pub trim_space-slug : (s : String) → slug_matches s ≡ true → trim_space s ≡ s
unfolding slug_matches trim_space
trim_space-slug s h = rw (left-of_slug s h) (right-of_slug true s h)

-- A text that a test accepts is not empty if the test refuses the empty text.
pub accepted-named :
    (test : String → Bool) (s : String) → test "" ≡ false → test s ≡ true → (s == "") ≡ false
accepted-named test s h k = elim (Bool-cases (s == "")) [
  | inl e ↦ let same = ap test ((eq_iff s "").0 e) in cc
  | inr e ↦ e
]

pub slug-named : (s : String) → slug_matches s ≡ true → (s == "") ≡ false
unfolding slug_matches slug_words
slug-named s = accepted-named slug_matches s refl
