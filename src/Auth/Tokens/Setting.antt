-- ===== src/Auth/Tokens/Setting.antt =====
-- internal/auth/auth.go and internal/config/config.go: the scopes that the tokens of the environment
-- can have.
use Prim.Native.String.{◌++◌}
use Prim.Native.Char.{Char, code}
use text.Mathlib.TextLemmas.{nil-append, cons-append}
use secure_dev.Prelude.{
  ℕ, String, true, false, not, ◌||◌, ◌&&◌, ◌≡◌, ◌⊎◌, refl, subst, List, [], ◌∷◌, length, All,
  All-imp, All-map, All-keep_imp, map, nat_eqb, ◌==◌, arith, Bool-cases, inl, inr,
}
use secure_dev.Prelude.Text.{
  is_space, prepend, trim_left, trim_right, trim_space, has_code, split, split_one, join,
}
use secure_dev.Prelude.Sort.{sort_by}
use secure_dev.Config.{split_list}
use secure_dev.Auth.{
  Scope, global_scope, collect_slugs, slug_of, scope_to, parsed, is_nil, parse_scope,
}
use secure_dev.Auth.Reach.{field_cases}
use secure_dev.Auth.Tokens.{Credential, authenticator, new}
use secure_dev.Auth.Tokens.Entry.{IsEntry}
use secure_dev.Auth.Tokens.Known.{Entries, no_entries, next_entry, new_sound}

-- The character is not in the text.
abbrev Lacks : ℕ → String → Type 0
Lacks k s = has_code k s ≡ false

prepend-Lacks :
    (k : ℕ) (c : Char) (words : List String)
    → nat_eqb k (code c) ≡ false
    → All (Lacks k) words
    → All (Lacks k) (prepend c words)
unfolding has_code
prepend-Lacks k c [] h l = (rw h refl, tt)
prepend-Lacks k c (w ∷ ws) h (l, ls) = (rw (h, l) refl, ls)

split-Lacks : (k : ℕ) (s : String) → All (Lacks k) (split k s)
unfolding split has_code
split-Lacks k String.[] = (refl, tt)
split-Lacks k (String.◌∷◌ c s) = elim (Bool-cases (nat_eqb k (code c))) [
  | inl e ↦ rw e (refl, split-Lacks k s)
  | inr e ↦ rw e (prepend-Lacks k c (split k s) e (split-Lacks k s))
]

trim_left-Lacks : (k : ℕ) (s : String) → Lacks k s → Lacks k (trim_left s)
unfolding trim_left has_code
trim_left-Lacks k String.[] h = refl
trim_left-Lacks k (String.◌∷◌ c s) h = elim (Bool-cases (is_space c)) [
  | inl e ↦ rw e (trim_left-Lacks k s (ground arith))
  | inr e ↦ rw e h
]

trim_right-Lacks : (k : ℕ) (s : String) → Lacks k s → Lacks k (trim_right s)
unfolding trim_right has_code
trim_right-Lacks k String.[] h = refl
trim_right-Lacks k (String.◌∷◌ c s) h = elim (Bool-cases (is_space c && trim_right s == "")) [
  | inl e ↦ rw e refl
  | inr e ↦ rw e (ground (arith, trim_right-Lacks k s))
]

trim_space-Lacks : (k : ℕ) (s : String) → Lacks k s → Lacks k (trim_space s)
unfolding trim_space
trim_space-Lacks k s h = trim_right-Lacks k (trim_left s) (trim_left-Lacks k s h)

split_list-Lacks : (raw : String) → All (Lacks 44) (split_list raw)
unfolding split_list
split_list-Lacks raw = elim (Bool-cases (trim_space raw == "")) [
  | inl e ↦ rw e tt
  | inr e ↦ rw e (
      All-keep_imp (Lacks 44) (λ p. not (p == "")) (map trim_space (split 44 raw))
        (All-map _ trim_space (split 44 raw) (
          All-imp {Q = λ s. not (trim_space s == "") ≡ true → Lacks 44 (trim_space s)}
            (λ s l kept. trim_space-Lacks 44 s l) (split 44 raw) (split-Lacks 44 raw))))
]

append-Lacks : (k : ℕ) (s t : String) → Lacks k (s ++ t) → Lacks k s × Lacks k t
unfolding has_code
append-Lacks k String.[] t h = (refl, rw (nil-append t) at h)
append-Lacks k (String.◌∷◌ c s) t h =
    let cons = rw (cons-append c s t) at h in
    let (l, r) = append-Lacks k s t (ground arith) in (ground arith, r)

-- A scope over at most one project, or over all.
abbrev pub IsNarrow : Scope → Type 0
IsNarrow s = (s ≡ global_scope) ⊎ (length s.projects ≡ 1)

scope_to-IsNarrow :
    (t : String)
    → is_nil (scope_to (t ∷ [])).projects ≡ false
    → length (scope_to (t ∷ [])).projects ≡ 1
unfolding scope_to collect_slugs sort_by
scope_to-IsNarrow t h = elim (Bool-cases (slug_of t == "" || false)) [
  | inl e ↦ let k = rw e at h in cc
  | inr e ↦ rw e refl
]

parse_scope-IsNarrow :
    (raw : String) (s : Scope) → Lacks 44 raw → parse_scope raw ≡ parsed s → IsNarrow s
unfolding parse_scope
parse_scope-IsNarrow raw s lacks h = elim (field_cases raw (trim_space raw) s h) [
  | inl (star, same) ↦ inl same
  | inr (star, same, named) ↦
      let one = split_one 44 (trim_space raw) (trim_space-Lacks 44 raw lacks) in
      inr (rw (same, one) (scope_to-IsNarrow (trim_space raw) (rw one at named)))
]

IsEntry-IsNarrow :
    (hash : String → String) (pair : String) (c : Credential)
    → Lacks 44 pair
    → IsEntry hash pair c
    → IsNarrow c.scope
unfolding join
IsEntry-IsNarrow hash pair c lacks e =
    let whole : Lacks 44 (join (e.label_field ∷ e.role_field ∷ e.scope_field ∷ e.secret ∷ []) ":") =
      subst (Lacks 44) e.composed lacks in
    let behind_label = (append-Lacks 44 ":" _ (append-Lacks 44 e.label_field _ whole).1).1 in
    let behind_role = (append-Lacks 44 ":" _ (append-Lacks 44 e.role_field _ behind_label).1).1 in
    parse_scope-IsNarrow e.scope_field c.scope (append-Lacks 44 e.scope_field _ behind_role).0
      e.scope

Entries-IsNarrow :
    (hash : String → String) (pairs : List String) (creds : List Credential)
    → All (Lacks 44) pairs
    → Entries hash pairs creds
    → All (λ c. IsNarrow c.scope) creds
Entries-IsNarrow hash [] [] l no_entries = tt
Entries-IsNarrow hash [] (c ∷ creds) l none_made = elim none_made [ ]
Entries-IsNarrow hash (pair ∷ pairs) [] l none_made = elim none_made [ ]
Entries-IsNarrow hash (pair ∷ pairs) (c ∷ creds) (l, ls) (next_entry e es) =
    (IsEntry-IsNarrow hash pair c l e, Entries-IsNarrow hash pairs creds ls es)

-- A token that is configured by the environment's list reaches either every project or just one:
-- the commas that would part the projects of its scope part the list first.
pub split_list-IsNarrow :
    (hash : String → String) (raw : String) (creds : List Credential)
    → new hash (split_list raw) ≡ authenticator creds
    → All (λ c. IsNarrow c.scope) creds
split_list-IsNarrow hash raw creds h =
    Entries-IsNarrow hash (split_list raw) creds (split_list-Lacks raw)
      (new_sound hash (split_list raw) creds h).0
