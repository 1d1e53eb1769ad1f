-- ===== src/Auth.antt =====
-- internal/auth/role.go and scope.go: what a credential may do, and which projects it reaches.
pub mod Reach
pub mod Order
pub mod Tokens
use secure_dev.Prelude.{
  ℕ, String, Bool, true, false, not, ◌&&◌, ◌||◌, List, [], ◌∷◌, ◌++◌, any, leb, ◌==◌, if◌then◌else◌,
}
use secure_dev.Prelude.Text.{to_lower, trim_space, split, join}
use secure_dev.Prelude.Sort.{sort_by, text_lt}

pub data Role : Type 0 where
  viewer service admin : Role
  other : String → Role

-- The conversion `Role(t)`.
unfoldable pub role_of_text : String → Role
role_of_text t =
    if t == "viewer"
    then viewer
    else if t == "service"
    then service
    else if t == "admin"
    then admin
    else Role.other t

unfoldable pub role_valid : Role → Bool
role_valid (Role.other t) = false
role_valid _ = true

unfoldable pub role_rank : Role → ℕ
role_rank admin = 3
role_rank service = 2
role_rank viewer = 1
role_rank (Role.other t) = 0

unfoldable pub role_allows : Role → Role → Bool
unfolding role_valid role_rank
role_allows r required = role_valid r && leb (role_rank required) (role_rank r)

unfoldable pub parse_role : String → Role × Bool
unfolding role_of_text role_valid to_lower trim_space
parse_role raw = let r = role_of_text (to_lower (trim_space raw)) in (r, role_valid r)

pub record Scope : Type 0 where
  pub global : Bool
  pub projects : List String

unfoldable pub global_scope : Scope
global_scope = record { global = true; projects = [] }

unfoldable pub slug_of : String → String
unfolding to_lower trim_space
slug_of s = to_lower (trim_space s)

-- The loop of `ScopeTo`, with the slugs so far; a slug is in the set `seen` when it is among them.
unfoldable pub collect_slugs : List String → List String → List String
unfolding slug_of
collect_slugs out [] = out
collect_slugs out (raw ∷ rest) =
    let s = slug_of raw in
    collect_slugs (if s == "" || any (λ t. t == s) out then out else out ++ s ∷ []) rest

unfoldable pub scope_to : List String → Scope
unfolding collect_slugs sort_by
scope_to slugs = record { global = false; projects = sort_by text_lt (collect_slugs [] slugs) }

pub data Parsed : Type 0 where
  parsed : Scope → Parsed
  empty_field : Parsed
  no_project : String → Parsed

abbrev pub is_nil {ℓ} : {A : Type ℓ} → List A → Bool
is_nil [] = true
is_nil (x ∷ xs) = false

-- A scope that names no project is refused.
unfoldable pub named : String → Scope → Parsed
named raw s = if is_nil s.projects then no_project raw else parsed s

unfoldable pub parse_scope : String → Parsed
unfolding trim_space split global_scope scope_to named
parse_scope raw =
    let trimmed = trim_space raw in
    if trimmed == ""
    then empty_field
    else if trimmed == "*"
    then parsed global_scope
    else named raw (scope_to (split 44 trimmed))

unfoldable pub scope_empty : Scope → Bool
scope_empty s = not s.global && is_nil s.projects

unfoldable pub scope_allows : Scope → String → Bool
unfolding slug_of
scope_allows s raw = let slug = slug_of raw in s.global || any (λ p. p == slug) s.projects

unfoldable pub scope_text : Scope → String
unfolding join
scope_text s = if s.global then "*" else if is_nil s.projects then "(none)" else join s.projects ","
