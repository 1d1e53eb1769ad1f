-- ===== src/Auth/Reach.antt =====
-- internal/auth/scope.go: the projects that a configured scope reaches.
use secure_dev.Prelude.{
  String, Bool, true, false, not, ◌&&◌, ◌||◌, ◌≡◌, ◌⊎◌, refl, ◌∙◌, List, [], ◌∷◌, ◌++◌, any,
  any-snoc, arith, eq_iff, ◌==◌, if◌then◌else◌, Bool-cases, inl, inr,
}
use secure_dev.Prelude.Text.{trim_space, split}
use secure_dev.Prelude.Sort.{text_lt, any-sort_by}
use secure_dev.Auth.{
  Scope, global_scope, slug_of, collect_slugs, scope_to, parsed, empty_field, is_nil, named,
  parse_scope, scope_empty, scope_allows,
}

-- A slug that the list names.
abbrev pub names : List String → String → Bool
names raw slug = any (λ r. slug_of r == slug) raw

any-collect_slugs :
    (out raw : List String) (slug : String)
    → any (λ p. p == slug) (collect_slugs out raw)
      ≡ (any (λ p. p == slug) out || (not (slug == "") && names raw slug))
unfolding collect_slugs
any-collect_slugs out [] slug = ground arith
any-collect_slugs out (r ∷ raw) slug =
    let s = slug_of r in
    ground (
      arith,
      any-collect_slugs (if s == "" || any (λ t. t == s) out then out else out ++ s ∷ []) raw slug,
      any-snoc (λ p. p == slug) out s,
      eq_iff s slug,
      eq_iff s "",
      eq_iff slug "",
    )

-- A scope over named projects reaches a project exactly if one of the names is the project's slug,
-- letter case and the space around it aside, and the slug is not empty.
pub scope_allows-scope_to :
    (raw : List String) (project : String)
    → scope_allows (scope_to raw) project
      ≡ (not (slug_of project == "") && names raw (slug_of project))
unfolding scope_allows scope_to
scope_allows-scope_to raw project =
    any-sort_by text_lt (λ p. p == slug_of project) (collect_slugs [] raw)
    ∙ any-collect_slugs [] raw (slug_of project)

named-parsed :
    (raw : String) (s t : Scope) → named raw s ≡ parsed t → (t ≡ s) × (is_nil s.projects ≡ false)
unfolding named
named-parsed raw s t h = elim (Bool-cases (is_nil s.projects)) [
  | inl e ↦ ground (arith, e, h)
  | inr e ↦ ground (arith, e, h)
]

-- The two ways for a trimmed text to be a scope.
pub field_cases :
    (raw t : String) (s : Scope)
    → (if t == ""
        then empty_field
        else if t == "*"
        then parsed global_scope
        else named raw (scope_to (split 44 t)))
      ≡ parsed s
    → (((t == "*") ≡ true) × (s ≡ global_scope))
      ⊎ (((t == "*") ≡ false)
          × (s ≡ scope_to (split 44 t))
          × (is_nil (scope_to (split 44 t)).projects ≡ false))
field_cases raw t s h = elim (Bool-cases (t == "")) [
  | inl e ↦ ground (arith, e, h)
  | inr e ↦ elim (Bool-cases (t == "*")) [
    | inl f ↦ inl (f, ground (arith, e, f, h))
    | inr f ↦
        let (same, some_named) =
          named-parsed raw (scope_to (split 44 t)) s (ground (arith, e, f, h)) in
        inr (f, same, some_named)
  ]
]

scope_to-global : (raw : List String) → (scope_to raw).global ≡ false
unfolding scope_to
scope_to-global raw = refl

-- Text that is accepted as a scope is `*`, and then the scope reaches every project, or it is a list
-- of names with commas between them, and then the scope is not empty and reaches just these
-- projects.
pub parse_scope-parsed :
    (raw : String) (s : Scope) (project : String)
    → parse_scope raw ≡ parsed s
    → (scope_empty s ≡ false)
      × (scope_allows s project ≡ (
          trim_space raw == "*"
          || not (slug_of project == "") && names (split 44 (trim_space raw)) (slug_of project)))
unfolding parse_scope scope_empty scope_allows
parse_scope-parsed raw s project h =
    let t = trim_space raw in
    elim (field_cases raw t s h) [
      | inl (star, same) ↦ rw (same, star) (refl, refl)
      | inr (star, same, some_named) ↦
          rw (same, star, scope_allows-scope_to (split 44 t) project)
            (rw (some_named, scope_to-global (split 44 t)) refl, refl)
    ]
