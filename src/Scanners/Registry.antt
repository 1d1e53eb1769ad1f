-- ===== src/Scanners/Registry.antt =====
-- internal/scanners/registry.go. The map of adapters by name is an association list; Go's order of
-- iteration over it is left open, and no result depends on it.
pub mod Laws
use secure_dev.Prelude.{
  String, Bool, true, false, Option, none, some, List, [], ◌∷◌, keep, map, ◌==◌, if◌then◌else◌,
}
use secure_dev.Prelude.Sort.{sort_by, text_lt}
use secure_dev.Scanners.{Kind, Capabilities, supports}

-- What selection asks of an adapter: its name and its declared capabilities.
pub record Adapter : Type 0 where
  pub name : String
  pub capabilities : Capabilities

abbrev pub Registry : Type 0
Registry = List (String × Adapter)

unfoldable pub new_registry : Registry
new_registry = []

pub data RegisterError : Type 0 where
  nil_scanner empty_name : RegisterError
  no_kinds duplicate_name : String → RegisterError

-- `Get`
unfoldable pub get : Registry → String → Option Adapter
get [] name = none
get ((n, a) ∷ rest) name = if n == name then some a else get rest name

insert_new : Registry → Adapter → Option Adapter → Registry × Option RegisterError
insert_new r s none = ((s.name, s) ∷ r, none)
insert_new r s (some _) = (r, some (duplicate_name s.name))

check_kinds : Registry → Adapter → List Kind → Registry × Option RegisterError
unfolding get insert_new
check_kinds r s [] = (r, some (no_kinds s.name))
check_kinds r s (_ ∷ _) = insert_new r s (get r s.name)

-- `Register`: on an error the registry is returned as it was.
unfoldable pub register : Registry → Option Adapter → Registry × Option RegisterError
unfolding check_kinds
register r none = (r, some nil_scanner)
register r (some s) =
    if s.name == "" then (r, some empty_name) else check_kinds r s s.capabilities.supported

-- The adapters as the loop over the map meets them.
abbrev pub adapters : Registry → List Adapter
adapters r = map (λ e. e.1) r

abbrev pub by_name : Adapter → Adapter → Bool
by_name a b = text_lt a.name b.name

unfoldable pub names : Registry → List String
unfolding sort_by
names r = sort_by text_lt (map (λ e. e.0) r)

unfoldable pub select_for : Registry → Kind → List Adapter
unfolding sort_by supports
select_for r kind = sort_by by_name (keep (λ s. supports s.capabilities kind) (adapters r))

pub data ResolveError : Type 0 where
  none_supports : Kind → ResolveError
  not_registered : String → ResolveError
  not_supported : String → Kind → ResolveError

pub data Resolution : Type 0 where
  resolved : List Adapter → Resolution
  refused : ResolveError → Resolution

or_none : Kind → List Adapter → Resolution
or_none kind [] = refused (none_supports kind)
or_none kind (s ∷ rest) = resolved (s ∷ rest)

pick : Kind → String → Option Adapter → Resolution → Resolution
pick kind name none later = refused (not_registered name)
pick kind name (some s) (resolved later) =
    if supports s.capabilities kind then resolved (s ∷ later) else refused (not_supported name kind)
pick kind name (some s) (refused e) =
    if supports s.capabilities kind then refused e else refused (not_supported name kind)

-- The loop over the names: the first name that fails decides the error.
pick_all : Registry → Kind → List String → Resolution
unfolding pick get supports
pick_all r kind [] = resolved []
pick_all r kind (name ∷ rest) = pick kind name (get r name) (pick_all r kind rest)

sorted_resolution : Resolution → Resolution
unfolding sort_by
sorted_resolution (resolved out) = resolved (sort_by by_name out)
sorted_resolution (refused e) = refused e

unfoldable pub resolve : Registry → Kind → List String → Resolution
unfolding or_none select_for pick_all sorted_resolution
resolve r kind [] = or_none kind (select_for r kind)
resolve r kind (name ∷ rest) = sorted_resolution (pick_all r kind (name ∷ rest))
