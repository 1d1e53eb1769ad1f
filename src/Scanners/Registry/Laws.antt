-- ===== src/Scanners/Registry/Laws.antt =====
-- What registration and selection guarantee.
use mathlib.Core.List.{Permᴰ}
use secure_dev.Prelude.{
  String, ◌≡◌, refl, ◌≢◌, inl, inr, true, Option, none, some, List, [], ◌∷◌, keep, All, arith, ◌==◌,
  eq_iff, Bool-cases, All-keep, subst,
}
use secure_dev.Prelude.Sort.{
  sort_by, IsSorted, text_lt_asymm, text_lt_negtrans, sort_by-IsSorted, All-sort_by, sort_by-perm,
}
use secure_dev.Scanners.{Kind, supports}
use secure_dev.Scanners.Registry.{
  Adapter, Registry, duplicate_name, get, register, by_name, adapters, select_for, Resolution,
  resolved, refused, pick, pick_all, sorted_resolution, or_none, resolve, insert_new, check_kinds,
}

-- An adapter is registered under its own name, once, and declares a kind.
abbrev pub IsWellFormed : Registry → Type 0
IsWellFormed [] = Unit
IsWellFormed ((n, a) ∷ rest) =
    (a.name ≡ n)
    × (n ≢ "")
    × (a.capabilities.supported ≢ [])
    × (get rest n ≡ none)
    × IsWellFormed rest

-- Registration never replaces an adapter: what a name was answered by before, it is answered by
-- after, whether the call succeeds or is refused.
pub register-get_keeps :
    (r : Registry) (s : Option Adapter) (n : String) (a : Adapter)
    → get r n ≡ some a
    → get (register r s).0 n ≡ some a
unfolding register
register-get_keeps r none n a h = h
register-get_keeps r (some s) n a h = ground (arith, eq_iff s.name n)

insert_new-IsWellFormed :
    (r : Registry) (s : Adapter) (o : Option Adapter)
    → s.name ≢ ""
    → s.capabilities.supported ≢ []
    → get r s.name ≡ o
    → IsWellFormed r
    → IsWellFormed (insert_new r s o).0
unfolding insert_new
insert_new-IsWellFormed r s none named some_kind free w = (refl, named, some_kind, free, w)
insert_new-IsWellFormed r s (some a) named some_kind taken w = w

check_kinds-IsWellFormed :
    (r : Registry) (s : Adapter) (ks : List Kind)
    → s.name ≢ ""
    → s.capabilities.supported ≡ ks
    → IsWellFormed r
    → IsWellFormed (check_kinds r s ks).0
unfolding check_kinds
check_kinds-IsWellFormed r s [] named e w = w
check_kinds-IsWellFormed r s (k ∷ ks) named e w =
    insert_new-IsWellFormed r s (get r s.name) named (λ h. cc) refl w

-- Registering keeps the registry well formed, whether the call succeeds or is refused.
pub register-IsWellFormed :
    (r : Registry) (s : Option Adapter) → IsWellFormed r → IsWellFormed (register r s).0
unfolding register
register-IsWellFormed r none w = w
register-IsWellFormed r (some s) w = elim (Bool-cases (s.name == "")) [
  | inl e ↦ rw e w
  | inr e ↦
      rw e (check_kinds-IsWellFormed r s _ (λ h. absurd (ground (arith, eq_iff s.name ""))) refl w)
]

-- A name that is taken is refused, and the registry is left as it was.
pub register_duplicate :
    (r : Registry) (s a : Adapter)
    → s.name ≢ ""
    → s.capabilities.supported ≢ []
    → get r s.name ≡ some a
    → register r (some s) ≡ (r, some (duplicate_name s.name))
unfolding register
register_duplicate r s a named kinds h = ground (arith, eq_iff s.name "")

-- The adapters that the names stand for, in their order.
abbrev pub Picked : Registry → Kind → List String → List Adapter → Type 0
Picked r kind [] [] = Unit
Picked r kind (n ∷ ns) (a ∷ out) =
    (get r n ≡ some a) × (supports a.capabilities kind ≡ true) × Picked r kind ns out
Picked r kind [] (a ∷ out) = ⊥
Picked r kind (n ∷ ns) [] = ⊥

abbrev pub OnResolved : (List Adapter → Type 0) → Resolution → Type 0
OnResolved P (resolved out) = P out
OnResolved P (refused e) = Unit

pick-Picked :
    (r : Registry) (kind : Kind) (n : String) (ns : List String) (o : Option Adapter)
    (later : Resolution)
    → get r n ≡ o
    → OnResolved (Picked r kind ns) later
    → OnResolved (Picked r kind (n ∷ ns)) (pick kind n o later)
unfolding pick
pick-Picked r kind n ns none later e h = tt
pick-Picked r kind n ns (some s) (resolved out) e h =
    elim (Bool-cases (supports s.capabilities kind)) [
      | inl yes_kind ↦ rw yes_kind (e, yes_kind, h)
      | inr no_kind ↦ rw no_kind tt
    ]
pick-Picked r kind n ns (some s) (refused x) e h =
    elim (Bool-cases (supports s.capabilities kind)) [
      | inl yes_kind ↦ rw yes_kind tt
      | inr no_kind ↦ rw no_kind tt
    ]

pick_all-Picked :
    (r : Registry) (kind : Kind) (ns : List String)
    → OnResolved (Picked r kind ns) (pick_all r kind ns)
unfolding pick_all
pick_all-Picked r kind [] = tt
pick_all-Picked r kind (n ∷ ns) =
    pick-Picked r kind n ns (get r n) (pick_all r kind ns) refl (pick_all-Picked r kind ns)

by_name-IsSorted : (l : List Adapter) → IsSorted by_name (sort_by by_name l)
by_name-IsSorted =
    sort_by-IsSorted by_name (λ a b. text_lt_asymm a.name b.name)
      (λ a b c. text_lt_negtrans a.name b.name c.name)

abbrev pub ResolvedBy : Registry → Kind → List String → List Adapter → Type 0
ResolvedBy r kind ns out =
    (picked : List Adapter) × Permᴰ out picked × Picked r kind ns picked × IsSorted by_name out

sorted_resolution-ResolvedBy :
    (r : Registry) (kind : Kind) (ns : List String) (found : Resolution)
    → OnResolved (Picked r kind ns) found
    → OnResolved (ResolvedBy r kind ns) (sorted_resolution found)
unfolding sorted_resolution
sorted_resolution-ResolvedBy r kind ns (resolved out) h =
    (out, sort_by-perm by_name out, h, by_name-IsSorted out)
sorted_resolution-ResolvedBy r kind ns (refused e) h = tt

-- An explicit selection that resolves gives, sorted by name, the adapter of each name that was
-- asked for, once for each time it was named; each of them supports the kind.
pub resolve-ResolvedBy :
    (r : Registry) (kind : Kind) (n : String) (ns : List String) (out : List Adapter)
    → resolve r kind (n ∷ ns) ≡ resolved out
    → ResolvedBy r kind (n ∷ ns) out
unfolding resolve
resolve-ResolvedBy r kind n ns out h = subst (OnResolved (ResolvedBy r kind (n ∷ ns))) h (
    sorted_resolution-ResolvedBy r kind (n ∷ ns) (pick_all r kind (n ∷ ns))
      (pick_all-Picked r kind (n ∷ ns)))

or_none-resolved :
    (kind : Kind) (l out : List Adapter) → or_none kind l ≡ resolved out → (out ≡ l) × (l ≢ [])
unfolding or_none
or_none-resolved kind [] out h = cc
or_none-resolved kind (s ∷ l) out h = (cc, λ e. cc)

-- An empty selection that resolves gives some adapter; all of them support the kind, they are
-- sorted by name, and every registered adapter that supports the kind is among them.
pub resolve_default :
    (r : Registry) (kind : Kind) (out : List Adapter)
    → resolve r kind [] ≡ resolved out
    → (out ≢ [])
      × All (λ a. supports a.capabilities kind ≡ true) out
      × IsSorted by_name out
      × Permᴰ out (keep (λ a. supports a.capabilities kind) (adapters r))
unfolding resolve select_for
resolve_default r kind out h =
    let chosen = keep (λ a. supports a.capabilities kind) (adapters r) in
    let (same, nonempty) = or_none-resolved kind (sort_by by_name chosen) out h in
    rw same (
      nonempty,
      All-sort_by by_name (λ a. supports a.capabilities kind ≡ true) chosen
          (All-keep (λ a. supports a.capabilities kind) (adapters r)),
      by_name-IsSorted chosen,
      sort_by-perm by_name chosen,
    )
