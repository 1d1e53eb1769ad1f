-- ===== src/Prelude/Sort/Insertion.antt =====
-- Stable sorting by a Boolean `less`: the result of Go's sort.SliceStable, and of sort.Strings.
use Prim.Native.Nat.{suc}
use mathlib.Core.Path.{◌≡◌, refl, ap, ap₂, ◌∙◌}
use mathlib.Core.Bool.{Bool, true, false, ◌||◌}
use mathlib.Core.List.Permᴰ
use mathlib.Core.List.{List, [], ◌∷◌, Permᴰ}
use mathlib.Core.Logic.{inl, inr}
use native.Mathlib.Omega.{arith}
use secure_dev.Prelude.Tests.{if◌then◌else◌, Bool-cases}
use secure_dev.Prelude.Lists.{length, any, count_if, All}

module _ {ℓ} {A : Type ℓ} (less : A → A → Bool) where
  unfoldable pub insert : A → List A → List A
  insert x [] = x ∷ []
  insert x (y ∷ ys) = let rest = insert x ys in if less y x then y ∷ rest else x ∷ y ∷ ys

  unfoldable pub sort_by : List A → List A
  unfolding insert
  sort_by [] = []
  sort_by (x ∷ xs) = insert x (sort_by xs)

  abbrev pub IsSorted : List A → Type 0
  IsSorted [] = Unit
  IsSorted (x ∷ xs) = All (λ y. less y x ≡ false) xs × IsSorted xs

  any-insert : (p : A → Bool) (x : A) (ys : List A) → any p (insert x ys) ≡ (p x || any p ys)
  unfolding insert
  any-insert p x [] = refl
  any-insert p x (y ∷ ys) = ground (arith, any-insert p x ys)

  -- Sorting changes no test that looks at each element.
  pub any-sort_by : (p : A → Bool) (xs : List A) → any p (sort_by xs) ≡ any p xs
  unfolding sort_by
  any-sort_by p [] = refl
  any-sort_by p (x ∷ xs) = any-insert p x (sort_by xs) ∙ ap (λ b. p x || b) (any-sort_by p xs)

  count_if-insert :
      (p : A → Bool) (x : A) (ys : List A)
      → count_if p (insert x ys) ≡ (let rest = count_if p ys in if p x then suc rest else rest)
  unfolding insert
  count_if-insert p x [] = refl
  count_if-insert p x (y ∷ ys) = ground (arith, count_if-insert p x ys)

  pub count_if-sort_by : (p : A → Bool) (xs : List A) → count_if p (sort_by xs) ≡ count_if p xs
  unfolding sort_by
  count_if-sort_by p [] = refl
  count_if-sort_by p (x ∷ xs) =
      count_if-insert p x (sort_by xs) ∙ ap (λ n. if p x then suc n else n) (count_if-sort_by p xs)

  length-insert : (x : A) (ys : List A) → length (insert x ys) ≡ suc (length ys)
  unfolding insert
  length-insert x [] = refl
  length-insert x (y ∷ ys) = ground (arith, length-insert x ys)

  pub length-sort_by : (xs : List A) → length (sort_by xs) ≡ length xs
  unfolding sort_by
  length-sort_by [] = refl
  length-sort_by (x ∷ xs) = length-insert x (sort_by xs) ∙ ap suc (length-sort_by xs)

  All-insert {κ} : (P : A → Type κ) (x : A) (ys : List A) → P x → All P ys → All P (insert x ys)
  unfolding insert
  All-insert P x [] p h = (p, tt)
  All-insert P x (y ∷ ys) p (q, h) = elim (Bool-cases (less y x)) [
    | inl e ↦ rw e (q, All-insert P x ys p h)
    | inr e ↦ rw e (p, (q, h))
  ]

  pub All-sort_by {κ} : (P : A → Type κ) (xs : List A) → All P xs → All P (sort_by xs)
  unfolding sort_by
  All-sort_by P [] h = tt
  All-sort_by P (x ∷ xs) h = All-insert P x (sort_by xs) h.0 (All-sort_by P xs h.1)

  insert-perm : (x : A) (ys : List A) → Permᴰ (insert x ys) (x ∷ ys)
  unfolding insert
  insert-perm x [] = Permᴰ.refl (x ∷ [])
  insert-perm x (y ∷ ys) = elim (Bool-cases (less y x)) [
    | inl e ↦ rw e (Permᴰ.trans (Permᴰ.cons refl (insert-perm x ys)) (Permᴰ.swap refl refl))
    | inr e ↦ rw e (Permᴰ.refl (x ∷ y ∷ ys))
  ]

  pub sort_by-perm : (xs : List A) → Permᴰ (sort_by xs) xs
  unfolding sort_by
  sort_by-perm [] = Permᴰ.nil
  sort_by-perm (x ∷ xs) =
      Permᴰ.trans (insert-perm x (sort_by xs)) (Permᴰ.cons refl (sort_by-perm xs))

  module _ (asymm : (a b : A) → less a b ≡ true → less b a ≡ false)
      (negtrans : (a b c : A) → less a b ≡ false → less b c ≡ false → less a c ≡ false) where
    All-not_less :
        (x y : A) (ys : List A)
        → less y x ≡ false
        → All (λ z. less z y ≡ false) ys
        → All (λ z. less z x ≡ false) ys
    All-not_less x y [] h k = tt
    All-not_less x y (z ∷ zs) h k = (negtrans z y x k.0 h, All-not_less x y zs h k.1)

    insert-IsSorted : (x : A) (ys : List A) → IsSorted ys → IsSorted (insert x ys)
    unfolding insert
    insert-IsSorted x [] s = (tt, tt)
    insert-IsSorted x (y ∷ ys) s = elim (Bool-cases (less y x)) [
      | inl e ↦
          rw e (All-insert (λ z. less z y ≡ false) x ys (asymm y x e) s.0, insert-IsSorted x ys s.1)
      | inr e ↦ rw e ((e, All-not_less x y ys e s.0), s)
    ]

    pub sort_by-IsSorted : (xs : List A) → IsSorted (sort_by xs)
    unfolding sort_by
    sort_by-IsSorted [] = tt
    sort_by-IsSorted (x ∷ xs) = insert-IsSorted x (sort_by xs) (sort_by-IsSorted xs)

    module _ (connex : (a b : A) → less a b ≡ false → less b a ≡ false → a ≡ b) where
      insert_comm : (x y : A) (l : List A) → insert x (insert y l) ≡ insert y (insert x l)
      unfolding insert
      insert_comm x y [] = ground (arith, asymm x y, asymm y x, connex x y)
      insert_comm x y (z ∷ l) = ground (
        arith,
        insert_comm x y l,
        asymm x y,
        asymm y x,
        connex x y,
        asymm y z,
        asymm z x,
        negtrans z x y,
        negtrans z y x,
        connex x z,
        connex y z,
        asymm x z,
        asymm z y,
      )

      -- Where the order is linear, the order of the input does not show in the output.
      pub sort_by_of_perm : {xs ys : List A} → Permᴰ xs ys → sort_by xs ≡ sort_by ys
      unfolding sort_by
      sort_by_of_perm Permᴰ.nil = refl
      sort_by_of_perm (Permᴰ.cons e p) = ap₂ insert e (sort_by_of_perm p)
      sort_by_of_perm (Permᴰ.swap {a = a} {b = b} {l = l} e f) =
          rw (← e, ← f) (insert_comm a b (sort_by l))
      sort_by_of_perm (Permᴰ.trans p q) = sort_by_of_perm p ∙ sort_by_of_perm q
