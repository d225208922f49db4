-- ===== src/Prelude/Sorting.antt =====
-- Sorting: `std::sort`, whose result does not depend on the way it sorts.
use prom_tcs.Prelude.Lists.{All}
use prom_tcs.Prelude.Tests.{if◌then◌else◌, Bool-cases}
use mathlib.Core.Path.{◌≡◌, sym, ap₂, subst}
use mathlib.Core.Logic.{inl, inr}
use mathlib.Core.Logic.Or
use mathlib.Core.Bool.{Bool, true, false, Bool-set}
use mathlib.Core.List.{List, [], ◌∷◌, Mem, Perm, not-mem-nil, mem-cons_self, eq-or-mem_of_mem-cons}
use mathlib.Core.List.Perm

-- The order by which the code sorts.
pub record IsOrder {ℓ} {A : Type ℓ} (less : A → A → Bool) : Type ℓ where
  pub self : (x : A) → less x x ≡ false
  pub equal : (x y : A) → less x y ≡ false → less y x ≡ false → x ≡ y
  pub asym : (x y : A) → less x y ≡ true → less y x ≡ false
  pub trans : (x y z : A) → less y x ≡ false → less z y ≡ false → less z x ≡ false

module _ {ℓ} {A : Type ℓ} (less : A → A → Bool) where
  unfoldable pub insert : A → List A → List A
  insert x [] = x ∷ []
  insert x (y ∷ ys) = let more = y ∷ insert x ys in if less y x then more else x ∷ y ∷ ys

  unfoldable pub sort : List A → List A
  unfolding insert
  sort [] = []
  sort (x ∷ xs) = insert x (sort xs)

  -- `x` is not more than any of the items.
  abbrev pub IsLow : A → List A → Type 0
  IsLow x xs = All (λ y. less y x ≡ false) xs

  -- No item is less than an earlier one.
  abbrev pub IsSorted : List A → Type 0
  IsSorted [] = Unit {0}
  IsSorted (x ∷ xs) = IsLow x xs × IsSorted xs

  insert-Perm : (x : A) (ys : List A) → Perm (x ∷ ys) (insert x ys)
  unfolding insert
  insert-Perm x [] = Perm.refl (x ∷ [])
  insert-Perm x (y ∷ ys) = elim (Bool-cases (less y x)) [
    | inl t ↦ rw t (Perm.trans (Perm.swap y x ys) (Perm.cons y (insert-Perm x ys)))
    | inr f ↦ rw f (Perm.refl (x ∷ y ∷ ys))
  ]

  pub sort-Perm : (xs : List A) → Perm xs (sort xs)
  unfolding sort
  sort-Perm [] = Perm.refl []
  sort-Perm (x ∷ xs) = Perm.trans (Perm.cons x (sort-Perm xs)) (insert-Perm x (sort xs))

  insert-IsLow : (z x : A) (ys : List A) → less x z ≡ false → IsLow z ys → IsLow z (insert x ys)
  unfolding insert
  insert-IsLow z x [] h low = (h, tt)
  insert-IsLow z x (y ∷ ys) h low = elim (Bool-cases (less y x)) [
    | inl t ↦ rw t (low.0, insert-IsLow z x ys h low.1)
    | inr f ↦ rw f (h, low)
  ]

  module _ (o : IsOrder less) where
    IsLow-trans : (x y : A) (zs : List A) → less y x ≡ false → IsLow y zs → IsLow x zs
    IsLow-trans x y [] h low = tt
    IsLow-trans x y (z ∷ zs) h low = (o.trans x y z h low.0, IsLow-trans x y zs h low.1)

    pub insert-IsSorted : (x : A) (ys : List A) → IsSorted ys → IsSorted (insert x ys)
    unfolding insert
    insert-IsSorted x [] s = (tt, tt)
    insert-IsSorted x (y ∷ ys) s = elim (Bool-cases (less y x)) [
      | inl t ↦ rw t (insert-IsLow y x ys (o.asym y x t) s.0, insert-IsSorted x ys s.1)
      | inr f ↦ rw f ((f, IsLow-trans x y ys f s.0), s)
    ]

    pub sort-IsSorted : (xs : List A) → IsSorted (sort xs)
    unfolding sort
    sort-IsSorted [] = tt
    sort-IsSorted (x ∷ xs) = insert-IsSorted x (sort xs) (sort-IsSorted xs)

    IsLow-Mem : (x y : A) (xs : List A) → IsLow x xs → Mem y xs → less y x ≡ false
    IsLow-Mem x y [] low m = absurd (not-mem-nil m)
    IsLow-Mem x y (z ∷ xs) low m =
        Or.elim (Bool-set _ _) (eq-or-mem_of_mem-cons m) (λ e. rw e low.0)
          (λ m'. IsLow-Mem x y xs low.1 m')

    head-IsLow : (x y : A) (xs : List A) → IsSorted (x ∷ xs) → Mem y (x ∷ xs) → less y x ≡ false
    head-IsLow x y xs s m =
        Or.elim (Bool-set _ _) (eq-or-mem_of_mem-cons m) (λ e. rw e (o.self x))
          (λ m'. IsLow-Mem x y xs s.0 m')

    -- There is one way to sort a list.
    pub sorted_unique : (xs ys : List A) → Perm xs ys → IsSorted xs → IsSorted ys → xs ≡ ys
    sorted_unique [] ys p s s' = Perm.nil-eq p
    sorted_unique (x ∷ xs) [] p s s' = sym (Perm.nil-eq (Perm.symm p))
    sorted_unique (x ∷ xs) (y ∷ ys) p s s' =
        let below = head-IsLow x y xs s (Perm.subset (Perm.symm p) y mem-cons_self) in
        let above = head-IsLow y x ys s' (Perm.subset p x mem-cons_self) in
        let e = o.equal x y above below in
        ap₂ (λ (a : A) (l : List A). a ∷ l) e
          (sorted_unique xs ys (Perm.cons_inv (subst (λ (a : A). Perm (x ∷ xs) (a ∷ ys)) (sym e) p))
            s.1 s'.1)

    pub sort-sorted : (xs : List A) → IsSorted xs → sort xs ≡ xs
    sort-sorted xs s = sorted_unique (sort xs) xs (Perm.symm (sort-Perm xs)) (sort-IsSorted xs) s
