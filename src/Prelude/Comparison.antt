-- ===== src/Prelude/Comparison.antt =====
-- Three-way comparisons, the lexicographic ones made of them, and sorting by one.
use Prim.Native.Nat.{compare, Ordering}
use mathlib.Core.Path.{◌≡◌, refl, sym, ap₂, ◌∙◌}
use mathlib.Core.Logic.{◌⊎◌, inl, inr}
use mathlib.Core.Bool.{Bool, true, false}
use mathlib.Core.List.{List, [], ◌∷◌}
use native.Mathlib.Omega.{arith}

abbrev pub flip : Ordering → Ordering
flip Ordering.lt = Ordering.gt
flip Ordering.eq = Ordering.eq
flip Ordering.gt = Ordering.lt

-- The second where the first finds no difference.
abbrev pub then_by : Ordering → Ordering → Ordering
then_by Ordering.lt o = Ordering.lt
then_by Ordering.eq o = o
then_by Ordering.gt o = Ordering.gt

abbrev pub is_less : Ordering → Bool
is_less Ordering.lt = true
is_less Ordering.eq = false
is_less Ordering.gt = false

-- A strict linear order.
pub record IsComparison {ℓ} {A : Type ℓ} (cmp : A → A → Ordering) : Type ℓ where
  pub equal : (a b : A) → cmp a b ≡ Ordering.eq → a ≡ b
  pub self : (a : A) → cmp a a ≡ Ordering.eq
  pub swap : (a b : A) → cmp b a ≡ flip (cmp a b)
  pub trans : (a b c : A) → cmp a b ≡ Ordering.lt → cmp b c ≡ Ordering.lt → cmp a c ≡ Ordering.lt

pub compare-IsComparison : IsComparison compare
compare-IsComparison = record {
  equal = λ a b e. ground arith;
  self = λ a. ground arith;
  swap = λ a b. ground arith;
  trans = λ a b c p q. ground arith;
}

pub Ordering-cases : (o : Ordering) → (o ≡ Ordering.lt) ⊎ ((o ≡ Ordering.eq) ⊎ (o ≡ Ordering.gt))
Ordering-cases Ordering.lt = inl refl
Ordering-cases Ordering.eq = inr (inl refl)
Ordering-cases Ordering.gt = inr (inr refl)

then_by-lt :
    (o o' : Ordering)
    → then_by o o' ≡ Ordering.lt
    → (o ≡ Ordering.lt) ⊎ ((o ≡ Ordering.eq) × (o' ≡ Ordering.lt))
then_by-lt Ordering.lt o' e = inl refl
then_by-lt Ordering.eq o' e = inr (refl, e)
then_by-lt Ordering.gt o' e = absurd (cc e)

then_by-eq : (o o' : Ordering) → then_by o o' ≡ Ordering.eq → (o ≡ Ordering.eq) × (o' ≡ Ordering.eq)
then_by-eq Ordering.lt o' e = absurd (cc e)
then_by-eq Ordering.eq o' e = (refl, e)
then_by-eq Ordering.gt o' e = absurd (cc e)

flip-then_by : (o o' : Ordering) → then_by (flip o) (flip o') ≡ flip (then_by o o')
flip-then_by Ordering.lt o' = refl
flip-then_by Ordering.eq o' = refl
flip-then_by Ordering.gt o' = refl

module _ {ℓ} {A : Type ℓ} (cmp : A → A → Ordering) (c : IsComparison cmp) where
  -- The heads are compared first.
  pub then_trans :
      (a b d : A) (o o' o'' : Ordering)
      → (o ≡ Ordering.lt → o' ≡ Ordering.lt → o'' ≡ Ordering.lt)
      → then_by (cmp a b) o ≡ Ordering.lt
      → then_by (cmp b d) o' ≡ Ordering.lt
      → then_by (cmp a d) o'' ≡ Ordering.lt
  then_trans a b d o o' o'' both p q = elim (then_by-lt (cmp a b) o p) [
    | inl h ↦ elim (then_by-lt (cmp b d) o' q) [
      | inl h' ↦ rw (c.trans a b d h h') refl
      | inr (h', t') ↦ rw (sym (c.equal b d h'), h) refl
    ]
    | inr (h, t) ↦ elim (then_by-lt (cmp b d) o' q) [
      | inl h' ↦ rw (c.equal a b h, h') refl
      | inr (h', t') ↦ rw (c.equal a b h, h', both t t') refl
    ]
  ]

  pub then-swap :
      (a b : A) (o o' : Ordering) → o' ≡ flip o → then_by (cmp b a) o' ≡ flip (then_by (cmp a b) o)
  then-swap a b o o' e = rw (c.swap a b, e) (flip-then_by (cmp a b) o)

  pub then-equal :
      (a b : A) (o : Ordering) → then_by (cmp a b) o ≡ Ordering.eq → (a ≡ b) × (o ≡ Ordering.eq)
  then-equal a b o e = let (h, t) = then_by-eq (cmp a b) o e in (c.equal a b h, t)

  pub then_self : (a : A) (o : Ordering) → then_by (cmp a a) o ≡ o
  then_self a o = rw (c.self a) refl

-- `std::string::compare` and its like: a list that ends first is less.
module _ {ℓ} {A : Type ℓ} (cmp : A → A → Ordering) where
  unfoldable pub lexicographic : List A → List A → Ordering
  lexicographic [] [] = Ordering.eq
  lexicographic [] (y ∷ ys) = Ordering.lt
  lexicographic (x ∷ xs) [] = Ordering.gt
  lexicographic (x ∷ xs) (y ∷ ys) = then_by (cmp x y) (lexicographic xs ys)

  module _ (c : IsComparison cmp) where
    lexicographic-equal : (xs ys : List A) → lexicographic xs ys ≡ Ordering.eq → xs ≡ ys
    unfolding lexicographic
    lexicographic-equal [] [] e = refl
    lexicographic-equal [] (y ∷ ys) e = absurd (cc e)
    lexicographic-equal (x ∷ xs) [] e = absurd (cc e)
    lexicographic-equal (x ∷ xs) (y ∷ ys) e =
        let (h, t) = then-equal cmp c x y (lexicographic xs ys) e in
        ap₂ (λ (a : A) (l : List A). a ∷ l) h (lexicographic-equal xs ys t)

    lexicographic_self : (xs : List A) → lexicographic xs xs ≡ Ordering.eq
    unfolding lexicographic
    lexicographic_self [] = refl
    lexicographic_self (x ∷ xs) = then_self cmp c x (lexicographic xs xs) ∙ lexicographic_self xs

    lexicographic-swap : (xs ys : List A) → lexicographic ys xs ≡ flip (lexicographic xs ys)
    unfolding lexicographic
    lexicographic-swap [] [] = refl
    lexicographic-swap [] (y ∷ ys) = refl
    lexicographic-swap (x ∷ xs) [] = refl
    lexicographic-swap (x ∷ xs) (y ∷ ys) =
        then-swap cmp c x y (lexicographic xs ys) (lexicographic ys xs) (lexicographic-swap xs ys)

    lexicographic_trans :
        (xs ys zs : List A)
        → lexicographic xs ys ≡ Ordering.lt
        → lexicographic ys zs ≡ Ordering.lt
        → lexicographic xs zs ≡ Ordering.lt
    unfolding lexicographic
    lexicographic_trans [] [] zs p q = absurd (cc p)
    lexicographic_trans [] (y ∷ ys) [] p q = absurd (cc q)
    lexicographic_trans [] (y ∷ ys) (z ∷ zs) p q = refl
    lexicographic_trans (x ∷ xs) [] zs p q = absurd (cc p)
    lexicographic_trans (x ∷ xs) (y ∷ ys) [] p q = absurd (cc q)
    lexicographic_trans (x ∷ xs) (y ∷ ys) (z ∷ zs) p q =
        then_trans cmp c x y z (lexicographic xs ys) (lexicographic ys zs) (lexicographic xs zs)
          (lexicographic_trans xs ys zs) p q

    pub lexicographic-IsComparison : IsComparison lexicographic
    lexicographic-IsComparison = record {
      equal = lexicographic-equal;
      self = lexicographic_self;
      swap = lexicographic-swap;
      trans = lexicographic_trans;
    }
