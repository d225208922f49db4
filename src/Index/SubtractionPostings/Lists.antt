-- ===== src/Index/SubtractionPostings/Lists.antt =====
-- The difference of two lists.
use prom_tcs.Prelude.{
  ℕ, ◌≤◌, ◌<◌, ◌≡◌, refl, ap, ◌∙◌, Bool, true, false, List, [], ◌∷◌, arith, ◌==◌, if◌then◌else◌,
  inl, inr, All, length,
}
use prom_tcs.Index.Postings.{drop_less}
use prom_tcs.Index.Postings.Lists.{drop_less-cases}

abbrev pub elem : ℕ → List ℕ → Bool
elem x [] = false
elem x (y ∷ l) = let rest = elem x l in if x == y then true else rest

-- The numbers of the first list that the second one does not have.
abbrev pub without : List ℕ → List ℕ → List ℕ
without [] d = []
without (x ∷ f) d = let rest = without f d in if elem x d then rest else x ∷ rest

pub elem-above : (x : ℕ) (d : List ℕ) → All (λ y. x < y) d → elem x d ≡ false
elem-above x [] above = refl
elem-above x (y ∷ d) above = ground (arith, above.0, elem-above x d above.1)

elem-drop_less : (v x : ℕ) (d : List ℕ) → v ≤ x → elem x (drop_less v d) ≡ elem x d
elem-drop_less v x [] h = refl
elem-drop_less v x (y ∷ d) h = elim (drop_less-cases v y d) [
  | inr (le, e) ↦ ap (elem x) e
  | inl (less, e) ↦
      let skip : elem x d ≡ elem x (y ∷ d) = ground (arith, less, h) in
      ap (elem x) e ∙ elem-drop_less v x d h ∙ skip
]

pub without-drop_less :
    (v : ℕ) (f d : List ℕ) → All (λ y. v ≤ y) f → without f (drop_less v d) ≡ without f d
without-drop_less v [] d low = refl
without-drop_less v (x ∷ f) d low =
    rw (elem-drop_less v x d low.0, without-drop_less v f d low.1) refl

pub without-nil : (f : List ℕ) → without f [] ≡ f
without-nil [] = refl
without-nil (x ∷ f) = ap (◌∷◌ x) (without-nil f)

pub All-weaken : (x : ℕ) (f : List ℕ) → All (λ y. x < y) f → All (λ y. x ≤ y) f
All-weaken x [] h = tt
All-weaken x (y ∷ f) h = (omega (arith, h.0), All-weaken x f h.1)

pub length-drop_less : (v : ℕ) (d : List ℕ) → length (drop_less v d) ≤ length d
length-drop_less v [] = omega arith
length-drop_less v (y ∷ d) = ground (arith, length-drop_less v d)

pub length-drop_less_head : (v y : ℕ) (d : List ℕ) → y < v → length (drop_less v (y ∷ d)) ≤ length d
length-drop_less_head v y d h = elim (drop_less-cases v y d) [
  | inl (less, e) ↦ rw e (length-drop_less v d)
  | inr (le, e) ↦ absurd (omega (arith, h, le))
]
