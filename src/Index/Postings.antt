-- ===== src/Index/Postings.antt =====
-- index/PostingsInterface.hpp: the operations of every kind of postings, and what they promise. The
-- abstract view of postings is the increasing list of the series that are not passed yet.
pub mod Lists
use prom_tcs.Prelude.{
  ℕ, zero, suc, Option, none, some, ◌≤◌, ◌<◌, ◌≡◌, refl, ◌⊎◌, Bool, true, false, List, [], ◌∷◌, ltb,
  if◌then◌else◌, All,
}

-- `next` and `seek` change the postings through mutable members, so they return them.
pub record Postings {ℓ} (S : Type ℓ) : Type ℓ where
  pub next : S → Bool × S
  pub seek : S → ℕ → Bool × S
  pub at : S → ℕ

-- Is there a number left?
abbrev pub nonempty : List ℕ → Bool
nonempty [] = false
nonempty (x ∷ l) = true

-- From the first number that is not less than `v` on.
abbrev pub drop_less : ℕ → List ℕ → List ℕ
drop_less v [] = []
drop_less v (x ∷ l) = let rest = drop_less v l in if ltb x v then rest else x ∷ l

abbrev pub IsIncreasing : List ℕ → Type 0
IsIncreasing [] = Unit {0}
IsIncreasing (x ∷ l) = All (λ y. x < y) l × IsIncreasing l

-- What a call returns when a list is left: whether the list has a number, with the postings at it.
abbrev pub Moved {ℓ} : {S : Type ℓ} → (S → List ℕ → Type 0) → Bool × S → List ℕ → Type 0
Moved Current (found, s) l = (found ≡ nonempty l) × Current s l

-- `Ahead` holds before the first call, and `Current` at the first number of the list, or at the end.
pub record IsPostings {ℓ} {S : Type ℓ} (p : Postings S) : Type (1 ⊔ ℓ) where
  pub Ahead : S → List ℕ → Type 0
  pub Current : S → List ℕ → Type 0
  pub increasing : (s : S) (l : List ℕ) → Current s l → IsIncreasing l
  pub next-ahead : (s : S) (l : List ℕ) → Ahead s l → Moved Current (p.next s) l
  pub next-current : (s : S) (x : ℕ) (l : List ℕ) → Current s (x ∷ l) → Moved Current (p.next s) l
  pub seek-current :
      (s : S) (v : ℕ) (l : List ℕ) → Current s l → Moved Current (p.seek s v) (drop_less v l)
  pub at-current : (s : S) (x : ℕ) (l : List ℕ) → Current s (x ∷ l) → p.at s ≡ x

-- `expand_postings`, where a call of `next` may have no result; `fuel` bounds the rounds.
unfoldable pub expand_postings {ℓ} :
    {S : Type ℓ} → (S → Option (Bool × S)) → (S → ℕ) → ℕ → S → Option (List ℕ)
expand_postings next at zero s = none
expand_postings next at (suc fuel) s = elim (next s) [
  | none ↦ none
  | some (found, s') ↦ elim found [
    | false ↦ some []
    | true ↦ elim (expand_postings next at fuel s') [ none ↦ none | some d ↦ some (at s' ∷ d) ]
  ]
]

module _ {ℓ} {S : Type ℓ} (next : S → Option (Bool × S)) (at : S → ℕ) where
  pub expand_postings-end :
      (fuel : ℕ) (s s' : S)
      → next s ≡ some (false, s')
      → expand_postings next at (suc fuel) s ≡ some []
  unfolding expand_postings
  expand_postings-end fuel s s' e = rw (expand_postings, e) refl

  pub expand_postings-step :
      (fuel : ℕ) (s s' : S) (d : List ℕ)
      → next s ≡ some (true, s')
      → expand_postings next at fuel s' ≡ some d
      → expand_postings next at (suc fuel) s ≡ some (at s' ∷ d)
  unfolding expand_postings
  expand_postings-step fuel s s' d e rest = rw (expand_postings, e, rest) refl
