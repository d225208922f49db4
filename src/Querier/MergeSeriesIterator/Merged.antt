-- ===== src/Querier/MergeSeriesIterator/Merged.antt =====
-- Increasing lists of samples, merged into one.
use prom_tcs.Prelude.{
  ℕ, zero, suc, ◌+◌, ◌≤◌, ◌<◌, ◌≡◌, ◌≢◌, refl, false, Option, none, some, List, [], ◌∷◌, arith,
  length, length-append, concat, ltb, ◌==◌, if◌then◌else◌, Bool-cases, inl, inr,
}
use prom_tcs.Querier.MergeSeriesIterator.Picks.{least, last_value}

abbrev pub push : List (ℕ × ℕ) → List (List (ℕ × ℕ)) → List (List (ℕ × ℕ))
push [] ls = ls
push (x ∷ l) ls = (x ∷ l) ∷ ls

abbrev pub firsts : List (List (ℕ × ℕ)) → List (ℕ × ℕ)
firsts [] = []
firsts ([] ∷ ls) = firsts ls
firsts ((x ∷ l) ∷ ls) = x ∷ firsts ls

-- The lists without their first samples of time `t`; empty lists are left out.
unfoldable pub rest_of : ℕ → List (List (ℕ × ℕ)) → List (List (ℕ × ℕ))
rest_of t [] = []
rest_of t ([] ∷ ls) = rest_of t ls
rest_of t ((x ∷ l) ∷ ls) =
    let rest = rest_of t ls in if x.0 == t then push l rest else (x ∷ l) ∷ rest

-- The least time first, with the value of the last list that has it.
unfoldable pub merged : ℕ → List (List (ℕ × ℕ)) → List (ℕ × ℕ)
unfolding rest_of
merged zero ls = []
merged (suc n) [] = []
merged (suc n) ([] ∷ ls) = []
merged (suc n) ((x ∷ l) ∷ ls) =
    let t = least x.0 (firsts ls) in
    (t, last_value t 0 (x ∷ firsts ls)) ∷ merged n (rest_of t ((x ∷ l) ∷ ls))

abbrev pub total : List (List (ℕ × ℕ)) → ℕ
total ls = length (concat ls)

-- The times increase, from `low` on.
abbrev pub Increases : ℕ → List (ℕ × ℕ) → Type 0
Increases low [] = Unit {0}
Increases low (x ∷ l) = (low ≤ x.0) × Increases (x.0 + 1) l

-- The value at time `t`.
unfoldable pub lookup : ℕ → List (ℕ × ℕ) → Option ℕ
lookup t [] = none
lookup t (x ∷ l) = if x.0 == t then some x.1 else lookup t l

abbrev pub later_one : Option ℕ → Option ℕ → Option ℕ
later_one o none = o
later_one o (some v) = some v

-- The value that the last of the lists has at time `t`, or `o`.
unfoldable pub found_in : ℕ → Option ℕ → List (List (ℕ × ℕ)) → Option ℕ
unfolding lookup
found_in t o [] = o
found_in t o (l ∷ ls) = found_in t (later_one o (lookup t l)) ls

pub lookup-above : (t low : ℕ) (l : List (ℕ × ℕ)) → t < low → Increases low l → lookup t l ≡ none
unfolding lookup
lookup-above t low [] h i = refl
lookup-above t low (x ∷ l) h i =
    let other : x.0 == t ≡ false = ground (arith, i.0) in
    rw other (lookup-above t (x.0 + 1) l (omega (arith, i.0)) i.1)

pub total-push :
    (l : List (ℕ × ℕ)) (ls : List (List (ℕ × ℕ))) → total (push l ls) ≡ length l + total ls
total-push [] ls = omega arith
total-push (x ∷ l) ls = length-append (x ∷ l) (concat ls)

pub total-rest_of : (t : ℕ) (ls : List (List (ℕ × ℕ))) → total (rest_of t ls) ≤ total ls
unfolding rest_of
total-rest_of t [] = omega arith
total-rest_of t ([] ∷ ls) = total-rest_of t ls
total-rest_of t ((x ∷ l) ∷ ls) =
    let ih = total-rest_of t ls in
    elim (Bool-cases (x.0 == t)) [
      | inl e ↦ rw e (omega (arith, ih, total-push l (rest_of t ls), length-append l (concat ls)))
      | inr e ↦
          rw e (
            omega (arith, ih, length-append l (concat (rest_of t ls)), length-append l (concat ls)))
    ]

-- Where the least time is below `b`, a list starts at it.
pub total-smaller :
    (t b : ℕ) (ls : List (List (ℕ × ℕ)))
    → t ≡ least b (firsts ls)
    → t ≢ b
    → total (rest_of t ls) < total ls
unfolding rest_of least
total-smaller t b [] e n = absurd (n e)
total-smaller t b ([] ∷ ls) e n = total-smaller t b ls e n
total-smaller t b ((x ∷ l) ∷ ls) e n = elim (Bool-cases (x.0 == t)) [
  | inl same ↦
      rw same (
        omega (arith, total-rest_of t ls, total-push l (rest_of t ls), length-append l (concat ls)))
  | inr other ↦
      let ih =
        total-smaller t (if ltb x.0 b then x.0 else b) ls e (λ q. ground (arith, n, q, other)) in
      rw other
        (omega (arith, ih, length-append l (concat (rest_of t ls)), length-append l (concat ls)))
]
