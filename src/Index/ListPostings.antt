-- ===== src/Index/ListPostings.antt =====
-- index/ListPostings.hpp and index/ListPostings.cpp: a cursor over an ordered list of series.
pub mod Implements
use prom_tcs.Prelude.{
  ℕ, suc, ◌+◌, ◌-◌, ◌≤◌, ◌<◌, ◌≡◌, Bool, true, false, ◌||◌, List, [], ◌∷◌, ◌++◌, arith, leb, ltb,
  ◌==◌, if◌then◌else◌, Bool-cases, inl, inr, length, get_or, drop, All,
}

-- `position` is the `index` of the code and one more: 0 before the first call.
pub record ListPostings : Type 0 where
  pub list : List ℕ
  pub position : ℕ

unfoldable pub postings_of : List ℕ → ListPostings
postings_of list = record { list = list; position = 0 }

unfoldable pub next : ListPostings → Bool × ListPostings
next p = let p' = record p { position = p.position + 1 } in (leb p'.position (length p.list), p')

-- How many numbers precede the first one that is not less than `v`: `std::lower_bound`.
unfoldable pub lower_bound : List ℕ → ℕ → ℕ
lower_bound [] v = 0
lower_bound (x ∷ xs) v = let more = suc (lower_bound xs v) in if ltb x v then more else 0

-- The members where the cursor stands at `index`.
abbrev pub at_index : ListPostings → ℕ → ListPostings
at_index p index = record p { position = index + 1 }

-- `seek` behind its first two tests, at the index `index` within the list.
unfoldable pub seek_from : ListPostings → ℕ → ℕ → Bool × ListPostings
unfolding lower_bound
seek_from p index v =
    let found = index + lower_bound (drop index p.list) v in
    if leb v (get_or p.list index 0)
    then (true, at_index p index)
    else if found == length p.list
    then (false, at_index p (length p.list))
    else (true, at_index p found)

unfoldable pub seek : ListPostings → ℕ → Bool × ListPostings
unfolding seek_from
seek p v =
    if (length p.list == 0) || ltb (length p.list) p.position
    then (false, p)
    else seek_from p (p.position - 1) v

unfoldable pub at : ListPostings → ℕ
at p = get_or p.list (p.position - 1) 0

pub lower_bound-stops :
    (xs : List ℕ) (v : ℕ)
    → (lower_bound xs v ≤ length xs)
      × ((lower_bound xs v < length xs) → v ≤ get_or xs (lower_bound xs v) 0)
unfolding lower_bound
lower_bound-stops [] v = (omega arith, λ h. absurd (omega arith))
lower_bound-stops (x ∷ xs) v = elim (Bool-cases (ltb x v)) [
  | inl t ↦ let (le, stops) = lower_bound-stops xs v in rw t (omega arith, λ h. stops (omega arith))
  | inr f ↦ rw f (omega arith, λ h. ground arith)
]

-- Where a cursor of index `index` is: before the first number it is at the first one.
abbrev pub index_of : ListPostings → ℕ
index_of p = p.position - 1

-- What `seek` promises of the numbers from the cursor on, in whatever order they are: those that it
-- passes are less than `v`; it returns whether there are others, and the cursor is at the first of
-- them, or at the end; a cursor at the end stays.
pub record Seeks (p : ListPostings) (v : ℕ) (result : Bool × ListPostings) : Type 0 where
  pub same_list : result.1.list ≡ p.list
  pub forward : index_of p ≤ index_of result.1
  pub passed : (i : ℕ) → index_of p ≤ i → i < index_of result.1 → get_or p.list i 0 < v
  pub found : result.0 ≡ ltb (index_of result.1) (length p.list)
  pub stops : result.0 ≡ true → v ≤ at result.1
