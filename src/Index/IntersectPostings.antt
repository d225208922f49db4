-- ===== src/Index/IntersectPostings.antt =====
-- index/IntersectPostings.hpp and index/IntersectPostings.cpp, over any kind of postings. The two
-- deques of the class, of shared and of unique pointers, are used in the same way.
pub mod Rounds
pub mod Settling
pub mod Refines
pub mod Laws
pub mod OfLists
use prom_tcs.Prelude.{
  ℕ, zero, suc, Bool, true, false, not, ◌&&◌, List, [], ◌∷◌, Option, none, some, ltb, if◌then◌else◌,
}
use prom_tcs.Index.Postings.{Postings}

module _ {ℓ} {S : Type ℓ} (p : Postings S) where
  -- `if (ptr->at() > max) max = ptr->at()`
  unfoldable pub raised : ℕ → S → ℕ
  raised max s = if ltb max (p.at s) then p.at s else max

  -- The inner loop of `recursive_next`: `max` and `find` behind it, or nothing if it returns false.
  unfoldable pub round : ℕ → List S → Option (ℕ × Bool) × List S
  unfolding raised
  round max [] = (some (max, true), [])
  round max (s ∷ ss) =
      let (has_next, s') = p.seek s max in
      let (result, ss') = round (raised max s') ss in
      let agrees : Option (ℕ × Bool) = elim result [
        | none ↦ none
        | some (max', find) ↦ some (max', not (ltb max (p.at s')) && find)
      ] in
      if not has_next then (none, s' ∷ ss) else (agrees, s' ∷ ss')

  -- `recursive_next`; without fuel there is no result.
  unfoldable pub recursive_next : ℕ → ℕ → List S → Option (Bool × List S)
  unfolding round
  recursive_next zero max ss = none
  recursive_next (suc fuel) max ss =
      let (result, ss') = round max ss in
      elim result [
        | none ↦ some (false, ss')
        | some (max', find) ↦ elim find [
          | true ↦ some (true, ss')
          | false ↦ recursive_next fuel max' ss'
        ]
      ]

  -- The loop of `next` or `seek`, where `move` is the call of either: the largest number, if all have one.
  unfoldable pub move_all : (S → Bool × S) → ℕ → List S → Option ℕ × List S
  unfolding raised
  move_all move max [] = (some max, [])
  move_all move max (s ∷ ss) =
      let (has_next, s') = move s in
      let (result, ss') = move_all move (raised max s') ss in
      if not has_next then (none, s' ∷ ss) else (result, s' ∷ ss')

  unfoldable pub moved : ℕ → Option ℕ × List S → Option (Bool × List S)
  unfolding recursive_next
  moved fuel (result, ss) = elim result [
    | none ↦ some (false, ss)
    | some max ↦ recursive_next fuel max ss
  ]

  unfoldable pub next_all : ℕ → List S → Option (Bool × List S)
  unfolding moved move_all
  next_all fuel ss = moved fuel (move_all p.next 0 ss)

  unfoldable pub seek_all : ℕ → List S → ℕ → Option (Bool × List S)
  unfolding moved move_all
  seek_all fuel ss v = moved fuel (move_all (λ s. p.seek s v) 0 ss)

  -- There is a first one: `intersect_s` and `intersect_u` make such postings of two or more.
  unfoldable pub at_all : List S → ℕ
  at_all [] = 0
  at_all (s ∷ ss) = p.at s
