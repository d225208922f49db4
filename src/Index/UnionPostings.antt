-- ===== src/Index/UnionPostings.antt =====
-- index/UnionPostings.hpp and index/UnionPostings.cpp: the numbers that some of the postings have.
-- Both constructors, for shared and for unique pointers, do the same.
pub mod Sets
pub mod Refines
use prom_tcs.Prelude.{ℕ, Bool, List, [], ◌∷◌, Option, none, some, ltb, if◌then◌else◌}
use prom_tcs.Index.Postings.{Postings, expand_postings}
use prom_tcs.Index.ListPostings.{ListPostings, postings_of, next, seek, at}

-- `std::set::insert`
unfoldable pub insert_set : ℕ → List ℕ → List ℕ
insert_set x [] = x ∷ []
insert_set x (y ∷ s) =
    let later = y ∷ insert_set x s in
    if ltb x y then x ∷ y ∷ s else if ltb y x then later else y ∷ s

unfoldable pub insert_all : List ℕ → List ℕ → List ℕ
unfolding insert_set
insert_all [] s = s
insert_all (x ∷ xs) s = insert_all xs (insert_set x s)

module _ {ℓ} {S : Type ℓ} (p : Postings S) where
  -- `while (ptr->next()) s.insert(ptr->at())` for each of the postings; `fuel` bounds the rounds.
  unfoldable pub union_set : ℕ → List S → List ℕ → Option (List ℕ)
  unfolding insert_all
  union_set fuel [] s = some s
  union_set fuel (ptr ∷ ptrs) s = elim (expand_postings (λ x. some (p.next x)) p.at fuel ptr) [
    | none ↦ none
    | some d ↦ union_set fuel ptrs (insert_all d s)
  ]

  unfoldable pub union_postings : ℕ → List S → Option ListPostings
  unfolding union_set postings_of
  union_postings fuel ptrs = elim (union_set fuel ptrs []) [
    | none ↦ none
    | some d ↦ some (postings_of d)
  ]

unfoldable pub union_next : ListPostings → Bool × ListPostings
unfolding next
union_next = next

unfoldable pub union_seek : ListPostings → ℕ → Bool × ListPostings
unfolding seek
union_seek = seek

unfoldable pub union_at : ListPostings → ℕ
unfolding at
union_at = at
