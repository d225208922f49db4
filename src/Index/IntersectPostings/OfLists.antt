-- ===== src/Index/IntersectPostings/OfLists.antt =====
-- Intersections, by index/IntersectPostings.cpp, of the postings of index/ListPostings.cpp.
use prom_tcs.Prelude.{ℕ, suc, ◌≡◌, ◌↔◌, List, [], ◌∷◌, some, arith, map, length, All}
use prom_tcs.Index.Postings.{IsIncreasing, expand_postings}
use prom_tcs.Index.Postings.Lists.{Member, InAll, count_all}
use prom_tcs.Index.ListPostings.{postings_of, next}
use prom_tcs.Index.ListPostings.Implements.{list_postings, list_postings-IsPostings, fresh-Ahead}
use prom_tcs.Index.IntersectPostings.{next_all, at_all}
use prom_tcs.Index.IntersectPostings.Settling.{Moves}
use prom_tcs.Index.IntersectPostings.Laws.{StandsAhead, expand_postings-intersection}

-- The calls of `next_all` for the postings of some lists.
abbrev pub fuel_of : List (List ℕ) → ℕ
fuel_of ls = suc (count_all 0 ls)

postings-Moves :
    (ls : List (List ℕ))
    → All IsIncreasing ls
    → Moves list_postings list_postings-IsPostings next (map postings_of ls) ls
postings-Moves [] inc = tt
postings-Moves (l ∷ ls) inc = (
  list_postings-IsPostings.next-ahead (postings_of l) l (fresh-Ahead l inc.0),
  postings-Moves ls inc.1,
)

pub postings-StandsAhead :
    (ls : List (List ℕ)) (l : List ℕ)
    → All IsIncreasing ls
    → IsIncreasing l
    → ((y : ℕ) → Member y l ↔ InAll y ls)
    → StandsAhead list_postings list_postings-IsPostings (fuel_of ls) (map postings_of ls) l
postings-StandsAhead ls l all inc members = record {
  ls = ls;
  moves = postings-Moves ls all;
  members = members;
  increasing = inc;
  enough = omega arith;
}

-- Expanding the intersection of the postings of some increasing lists returns the increasing list of
-- the numbers that all of them have, each once. The fuel of each call is one more than the numbers
-- of the lists that are not 0, and there is one call more than numbers in the result.
pub expand_postings-lists :
    (ls : List (List ℕ)) (l : List ℕ)
    → All IsIncreasing ls
    → IsIncreasing l
    → ((y : ℕ) → Member y l ↔ InAll y ls)
    → expand_postings
        (next_all list_postings (fuel_of ls))
        (at_all list_postings)
        (suc (length l))
        (map postings_of ls)
      ≡ some l
expand_postings-lists ls l all inc members =
    expand_postings-intersection list_postings list_postings-IsPostings (fuel_of ls)
      (map postings_of ls) l (suc (length l)) (postings-StandsAhead ls l all inc members)
      (omega arith)
