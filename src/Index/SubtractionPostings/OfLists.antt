-- ===== src/Index/SubtractionPostings/OfLists.antt =====
-- Subtractions, by index/SubtractionPostings.cpp, of the postings of index/ListPostings.cpp.
use prom_tcs.Prelude.{ℕ, suc, ◌+◌, ◌≡◌, Bool, List, some, arith, length}
use prom_tcs.Index.Postings.{IsIncreasing, expand_postings}
use prom_tcs.Index.ListPostings.{postings_of}
use prom_tcs.Index.ListPostings.Implements.{list_postings, list_postings-IsPostings, fresh-Ahead}
use prom_tcs.Index.SubtractionPostings.{subtraction, subtract_next, subtract_at}
use prom_tcs.Index.SubtractionPostings.Lists.{without}
use prom_tcs.Index.SubtractionPostings.Refines.{expand_postings-subtraction}

-- Expanding the subtraction of the postings of an increasing list from those of another returns the
-- numbers of the other that are not in the list, in order, whatever the members are that the
-- constructor leaves without a value. The fuel of each call is one more than the numbers of both
-- lists, and there is one call more than numbers in the result.
pub expand_postings-without :
    (f d : List ℕ) (indeterminate : Bool × Bool × ℕ)
    → IsIncreasing f
    → IsIncreasing d
    → expand_postings
        (subtract_next list_postings list_postings (suc (length f + length d)))
        (subtract_at list_postings list_postings)
        (suc (length (without f d)))
        (subtraction list_postings list_postings (postings_of f) (postings_of d) indeterminate)
      ≡ some (without f d)
expand_postings-without f d indeterminate inc inc' =
    expand_postings-subtraction list_postings list_postings list_postings-IsPostings
      list_postings-IsPostings (suc (length f + length d)) (suc (length (without f d)))
      (postings_of f) (postings_of d) indeterminate f d (fresh-Ahead f inc) (fresh-Ahead d inc')
      (omega arith) (omega arith)
