-- ===== src/Examples/Intersections.antt =====
-- The theorems on the postings of index/ at concrete inputs.
use prom_tcs.Prelude.{
  suc, ◌↔◌, ◌+◌, true, false, length, ℕ, ◌≡◌, inl, inr, List, [], ◌∷◌, some, map, arith, All,
}
use prom_tcs.Index.Postings.{drop_less, IsIncreasing, expand_postings}
use prom_tcs.Index.Postings.Lists.{Member, InAll}
use prom_tcs.Index.ListPostings.{postings_of}
use prom_tcs.Index.ListPostings.Implements.{list_postings, list_postings-IsPostings}
use prom_tcs.Index.IntersectPostings.{next_all, at_all, seek_all}
use prom_tcs.Index.IntersectPostings.Refines.{Shown}
use prom_tcs.Index.IntersectPostings.Laws.{next_all-ahead, seek_all-Shown}
use prom_tcs.Index.IntersectPostings.OfLists.{fuel_of, postings-StandsAhead, expand_postings-lists}
use prom_tcs.Index.SubtractionPostings.{subtraction, subtract_next, subtract_at}
use prom_tcs.Index.SubtractionPostings.Lists.{without}
use prom_tcs.Index.SubtractionPostings.OfLists.{expand_postings-without}
use prom_tcs.Index.UnionPostings.{union_postings, union_next, union_at}
use prom_tcs.Index.UnionPostings.Sets.{InSome}
use prom_tcs.Index.UnionPostings.Refines.{union_postings-lists}

abbrev two_lists : List (List ℕ)
two_lists = (1 ∷ 3 ∷ 5 ∷ []) ∷ (3 ∷ 4 ∷ 5 ∷ []) ∷ []

abbrev common : List ℕ
common = 3 ∷ 5 ∷ []

two_lists-IsIncreasing : All IsIncreasing two_lists
two_lists-IsIncreasing = (
  ((omega arith, (omega arith, tt)), ((omega arith, tt), (tt, tt))),
  (((omega arith, (omega arith, tt)), ((omega arith, tt), (tt, tt))), tt),
)

common-IsIncreasing : IsIncreasing common
common-IsIncreasing = ((omega arith, tt), (tt, tt))

common_in_both : (y : ℕ) → Member y common → InAll y two_lists
common_in_both y (inl e) = (inr (inl e), (inl e, tt))
common_in_both y (inr (inl e)) = (inr (inr (inl e)), (inr (inr (inl e)), tt))
common_in_both y (inr (inr m)) = absurd m

both_in_common : (y : ℕ) → InAll y two_lists → Member y common
both_in_common y (inl e, (m, tt)) = elim m [
  | inl e' ↦ inl e'
  | inr m' ↦ elim m' [
    | inl e' ↦ absurd (omega (arith, e, e'))
    | inr m'' ↦ elim m'' [ inl e' ↦ inr (inl e') | inr none_left ↦ absurd none_left ]
  ]
]
both_in_common y (inr (inl e), rest) = inl e
both_in_common y (inr (inr (inl e)), rest) = inr (inl e)
both_in_common y (inr (inr (inr m)), rest) = absurd m

expand_postings-lists_example :
    expand_postings
      (next_all list_postings (fuel_of two_lists))
      (at_all list_postings)
      3
      (map postings_of two_lists)
    ≡ some common
expand_postings-lists_example =
    expand_postings-lists two_lists common two_lists-IsIncreasing common-IsIncreasing
      (λ y. (common_in_both y, both_in_common y))

-- The postings behind the first call of `next`.
standing :
    Shown list_postings list_postings-IsPostings
      (fuel_of two_lists)
      (next_all list_postings (fuel_of two_lists) (map postings_of two_lists))
      common
standing =
    next_all-ahead list_postings list_postings-IsPostings (fuel_of two_lists)
      (map postings_of two_lists) common
      (postings-StandsAhead two_lists common two_lists-IsIncreasing common-IsIncreasing
        (λ y. (common_in_both y, both_in_common y)))

seek_all-Shown_example :
    Shown list_postings list_postings-IsPostings
      (fuel_of two_lists)
      (seek_all list_postings (fuel_of two_lists) standing.0 4)
      (drop_less 4 common)
seek_all-Shown_example =
    seek_all-Shown list_postings list_postings-IsPostings (fuel_of two_lists) standing.0 4 common
      standing.2

expand_postings-without_example :
    expand_postings
      (subtract_next list_postings list_postings (suc (3 + 2)))
      (subtract_at list_postings list_postings)
      (suc (length (without (1 ∷ 3 ∷ 5 ∷ []) common)))
      (subtraction list_postings list_postings
        (postings_of (1 ∷ 3 ∷ 5 ∷ []))
        (postings_of common)
        (true, false, 99))
    ≡ some (without (1 ∷ 3 ∷ 5 ∷ []) common)
expand_postings-without_example =
    expand_postings-without (1 ∷ 3 ∷ 5 ∷ []) common (true, false, 99) two_lists-IsIncreasing.0
      common-IsIncreasing

union_postings-lists_example :
    (u : List ℕ) × (union_postings list_postings 4 (map postings_of two_lists)
      ≡ some (postings_of u))
    × (expand_postings (λ x. some (union_next x)) union_at (suc (length u)) (postings_of u)
        ≡ some u)
    × IsIncreasing u
    × ((z : ℕ) → Member z u ↔ InSome z two_lists)
union_postings-lists_example =
    union_postings-lists 4 two_lists two_lists-IsIncreasing (omega arith, (omega arith, tt))
