-- ===== src/Examples/Queries.antt =====
-- Concrete runs of the iterators of querier/.
use prom_tcs.Prelude.{
  ℕ, ◌≡◌, refl, Bool, true, false, none, some, List, [], ◌∷◌, arith, concat, ltb, if◌then◌else◌,
}
use prom_tcs.Chunk.DeleteIterator.Yields.{yielded, list_iterator, list_iterator-IsSampleIterator}
use prom_tcs.Querier.{SeriesIterator}
use prom_tcs.Querier.ChainSeriesIterator.{new_chain, chain_next, seek_loop, chain_seek, chain_at}
use prom_tcs.Querier.ChainSeriesIterator.Yields.{AllShow, yielded-chain_next}
use prom_tcs.Querier.ChainSeriesIterator.Seeks.{chain_seek_lem}
use prom_tcs.Querier.MergeSeriesIterator.{
  new_merge, keep, advance, pick_step, pick_loop, pick, merge_next, merge_at,
}
use prom_tcs.Querier.MergeSeriesIterator.Merged.{Increases, lookup, found_in}
use prom_tcs.Querier.MergeSeriesIterator.Yields as Show
use prom_tcs.Querier.MergeSeriesIterator.Yields.{yielded-merge_next}

abbrev Cursor : Type 0
Cursor = List (ℕ × ℕ) × (ℕ × ℕ)

seek_list : ℕ → List (ℕ × ℕ) → Bool × Cursor
seek_list t [] = (false, ([], (0, 0)))
seek_list t (x ∷ l) = let rest = seek_list t l in if ltb x.0 t then rest else (true, (l, x))

abbrev list_series : SeriesIterator Cursor
list_series = record { samples = list_iterator; seek = λ s t. seek_list t s.0; error = λ s. false }

abbrev early : List (ℕ × ℕ)
early = (10, 1) ∷ (20, 2) ∷ []

abbrev late : List (ℕ × ℕ)
late = (30, 3) ∷ []

abbrev three : List Cursor
three = (early, (0, 0)) ∷ ([], (0, 0)) ∷ (late, (0, 0)) ∷ []

three_show :
    AllShow list_series list_iterator-IsSampleIterator (λ s h. refl) three (early ∷ [] ∷ late ∷ [])
unfolding list_iterator-IsSampleIterator
three_show = (refl, (refl, (refl, tt)))

yielded-chain_next_example :
    yielded (chain_next list_series 4) (chain_at list_series) 4 (new_chain three)
    ≡ some (concat (early ∷ [] ∷ late ∷ []))
yielded-chain_next_example =
    yielded-chain_next list_series list_iterator-IsSampleIterator (λ s h. refl) 4 4 three
      (early ∷ [] ∷ late ∷ []) three_show (omega arith) (omega arith)

chain_seek_example :
    ((chain_seek list_series (new_chain three) 25).0 ≡ (seek_list 25 early).0)
    × ((chain_seek list_series (new_chain three) 25).1.i ≡ (new_chain three).i)
unfolding new_chain
chain_seek_example =
    chain_seek_lem list_series (new_chain three) 25 (early, (0, 0)) (omega arith) refl

-- The third series has a sample of time 30.
seek_misses : (chain_seek list_series (new_chain three) 25).0 ≡ false
unfolding chain_seek seek_loop seek_list new_chain
seek_misses = refl

-- Another series, which has the time 10 as well.
abbrev other : List (ℕ × ℕ)
other = (10, 7) ∷ (15, 8) ∷ []

abbrev two : List Cursor
two = (early, (0, 0)) ∷ (other, (0, 0)) ∷ []

abbrev two_merged : List (ℕ × ℕ)
two_merged = (10, 7) ∷ (15, 8) ∷ (20, 2) ∷ []

merges_two :
    yielded (λ m. some (merge_next list_series m)) merge_at 5 (new_merge two 0 0) ≡ some two_merged
unfolding yielded merge_next merge_at new_merge keep advance pick pick_loop pick_step
merges_two = refl

two_show : Show.AllShow list_series list_iterator-IsSampleIterator two (early ∷ other ∷ [])
unfolding list_iterator-IsSampleIterator
two_show = (refl, (refl, tt))

yielded-merge_next_example :
    (out : List (ℕ × ℕ)) × (yielded
        (λ m. some (merge_next list_series m))
        merge_at
        5
        (new_merge two 0 0)
      ≡ some out)
    × Increases 0 out
    × (lookup 10 out ≡ found_in 10 none (early ∷ other ∷ []))
yielded-merge_next_example =
    yielded-merge_next list_series list_iterator-IsSampleIterator 5 0 0 10 two (early ∷ other ∷ [])
      two_show (omega arith) (omega arith)
