-- ===== src/Chunk/DeleteIterator.antt =====
-- chunk/DeleteIterator.hpp and chunk/DeleteIterator.cpp, over any iterator of samples. The time of a
-- sample is the number that is 2^63 more, as in the intervals.
pub mod Kept
pub mod Yields
use prom_tcs.Prelude.{
  ℕ, zero, suc, ◌+◌, ◌-◌, ◌%◌, ◌^◌, Bool, true, false, List, [], ◌∷◌, Option, none, some, ltb,
  if◌then◌else◌,
}
use prom_tcs.Tombstone.Interval.{Interval, in_bounds}

-- chunk/ChunkIteratorInterface.hpp; the iterator that is deleted from is used by these two.
pub record SampleIterator {ℓ} (S : Type ℓ) : Type ℓ where
  pub next : S → Bool × S
  pub at : S → ℕ × ℕ

-- `std::pair<int, int> p = it->at()`: the time keeps its lowest 32 bits, with their sign.
unfoldable pub as_int : ℕ → ℕ
as_int t = if ltb (t % 2 ^ 32) (2 ^ 31) then t % 2 ^ 32 + 2 ^ 63 else t % 2 ^ 32 + (2 ^ 63 - 2 ^ 32)

-- The inner loop: whether the time is deleted, and the intervals from `itvls_begin` on.
unfoldable pub skip_intervals : ℕ → List Interval → Bool × List Interval
unfolding in_bounds
skip_intervals t [] = (false, [])
skip_intervals t (i ∷ itvls) =
    let behind = skip_intervals t itvls in
    if in_bounds i t
    then (true, i ∷ itvls)
    else if ltb i.max_time t
    then behind
    else (false, i ∷ itvls)

module _ {ℓ} {S : Type ℓ} (p : SampleIterator S) where
  -- `next`, on the iterator and the intervals; without fuel there is no result.
  unfoldable pub delete_next : ℕ → S × List Interval → Option (Bool × (S × List Interval))
  unfolding skip_intervals as_int
  delete_next zero (it, itvls) = none
  delete_next (suc fuel) (it, itvls) =
      let (found, it') = p.next it in
      let (deleted, itvls') = skip_intervals (as_int (p.at it').0) itvls in
      let again = delete_next fuel (it', itvls') in
      if found
      then (if deleted then again else some (true, (it', itvls')))
      else some (false, (it', itvls))

  unfoldable pub delete_at : S × List Interval → ℕ × ℕ
  delete_at (it, itvls) = p.at it
