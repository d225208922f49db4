-- ===== src/Examples/Deletions.antt =====
-- The theorem on the iterator of chunk/DeleteIterator.cpp at a concrete input.
use prom_tcs.Prelude.{ℕ, ◌≡◌, refl, List, [], ◌∷◌, some, arith, length, ◌<◌}
use prom_tcs.Tombstone.Interval.{Interval}
use prom_tcs.Chunk.DeleteIterator.{as_int, delete_next, delete_at}
use prom_tcs.Chunk.DeleteIterator.Kept.{kept, IsTimeline}
use prom_tcs.Chunk.DeleteIterator.Yields.{
  yielded, list_iterator, list_iterator-IsSampleIterator, yielded-delete_next,
}

-- The times 5 and 25, of which an interval from 20 to 30 has the second.
abbrev samples : List (ℕ × ℕ)
samples = (9223372036854775813, 1) ∷ (9223372036854775833, 2) ∷ []

abbrev deleted : List Interval
deleted = record { min_time = 9223372036854775828; max_time = 9223372036854775838 } ∷ []

samples-IsTimeline : IsTimeline 0 samples
unfolding as_int
samples-IsTimeline = (omega arith, (refl, (omega arith, (refl, tt))))

samples_shown : list_iterator-IsSampleIterator.Shows (samples, (0, 0)) samples
unfolding list_iterator-IsSampleIterator
samples_shown = refl

kept_few : length (kept samples deleted) < 3
unfolding kept
kept_few = omega arith

yielded-delete_next_example :
    yielded (delete_next list_iterator 3) (delete_at list_iterator) 3 ((samples, (0, 0)), deleted)
    ≡ some (kept samples deleted)
yielded-delete_next_example =
    yielded-delete_next list_iterator list_iterator-IsSampleIterator 3 0 0 3 (samples, (0, 0))
      samples deleted samples-IsTimeline (omega arith, (omega arith, tt)) samples_shown
      (omega arith) kept_few
