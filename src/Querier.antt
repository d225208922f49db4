-- ===== src/Querier.antt =====
-- querier/SeriesIteratorInterface.hpp: the iterators over the samples of series.
pub mod ChainSeriesIterator
pub mod MergeSeriesIterator
use prom_tcs.Prelude.{ℕ, Bool}
use prom_tcs.Chunk.DeleteIterator.{SampleIterator}

-- SeriesIteratorInterface, whose members change what they point to.
pub record SeriesIterator {ℓ} (S : Type ℓ) : Type ℓ where
  pub samples : SampleIterator S
  pub seek : S → ℕ → Bool × S
  pub error : S → Bool
