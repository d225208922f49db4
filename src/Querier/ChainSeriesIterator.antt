-- ===== src/Querier/ChainSeriesIterator.antt =====
-- querier/ChainSeriesIterator.hpp and querier/ChainSeriesIterator.cpp, over any iterators of series.
-- A series is the iterator that its member `iterator` makes.
pub mod Yields
pub mod Seeks
use prom_tcs.Prelude.{
  ℕ, zero, suc, ◌+◌, ◌-◌, Bool, true, false, Option, none, some, List, [], ◌∷◌, length, ◌==◌,
  if◌then◌else◌,
}
use prom_tcs.Querier.{SeriesIterator}

abbrev pub nth {ℓ} : {A : Type ℓ} → List A → ℕ → Option A
nth [] i = none
nth (x ∷ xs) zero = some x
nth (x ∷ xs) (suc i) = nth xs i

pub record Chain {ℓ} (S : Type ℓ) : Type ℓ where
  pub series : List S
  pub i : ℕ
  pub cur : Option S

unfoldable pub new_chain {ℓ} : {S : Type ℓ} → List S → Chain S
new_chain series = record { series = series; i = 0; cur = nth series 0 }

module _ {ℓ} {S : Type ℓ} (p : SeriesIterator S) where
  -- The loop of `seek` at index `j`, with `rounds` left: the series that is sought is that of `i`.
  unfoldable pub seek_loop : ℕ → ℕ → Chain S → ℕ → Bool × Chain S
  seek_loop zero j c t = (false, c)
  seek_loop (suc rounds) j c t = elim (nth c.series c.i) [
    | none ↦ (false, c)
    | some fresh ↦
        let rest = seek_loop rounds (j + 1) c t in
        let (found, temp) = p.seek fresh t in
        if found then (true, record c { i = j; cur = some temp }) else rest
  ]

  unfoldable pub chain_seek : Chain S → ℕ → Bool × Chain S
  unfolding seek_loop
  chain_seek c t = seek_loop (length c.series - c.i) c.i c t

  -- `at` is not called before `next`.
  unfoldable pub chain_at : Chain S → ℕ × ℕ
  chain_at c = elim c.cur [ none ↦ (0, 0) | some it ↦ p.samples.at it ]

  -- `next`, which calls itself for the next series; without fuel there is no result.
  unfoldable pub chain_next : ℕ → Chain S → Option (Bool × Chain S)
  chain_next zero c = none
  chain_next (suc fuel) c = elim c.cur [
    | none ↦ some (false, c)
    | some it ↦
        let (found, it') = p.samples.next it in
        let moved = record c { cur = some it' } in
        let later = chain_next fuel (record c { i = c.i + 1; cur = nth c.series (c.i + 1) }) in
        if found
        then some (true, moved)
        else if p.error it'
        then some (false, moved)
        else if c.i + 1 == length c.series
        then some (false, moved)
        else later
  ]
