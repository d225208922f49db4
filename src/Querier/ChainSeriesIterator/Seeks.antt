-- ===== src/Querier/ChainSeriesIterator/Seeks.antt =====
-- `seek` of querier/ChainSeriesIterator.cpp finds what the series that it stands at has.
use prom_tcs.Prelude.{
  ℕ, zero, suc, ◌+◌, ◌-◌, ◌<◌, ◌≡◌, refl, sym, true, false, some, arith, length, Bool-cases, inl,
  inr,
}
use prom_tcs.Querier.{SeriesIterator}
use prom_tcs.Querier.ChainSeriesIterator.{Chain, nth, seek_loop, chain_seek}

module _ {ℓ} {S : Type ℓ} (p : SeriesIterator S) where
  seek_loop-fails :
      (rounds j : ℕ) (c : Chain S) (t : ℕ) (s : S)
      → nth c.series c.i ≡ some s
      → (p.seek s t).0 ≡ false
      → seek_loop p rounds j c t ≡ (false, c)
  unfolding seek_loop
  seek_loop-fails zero j c t s e f = refl
  seek_loop-fails (suc rounds) j c t s e f =
      rw (seek_loop, e, f) (seek_loop-fails rounds (j + 1) c t s e f)

  seek_loop-finds :
      (rounds : ℕ) (c : Chain S) (t : ℕ) (s : S)
      → nth c.series c.i ≡ some s
      → (p.seek s t).0 ≡ true
      → seek_loop p (suc rounds) c.i c t ≡ (true, record c { cur = some (p.seek s t).1 })
  unfolding seek_loop
  seek_loop-finds rounds c t s e f = rw (seek_loop, e, f) refl

  -- Where the chain stands at the series `s`, `seek` finds a sample exactly when one is found in `s`,
  -- and stays at `s`: if `s` has none, it finds none, whatever the later series have.
  pub chain_seek_lem :
      (c : Chain S) (t : ℕ) (s : S)
      → c.i < length c.series
      → nth c.series c.i ≡ some s
      → ((chain_seek p c t).0 ≡ (p.seek s t).0) × ((chain_seek p c t).1.i ≡ c.i)
  unfolding chain_seek
  chain_seek_lem c t s h e =
      let rounds : length c.series - c.i ≡ suc (length c.series - c.i - 1) = omega arith in
      elim (Bool-cases (p.seek s t).0) [
        | inl found ↦
            rw (rounds, seek_loop-finds (length c.series - c.i - 1) c t s e found) (sym found, refl)
        | inr gone ↦ rw (seek_loop-fails (length c.series - c.i) c.i c t s e gone) (sym gone, refl)
      ]
