-- ===== src/Querier/MergeSeriesIterator.antt =====
-- The class MergeSeriesIterator of querier/SeriesIteratorInterface.hpp, over any iterators of series.
pub mod Marks
pub mod Picks
pub mod Merged
pub mod Lookup
pub mod Yields
use prom_tcs.Prelude.{
  ℕ, zero, suc, ◌+◌, ◌-◌, Bool, true, false, Option, none, some, List, [], ◌∷◌, ◌++◌, set, length,
  ltb, ◌==◌, if◌then◌else◌,
}
use prom_tcs.Querier.{SeriesIterator}
use prom_tcs.Querier.ChainSeriesIterator.{nth}

pub record Merge {ℓ} (S : Type ℓ) : Type ℓ where
  pub iters : List S
  pub id : List ℕ
  pub t : ℕ
  pub v : ℕ
  pub init : Bool

unfoldable pub new_merge {ℓ} : {S : Type ℓ} → List S → ℕ → ℕ → Merge S
new_merge iters t v = record { iters = iters; id = []; t = t; v = v; init = false }

abbrev pub erase {ℓ} : {A : Type ℓ} → List A → ℕ → List A
erase [] i = []
erase (x ∷ xs) zero = xs
erase (x ∷ xs) (suc i) = x ∷ erase xs i

-- What the loop over the iterators keeps: the indices that stand at the least time, and the sample.
pub record Pick : Type 0 where
  pub id : List ℕ
  pub t : ℕ
  pub v : ℕ

-- One round of the loop of `next` and `seek`, at index `i`.
unfoldable pub pick_step : ℕ → Pick → ℕ × ℕ → Pick
pick_step i k x =
    if ltb x.0 k.t
    then record { id = i ∷ []; t = x.0; v = x.1 }
    else if x.0 == k.t
    then record { id = k.id ++ (i ∷ []); t = k.t; v = x.1 }
    else k

unfoldable pub pick_loop : ℕ → Pick → List (ℕ × ℕ) → Pick
unfolding pick_step
pick_loop i k [] = k
pick_loop i k (x ∷ heads) = pick_loop (i + 1) (pick_step i k x) heads

unfoldable pub merge_at {ℓ} : {S : Type ℓ} → Merge S → ℕ × ℕ
merge_at m = (m.t, m.v)

module _ {ℓ} {S : Type ℓ} (p : SeriesIterator S) where
  -- The loop of `init`, and that of `seek`, where `step` is the call: who returns false is erased.
  unfoldable pub keep : (S → Bool × S) → List S → List S
  keep step [] = []
  keep step (it ∷ iters) =
      let (found, it') = step it in let rest = keep step iters in if found then it' ∷ rest else rest

  -- `_next`: the iterators at the indices go on, and `d` of them are erased so far.
  unfoldable pub advance : List ℕ → ℕ → List S → List S
  advance [] d iters = iters
  advance (i ∷ id) d iters = elim (nth iters (i - d)) [
    | none ↦ advance id d iters
    | some it ↦
        let (found, it') = p.samples.next it in
        advance id (if found then d else d + 1)
          (if found then set iters (i - d) it' else erase iters (i - d))
  ]

  abbrev pub heads : List S → List (ℕ × ℕ)
  heads [] = []
  heads (it ∷ iters) = p.samples.at it ∷ heads iters

  -- The end of `next` and of `seek`.
  unfoldable pub pick : Merge S → List S → Bool × Merge S
  unfolding pick_loop
  pick m [] = (false, record m { iters = []; init = true })
  pick m (it ∷ iters) =
      let first = p.samples.at it in
      let k = pick_loop 1 (record { id = 0 ∷ []; t = first.0; v = first.1 }) (heads iters) in
      (true, record { iters = it ∷ iters; id = k.id; t = k.t; v = k.v; init = true })

  abbrev pub started : Merge S → List S
  started m = if m.init then m.iters else keep p.samples.next m.iters

  abbrev pub next_from : List S → Merge S → Bool × Merge S
  next_from [] m = (false, m)
  next_from (it ∷ iters) m = pick m (advance m.id 0 (started m))

  unfoldable pub merge_next : Merge S → Bool × Merge S
  unfolding advance pick
  merge_next m = next_from m.iters m

  unfoldable pub merge_seek : Merge S → ℕ → Bool × Merge S
  unfolding keep pick
  merge_seek m t = elim m.iters [
    | [] ↦ (false, m)
    | it ∷ iters ↦ pick m (keep (λ it. p.seek it t) m.iters)
  ]
