-- ===== src/Querier/ChainSeriesIterator/Yields.antt =====
-- `next` of querier/ChainSeriesIterator.cpp yields the samples of one series after the other.
use prom_tcs.Prelude.{
  ℕ, zero, suc, ◌+◌, ◌<◌, ◌≡◌, refl, ap, sym, subst, ◌∙◌, Bool, true, false, Option, some, List, [],
  ◌∷◌, ◌++◌, arith, length, concat, ◌==◌,
}
use prom_tcs.Chunk.DeleteIterator.Yields.{IsSampleIterator, yielded, yielded_end, yielded_step}
use prom_tcs.Querier.{SeriesIterator}
use prom_tcs.Querier.ChainSeriesIterator.{Chain, nth, new_chain, chain_next, chain_at}

-- The series that are behind index `i`.
record IsBehind {ℓ} {S : Type ℓ} (series : List S) (i : ℕ) (behind : List S) : Type ℓ where
  size : length series ≡ i + length behind
  nth_is : (k : ℕ) → nth series (i + k) ≡ nth behind k

IsBehind-next {ℓ} :
    {S : Type ℓ} (series : List S) (i : ℕ) (s : S) (behind : List S)
    → IsBehind series i (s ∷ behind)
    → IsBehind series (i + 1) behind
IsBehind-next series i s behind b = record {
  size = omega (arith, b.size);
  nth_is = λ k. let e : i + 1 + k ≡ i + suc k = omega arith in ap (nth series) e ∙ b.nth_is (suc k);
}

module _ {ℓ} {S : Type ℓ} (p : SeriesIterator S) (c : IsSampleIterator p.samples)
    (no_error : (s : S) → c.Shows s [] → p.error (p.samples.next s).1 ≡ false) where
  -- The series show the samples, one list for each.
  abbrev pub AllShow : List S → List (List (ℕ × ℕ)) → Type 0
  AllShow [] [] = Unit {0}
  AllShow [] (l ∷ ls) = ⊥
  AllShow (s ∷ series) [] = ⊥
  AllShow (s ∷ series) (l ∷ ls) = c.Shows s l × AllShow series ls

  -- The samples that the chain has still to yield.
  record Left (bound : ℕ) (x : Chain S) (r : List (ℕ × ℕ)) : Type ℓ where
    it : S
    l : List (ℕ × ℕ)
    behind : List S
    ls : List (List (ℕ × ℕ))
    at_it : x.cur ≡ some it
    shows : c.Shows it l
    is_behind : IsBehind x.series (x.i + 1) behind
    all_show : AllShow behind ls
    few : length behind < bound
    together : l ++ concat ls ≡ r

  abbrev Gives : ℕ → Option (Bool × Chain S) → List (ℕ × ℕ) → Type ℓ
  Gives bound o [] = (y : Chain S) × (o ≡ some (false, y))
  Gives bound o (x ∷ r) = (y : Chain S) × (o ≡ some (true, y)) × (chain_at p y ≡ x) × Left bound y r

  chain_next-Gives :
      (bound fuel : ℕ) (x : Chain S) (it : S) (l : List (ℕ × ℕ)) (behind : List S)
      (ls : List (List (ℕ × ℕ)))
      → x.cur ≡ some it
      → c.Shows it l
      → IsBehind x.series (x.i + 1) behind
      → AllShow behind ls
      → length behind < fuel
      → length behind < bound
      → Gives bound (chain_next p fuel x) (l ++ concat ls)
  unfolding chain_next chain_at
  chain_next-Gives bound zero x it l behind ls e shows b all enough few = absurd (omega arith)
  chain_next-Gives bound (suc fuel) x it (y ∷ l) behind ls e shows b all enough few =
      let (found, at_y, shows') = c.next-found it y l shows in
      let it' = (p.samples.next it).1 in
      rw (chain_next, e, found)
        (
          record x { cur = some it' },
          refl,
          at_y,
          record {
            it = it';
            l = l;
            behind = behind;
            ls = ls;
            at_it = refl;
            shows = shows';
            is_behind = b;
            all_show = all;
            few = few;
            together = refl;
          },
        )
  chain_next-Gives bound (suc fuel) x it [] [] [] e shows b all enough few =
      let last : x.i + 1 == length x.series ≡ true = ground (arith, b.size) in
      rw (chain_next, e, c.next-end it shows, no_error it shows, last) (_, refl)
  chain_next-Gives bound (suc fuel) x it [] [] (l ∷ ls) e shows b all enough few = absurd all
  chain_next-Gives bound (suc fuel) x it [] (s ∷ behind) [] e shows b all enough few = absurd all
  chain_next-Gives bound (suc fuel) x it [] (s ∷ behind) (l ∷ ls) e shows b all enough few =
      let more : x.i + 1 == length x.series ≡ false = ground (arith, b.size) in
      let next = record x { i = x.i + 1; cur = nth x.series (x.i + 1) } in
      let zero_more : x.i + 1 + 0 ≡ x.i + 1 = omega arith in
      let here : nth x.series (x.i + 1) ≡ some s = ap (nth x.series) (sym zero_more) ∙ b.nth_is 0 in
      rw (chain_next, e, c.next-end it shows, no_error it shows, more)
        (chain_next-Gives bound fuel next s l behind ls here all.0
          (IsBehind-next x.series (x.i + 1) s behind b) all.1 (omega arith) (omega arith))

  yielded-Gives :
      (bound : ℕ) (r : List (ℕ × ℕ)) (n : ℕ) (x : Chain S)
      → length r < n
      → Gives bound (chain_next p bound x) r
      → yielded (chain_next p bound) (chain_at p) n x ≡ some r
  yielded-Gives bound r zero x enough g = absurd (omega arith)
  yielded-Gives bound [] (suc n) x enough (y, e) =
      yielded_end (chain_next p bound) (chain_at p) n x y e
  yielded-Gives bound (v ∷ r) (suc n) x enough (y, e, at_v, left) =
      let g =
        chain_next-Gives bound bound y left.it left.l left.behind left.ls left.at_it left.shows
          left.is_behind left.all_show left.few left.few in
      yielded_step (chain_next p bound) (chain_at p) n x y r e (
        yielded-Gives bound r n y (omega arith)
          (subst (Gives bound (chain_next p bound y)) left.together g))
      ∙ ap (λ (w : ℕ × ℕ). some (w ∷ r)) at_v

  first-IsBehind : (s : S) (series : List S) → IsBehind (s ∷ series) (0 + 1) series
  first-IsBehind s series = record {
    size = omega arith;
    nth_is = λ k. let e : 0 + 1 + k ≡ suc k = omega arith in ap (nth (s ∷ series)) e;
  }

  -- A chain of series yields the samples of the series one after the other, if no series has an
  -- error at its end. `next` has fuel for more calls than there are series, and it is called more
  -- often than there are samples.
  pub yielded-chain_next :
      (bound n : ℕ) (series : List S) (ls : List (List (ℕ × ℕ)))
      → AllShow series ls
      → length series < bound
      → length (concat ls) < n
      → yielded (chain_next p bound) (chain_at p) n (new_chain series) ≡ some (concat ls)
  unfolding new_chain chain_next
  yielded-chain_next zero n series ls all few enough = absurd (omega arith)
  yielded-chain_next (suc bound) n [] [] all few enough =
      yielded-Gives (suc bound) [] n (new_chain []) enough (new_chain [], refl)
  yielded-chain_next (suc bound) n [] (l ∷ ls) all few enough = absurd all
  yielded-chain_next (suc bound) n (s ∷ series) [] all few enough = absurd all
  yielded-chain_next (suc bound) n (s ∷ series) (l ∷ ls) all few enough =
      yielded-Gives (suc bound) (l ++ concat ls) n (new_chain (s ∷ series)) enough (
        chain_next-Gives (suc bound) (suc bound) (new_chain (s ∷ series)) s l series ls refl all.0
          (first-IsBehind s series) all.1 (omega arith) (omega arith))
