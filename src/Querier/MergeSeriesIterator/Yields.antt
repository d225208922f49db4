-- ===== src/Querier/MergeSeriesIterator/Yields.antt =====
-- `next` of the class MergeSeriesIterator of querier/SeriesIteratorInterface.hpp merges the series.
use prom_tcs.Prelude.{
  ℕ, zero, suc, ◌≤◌, ◌<◌, ◌≡◌, refl, ap, ap₂, sym, subst, ◌∙◌, Bool, true, false, Option, none,
  some, List, [], ◌∷◌, ◌++◌, arith, length, concat, All, ◌==◌, if◌then◌else◌, Bool-cases, inl, inr,
}
use prom_tcs.Chunk.DeleteIterator.Yields.{IsSampleIterator, yielded, yielded_end, yielded_step}
use prom_tcs.Querier.{SeriesIterator}
use prom_tcs.Querier.MergeSeriesIterator.{
  Merge, new_merge, keep, advance, heads, pick, started, next_from, merge_next, merge_at,
}
use prom_tcs.Querier.MergeSeriesIterator.Marks.{positions, advance_marked, advance-marked}
use prom_tcs.Querier.MergeSeriesIterator.Picks.{least, last_value, marks, pick-IsPicked}
use prom_tcs.Querier.MergeSeriesIterator.Merged.{
  firsts, rest_of, merged, total, Increases, lookup, found_in,
}
use prom_tcs.Querier.MergeSeriesIterator.Lookup.{
  AllNonempty, lookup-merged, merged-Increases, total-first,
}

module _ {ℓ} {S : Type ℓ} (p : SeriesIterator S) (c : IsSampleIterator p.samples) where
  -- The iterators show the samples, one list for each.
  abbrev pub AllShow : List S → List (List (ℕ × ℕ)) → Type 0
  AllShow [] [] = Unit {0}
  AllShow [] (l ∷ ls) = ⊥
  AllShow (s ∷ series) [] = ⊥
  AllShow (s ∷ series) (l ∷ ls) = c.Shows s l × AllShow series ls

  -- The iterators stand at the first samples of the lists, which are not empty.
  abbrev AllAt : List S → List (List (ℕ × ℕ)) → Type 0
  AllAt [] [] = Unit {0}
  AllAt [] (l ∷ ls) = ⊥
  AllAt (s ∷ iters) [] = ⊥
  AllAt (s ∷ iters) ([] ∷ ls) = ⊥
  AllAt (s ∷ iters) ((x ∷ l) ∷ ls) = (p.samples.at s ≡ x) × c.Shows s l × AllAt iters ls

  keep-AllAt :
      (iters : List S) (ls : List (List (ℕ × ℕ)))
      → AllShow iters ls
      → (ls' : List (List (ℕ × ℕ))) × AllAt (keep p p.samples.next iters) ls'
        × (concat ls' ≡ concat ls)
        × ((s : ℕ) (o : Option ℕ) → found_in s o ls' ≡ found_in s o ls)
        × (All (Increases 0) ls → All (Increases 0) ls')
        × AllNonempty ls'
  unfolding keep found_in lookup
  keep-AllAt [] [] h = ([], tt, refl, λ s o. refl, λ i. tt, tt)
  keep-AllAt [] (l ∷ ls) h = absurd h
  keep-AllAt (s ∷ iters) [] h = absurd h
  keep-AllAt (s ∷ iters) ([] ∷ ls) h =
      let (ls', at, same, found, inc, non) = keep-AllAt iters ls h.1 in
      rw (c.next-end s h.0) (ls', at, same, found, λ i. inc i.1, non)
  keep-AllAt (s ∷ iters) ((x ∷ l) ∷ ls) h =
      let (ls', at, same, found, inc, non) = keep-AllAt iters ls h.1 in
      let (more, at_x, shows) = c.next-found s x l h.0 in
      rw more (
        (x ∷ l) ∷ ls',
        (at_x, shows, at),
        ap (λ (r : List (ℕ × ℕ)). (x ∷ l) ++ r) same,
        λ t o. found t _,
        λ i. (i.0, inc i.1),
        (omega arith, non),
      )

  heads-AllAt :
      (iters : List S) (ls : List (List (ℕ × ℕ))) → AllAt iters ls → heads p iters ≡ firsts ls
  heads-AllAt [] [] a = refl
  heads-AllAt [] (l ∷ ls) a = absurd a
  heads-AllAt (s ∷ iters) [] a = absurd a
  heads-AllAt (s ∷ iters) ([] ∷ ls) a = absurd a
  heads-AllAt (s ∷ iters) ((x ∷ l) ∷ ls) a =
      ap₂ (λ (y : ℕ × ℕ) (r : List (ℕ × ℕ)). y ∷ r) a.0 (heads-AllAt iters ls a.2)

  advance_marked-AllAt :
      (t : ℕ) (iters : List S) (ls : List (List (ℕ × ℕ)))
      → AllAt iters ls
      → AllAt (advance_marked p (marks t (firsts ls)) iters) (rest_of t ls)
  unfolding advance_marked rest_of
  advance_marked-AllAt t [] [] a = tt
  advance_marked-AllAt t [] (l ∷ ls) a = absurd a
  advance_marked-AllAt t (s ∷ iters) [] a = absurd a
  advance_marked-AllAt t (s ∷ iters) ([] ∷ ls) a = absurd a
  advance_marked-AllAt t (s ∷ iters) ((x ∷ []) ∷ ls) a =
      let rest = advance_marked-AllAt t iters ls a.2 in
      elim (Bool-cases (x.0 == t)) [
        | inl same ↦ rw (advance_marked, rest_of, same, c.next-end s a.1) rest
        | inr other ↦ rw (advance_marked, rest_of, other) (a.0, a.1, rest)
      ]
  advance_marked-AllAt t (s ∷ iters) ((x ∷ y ∷ l) ∷ ls) a =
      let rest = advance_marked-AllAt t iters ls a.2 in
      let (more, at_y, shows) = c.next-found s y l a.1 in
      elim (Bool-cases (x.0 == t)) [
        | inl same ↦ rw (advance_marked, rest_of, same, more) (at_y, shows, rest)
        | inr other ↦ rw (advance_marked, rest_of, other) (a.0, a.1, rest)
      ]

  record Stands (m : Merge S) (ls : List (List (ℕ × ℕ))) : Type ℓ where
    at : AllAt m.iters ls
    init : m.init ≡ true
    ids : m.id ≡ positions 0 (marks m.t (firsts ls))

  -- What a call has to return where these lists are left.
  abbrev Gives : Bool × Merge S → List (List (ℕ × ℕ)) → Type ℓ
  Gives r [] = (m : Merge S) × (r ≡ (false, m))
  Gives r ([] ∷ ls) = (m : Merge S) × ⊥
  Gives r ((x ∷ l) ∷ ls) =
      (r.0 ≡ true)
      × (r.1.t ≡ least x.0 (firsts ls))
      × (r.1.v ≡ last_value r.1.t 0 (x ∷ firsts ls))
      × Stands r.1 ((x ∷ l) ∷ ls)

  pick-Gives :
      (m : Merge S) (iters : List S) (ls : List (List (ℕ × ℕ)))
      → AllAt iters ls
      → Gives (pick p m iters) ls
  pick-Gives m [] [] a = (record m { iters = []; init = true }, unfold pick in refl)
  pick-Gives m [] (l ∷ ls) a = absurd a
  pick-Gives m (s ∷ iters) [] a = absurd a
  pick-Gives m (s ∷ iters) ([] ∷ ls) a = absurd a
  pick-Gives m (s ∷ iters) ((x ∷ l) ∷ ls) a =
      let (found, same, init, time, picked) = pick-IsPicked p m s iters in
      let all : heads p (s ∷ iters) ≡ x ∷ firsts ls = heads-AllAt (s ∷ iters) ((x ∷ l) ∷ ls) a in
      let r = (pick p m (s ∷ iters)).1 in
      (
        found,
        time ∙ ap₂ (λ (y : ℕ × ℕ) (h : List (ℕ × ℕ)). least y.0 h) a.0 (heads-AllAt iters ls a.2),
        picked.value ∙ ap (last_value r.t 0) all,
        record {
          at = subst (λ (its : List S). AllAt its ((x ∷ l) ∷ ls)) (sym same) a;
          init = init;
          ids = picked.ids ∙ ap (λ (h : List (ℕ × ℕ)). positions 0 (marks r.t h)) all;
        },
      )

  length-marks : (t : ℕ) (iters : List S) → length (marks t (heads p iters)) ≡ length iters
  length-marks t [] = refl
  length-marks t (s ∷ iters) = ap suc (length-marks t iters)

  next_picks :
      (m : Merge S) (s : S) (iters : List S)
      → m.iters ≡ s ∷ iters
      → merge_next p m ≡ pick p m (advance p m.id 0 (started p m))
  unfolding merge_next
  next_picks m s iters e = ap (λ (l : List S). next_from p l m) e

  next-Gives :
      (m : Merge S) (iters : List S) (ls : List (List (ℕ × ℕ)))
      → m.iters ≡ iters
      → AllAt iters ls
      → m.init ≡ true
      → m.id ≡ positions 0 (marks m.t (firsts ls))
      → Gives (merge_next p m) (rest_of m.t ls)
  unfolding merge_next rest_of
  next-Gives m [] [] e a init ids = (m, ap (λ (l : List S). next_from p l m) e)
  next-Gives m [] (l ∷ ls) e a init ids = absurd a
  next-Gives m (s ∷ iters) ls e a init ids =
      let its = s ∷ iters in
      let ms = marks m.t (firsts ls) in
      let sized : length ms ≡ length its =
        ap (λ (h : List (ℕ × ℕ)). length (marks m.t h)) (sym (heads-AllAt its ls a))
        ∙ length-marks m.t its in
      let begun : started p m ≡ its =
        ap (λ (b : Bool). if b then m.iters else keep p p.samples.next m.iters) init ∙ e in
      let moved : merge_next p m ≡ pick p m (advance_marked p ms its) =
        next_picks m s iters e
        ∙ ap (pick p m) (
            ap₂ (λ (id : List ℕ) (l : List S). advance p id 0 l) ids begun
            ∙ advance-marked p ms its sized) in
      subst (λ (r : Bool × Merge S). Gives r (rest_of m.t ls)) (sym moved)
        (pick-Gives m (advance_marked p ms its) (rest_of m.t ls)
          (advance_marked-AllAt m.t its ls a))

  abbrev next_of : Merge S → Option (Bool × Merge S)
  next_of m = some (merge_next p m)

  merged-nil : (n : ℕ) → merged n [] ≡ []
  unfolding merged
  merged-nil zero = refl
  merged-nil (suc n) = refl

  yielded-Gives :
      (n k : ℕ) (m : Merge S) (ls : List (List (ℕ × ℕ)))
      → Gives (merge_next p m) ls
      → total ls ≤ n
      → n < k
      → yielded next_of merge_at k m ≡ some (merged n ls)
  unfolding merged merge_at
  yielded-Gives n zero m ls g few enough = absurd (omega arith)
  yielded-Gives n (suc k) m [] (m', e) few enough =
      yielded_end next_of merge_at k m m' (ap some e) ∙ ap some (sym (merged-nil n))
  yielded-Gives n (suc k) m ([] ∷ ls) g few enough = absurd g.1
  yielded-Gives zero (suc k) m ((x ∷ l) ∷ ls) g few enough = absurd (omega arith)
  yielded-Gives (suc n) (suc k) m ((x ∷ l) ∷ ls) (found, time, value, stands) few enough =
      let r = (merge_next p m).1 in
      let t = least x.0 (firsts ls) in
      let next = next-Gives r r.iters ((x ∷ l) ∷ ls) refl stands.at stands.init stands.ids in
      let next' : Gives (merge_next p r) (rest_of t ((x ∷ l) ∷ ls)) =
        subst (λ (u : ℕ). Gives (merge_next p r) (rest_of u ((x ∷ l) ∷ ls))) time next in
      let later =
        yielded-Gives n k r (rest_of t ((x ∷ l) ∷ ls)) next'
          (omega (arith, total-first x l ls t refl, few)) (omega arith) in
      yielded_step next_of merge_at k m r (merged n (rest_of t ((x ∷ l) ∷ ls)))
        (ap (λ (b : Bool). some (b, r)) found) later
      ∙ ap₂ (λ (u v : ℕ). some ((u, v) ∷ merged n (rest_of t ((x ∷ l) ∷ ls)))) time
          (value ∙ ap (λ (u : ℕ). last_value u 0 (x ∷ firsts ls)) time)

  -- Increasing series are merged: `next`, called on a new iterator over them more often than there are
  -- samples, yields each time that a series has once, in increasing order, and with the value of the
  -- last series that has the time.
  pub yielded-merge_next :
      (k t v s : ℕ) (iters : List S) (ls : List (List (ℕ × ℕ)))
      → AllShow iters ls
      → All (Increases 0) ls
      → total ls < k
      → (out : List (ℕ × ℕ)) × (yielded
            (λ m. some (merge_next p m))
            merge_at
            k
            (new_merge iters t v)
          ≡ some out)
        × Increases 0 out
        × (lookup s out ≡ found_in s none ls)
  unfolding merge_next new_merge advance found_in lookup
  yielded-merge_next zero t v s iters ls h i enough = absurd (omega arith)
  yielded-merge_next (suc k) t v s [] [] h i enough =
      ([], yielded_end next_of merge_at k (new_merge [] t v) (new_merge [] t v) refl, tt, refl)
  yielded-merge_next (suc k) t v s [] (l ∷ ls) h i enough = absurd h
  yielded-merge_next (suc k) t v s (it ∷ iters) ls h i enough =
      let (ls', at, same, found, inc, non) = keep-AllAt (it ∷ iters) ls h in
      let m = new_merge (it ∷ iters) t v in
      let few : total ls' ≤ total ls = omega (arith, ap length same) in
      let g : Gives (merge_next p m) ls' =
        pick-Gives m (keep p p.samples.next (it ∷ iters)) ls' at in
      (
        merged (total ls) ls',
        yielded-Gives (total ls) (suc k) m ls' g few enough,
        merged-Increases (total ls) 0 ls' (inc i),
        lookup-merged (total ls) 0 s ls' (inc i) non few ∙ found s none,
      )
