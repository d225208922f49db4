-- ===== src/Chunk/DeleteIterator/Yields.antt =====
-- What a caller of the iterator of chunk/DeleteIterator.cpp gets from it.
use prom_tcs.Prelude.{
  ℕ, zero, suc, ◌≤◌, ◌<◌, ◌≡◌, refl, ap, subst, ◌∙◌, Bool, true, false, List, [], ◌∷◌, Option, none,
  some, arith, Bool-cases, inl, inr, length,
}
use prom_tcs.Tombstone.Interval.{Interval, is_subrange, InOrder}
use prom_tcs.Chunk.DeleteIterator.{SampleIterator, as_int, skip_intervals, delete_next, delete_at}
use prom_tcs.Chunk.DeleteIterator.Kept.{kept, IsTimeline, skip_intervals-Skipped}

-- The samples that an iterator has not yielded yet.
pub record IsSampleIterator {ℓ} {S : Type ℓ} (p : SampleIterator S) : Type (1 ⊔ ℓ) where
  pub Shows : S → List (ℕ × ℕ) → Type 0
  pub next-end : (s : S) → Shows s [] → (p.next s).0 ≡ false
  pub next-found :
      (s : S) (x : ℕ × ℕ) (l : List (ℕ × ℕ))
      → Shows s (x ∷ l)
      → ((p.next s).0 ≡ true) × (p.at (p.next s).1 ≡ x) × Shows (p.next s).1 l

-- The samples that a caller gets from `next` and `at` until `next` returns false.
unfoldable pub yielded {ℓ} :
    {S : Type ℓ} → (S → Option (Bool × S)) → (S → ℕ × ℕ) → ℕ → S → Option (List (ℕ × ℕ))
yielded next at zero s = none
yielded next at (suc fuel) s = elim (next s) [
  | none ↦ none
  | some (found, s') ↦ elim found [
    | false ↦ some []
    | true ↦ elim (yielded next at fuel s') [ none ↦ none | some l ↦ some (at s' ∷ l) ]
  ]
]

module _ {ℓ} {S : Type ℓ} (next : S → Option (Bool × S)) (at : S → ℕ × ℕ) where
  pub yielded_end :
      (fuel : ℕ) (s s' : S) → next s ≡ some (false, s') → yielded next at (suc fuel) s ≡ some []
  unfolding yielded
  yielded_end fuel s s' e = rw (yielded, e) refl

  pub yielded_step :
      (fuel : ℕ) (s s' : S) (l : List (ℕ × ℕ))
      → next s ≡ some (true, s')
      → yielded next at fuel s' ≡ some l
      → yielded next at (suc fuel) s ≡ some (at s' ∷ l)
  unfolding yielded
  yielded_step fuel s s' l e rest = rw (yielded, e, rest) refl

module _ {ℓ} {S : Type ℓ} (p : SampleIterator S) (c : IsSampleIterator p) (bound : ℕ) where
  -- The samples that are still to come are those of a list that no interval has.
  abbrev Left : S × List Interval → List (ℕ × ℕ) → Type 0
  Left (it, itvls) r =
      (low : ℕ) × (low' : ℕ) × (l : List (ℕ × ℕ)) × IsTimeline low l
      × InOrder low' itvls
      × c.Shows it l
      × (kept l itvls ≡ r)
      × (length l < bound)

  abbrev Gives : Option (Bool × (S × List Interval)) → List (ℕ × ℕ) → Type ℓ
  Gives o [] = (s : S × List Interval) × (o ≡ some (false, s))
  Gives o (x ∷ r) = (s : S × List Interval) × (o ≡ some (true, s)) × (delete_at p s ≡ x) × Left s r

  delete_next-Gives :
      (fuel low low' : ℕ) (it : S) (l : List (ℕ × ℕ)) (itvls : List Interval)
      → IsTimeline low l
      → InOrder low' itvls
      → c.Shows it l
      → length l < fuel
      → fuel ≤ bound
      → Gives (delete_next p fuel (it, itvls)) (kept l itvls)
  unfolding delete_next kept delete_at
  delete_next-Gives zero low low' it l itvls h o shows enough le = absurd (omega arith)
  delete_next-Gives (suc fuel) low low' it [] itvls h o shows enough le =
      rw (c.next-end it shows) (((p.next it).1, itvls), refl)
  delete_next-Gives (suc fuel) low low' it (x ∷ l) itvls h o shows enough le =
      let it' = (p.next it).1 in
      let (found, at_x, shows') = c.next-found it x l shows in
      let time : as_int (p.at it').0 ≡ x.0 = ap (λ (y : ℕ × ℕ). as_int y.0) at_x ∙ h.1.0 in
      let skipped = skip_intervals-Skipped x.0 low' l itvls o h.1.1 in
      let itvls' = (skip_intervals x.0 itvls).1 in
      elim (Bool-cases (is_subrange x.0 x.0 itvls)) [
        | inl gone ↦
            rw (found, time, skipped.tells ∙ gone, gone)
              (subst (Gives (delete_next p fuel (it', itvls'))) skipped.same (
                delete_next-Gives fuel x.0 skipped.low it' l itvls' h.1.1 skipped.ordered shows'
                  (omega arith) (omega arith)))
        | inr stays ↦
            rw (found, time, skipped.tells ∙ stays, stays)
              (
                (it', itvls'),
                refl,
                at_x,
                (x.0, skipped.low, l, h.1.1, skipped.ordered, shows', skipped.same, omega arith),
              )
      ]

  yielded-kept :
      (r : List (ℕ × ℕ)) (n : ℕ) (s : S × List Interval)
      → length r < n
      → Gives (delete_next p bound s) r
      → yielded (delete_next p bound) (delete_at p) n s ≡ some r
  yielded-kept r zero s enough g = absurd (omega arith)
  yielded-kept [] (suc n) s enough (s', e) =
      yielded_end (delete_next p bound) (delete_at p) n s s' e
  yielded-kept (x ∷ r) (suc n) s enough (s', e, at_x, (low, low', l, h, o, shows, same, few)) =
      yielded_step (delete_next p bound) (delete_at p) n s s' r e (
        yielded-kept r n s' (omega arith) (
          subst (Gives (delete_next p bound s')) same
            (delete_next-Gives bound low low' s'.0 l s'.1 h o shows few (omega arith))))
      ∙ ap (λ (y : ℕ × ℕ). some (y ∷ r)) at_x

  -- Where an iterator has some samples still to yield, whose times do not decrease and fit into an
  -- int, and the intervals are in order and apart from each other, the iterator over both yields
  -- just the samples whose time is in none of the intervals, in order. The fuel is more than the
  -- samples, and there are more calls than samples that are yielded.
  pub yielded-delete_next :
      (low low' n : ℕ) (it : S) (l : List (ℕ × ℕ)) (itvls : List Interval)
      → IsTimeline low l
      → InOrder low' itvls
      → c.Shows it l
      → length l < bound
      → length (kept l itvls) < n
      → yielded (delete_next p bound) (delete_at p) n (it, itvls) ≡ some (kept l itvls)
  yielded-delete_next low low' n it l itvls h o shows few enough =
      yielded-kept (kept l itvls) n (it, itvls) enough
        (delete_next-Gives bound low low' it l itvls h o shows few (omega arith))

-- An iterator over a list: what is left, and the last sample that it has yielded.
abbrev pub list_iterator : SampleIterator (List (ℕ × ℕ) × (ℕ × ℕ))
list_iterator = record {
  next = λ s. elim s.0 [ [] ↦ (false, ([], s.1)) | x ∷ l ↦ (true, (l, x)) ];
  at = λ s. s.1;
}

unfoldable pub list_iterator-IsSampleIterator : IsSampleIterator list_iterator
list_iterator-IsSampleIterator = record {
  Shows = λ s l. s.0 ≡ l;
  next-end = λ s e. rw e refl;
  next-found = λ s x l e. rw e (refl, refl, refl);
}
