-- ===== src/Tombstone/Interval/Ordered.antt =====
-- When the intervals of tombstone/Interval.cpp stay in order.
use prom_tcs.Prelude.{
  ℕ, ◌+◌, ◌-◌, ◌^◌, ◌≤◌, ◌<◌, ◌||◌, List, [], ◌∷◌, All, arith, ltb, Bool-cases, inl, inr,
}
use prom_tcs.Tombstone.Interval.{
  Interval, in_bounds, after, before, absorb, raise, extend, itvls_add, InOrder,
}

InOrder-lower :
    (low low' : ℕ) (itvs : List Interval) → low' ≤ low → InOrder low itvs → InOrder low' itvs
InOrder-lower low low' [] le o = tt
InOrder-lower low low' (i ∷ itvs) le o = (omega (arith, le, o.0), o.1)

-- What is left behind the absorbed intervals begins after the last of them, and after `m`.
absorb-InOrder :
    (m low : ℕ) (last : Interval) (itvs : List Interval)
    → m < 2 ^ 64 - 1
    → InOrder low itvs
    → last.max_time < raise low (m + 1)
    → InOrder (raise m (absorb m last itvs).0.max_time + 1) (absorb m last itvs).1
      × (last.max_time ≤ raise m (absorb m last itvs).0.max_time)
unfolding absorb
absorb-InOrder m low last [] most o near = (tt, ground arith)
absorb-InOrder m low last (cur ∷ itvs) most o near =
    elim (Bool-cases (ltb (after m) cur.min_time)) [
      | inl stop ↦ rw stop ((ground (arith, o.0, near, most), o.1), ground arith)
      | inr go ↦
          let (order, le) =
            absorb-InOrder m (cur.max_time + 1) cur itvs most o.1.1 (ground arith) in
          rw go (order, ground (arith, near, o.0, o.1.0, le))
    ]

extend-InOrder :
    (m low : ℕ) (i : Interval) (itvs : List Interval)
    → m < 2 ^ 64 - 1
    → InOrder low (i ∷ itvs)
    → InOrder low (extend i itvs m)
unfolding extend
extend-InOrder m low i itvs most o =
    let grown = record i { max_time = raise i.max_time m } in
    let (order, le) = absorb-InOrder m (i.max_time + 1) grown itvs most o.1.1 (ground arith) in
    (
      o.0,
      (ground (arith, o.1.0), InOrder-lower _ _ (absorb m grown itvs).1 (ground (arith, le)) order),
    )

-- The new interval covers none of the intervals that it starts before.
abbrev pub CoversNone : Interval → List Interval → Type 0
CoversNone itvl = All (λ i. itvl.min_time < i.min_time → itvl.max_time ≤ i.max_time)

-- Where the intervals are in increasing order without an overlap, and the new interval does not end
-- before it starts, does not start at the least int64 and does not end at the greatest, and ends
-- behind none of the intervals that it starts before, the intervals with the new one are in
-- increasing order without an overlap. None starts before `low` if none did.
pub itvls_add-InOrder :
    (low : ℕ) (itvs : List Interval) (itvl : Interval)
    → InOrder low itvs
    → low ≤ itvl.min_time
    → itvl.min_time ≤ itvl.max_time
    → 0 < itvl.min_time
    → itvl.max_time < 2 ^ 64 - 1
    → CoversNone itvl itvs
    → InOrder low (itvls_add itvs itvl)
unfolding itvls_add in_bounds
itvls_add-InOrder low [] itvl o low_le le least most none_covered = (low_le, (le, tt))
itvls_add-InOrder low (i ∷ itvs) itvl o low_le le least most (covered, none_covered) =
    elim (Bool-cases (in_bounds i itvl.min_time || in_bounds i (before itvl.min_time))) [
      | inl first ↦ rw first (extend-InOrder itvl.max_time low i itvs most o)
      | inr miss ↦
          elim (Bool-cases (in_bounds i itvl.max_time || in_bounds i (after itvl.max_time))) [
            | inl second ↦ rw (miss, second) (low_le, (ground (arith, le, least, o.1.0), o.1.1))
            | inr miss' ↦ elim (Bool-cases (ltb itvl.min_time i.min_time)) [
              | inl third ↦
                  let upto : itvl.max_time ≤ i.max_time = covered (ground (arith, third)) in
                  rw (miss, miss', third) (low_le, (le, (ground (arith, upto), o.1)))
              | inr last ↦
                  rw (miss, miss', last)
                    (
                      o.0,
                      (
                        o.1.0,
                        itvls_add-InOrder (i.max_time + 1) itvs itvl o.1.1 (ground (arith, o.1.0))
                            le least most none_covered,
                      ),
                    )
            ]
          ]
    ]
