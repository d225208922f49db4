-- ===== src/Tombstone/Interval.antt =====
-- tombstone/Interval.hpp and tombstone/Interval.cpp. A time is an int64_t; the model has the number
-- that is 2^63 more, which keeps the order. One more than the greatest time and one less than the
-- least, which overflow in the code, wrap around.
pub mod Added
pub mod Ordered
use prom_tcs.Prelude.{
  ℕ, ◌+◌, ◌-◌, ◌^◌, ◌≤◌, ◌<◌, Bool, true, false, ◌&&◌, ◌||◌, List, [], ◌∷◌, arith, leb, ltb, ◌==◌,
  if◌then◌else◌, Bool-cases, ◌⊎◌, inl, inr,
}

pub record Interval : Type 0 where
  pub min_time : ℕ
  pub max_time : ℕ

unfoldable pub in_bounds : Interval → ℕ → Bool
in_bounds i t = leb t i.max_time && leb i.min_time t

-- `t + 1` and `t - 1`
abbrev pub after : ℕ → ℕ
after t = if t == 2 ^ 64 - 1 then 0 else t + 1

abbrev pub before : ℕ → ℕ
before t = if t == 0 then 2 ^ 64 - 1 else t - 1

unfoldable pub is_subrange : ℕ → ℕ → List Interval → Bool
unfolding in_bounds
is_subrange min_time max_time [] = false
is_subrange min_time max_time (i ∷ itvs) =
    (in_bounds i min_time && in_bounds i max_time) || is_subrange min_time max_time itvs

-- The loop over the intervals that the new one reaches: the last of them, and those behind it.
unfoldable pub absorb : ℕ → Interval → List Interval → Interval × List Interval
absorb max_time last [] = (last, [])
absorb max_time last (cur ∷ itvs) =
    let more = absorb max_time cur itvs in
    if ltb (after max_time) cur.min_time then (last, cur ∷ itvs) else more

-- `if (a < b) a = b`
abbrev pub raise : ℕ → ℕ → ℕ
raise a b = if ltb a b then b else a

-- The first branch: `i` is extended to the end of the new interval and of those that it reaches.
unfoldable pub extend : Interval → List Interval → ℕ → List Interval
unfolding absorb
extend i itvs max_time =
    let grown = record i { max_time = raise i.max_time max_time } in
    let (last, behind) = absorb max_time grown itvs in
    record grown { max_time = raise grown.max_time last.max_time } ∷ behind

unfoldable pub itvls_add : List Interval → Interval → List Interval
unfolding in_bounds extend
itvls_add [] itvl = itvl ∷ []
itvls_add (i ∷ itvs) itvl =
    let more = i ∷ itvls_add itvs itvl in
    if in_bounds i itvl.min_time || in_bounds i (before itvl.min_time)
    then extend i itvs itvl.max_time
    else if in_bounds i itvl.max_time || in_bounds i (after itvl.max_time)
    then record i { min_time = itvl.min_time } ∷ itvs
    else if ltb itvl.min_time i.min_time
    then itvl ∷ i ∷ itvs
    else more

unfoldable pub intervals_equal : List Interval → List Interval → Bool
intervals_equal [] [] = true
intervals_equal [] (j ∷ itvls2) = false
intervals_equal (i ∷ itvls1) [] = false
intervals_equal (i ∷ itvls1) (j ∷ itvls2) =
    (i.min_time == j.min_time) && (i.max_time == j.max_time) && intervals_equal itvls1 itvls2

-- Some interval has the time.
pub data Covers (t : ℕ) : List Interval → Type 0 where
  here :
      {i : Interval} {itvs : List Interval} → i.min_time ≤ t → t ≤ i.max_time → Covers t (i ∷ itvs)
  later : {i : Interval} {itvs : List Interval} → Covers t itvs → Covers t (i ∷ itvs)

-- The absorbed intervals lie between the first and the last of them, if they are in order.
abbrev pub InOrder : ℕ → List Interval → Type 0
InOrder low [] = Unit {0}
InOrder low (i ∷ itvs) =
    (low ≤ i.min_time) × ((i.min_time ≤ i.max_time) × InOrder (i.max_time + 1) itvs)

Covers-above : (t low : ℕ) (itvs : List Interval) → InOrder low itvs → Covers t itvs → low ≤ t
Covers-above t low [] o c = elim c [ ]
Covers-above t low (i ∷ itvs) o (here le le') = omega (arith, o.0)
Covers-above t low (i ∷ itvs) o (later c) =
    omega (arith, o.0, o.1.0, Covers-above t (i.max_time + 1) itvs o.1.1 c)

absorb-grows :
    (m : ℕ) (last : Interval) (itvs : List Interval)
    → InOrder (last.max_time + 1) itvs
    → last.max_time ≤ (absorb m last itvs).0.max_time
unfolding absorb
absorb-grows m last [] o = omega arith
absorb-grows m last (cur ∷ itvs) o = elim (Bool-cases (ltb (after m) cur.min_time)) [
  | inl stop ↦ rw stop (omega arith)
  | inr go ↦ rw go (omega (arith, o.0, o.1.0, absorb-grows m cur itvs o.1.1))
]

absorb-Covers :
    (t m low : ℕ) (last : Interval) (itvs : List Interval)
    → InOrder low itvs
    → Covers t itvs
    → (t ≤ (absorb m last itvs).0.max_time) ⊎ Covers t (absorb m last itvs).1
unfolding absorb
absorb-Covers t m low last [] o c = elim c [ ]
absorb-Covers t m low last (cur ∷ itvs) o (here le le') =
    elim (Bool-cases (ltb (after m) cur.min_time)) [
      | inl stop ↦ rw stop (inr (here le le'))
      | inr go ↦ rw go (inl (omega (arith, le', absorb-grows m cur itvs o.1.1)))
    ]
absorb-Covers t m low last (cur ∷ itvs) o (later c) =
    elim (Bool-cases (ltb (after m) cur.min_time)) [
      | inl stop ↦ rw stop (inr (later c))
      | inr go ↦ rw go (absorb-Covers t m (cur.max_time + 1) cur itvs o.1.1 c)
    ]

module _ (t low : ℕ) (i : Interval) (itvs : List Interval) (o : InOrder low (i ∷ itvs)) where
  extend-new : (m : ℕ) → i.min_time ≤ t → t ≤ raise i.max_time m → Covers t (extend i itvs m)
  unfolding extend
  extend-new m le le' = here le (ground (arith, le'))

  extend-old : (m : ℕ) → Covers t (i ∷ itvs) → Covers t (extend i itvs m)
  extend-old m (here le le') = extend-new m le (ground (arith, le'))
  extend-old m (later c) =
      unfold extend in
      elim (absorb-Covers t m (i.max_time + 1) (record i { max_time = raise i.max_time m }) itvs
        o.1.1 c) [
          | inl within ↦
              here
                {i = record i {
                  max_time =
                      raise (raise i.max_time m)
                        (absorb m (record i { max_time = raise i.max_time m }) itvs).0.max_time;
                }}
                (omega (arith, o.1.0, Covers-above t (i.max_time + 1) itvs o.1.1 c))
                (ground (arith, within))
          | inr behind ↦ later behind
        ]

lower-Covers :
    (t m : ℕ) (i : Interval) (itvs : List Interval)
    → m ≤ i.min_time
    → Covers t (i ∷ itvs)
    → Covers t (record i { min_time = m } ∷ itvs)
lower-Covers t m i itvs le (here p q) = here (omega (arith, le, p)) q
lower-Covers t m i itvs le (later c) = later c

pass-Covers :
    (t : ℕ) (i : Interval) (itvs result : List Interval) (itvl : Interval)
    → (Covers t itvs ⊎ ((itvl.min_time ≤ t) × (t ≤ itvl.max_time)) → Covers t result)
    → Covers t (i ∷ itvs) ⊎ ((itvl.min_time ≤ t) × (t ≤ itvl.max_time))
    → Covers t (i ∷ result)
pass-Covers t i itvs result itvl added (inl (here p q)) = here p q
pass-Covers t i itvs result itvl added (inl (later c)) = later (added (inl c))
pass-Covers t i itvs result itvl added (inr new) = later (added (inr new))

-- Where the intervals are in increasing order without an overlap (which adding an interval does not
-- always keep), and the new interval does not end before it starts, does not start at the least
-- int64 and does not end at the greatest, adding it loses no time: each time that one of the
-- intervals covered, and each time of the new interval, is covered by an interval of the result.
pub itvls_add-Covers :
    (t low : ℕ) (itvs : List Interval) (itvl : Interval)
    → InOrder low itvs
    → itvl.min_time ≤ itvl.max_time
    → 0 < itvl.min_time
    → itvl.max_time < 2 ^ 64 - 1
    → Covers t itvs ⊎ ((itvl.min_time ≤ t) × (t ≤ itvl.max_time))
    → Covers t (itvls_add itvs itvl)
unfolding itvls_add in_bounds
itvls_add-Covers t low [] itvl o le least most (inl c) = later c
itvls_add-Covers t low [] itvl o le least most (inr (p, q)) = here p q
itvls_add-Covers t low (i ∷ itvs) itvl o le least most c =
    elim (Bool-cases (in_bounds i itvl.min_time || in_bounds i (before itvl.min_time))) [
      | inl first ↦ rw first (elim c [
        | inl old ↦ extend-old t low i itvs o itvl.max_time old
        | inr (p, q) ↦ extend-new t low i itvs o itvl.max_time (ground arith) (ground arith)
      ])
      | inr miss ↦
          elim (Bool-cases (in_bounds i itvl.max_time || in_bounds i (after itvl.max_time))) [
            | inl second ↦
                rw (miss, second)
                  (elim c [
                    | inl old ↦ lower-Covers t itvl.min_time i itvs (ground arith) old
                    | inr (p, q) ↦ here p (ground arith)
                  ])
            | inr miss' ↦ elim (Bool-cases (ltb itvl.min_time i.min_time)) [
              | inl third ↦
                  rw (miss, miss', third) (elim c [ inl old ↦ later old | inr (p, q) ↦ here p q ])
              | inr last ↦
                  rw (miss, miss', last)
                    (pass-Covers t i itvs (itvls_add itvs itvl) itvl
                      (itvls_add-Covers t (i.max_time + 1) itvs itvl o.1.1 le least most) c)
            ]
          ]
    ]
