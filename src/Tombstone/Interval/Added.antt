-- ===== src/Tombstone/Interval/Added.antt =====
-- Which times `itvls_add` of tombstone/Interval.cpp adds to those that are deleted.
use prom_tcs.Prelude.{
  ℕ, ◌+◌, ◌≤◌, ◌<◌, ◌||◌, List, [], ◌∷◌, arith, leb, ltb, Bool-cases, ◌⊎◌, inl, inr,
}
use prom_tcs.Tombstone.Interval.{
  Interval, in_bounds, after, before, absorb, raise, extend, itvls_add, Covers, here, later,
}

absorb-last :
    (t m : ℕ) (last : Interval) (itvs : List Interval)
    → m < t
    → t ≤ (absorb m last itvs).0.max_time
    → (t ≤ last.max_time) ⊎ Covers t itvs
unfolding absorb
absorb-last t m last [] less = λ le. inl le
absorb-last t m last (cur ∷ itvs) less = elim (Bool-cases (ltb (after m) cur.min_time)) [
  | inl stop ↦ rw stop (λ le. inl le)
  | inr go ↦ rw go (λ le. elim (absorb-last t m cur itvs less le) [
    | inl within ↦ inr (here (ground (arith, less)) within)
    | inr c ↦ inr (later c)
  ])
]

absorb-behind :
    (t m : ℕ) (last : Interval) (itvs : List Interval)
    → Covers t (absorb m last itvs).1
    → Covers t itvs
unfolding absorb
absorb-behind t m last [] = λ c. c
absorb-behind t m last (cur ∷ itvs) = elim (Bool-cases (ltb (after m) cur.min_time)) [
  | inl stop ↦ rw stop (λ c. c)
  | inr go ↦ rw go (λ c. later (absorb-behind t m cur itvs c))
]

-- In an interval or in the new one.
abbrev Old : ℕ → List Interval → Interval → Type 0
Old t itvs itvl = Covers t itvs ⊎ ((itvl.min_time ≤ t) × (t ≤ itvl.max_time))

extend-Old :
    (t : ℕ) (i : Interval) (itvs : List Interval) (itvl : Interval)
    → itvl.min_time ≤ i.max_time + 1
    → Covers t (extend i itvs itvl.max_time)
    → Old t (i ∷ itvs) itvl
unfolding extend
extend-Old t i itvs itvl near (later c) = inl (later (absorb-behind t itvl.max_time _ itvs c))
extend-Old t i itvs itvl near (here p q) =
    let m = itvl.max_time in
    let grown = record i { max_time = raise i.max_time m } in
    elim (Bool-cases (leb t i.max_time)) [
      | inl within ↦ inl (here p (ground arith))
      | inr behind ↦ elim (Bool-cases (leb t m)) [
        | inl new ↦ inr (ground (arith, near), ground arith)
        | inr above ↦ elim (absorb-last t m grown itvs (ground arith) (ground (arith, q))) [
          | inl old ↦ absurd (ground (arith, old))
          | inr c ↦ inl (later c)
        ]
      ]
    ]

lower-Old :
    (t : ℕ) (i : Interval) (itvs : List Interval) (itvl : Interval)
    → i.min_time ≤ itvl.max_time + 1
    → Covers t (record i { min_time = itvl.min_time } ∷ itvs)
    → Old t (i ∷ itvs) itvl
lower-Old t i itvs itvl near (later c) = inl (later c)
lower-Old t i itvs itvl near (here p q) = elim (Bool-cases (leb t itvl.max_time)) [
  | inl new ↦ inr (p, ground arith)
  | inr above ↦ inl (here (ground (arith, near)) q)
]

front-Old :
    (t : ℕ) (itvs : List Interval) (itvl : Interval) → Covers t (itvl ∷ itvs) → Old t itvs itvl
front-Old t itvs itvl (here p q) = inr (p, q)
front-Old t itvs itvl (later c) = inl c

pass-Old :
    (t : ℕ) (i : Interval) (itvs result : List Interval) (itvl : Interval)
    → (Covers t result → Old t itvs itvl)
    → Covers t (i ∷ result)
    → Old t (i ∷ itvs) itvl
pass-Old t i itvs result itvl added (here p q) = inl (here p q)
pass-Old t i itvs result itvl added (later c) = elim (added c) [
  | inl old ↦ inl (later old)
  | inr new ↦ inr new
]

-- Each time that an interval covers after one has been added was covered before or is a time of the
-- new interval, whether the intervals were in order or not.
pub itvls_add-Old :
    (t : ℕ) (itvs : List Interval) (itvl : Interval)
    → Covers t (itvls_add itvs itvl)
    → Covers t itvs ⊎ ((itvl.min_time ≤ t) × (t ≤ itvl.max_time))
unfolding itvls_add in_bounds
itvls_add-Old t [] itvl = front-Old t [] itvl
itvls_add-Old t (i ∷ itvs) itvl =
    elim (Bool-cases (in_bounds i itvl.min_time || in_bounds i (before itvl.min_time))) [
      | inl first ↦ rw first (extend-Old t i itvs itvl (ground arith))
      | inr miss ↦
          elim (Bool-cases (in_bounds i itvl.max_time || in_bounds i (after itvl.max_time))) [
            | inl second ↦ rw (miss, second) (lower-Old t i itvs itvl (ground arith))
            | inr miss' ↦ elim (Bool-cases (ltb itvl.min_time i.min_time)) [
              | inl third ↦ rw (miss, miss', third) (front-Old t (i ∷ itvs) itvl)
              | inr last ↦
                  rw (miss, miss', last)
                    (pass-Old t i itvs (itvls_add itvs itvl) itvl (itvls_add-Old t itvs itvl))
            ]
          ]
    ]
