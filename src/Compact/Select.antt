-- ===== src/Compact/Select.antt =====
-- `select_dirs` of compact/LeveledCompactor.cpp: the blocks that it selects may be compacted.
use prom_tcs.Prelude.{
  ℕ, ◌<◌, true, false, Option, none, some, List, [], ◌∷◌, map, ◌≡◌, ◌⊎◌, refl, sym, subst, arith,
  All, All-both, All-concat, All-filter, All-Mem, length, ltb, Bool-cases, inl, inr,
}
use prom_tcs.Prelude.Int.{ℤ, pos, ◌-ℤ◌, ◌≤ℤ◌, eq_of_parts}
use prom_tcs.Block.{DirMeta}
use prom_tcs.Compact.{
  back, has_failed, is_ready, find_part, or_else, select_loop, select_dirs, split_by_range,
}
use prom_tcs.Compact.Split.{
  fits, IsByStart, IsInWindow, IsSplit, Returns, Returns-map, split_by_range_lem,
}
use mathlib.Core.List.{Mem, mem-cons_self, mem-cons_of_mem}

-- The first block starts the range of times that the last one ends.
abbrev pub Spans : ℤ → List DirMeta → Type 0
Spans range [] = ⊥
Spans range (d ∷ part) = (back d part).meta.max_time -ℤ d.meta.min_time ≡ range

abbrev pub EndsBy : ℤ → List DirMeta → Type 0
EndsBy t [] = ⊥
EndsBy t (d ∷ part) = (back d part).meta.max_time ≤ℤ t

has_failed-All :
    (part : List DirMeta)
    → has_failed part ≡ false
    → All (λ d. d.meta.compaction.failed ≡ false) part
unfolding has_failed
has_failed-All [] h = tt
has_failed-All (d ∷ part) h = (ground (arith, h), has_failed-All part (ground (arith, h)))

is_ready_lem :
    (range high_time : ℤ) (part : List DirMeta)
    → is_ready range high_time part ≡ true
    → (Spans range part ⊎ EndsBy high_time part) × (1 < length part)
unfolding is_ready
is_ready_lem range high_time [] h = cc
is_ready_lem range high_time (d ∷ part) h =
    let span = (back d part).meta.max_time -ℤ d.meta.min_time in
    ground (arith, h, eq_of_parts span range)

-- No part may be compacted: one of its blocks has failed, or it is not ready.
abbrev pub AllRejected : ℤ → ℤ → List (List DirMeta) → Type 0
AllRejected range high_time =
    All (λ part. (has_failed part ≡ true) ⊎ (is_ready range high_time part ≡ false))

abbrev Found :
    (List DirMeta → Type 0) → ℤ → ℤ → List (List DirMeta) → Option (List DirMeta) → Type 0
Found P range high_time parts none = AllRejected range high_time parts
Found P range high_time parts (some part) =
    P part × ((has_failed part ≡ false) × (is_ready range high_time part ≡ true))

Found-later :
    (P : List DirMeta → Type 0) (range high_time : ℤ) (part : List DirMeta)
    (parts : List (List DirMeta)) (o : Option (List DirMeta))
    → (has_failed part ≡ true) ⊎ (is_ready range high_time part ≡ false)
    → Found P range high_time parts o
    → Found P range high_time (part ∷ parts) o
Found-later P range high_time part parts none r f = (r, f)
Found-later P range high_time part parts (some found) r f = f

find_part-Found :
    (P : List DirMeta → Type 0) (range high_time : ℤ) (parts : List (List DirMeta))
    → All P parts
    → Found P range high_time parts (find_part range high_time parts)
unfolding find_part
find_part-Found P range high_time [] h = tt
find_part-Found P range high_time (part ∷ parts) h =
    let later = find_part-Found P range high_time parts h.1 in
    let next = Found-later P range high_time part parts (find_part range high_time parts) in
    elim (Bool-cases (has_failed part)) [
      | inl bad ↦ rw bad (next (inl bad) later)
      | inr good ↦ elim (Bool-cases (is_ready range high_time part)) [
        | inl ready ↦ rw (good, ready) (h.0, (good, ready))
        | inr early ↦ rw (good, early) (next (inr early) later)
      ]
    ]

-- The blocks may be compacted together, in a window of size `range`.
pub record MayCompact (dms : List DirMeta) (high_time : ℤ) (range : ℕ) (part : List DirMeta)
    : Type 0 where
  pub from : All (λ d. Mem d dms) part
  pub window : IsInWindow (pos range) part
  pub sound : All (λ d. d.meta.compaction.failed ≡ false) part
  pub several : 1 < length part
  pub settled : Spans (pos range) part ⊎ EndsBy high_time part

-- What `select_dirs` may return for the ranges: blocks that may be compacted in a window of one of
-- them, or nothing if no range has a part that may be.
abbrev pub Chosen : List DirMeta → ℤ → List ℕ → Option (List DirMeta) → Type 0
Chosen dms high_time ranges none =
    All (λ r. Returns (AllRejected (pos r) high_time) (split_by_range dms (pos r))) ranges
Chosen dms high_time ranges (some part) = (r : ℕ) × Mem r ranges × MayCompact dms high_time r part

Chosen-here :
    (dms : List DirMeta) (high_time : ℤ) (r : ℕ) (ranges : List ℕ) (part : List DirMeta)
    → IsInWindow (pos r) part × All (λ d. Mem d dms) part
    → has_failed part ≡ false
    → is_ready (pos r) high_time part ≡ true
    → Chosen dms high_time (r ∷ ranges) (some part)
Chosen-here dms high_time r ranges part h good ready =
    let (settled, several) = is_ready_lem (pos r) high_time part ready in
    (
      r,
      mem-cons_self,
      record {
        from = h.1;
        window = h.0;
        sound = has_failed-All part good;
        several = several;
        settled = settled;
      },
    )

Chosen-later :
    (dms : List DirMeta) (high_time : ℤ) (r : ℕ) (ranges : List ℕ) (sel : Option (List DirMeta))
    → Returns (AllRejected (pos r) high_time) (split_by_range dms (pos r))
    → Chosen dms high_time ranges sel
    → Chosen dms high_time (r ∷ ranges) sel
Chosen-later dms high_time r ranges none h c = (h, c)
Chosen-later dms high_time r ranges (some part) h c = (c.0, mem-cons_of_mem r c.1, c.2)

IsSplit-parts :
    (r : ℕ) (dms : List DirMeta) (parts : List (List DirMeta))
    → IsSplit (pos r) dms parts
    → All (λ part. IsInWindow (pos r) part × All (λ d. Mem d dms) part) parts
IsSplit-parts r dms parts s =
    let from = All-filter (λ d. Mem d dms) (fits (pos r)) dms (All-Mem dms) in
    All-both _ _ parts s.windows
      (All-concat (λ d. Mem d dms) parts (subst (All (λ d. Mem d dms)) (sym s.together) from))

or_else-Chosen :
    (dms : List DirMeta) (high_time : ℤ) (r : ℕ) (ranges : List ℕ) (parts : List (List DirMeta))
    (found : Option (List DirMeta)) (more : Option (Option (List DirMeta)))
    → split_by_range dms (pos r) ≡ some parts
    → Found
        (λ part. IsInWindow (pos r) part × All (λ d. Mem d dms) part)
        (pos r)
        high_time
        parts
        found
    → Returns (Chosen dms high_time ranges) more
    → Returns (Chosen dms high_time (r ∷ ranges)) (or_else found more)
or_else-Chosen dms high_time r ranges parts none more e f h =
    let here : Returns (AllRejected (pos r) high_time) (split_by_range dms (pos r)) = rw e f in
    Returns-map _ _ more (λ sel. Chosen-later dms high_time r ranges sel here) h
or_else-Chosen dms high_time r ranges parts (some part) more e f h =
    Chosen-here dms high_time r ranges part f.0 f.1.0 f.1.1

select_step :
    (dms : List DirMeta) (high_time : ℤ) (r : ℕ) (ranges : List ℕ)
    (o : Option (List (List DirMeta))) (more : Option (Option (List DirMeta)))
    → split_by_range dms (pos r) ≡ o
    → Returns (IsSplit (pos r) dms) o
    → Returns (Chosen dms high_time ranges) more
    → Returns
        (Chosen dms high_time (r ∷ ranges))
        (elim o [ none ↦ none | some parts ↦ or_else (find_part (pos r) high_time parts) more ])
select_step dms high_time r ranges none more e s h = s
select_step dms high_time r ranges (some parts) more e s h =
    or_else-Chosen dms high_time r ranges parts (find_part (pos r) high_time parts) more e
      (find_part-Found _ (pos r) high_time parts (IsSplit-parts r dms parts s)) h

select_loop-Chosen :
    (high_time : ℤ) (dms : List DirMeta) (ranges : List ℕ)
    → IsByStart dms
    → All (λ r. 0 < r) ranges
    → Returns (Chosen dms high_time ranges) (select_loop (map pos ranges) high_time dms)
unfolding select_loop
select_loop-Chosen high_time dms [] s p = tt
select_loop-Chosen high_time dms (r ∷ ranges) s p =
    select_step dms high_time r ranges (split_by_range dms (pos r)) _ refl
      (split_by_range_lem r dms p.0 s) (select_loop-Chosen high_time dms ranges s p.1)

-- With the blocks in the order of their starts and positive ranges, of which the first is not used,
-- `select_dirs` ends. If it returns blocks, they are among those given, there are two or more of
-- them, no compaction of them has failed, they lie in one aligned window of a further range, and
-- they span that range or end by the start of the last block; if it returns none, then in each
-- further range each part has a failed block or is not ready.
pub select_dirs-Chosen :
    (smallest : ℕ) (ranges : List ℕ) (d : DirMeta) (dms : List DirMeta)
    → IsByStart (d ∷ dms)
    → All (λ r. 0 < r) ranges
    → Returns
        (Chosen (d ∷ dms) (back d dms).meta.min_time ranges)
        (select_dirs (map pos (smallest ∷ ranges)) (d ∷ dms))
unfolding select_dirs
select_dirs-Chosen smallest [] d dms s p = tt
select_dirs-Chosen smallest (r ∷ ranges) d dms s p =
    let more : ltb (length (map pos (smallest ∷ r ∷ ranges))) 2 ≡ false = ground arith in
    rw more (select_loop-Chosen (back d dms).meta.min_time (d ∷ dms) (r ∷ ranges) s p)
