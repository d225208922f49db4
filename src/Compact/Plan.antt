-- ===== src/Compact/Plan.antt =====
-- `plan_helper` and `plan` of compact/LeveledCompactor.cpp: what is planned, and when nothing can be.
use prom_tcs.Prelude.{
  ℕ, ◌/◌, ◌<◌, Bool, true, not, Option, none, some, List, [], ◌∷◌, map, get_or, ◌≡◌, refl, All,
  All-Mem, length, if◌then◌else◌, Bool-cases, inl, inr,
}
use prom_tcs.Prelude.Int.{ℤ, pos, ◌-ℤ◌, ltb_ℤ}
use prom_tcs.Block.{Dir, DirMeta, int64_min}
use prom_tcs.Compact.{
  back, is_empty, split, split_by_range, select_dirs, selected_dirs, tombstone_dirs, plan_older,
  plan_helper, without_last, reverse_onto, dirs_of, Planned, planned, error_reading_block_meta,
  stuck,
}
use prom_tcs.Compact.Overlap.{BeginFrom, IsDisjoint, overlapping_dirs-IsDisjoint}
use prom_tcs.Compact.Split.{IsByStart, Returns}
use prom_tcs.Compact.Select.{MayCompact, AllRejected, Chosen, select_dirs-Chosen}
use mathlib.Core.List.{Mem}

-- The start of the last block.
abbrev pub last_start : List DirMeta → ℤ
last_start [] = int64_min
last_start (d ∷ dms) = (back d dms).meta.min_time

-- What may be planned for the blocks that are not the newest.
pub data PlanFor (worn : ℕ → ℕ → Bool) (ranges : List ℕ) (older : List DirMeta) (res : List Dir)
    : Type 0 where
  nothing : res ≡ [] → PlanFor worn ranges older res
  together :
      (r : ℕ) (part : List DirMeta)
      → Mem r ranges
      → MayCompact older (last_start older) r part
      → res ≡ dirs_of part
      → PlanFor worn ranges older res
  alone :
      (d : DirMeta)
      → Mem d older
      → worn d.meta.stats.num_tombstones d.meta.stats.num_series ≡ true
      → res ≡ d.dir ∷ []
      → PlanFor worn ranges older res

abbrev pub Plans : (List Dir → Type 0) → Planned → Type 0
Plans P (planned res) = P res
Plans P error_reading_block_meta = ⊥
Plans P stuck = ⊥

BeginFrom-without_last :
    (t : ℤ) (dms : List DirMeta) → BeginFrom t dms → BeginFrom t (without_last dms)
BeginFrom-without_last t [] h = tt
BeginFrom-without_last t (d ∷ []) h = tt
BeginFrom-without_last t (d ∷ e ∷ dms) h = (h.0, BeginFrom-without_last t (e ∷ dms) h.1)

without_last-IsByStart : (dms : List DirMeta) → IsByStart dms → IsByStart (without_last dms)
without_last-IsByStart [] s = tt
without_last-IsByStart (d ∷ []) s = tt
without_last-IsByStart (d ∷ e ∷ dms) s =
    (BeginFrom-without_last d.meta.min_time (e ∷ dms) s.0, without_last-IsByStart (e ∷ dms) s.1)

All-reverse_onto :
    (P : DirMeta → Type 0) (done dms : List DirMeta)
    → All P done
    → All P dms
    → All P (reverse_onto done dms)
All-reverse_onto P done [] h k = h
All-reverse_onto P done (d ∷ dms) h k = All-reverse_onto P (d ∷ done) dms (k.0, h) k.1

nothing_rejected :
    (ranges : List ℕ)
    → All (λ r. Returns (AllRejected (pos r) int64_min) (split_by_range [] (pos r))) ranges
unfolding split_by_range split
nothing_rejected [] = tt
nothing_rejected (r ∷ ranges) = (tt, nothing_rejected ranges)

module _ (worn : ℕ → ℕ → Bool) where
  tombstone_dirs-PlanFor :
      (ranges : List ℕ) (older : List DirMeta) (limit : ℤ) (dms : List DirMeta)
      → All (λ d. Mem d older) dms
      → PlanFor worn ranges older (tombstone_dirs worn limit dms)
  unfolding tombstone_dirs
  tombstone_dirs-PlanFor ranges older limit [] m = nothing refl
  tombstone_dirs-PlanFor ranges older limit (d ∷ dms) m =
      let rest = tombstone_dirs-PlanFor ranges older limit dms m.1 in
      elim (Bool-cases (ltb_ℤ (d.meta.max_time -ℤ d.meta.min_time) limit)) [
        | inl short ↦ rw short (nothing refl)
        | inr long ↦ elim (Bool-cases (worn d.meta.stats.num_tombstones d.meta.stats.num_series)) [
          | inl t ↦ rw (long, t) (alone d m.0 t refl)
          | inr f ↦ rw (long, f) rest
        ]
      ]

  -- What is chosen comes first, and the tombstones count where nothing is.
  selection_first :
      (ranges : List ℕ) (older : List DirMeta) (o : Option (Option (List DirMeta)))
      (rest : List Dir)
      → Returns (Chosen older (last_start older) ranges) o
      → PlanFor worn ranges older rest
      → Plans (PlanFor worn ranges older) (elim o [
        | none ↦ stuck
        | some selected ↦
            if not (is_empty (selected_dirs selected))
            then planned (selected_dirs selected)
            else planned rest
      ])
  selection_first ranges older none rest h p = h
  selection_first ranges older (some none) rest h p = p
  selection_first ranges older (some (some [])) rest h p = p
  selection_first ranges older (some (some (d ∷ part))) rest h p =
      together h.0 (d ∷ part) h.1 h.2 refl

  select_dirs-Returns :
      (smallest : ℕ) (ranges : List ℕ) (older : List DirMeta)
      → IsByStart older
      → All (λ r. 0 < r) ranges
      → Returns
          (Chosen older (last_start older) ranges)
          (select_dirs (map pos (smallest ∷ ranges)) older)
  unfolding select_dirs
  select_dirs-Returns smallest ranges [] s p = nothing_rejected ranges
  select_dirs-Returns smallest ranges (d ∷ dms) s p = select_dirs-Chosen smallest ranges d dms s p

  plan_older-PlanFor :
      (smallest : ℕ) (ranges : List ℕ) (older : List DirMeta)
      → IsByStart older
      → All (λ r. 0 < r) ranges
      → Plans (PlanFor worn ranges older) (plan_older worn (map pos (smallest ∷ ranges)) older)
  unfolding plan_older
  plan_older-PlanFor smallest ranges older s p =
      let all = map pos (smallest ∷ ranges) in
      let limit = get_or all (length all / 2) (pos 0) in
      selection_first ranges older (select_dirs all older)
        (tombstone_dirs worn limit (reverse_onto [] older))
        (select_dirs-Returns smallest ranges older s p)
        (tombstone_dirs-PlanFor ranges older limit (reverse_onto [] older)
          (All-reverse_onto (λ d. Mem d older) [] older tt (All-Mem older)))

  module _ (std_sort : List DirMeta → List DirMeta) where
    -- Where the blocks, in the order of their starts, do not overlap and the ranges are positive,
    -- `plan_helper` ends and leaves the newest block alone: it plans nothing, two or more of the
    -- others that may be compacted in a window of a range but the first, or one of the others that
    -- has too many tombstones.
    pub plan_helper-PlanFor :
        (smallest : ℕ) (ranges : List ℕ) (dms : List DirMeta)
        → IsByStart (std_sort dms)
        → IsDisjoint (std_sort dms)
        → All (λ r. 0 < r) ranges
        → Plans
            (PlanFor worn ranges (without_last (std_sort dms)))
            (plan_helper worn std_sort (map pos (smallest ∷ ranges)) dms)
    unfolding plan_helper
    plan_helper-PlanFor smallest ranges dms s d p =
        let none_overlap = (overlapping_dirs-IsDisjoint (std_sort dms)).1 d in
        rw none_overlap (
          plan_older-PlanFor smallest ranges (without_last (std_sort dms))
            (without_last-IsByStart (std_sort dms) s) p)
