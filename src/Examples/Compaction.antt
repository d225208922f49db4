-- ===== src/Examples/Compaction.antt =====
-- Concrete runs of the compactor: four blocks, as in the comment of `split_by_range`.
use prom_tcs.Prelude.{
  ℕ, ◌*◌, Bool, Option, none, some, List, [], ◌∷◌, map, ◌≡◌, ◌↔◌, refl, arith, ltb, if◌then◌else◌,
  ◌==◌,
}
use prom_tcs.Prelude.Int.{pos, ltb_ℤ, ◌+ℤ◌, ◌-ℤ◌, ◌*ℤ◌, ◌/ℤ◌}
use prom_tcs.Prelude.Sorting.{sort, insert, IsOrder}
use prom_tcs.Block.{Dir, BlockMeta, DirMeta, new_block_meta, no_compaction}
use prom_tcs.Compact.{
  overlap_loop, overlapping_dirs, window_start, gather, split, split_by_range, has_failed, is_ready,
  find_part, select_loop, select_dirs, tombstone_dirs, plan_older, plan_helper, plan, without_last,
  planned, error_reading_block_meta,
}
use prom_tcs.Compact.Overlap.{IsDisjoint, overlapping_dirs-IsDisjoint}
use prom_tcs.Compact.Split.{IsSplit, Returns, split_by_range_lem}
use prom_tcs.Compact.Select.{Chosen, select_dirs-Chosen}
use prom_tcs.Compact.Plan.{PlanFor, Plans, plan_helper-PlanFor}
use prom_tcs.Compact.Errors.{AnyUnreadable, plan-error}
use prom_tcs.Compact.Metas.{compact_block_metas}
use prom_tcs.Compact.Merged.{Describes, compact_block_metas-Describes}

abbrev block_of : ℕ → ℕ → BlockMeta
block_of lo hi = record new_block_meta {
  ulid = lo;
  min_time = pos lo;
  max_time = pos hi;
  compaction = record no_compaction { level = pos 1; sources = lo ∷ [] };
}

abbrev dir_of : ℕ → ℕ → DirMeta
dir_of lo hi = record { dir = lo ∷ []; meta = block_of lo hi }

abbrev later_blocks : List DirMeta
later_blocks = dir_of 10 20 ∷ dir_of 50 60 ∷ dir_of 90 100 ∷ []

abbrev four_blocks : List DirMeta
four_blocks = dir_of 0 10 ∷ later_blocks

abbrev worn : ℕ → ℕ → Bool
worn stones series = ltb series (20 * stones)

abbrev by_start : List DirMeta → List DirMeta
by_start = sort (λ d e. ltb_ℤ d.meta.min_time e.meta.min_time)

split_at_30 :
    split_by_range four_blocks (pos 30)
    ≡ some ((dir_of 0 10 ∷ dir_of 10 20 ∷ []) ∷ (dir_of 50 60 ∷ []) ∷ (dir_of 90 100 ∷ []) ∷ [])
unfolding split_by_range split gather window_start ◌+ℤ◌ ◌*ℤ◌ ◌/ℤ◌ ◌-ℤ◌
split_at_30 = refl

plan_two :
    plan_helper worn by_start (map pos (10 ∷ 30 ∷ [])) four_blocks
    ≡ planned ((0 ∷ []) ∷ (10 ∷ []) ∷ [])
unfolding plan_helper plan_older select_dirs select_loop find_part has_failed is_ready
    split_by_range split gather window_start overlapping_dirs overlap_loop sort insert
    tombstone_dirs ◌+ℤ◌ ◌*ℤ◌ ◌/ℤ◌ ◌-ℤ◌
plan_two = refl

overlapping_dirs-IsDisjoint_example : (overlapping_dirs four_blocks ≡ []) ↔ IsDisjoint four_blocks
overlapping_dirs-IsDisjoint_example = overlapping_dirs-IsDisjoint four_blocks

split_by_range_example :
    Returns (IsSplit (pos 30) four_blocks) (split_by_range four_blocks (pos 30))
split_by_range_example = split_by_range_lem 30 four_blocks (omega arith) (omega arith)

select_dirs-Chosen_example :
    Returns
      (Chosen four_blocks (pos 90) (30 ∷ []))
      (select_dirs (map pos (10 ∷ 30 ∷ [])) four_blocks)
select_dirs-Chosen_example =
    select_dirs-Chosen 10 (30 ∷ []) (dir_of 0 10) later_blocks (omega arith) (omega arith)

plan_helper-PlanFor_example :
    Plans
      (PlanFor worn (30 ∷ []) (without_last (by_start four_blocks)))
      (plan_helper worn by_start (map pos (10 ∷ 30 ∷ [])) four_blocks)
unfolding sort insert
plan_helper-PlanFor_example =
    plan_helper-PlanFor worn by_start 10 (30 ∷ []) four_blocks (omega arith) (omega arith)
      (omega arith)

abbrev found_dirs : Dir → List Dir
found_dirs dir = (1 ∷ []) ∷ (2 ∷ []) ∷ []

abbrev read_first_only : Dir → Option BlockMeta
read_first_only [] = none
read_first_only (c ∷ dir) = if c == 1 then some (block_of 0 10) else none

plan-error_example :
    (plan worn by_start found_dirs read_first_only (map pos (10 ∷ 30 ∷ [])) []
      ≡ error_reading_block_meta)
    ↔ AnyUnreadable read_first_only (found_dirs [])
plan-error_example = plan-error worn by_start found_dirs read_first_only (map pos (10 ∷ 30 ∷ [])) []

ltb-IsOrder : IsOrder ltb
ltb-IsOrder = record {
  self = λ x. ground arith;
  equal = λ x y h k. ground (arith, h, k);
  asym = λ x y h. ground (arith, h);
  trans = λ x y z h k. ground (arith, h, k);
}

compact_block_metas-Describes_example :
    Describes ltb
      (block_of 0 10 ∷ block_of 10 20 ∷ [])
      (compact_block_metas ltb 7 (block_of 0 10) (block_of 10 20 ∷ []))
compact_block_metas-Describes_example =
    compact_block_metas-Describes ltb 7 (block_of 0 10) (block_of 10 20 ∷ []) ltb-IsOrder
      (omega arith) (omega arith)
