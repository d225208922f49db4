-- ===== src/Compact.antt =====
-- compact/LeveledCompactor.cpp: which blocks are compacted together, and the description of the
-- block that is made of them. The sort of the standard library and the test of two floating-point
-- numbers are parameters, as are the reads of the directories.
pub mod Overlap
pub mod Window
pub mod Split
pub mod Select
pub mod Plan
pub mod Errors
pub mod Metas
pub mod Merged
use prom_tcs.Prelude.{
  ℕ, zero, suc, ◌+◌, ◌/◌, Bool, true, false, not, ◌&&◌, ◌||◌, Option, none, some, List, [], ◌∷◌,
  ◌++◌, map, length, get_or, drop, ltb, ◌==◌, if◌then◌else◌,
}
use prom_tcs.Prelude.Int.{ℤ, pos, ◌+ℤ◌, ◌-ℤ◌, ◌*ℤ◌, ◌/ℤ◌, ltb_ℤ, leb_ℤ, eqb_ℤ}
use prom_tcs.Prelude.Sorting.{sort}
use prom_tcs.Block.{
  Dir, Ulid, BlockDesc, BlockMeta, DirMeta, new_block_meta, no_compaction, int64_min,
}

abbrev pub is_empty : {A : Type 0} → List A → Bool
is_empty [] = true
is_empty (x ∷ xs) = false

-- The loop of `overlapping_dirs`: `prev` is the block before the first that is left.
unfoldable pub overlap_loop : ℤ → DirMeta → List Dir → List DirMeta → List Dir
overlap_loop max prev overlappings [] = overlappings
overlap_loop max prev overlappings (d ∷ dms) =
    let overlaps = ltb_ℤ d.meta.min_time max in
    let begun = if is_empty overlappings then prev.dir ∷ [] else overlappings in
    let found = if overlaps then begun ++ (d.dir ∷ []) else overlappings in
    let rest =
      overlap_loop (if ltb_ℤ max d.meta.max_time then d.meta.max_time else max) d found dms in
    if not overlaps && not (is_empty overlappings) then overlappings else rest

unfoldable pub overlapping_dirs : List DirMeta → List Dir
unfolding overlap_loop
overlapping_dirs [] = []
overlapping_dirs (d ∷ dms) = overlap_loop d.meta.max_time d [] dms

-- The start of the aligned window of size `range` that has the time `mt`.
unfoldable pub window_start : ℤ → ℤ → ℤ
window_start range mt =
    if leb_ℤ (pos 0) mt then range *ℤ (mt /ℤ range) else range *ℤ ((mt -ℤ range +ℤ pos 1) /ℤ range)

-- The inner loop of `split_by_range`: the group, and the blocks behind it.
unfoldable pub gather : ℤ → List DirMeta → List DirMeta × List DirMeta
gather limit [] = ([], [])
gather limit (d ∷ dms) =
    let (group, behind) = gather limit dms in
    if ltb_ℤ limit d.meta.max_time then ([], d ∷ dms) else (d ∷ group, behind)

abbrev pub add_part : List DirMeta → Option (List (List DirMeta)) → Option (List (List DirMeta))
add_part [] parts = parts
add_part (d ∷ group) none = none
add_part (d ∷ group) (some parts) = some ((d ∷ group) ∷ parts)

-- The outer loop, on fuel.
unfoldable pub split : ℕ → ℤ → List DirMeta → Option (List (List DirMeta))
unfolding gather
split fuel range [] = some []
split zero range (d ∷ dms) = none
split (suc fuel) range (d ∷ dms) =
    let limit = window_start range d.meta.min_time +ℤ range in
    let straddles = ltb_ℤ limit d.meta.max_time in
    let (group, behind) = gather limit (d ∷ dms) in
    let parts = split fuel range (if straddles then dms else behind) in
    if straddles then parts else add_part group parts

unfoldable pub split_by_range : List DirMeta → ℤ → Option (List (List DirMeta))
unfolding split
split_by_range dms range = split (length dms) range dms

unfoldable pub has_failed : List DirMeta → Bool
has_failed [] = false
has_failed (d ∷ part) = d.meta.compaction.failed || has_failed part

abbrev pub back : DirMeta → List DirMeta → DirMeta
back d [] = d
back d (e ∷ dms) = back e dms

-- A part is never empty (`split_by_range`).
unfoldable pub is_ready : ℤ → ℤ → List DirMeta → Bool
is_ready range high_time [] = false
is_ready range high_time (d ∷ part) =
    let max_time = (back d part).meta.max_time in
    (eqb_ℤ (max_time -ℤ d.meta.min_time) range || leb_ℤ max_time high_time)
    && ltb 1 (length (d ∷ part))

unfoldable pub find_part : ℤ → ℤ → List (List DirMeta) → Option (List DirMeta)
unfolding has_failed is_ready
find_part range high_time [] = none
find_part range high_time (part ∷ parts) =
    let more = find_part range high_time parts in
    if has_failed part then more else if is_ready range high_time part then some part else more

abbrev pub or_else :
    Option (List DirMeta) → Option (Option (List DirMeta)) → Option (Option (List DirMeta))
or_else none more = more
or_else (some part) more = some (some part)

-- The outer `none` is the end of the fuel, and the inner one the null pointer.
unfoldable pub select_loop : List ℤ → ℤ → List DirMeta → Option (Option (List DirMeta))
unfolding split_by_range find_part
select_loop [] high_time dms = some none
select_loop (range ∷ ranges) high_time dms =
    let more = select_loop ranges high_time dms in
    elim (split_by_range dms range) [
      | none ↦ none
      | some parts ↦ or_else (find_part range high_time parts) more
    ]

unfoldable pub select_dirs : List ℤ → List DirMeta → Option (Option (List DirMeta))
unfolding select_loop
select_dirs ranges [] = some none
select_dirs ranges (d ∷ dms) =
    if ltb (length ranges) 2
    then some none
    else select_loop (drop 1 ranges) (back d dms).meta.min_time (d ∷ dms)

-- `pop_back`
abbrev pub without_last : List DirMeta → List DirMeta
without_last [] = []
without_last (d ∷ []) = []
without_last (d ∷ e ∷ dms) = d ∷ without_last (e ∷ dms)

abbrev pub reverse_onto : List DirMeta → List DirMeta → List DirMeta
reverse_onto done [] = done
reverse_onto done (d ∷ dms) = reverse_onto (d ∷ done) dms

abbrev pub dirs_of : List DirMeta → List Dir
dirs_of [] = []
dirs_of (d ∷ dms) = d.dir ∷ dirs_of dms

abbrev pub selected_dirs : Option (List DirMeta) → List Dir
selected_dirs none = []
selected_dirs (some dms) = dirs_of dms

pub data Planned : Type 0 where
  planned : List Dir → Planned
  error_reading_block_meta stuck : Planned

abbrev pub add_meta : Dir → Option BlockMeta → Option (List DirMeta) → Option (List DirMeta)
add_meta s none dms = none
add_meta s (some meta) none = none
add_meta s (some meta) (some dms) = some (record { dir = s; meta = meta } ∷ dms)

-- The loop of `plan`.
unfoldable pub read_metas : (Dir → Option BlockMeta) → List Dir → Option (List DirMeta)
read_metas read_block_meta [] = some []
read_metas read_block_meta (s ∷ dirs) =
    add_meta s (read_block_meta s) (read_metas read_block_meta dirs)

module _ (more_than_a_twentieth : ℕ → ℕ → Bool) where
  -- The last loop of `plan_helper`, from the last block to the first.
  unfoldable pub tombstone_dirs : ℤ → List DirMeta → List Dir
  tombstone_dirs limit [] = []
  tombstone_dirs limit (d ∷ dms) =
      let rest = tombstone_dirs limit dms in
      if ltb_ℤ (d.meta.max_time -ℤ d.meta.min_time) limit
      then []
      else if more_than_a_twentieth d.meta.stats.num_tombstones d.meta.stats.num_series
      then d.dir ∷ []
      else rest

  unfoldable pub plan_older : List ℤ → List DirMeta → Planned
  unfolding select_dirs tombstone_dirs
  plan_older ranges older = elim (select_dirs ranges older) [
    | none ↦ stuck
    | some selected ↦
        if not (is_empty (selected_dirs selected))
        then planned (selected_dirs selected)
        else planned
            (tombstone_dirs (get_or ranges (length ranges / 2) (pos 0)) (reverse_onto [] older))
  ]

  module _ (std_sort : List DirMeta → List DirMeta) where
    unfoldable pub plan_helper : List ℤ → List DirMeta → Planned
    unfolding overlapping_dirs plan_older
    plan_helper ranges dms =
        let sorted = std_sort dms in
        let res = overlapping_dirs sorted in
        if not (is_empty res) then planned res else plan_older ranges (without_last sorted)

    module _ (block_dirs : Dir → List Dir) (read_block_meta : Dir → Option BlockMeta) where
      unfoldable pub plan : List ℤ → Dir → Planned
      unfolding plan_helper read_metas
      plan ranges dir =
          if is_empty (block_dirs dir)
          then planned []
          else elim (read_metas read_block_meta (block_dirs dir)) [
            | none ↦ error_reading_block_meta
            | some dms ↦ plan_helper ranges dms
          ]
