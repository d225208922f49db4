-- ===== src/Compact/Merged.antt =====
-- `compact_block_metas` of compact/LeveledCompactor.cpp describes a block that has all that those it
-- is made of have.
use prom_tcs.Prelude.{
  Bool, true, false, ◌||◌, List, [], ◌∷◌, ◌++◌, map, concat_map, ◌≡◌, ◌⊎◌, refl, sym, ◌∙◌,
  append-nil, append_assoc, arith, All, All-map, All-both, Bool-cases, inl, inr,
}
use prom_tcs.Prelude.Int.{ℤ, pos, ◌≤ℤ◌, ◌<ℤ◌, ltb_ℤ, +ℤ_parts, eq_of_parts}
use prom_tcs.Prelude.Sorting.{IsSorted, IsOrder, sort-IsSorted}
use prom_tcs.Block.{Ulid, BlockMeta, new_block_meta, int64_min}
use prom_tcs.Compact.Metas.{
  is_source, desc, merge_meta, merge_metas, compact_block_metas, AreDistinct,
  is_source-insert_sources, is_source-append, insert_sources-AreDistinct, is_source-sort,
  sort-AreDistinct,
}

abbrev pub sources_of : List BlockMeta → List Ulid
sources_of = concat_map (λ b. b.compaction.sources)

abbrev pub EndBefore : ℤ → List BlockMeta → Type 0
EndBefore t = All (λ b. b.max_time ≤ℤ t)

-- Some block ends at `t`.
abbrev pub SomeEndsAt : ℤ → List BlockMeta → Type 0
SomeEndsAt t [] = ⊥
SomeEndsAt t (b ∷ bms) = (b.max_time ≡ t) ⊎ SomeEndsAt t bms

merge_metas-parents :
    (bm : BlockMeta) (bms : List BlockMeta)
    → (merge_metas bm bms).compaction.parents ≡ bm.compaction.parents ++ map desc bms
unfolding merge_metas merge_meta
merge_metas-parents bm [] = sym (append-nil bm.compaction.parents)
merge_metas-parents bm (b ∷ bms) =
    merge_metas-parents (merge_meta bm b) bms
    ∙ append_assoc bm.compaction.parents (desc b ∷ []) (map desc bms)

merge_metas-sources :
    (v : Ulid) (bm : BlockMeta) (bms : List BlockMeta)
    → is_source v (merge_metas bm bms).compaction.sources
      ≡ (is_source v (sources_of bms) || is_source v bm.compaction.sources)
unfolding merge_metas merge_meta is_source
merge_metas-sources v bm [] = refl
merge_metas-sources v bm (b ∷ bms) =
    let first = is_source-insert_sources v b.compaction.sources bm.compaction.sources in
    let parts = is_source-append v b.compaction.sources (sources_of bms) in
    let later = merge_metas-sources v (merge_meta bm b) bms in ground (arith, first, parts, later)

merge_metas-AreDistinct :
    (bm : BlockMeta) (bms : List BlockMeta)
    → AreDistinct bm.compaction.sources
    → AreDistinct (merge_metas bm bms).compaction.sources
unfolding merge_metas merge_meta
merge_metas-AreDistinct bm [] d = d
merge_metas-AreDistinct bm (b ∷ bms) d =
    merge_metas-AreDistinct (merge_meta bm b) bms
      (insert_sources-AreDistinct b.compaction.sources bm.compaction.sources d)

merge_metas-max_time :
    (bm : BlockMeta) (bms : List BlockMeta)
    → (bm.max_time ≤ℤ (merge_metas bm bms).max_time) × EndBefore (merge_metas bm bms).max_time bms
unfolding merge_metas merge_meta
merge_metas-max_time bm [] = (omega arith, tt)
merge_metas-max_time bm (b ∷ bms) =
    let later = merge_metas-max_time (merge_meta bm b) bms in
    (ground (arith, later.0), (ground (arith, later.0), later.1))

merge_metas-attained :
    (bm : BlockMeta) (bms : List BlockMeta)
    → ((merge_metas bm bms).max_time ≡ bm.max_time) ⊎ SomeEndsAt (merge_metas bm bms).max_time bms
unfolding merge_metas merge_meta
merge_metas-attained bm [] = inl refl
merge_metas-attained bm (b ∷ bms) = elim (merge_metas-attained (merge_meta bm b) bms) [
  | inr later ↦ inr (inr later)
  | inl e ↦ elim (Bool-cases (ltb_ℤ bm.max_time b.max_time)) [
    | inl t ↦ inr (inl (sym (ground (arith, e, t))))
    | inr f ↦ inl (ground (arith, e, f))
  ]
]

merge_metas-level :
    (bm : BlockMeta) (bms : List BlockMeta)
    → (bm.compaction.level ≤ℤ (merge_metas bm bms).compaction.level)
      × All (λ b. b.compaction.level ≤ℤ (merge_metas bm bms).compaction.level) bms
unfolding merge_metas merge_meta
merge_metas-level bm [] = (omega arith, tt)
merge_metas-level bm (b ∷ bms) =
    let later = merge_metas-level (merge_meta bm b) bms in
    (ground (arith, later.0), (ground (arith, later.0), later.1))

merge_metas-rest :
    (bm : BlockMeta) (bms : List BlockMeta)
    → ((merge_metas bm bms).min_time ≡ bm.min_time) × ((merge_metas bm bms).ulid ≡ bm.ulid)
unfolding merge_metas merge_meta
merge_metas-rest bm [] = (refl, refl)
merge_metas-rest bm (b ∷ bms) = merge_metas-rest (merge_meta bm b) bms

or_false : (b : Bool) → (b || false) ≡ b
or_false true = refl
or_false false = refl

-- Some block begins at `t`.
abbrev pub SomeStartsAt : ℤ → List BlockMeta → Type 0
SomeStartsAt t [] = ⊥
SomeStartsAt t (b ∷ bms) = (b.min_time ≡ t) ⊎ SomeStartsAt t bms

-- The block `bm` has all that the blocks have, and nothing else.
pub record Describes (less : Ulid → Ulid → Bool) (bms : List BlockMeta) (bm : BlockMeta)
    : Type 0 where
  pub within : All (λ b. (bm.min_time ≤ℤ b.min_time) × (b.max_time ≤ℤ bm.max_time)) bms
  pub starts : SomeStartsAt bm.min_time bms
  pub tight : SomeEndsAt bm.max_time bms
  pub level : All (λ b. b.compaction.level <ℤ bm.compaction.level) bms
  pub parents : bm.compaction.parents ≡ map desc bms
  pub sources : (u : Ulid) → is_source u bm.compaction.sources ≡ is_source u (sources_of bms)
  pub distinct : AreDistinct bm.compaction.sources
  pub in_order : IsSorted less bm.compaction.sources

-- Where no block begins before the first, the first does not end before the least int64, and the
-- order of ULIDs is a linear order, the result of `compact_block_metas` begins where the earliest of
-- the blocks begins and ends where the latest of them ends, has a higher level than each, their
-- descriptions in order as its parents, and as its sources just those of the blocks, each once and
-- in the order of ULIDs.
pub compact_block_metas-Describes :
    (less : Ulid → Ulid → Bool) (ulid : Ulid) (b : BlockMeta) (bms : List BlockMeta)
    → IsOrder less
    → All (λ c. b.min_time ≤ℤ c.min_time) bms
    → int64_min ≤ℤ b.max_time
    → Describes less (b ∷ bms) (compact_block_metas less ulid b bms)
unfolding compact_block_metas
compact_block_metas-Describes less ulid b bms o first least =
    let start = record new_block_meta { ulid = ulid; min_time = b.min_time } in
    let all = b ∷ bms in
    let bm = merge_metas start all in
    let bounds = merge_metas-max_time start all in
    let same = (merge_metas-rest start all).0 in
    let levels = merge_metas-level start all in
    record {
      within =
          All-map _ _ all (λ c both. (rw same both.0, both.1))
            (All-both (λ c. b.min_time ≤ℤ c.min_time) (λ c. c.max_time ≤ℤ bm.max_time) all
              (omega arith, first) bounds.1);
      starts = inl (sym same);
      tight = elim (merge_metas-attained start all) [
        | inl e ↦ inl (eq_of_parts b.max_time bm.max_time (ground (arith, e, bounds.1.0, least)))
        | inr later ↦ later
      ];
      level =
          All-map _ _ all (λ c le. omega (arith, le, +ℤ_parts bm.compaction.level (pos 1)))
            levels.1;
      parents = merge_metas-parents start all;
      sources = λ u.
          is_source-sort less u bm.compaction.sources
          ∙ merge_metas-sources u start all
          ∙ or_false (is_source u (sources_of all));
      distinct = sort-AreDistinct less bm.compaction.sources (merge_metas-AreDistinct start all tt);
      in_order = sort-IsSorted less o bm.compaction.sources;
    }
