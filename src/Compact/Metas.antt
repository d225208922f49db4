-- ===== src/Compact/Metas.antt =====
-- `compact_block_metas` of compact/LeveledCompactor.cpp: the description of the block that is made
-- of others. The order of ULIDs is a parameter; the set of sources is a list without repeats.
use prom_tcs.Prelude.{
  Bool, true, false, ◌||◌, List, [], ◌∷◌, ◌++◌, ◌≡◌, refl, ap, sym, ◌∙◌, arith, ◌==◌, if◌then◌else◌,
  Bool-cases, inl, inr,
}
use prom_tcs.Prelude.Int.{ℤ, pos, ◌+ℤ◌, ltb_ℤ}
use prom_tcs.Prelude.Sorting.{sort, insert}
use prom_tcs.Block.{Ulid, BlockDesc, BlockMeta, new_block_meta}

unfoldable pub is_source : Ulid → List Ulid → Bool
is_source u [] = false
is_source u (v ∷ vs) = (u == v) || is_source u vs

unfoldable pub insert_source : Ulid → List Ulid → List Ulid
unfolding is_source
insert_source u us = if is_source u us then us else u ∷ us

unfoldable pub insert_sources : List Ulid → List Ulid → List Ulid
unfolding insert_source
insert_sources [] us = us
insert_sources (v ∷ vs) us = insert_sources vs (insert_source v us)

abbrev pub raise_ℤ : ℤ → ℤ → ℤ
raise_ℤ a b = if ltb_ℤ a b then b else a

abbrev pub desc : BlockMeta → BlockDesc
desc b = record { ulid = b.ulid; max_time = b.max_time; min_time = b.min_time }

-- One round of the loop; `bm` keeps the loop's latest time and set of sources as well.
unfoldable pub merge_meta : BlockMeta → BlockMeta → BlockMeta
unfolding insert_sources
merge_meta bm b = record bm {
  max_time = raise_ℤ bm.max_time b.max_time;
  compaction = record bm.compaction {
    level = raise_ℤ bm.compaction.level b.compaction.level;
    sources = insert_sources b.compaction.sources bm.compaction.sources;
    parents = bm.compaction.parents ++ (desc b ∷ []);
  };
}

unfoldable pub merge_metas : BlockMeta → List BlockMeta → BlockMeta
unfolding merge_meta
merge_metas bm [] = bm
merge_metas bm (b ∷ bms) = merge_metas (merge_meta bm b) bms

-- The blocks are `b` and `bms`: `compact` returns before it comes here if there are none.
unfoldable pub compact_block_metas :
    (Ulid → Ulid → Bool) → Ulid → BlockMeta → List BlockMeta → BlockMeta
unfolding merge_metas sort
compact_block_metas less ulid b bms =
    let bm = merge_metas (record new_block_meta { ulid = ulid; min_time = b.min_time }) (b ∷ bms) in
    record bm {
      compaction = record bm.compaction {
        level = bm.compaction.level +ℤ pos 1;
        sources = sort less bm.compaction.sources;
      };
    }

abbrev pub AreDistinct : List Ulid → Type 0
AreDistinct [] = Unit {0}
AreDistinct (u ∷ us) = (is_source u us ≡ false) × AreDistinct us

or_swap : (a b c : Bool) → (a || (b || c)) ≡ (b || (a || c))
or_swap true true c = refl
or_swap true false c = refl
or_swap false b c = refl

is_source-insert_source :
    (v u : Ulid) (us : List Ulid) → is_source v (insert_source u us) ≡ ((v == u) || is_source v us)
unfolding insert_source is_source
is_source-insert_source v u us = elim (Bool-cases (is_source u us)) [
  | inl t ↦ elim (Bool-cases (v == u)) [
    | inl same ↦ let e : v ≡ u = ground (arith, same) in rw (t, same, e, t) refl
    | inr other ↦ rw (t, other) refl
  ]
  | inr f ↦ rw f refl
]

or_move : (a b c : Bool) → (a || (b || c)) ≡ ((b || a) || c)
or_move true true c = refl
or_move true false c = refl
or_move false true c = refl
or_move false false c = refl

or_assoc : (a b c : Bool) → ((a || b) || c) ≡ (a || (b || c))
or_assoc true b c = refl
or_assoc false b c = refl

pub is_source-insert_sources :
    (v : Ulid) (vs us : List Ulid)
    → is_source v (insert_sources vs us) ≡ (is_source v vs || is_source v us)
unfolding insert_sources is_source
is_source-insert_sources v [] us = refl
is_source-insert_sources v (u ∷ vs) us =
    is_source-insert_sources v vs (insert_source u us)
    ∙ ap (λ (b : Bool). is_source v vs || b) (is_source-insert_source v u us)
    ∙ or_move (is_source v vs) (v == u) (is_source v us)

pub is_source-append :
    (v : Ulid) (vs us : List Ulid) → is_source v (vs ++ us) ≡ (is_source v vs || is_source v us)
unfolding is_source
is_source-append v [] us = refl
is_source-append v (u ∷ vs) us =
    ap (λ (b : Bool). (v == u) || b) (is_source-append v vs us)
    ∙ sym (or_assoc (v == u) (is_source v vs) (is_source v us))

pub insert_sources-AreDistinct :
    (vs us : List Ulid) → AreDistinct us → AreDistinct (insert_sources vs us)
unfolding insert_sources insert_source
insert_sources-AreDistinct [] us d = d
insert_sources-AreDistinct (v ∷ vs) us d = elim (Bool-cases (is_source v us)) [
  | inl t ↦ rw t (insert_sources-AreDistinct vs us d)
  | inr f ↦ rw f (insert_sources-AreDistinct vs (v ∷ us) (f, d))
]

module _ (less : Ulid → Ulid → Bool) where
  is_source-insert :
      (v u : Ulid) (us : List Ulid) → is_source v (insert less u us) ≡ ((v == u) || is_source v us)
  unfolding insert is_source
  is_source-insert v u [] = refl
  is_source-insert v u (w ∷ us) = elim (Bool-cases (less w u)) [
    | inl t ↦ rw t (
        ap (λ (b : Bool). (v == w) || b) (is_source-insert v u us)
        ∙ or_swap (v == w) (v == u) (is_source v us))
    | inr f ↦ rw f refl
  ]

  pub is_source-sort : (v : Ulid) (us : List Ulid) → is_source v (sort less us) ≡ is_source v us
  unfolding sort is_source
  is_source-sort v [] = refl
  is_source-sort v (u ∷ us) =
      is_source-insert v u (sort less us) ∙ ap (λ (b : Bool). (v == u) || b) (is_source-sort v us)

  insert-AreDistinct :
      (u : Ulid) (us : List Ulid)
      → is_source u us ≡ false
      → AreDistinct us
      → AreDistinct (insert less u us)
  unfolding insert is_source
  insert-AreDistinct u [] h d = (refl, tt)
  insert-AreDistinct u (w ∷ us) h d = elim (Bool-cases (less w u)) [
    | inl t ↦ rw t (
      is_source-insert w u us ∙ ground (arith, h, d.0),
      insert-AreDistinct u us (ground (arith, h)) d.1,
    )
    | inr f ↦ rw f (h, d)
  ]

  pub sort-AreDistinct : (us : List Ulid) → AreDistinct us → AreDistinct (sort less us)
  unfolding sort
  sort-AreDistinct [] d = tt
  sort-AreDistinct (u ∷ us) d =
      insert-AreDistinct u (sort less us) (is_source-sort u us ∙ d.0) (sort-AreDistinct us d.1)
