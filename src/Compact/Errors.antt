-- ===== src/Compact/Errors.antt =====
-- `plan` of compact/LeveledCompactor.cpp fails exactly when it cannot read what it found.
use prom_tcs.Prelude.{
  ℕ, Bool, true, false, Option, none, some, List, [], ◌∷◌, ◌≡◌, ◌≢◌, ◌↔◌, ◌⊎◌, refl, if◌then◌else◌,
  Bool-cases, Option-cases, inl, inr,
}
use prom_tcs.Prelude.Int.{ℤ}
use prom_tcs.Block.{Dir, BlockMeta, DirMeta}
use prom_tcs.Compact.{
  is_empty, select_dirs, overlapping_dirs, plan_older, plan_helper, add_meta, read_metas, plan,
  planned, error_reading_block_meta,
}

-- Some directory has no description that can be read.
abbrev pub AnyUnreadable : (Dir → Option BlockMeta) → List Dir → Type 0
AnyUnreadable read [] = ⊥
AnyUnreadable read (s ∷ dirs) = (read s ≡ none) ⊎ AnyUnreadable read dirs

add_meta-none :
    (s : Dir) (o : Option BlockMeta) (dms : Option (List DirMeta))
    → (add_meta s o dms ≡ none) ↔ ((o ≡ none) ⊎ (dms ≡ none))
add_meta-none s none dms = (λ e. inl refl, λ h. refl)
add_meta-none s (some meta) none = (λ e. inr refl, λ h. refl)
add_meta-none s (some meta) (some dms) = (λ e. cc, λ h. elim h [ inl e ↦ cc | inr e ↦ cc ])

read_metas-none :
    (read : Dir → Option BlockMeta) (dirs : List Dir)
    → (read_metas read dirs ≡ none) ↔ AnyUnreadable read dirs
unfolding read_metas
read_metas-none read [] = (λ e. cc, λ h. absurd h)
read_metas-none read (s ∷ dirs) =
    let here = add_meta-none s (read s) (read_metas read dirs) in
    let later = read_metas-none read dirs in
    (
      λ e. elim (here.0 e) [ inl n ↦ inl n | inr n ↦ inr (later.0 n) ],
      λ h. here.1 (elim h [ inl n ↦ inl n | inr n ↦ inr (later.1 n) ]),
    )

module _ (worn : ℕ → ℕ → Bool) (std_sort : List DirMeta → List DirMeta) where
  planned_either :
      (b : Bool) (xs ys : List Dir)
      → (if b then planned xs else planned ys) ≢ error_reading_block_meta
  planned_either true xs ys e = cc
  planned_either false xs ys e = cc

  plan_older_reads :
      (ranges : List ℤ) (older : List DirMeta)
      → plan_older worn ranges older ≢ error_reading_block_meta
  unfolding plan_older
  plan_older_reads ranges older = elim (Option-cases (select_dirs ranges older)) [
    | inl n ↦ rw (n, plan_older) (λ e. cc)
    | inr (s, e) ↦ rw (e, plan_older) (planned_either _ _ _)
  ]

  plan_helper_reads :
      (ranges : List ℤ) (dms : List DirMeta)
      → plan_helper worn std_sort ranges dms ≢ error_reading_block_meta
  unfolding plan_helper
  plan_helper_reads ranges dms = elim (Bool-cases (is_empty (overlapping_dirs (std_sort dms)))) [
    | inl t ↦ rw t (plan_older_reads ranges _)
    | inr f ↦ rw f (λ e. cc)
  ]

  read_first :
      (ranges : List ℤ) (dirs : List Dir) (o : Option (List DirMeta)) (P : Type 0)
      → (o ≡ none) ↔ P
      → (dirs ≡ [] → o ≡ some [])
      → ((if is_empty dirs then planned [] else elim o [
        | none ↦ error_reading_block_meta
        | some dms ↦ plan_helper worn std_sort ranges dms
      ])
          ≡ error_reading_block_meta)
        ↔ P
  read_first ranges [] o P h k = (λ e. cc, λ p. cc (h.1 p, k refl))
  read_first ranges (s ∷ dirs) none P h k = (λ e. h.0 refl, λ p. refl)
  read_first ranges (s ∷ dirs) (some dms) P h k =
      (λ e. absurd (plan_helper_reads ranges dms e), λ p. cc (h.1 p))

  module _ (block_dirs : Dir → List Dir) (read_block_meta : Dir → Option BlockMeta) where
    -- `plan` reports that a description cannot be read exactly when that of some directory cannot.
    pub plan-error :
        (ranges : List ℤ) (dir : Dir)
        → (plan worn std_sort block_dirs read_block_meta ranges dir ≡ error_reading_block_meta)
          ↔ AnyUnreadable read_block_meta (block_dirs dir)
    unfolding plan read_metas
    plan-error ranges dir =
        let dirs = block_dirs dir in
        read_first ranges dirs (read_metas read_block_meta dirs)
          (AnyUnreadable read_block_meta dirs) (read_metas-none read_block_meta dirs)
          (λ e. rw e refl)
