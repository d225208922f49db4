-- ===== src/Compact/Overlap.antt =====
-- `overlapping_dirs` of compact/LeveledCompactor.cpp finds overlapping blocks where there are any.
use prom_tcs.Prelude.{
  List, [], ◌∷◌, ◌++◌, ◌≡◌, ◌≢◌, ◌↔◌, refl, arith, All, if◌then◌else◌, Bool-cases, inl, inr,
}
use prom_tcs.Prelude.Int.{ℤ, ◌≤ℤ◌, ltb_ℤ}
use prom_tcs.Block.{Dir, DirMeta}
use prom_tcs.Compact.{overlap_loop, overlapping_dirs}

-- The blocks begin no earlier than `t`.
abbrev pub BeginFrom : ℤ → List DirMeta → Type 0
BeginFrom t = All (λ e. t ≤ℤ e.meta.min_time)

-- Each block begins no earlier than every block before it ends.
abbrev pub IsDisjoint : List DirMeta → Type 0
IsDisjoint [] = Unit {0}
IsDisjoint (d ∷ dms) = BeginFrom d.meta.max_time dms × IsDisjoint dms

abbrev latest : ℤ → DirMeta → ℤ
latest max d = if ltb_ℤ max d.meta.max_time then d.meta.max_time else max

-- What was found is not lost.
overlap_loop_keeps :
    (max : ℤ) (prev : DirMeta) (x : Dir) (found : List Dir) (dms : List DirMeta)
    → overlap_loop max prev (x ∷ found) dms ≢ []
unfolding overlap_loop
overlap_loop_keeps max prev x found [] = λ e. cc
overlap_loop_keeps max prev x found (d ∷ dms) = elim (Bool-cases (ltb_ℤ d.meta.min_time max)) [
  | inl t ↦ rw t (overlap_loop_keeps (latest max d) d x (found ++ (d.dir ∷ [])) dms)
  | inr f ↦ rw f (λ e. cc)
]

BeginFrom-latest :
    (max : ℤ) (d : DirMeta) (dms : List DirMeta)
    → BeginFrom (latest max d) dms ↔ (BeginFrom max dms × BeginFrom d.meta.max_time dms)
BeginFrom-latest max d [] = (λ h. (tt, tt), λ h. tt)
BeginFrom-latest max d (e ∷ dms) =
    let later = BeginFrom-latest max d dms in
    (λ h. ground (arith, h.0, later.0 h.1), λ h. ground (arith, later.1 (h.0.1, h.1.1)))

-- Before an overlap is found the loop looks for one.
overlap_loop_finds :
    (max : ℤ) (prev : DirMeta) (dms : List DirMeta)
    → (overlap_loop max prev [] dms ≡ []) ↔ (BeginFrom max dms × IsDisjoint dms)
unfolding overlap_loop
overlap_loop_finds max prev [] = (λ e. (tt, tt), λ h. refl)
overlap_loop_finds max prev (d ∷ dms) = elim (Bool-cases (ltb_ℤ d.meta.min_time max)) [
  | inl t ↦ rw t (
    λ e. absurd (overlap_loop_keeps (latest max d) d prev.dir (d.dir ∷ []) dms e),
    λ h. absurd (ground (arith, h.0)),
  )
  | inr f ↦
      let later = overlap_loop_finds (latest max d) d dms in
      let parts = BeginFrom-latest max d dms in
      rw f (
        λ e.
            let h = later.0 e in
            let both = parts.0 h.0 in ((ground (arith, f), both.0), (both.1, h.1)),
        λ h. later.1 (parts.1 (h.0.1, h.1.0), h.1.1),
      )
]

-- `overlapping_dirs` finds nothing exactly when no block begins before the end of an earlier one.
pub overlapping_dirs-IsDisjoint :
    (dms : List DirMeta) → (overlapping_dirs dms ≡ []) ↔ IsDisjoint dms
unfolding overlapping_dirs
overlapping_dirs-IsDisjoint [] = (λ e. tt, λ h. refl)
overlapping_dirs-IsDisjoint (d ∷ dms) = overlap_loop_finds d.meta.max_time d dms
