-- ===== src/Compact/Split.antt =====
-- `split_by_range` of compact/LeveledCompactor.cpp: it ends, it leaves out no block that fits in the
-- window of its start, and each part lies in one window.
use prom_tcs.Prelude.{
  ℕ, zero, suc, ◌≤◌, ◌<◌, Bool, true, false, not, Option, none, some, List, [], ◌∷◌, ◌++◌, ◌≡◌,
  refl, ap, sym, subst, ◌∙◌, arith, All, All-map, All-both, All-split, concat, filter,
  filter-append, filter-all, length, length-append, Bool-cases, inl, inr,
}
use prom_tcs.Prelude.Int.{ℤ, pos, ◌+ℤ◌, ◌≤ℤ◌, ltb_ℤ, +ℤ_parts}
use prom_tcs.Block.{DirMeta}
use prom_tcs.Compact.{window_start, gather, split, split_by_range, add_part}
use prom_tcs.Compact.Window.{window_start_lem, window_start_mono}
use prom_tcs.Compact.Overlap.{BeginFrom}

-- The blocks are in the order of their starts.
abbrev pub IsByStart : List DirMeta → Type 0
IsByStart [] = Unit {0}
IsByStart (d ∷ dms) = BeginFrom d.meta.min_time dms × IsByStart dms

abbrev pub window_end : ℤ → DirMeta → ℤ
window_end range d = window_start range d.meta.min_time +ℤ range

-- The block ends in the window in which it starts.
abbrev pub fits : ℤ → DirMeta → Bool
fits range d = not (ltb_ℤ (window_end range d) d.meta.max_time)

-- The blocks lie in the window in which the first of them starts.
abbrev pub IsInWindow : ℤ → List DirMeta → Type 0
IsInWindow range [] = ⊥
IsInWindow range (d ∷ part) =
    All
      (λ e.
        (window_start range d.meta.min_time ≤ℤ e.meta.min_time)
        × (e.meta.max_time ≤ℤ window_end range d))
      (d ∷ part)

pub record IsSplit (range : ℤ) (dms : List DirMeta) (parts : List (List DirMeta)) : Type 0 where
  pub together : concat parts ≡ filter (fits range) dms
  pub windows : All (IsInWindow range) parts

abbrev pub Returns : {A : Type 0} → (A → Type 0) → Option A → Type 0
Returns P none = ⊥
Returns P (some a) = P a

EndBy : ℤ → List DirMeta → Type 0
EndBy limit = All (λ e. e.meta.max_time ≤ℤ limit)

gather-append :
    (limit : ℤ) (dms : List DirMeta) → (gather limit dms).0 ++ (gather limit dms).1 ≡ dms
unfolding gather
gather-append limit [] = refl
gather-append limit (d ∷ dms) = elim (Bool-cases (ltb_ℤ limit d.meta.max_time)) [
  | inl t ↦ rw t refl
  | inr f ↦ rw f (ap (◌∷◌ d) (gather-append limit dms))
]

gather-EndBy : (limit : ℤ) (dms : List DirMeta) → EndBy limit (gather limit dms).0
unfolding gather EndBy
gather-EndBy limit [] = tt
gather-EndBy limit (d ∷ dms) = elim (Bool-cases (ltb_ℤ limit d.meta.max_time)) [
  | inl t ↦ rw t tt
  | inr f ↦ rw f (ground (arith, f), gather-EndBy limit dms)
]

IsByStart-split : (xs ys : List DirMeta) → IsByStart (xs ++ ys) → IsByStart ys
IsByStart-split [] ys s = s
IsByStart-split (x ∷ xs) ys s = IsByStart-split xs ys s.1

fits_later :
    (r : ℕ) (d e : DirMeta)
    → 0 < r
    → d.meta.min_time ≤ℤ e.meta.min_time
    → e.meta.max_time ≤ℤ window_end (pos r) d
    → fits (pos r) e ≡ true
fits_later r d e h later ends =
    let start = window_start_mono r d.meta.min_time e.meta.min_time h later in
    let here = +ℤ_parts (window_start (pos r) d.meta.min_time) (pos r) in
    let there = +ℤ_parts (window_start (pos r) e.meta.min_time) (pos r) in
    ground (arith, start, here, there, later, ends)

-- One round that finds a group: `g` is the group behind `d`, and `b` what is behind the group.
module _ (r : ℕ) (h : 0 < r) (d : DirMeta) (g b : List DirMeta) where
  group_kept :
      fits (pos r) d ≡ true
      → BeginFrom d.meta.min_time (g ++ b)
      → EndBy (window_end (pos r) d) g
      → filter (fits (pos r)) (d ∷ (g ++ b)) ≡ d ∷ (g ++ filter (fits (pos r)) b)
  unfolding EndBy
  group_kept f begin ends =
      let (here, _) = All-split (λ e. d.meta.min_time ≤ℤ e.meta.min_time) g b begin in
      let all =
        filter-all (fits (pos r)) g
          (All-map _ _ g (λ e both. fits_later r d e h both.0 both.1) (All-both _ _ g here ends)) in
      rw f (
        ap (◌∷◌ d) (
          filter-append (fits (pos r)) g b
          ∙ ap (λ (l : List DirMeta). l ++ filter (fits (pos r)) b) all))

  group_window :
      fits (pos r) d ≡ true
      → BeginFrom d.meta.min_time (g ++ b)
      → EndBy (window_end (pos r) d) g
      → IsInWindow (pos r) (d ∷ g)
  unfolding EndBy
  group_window f begin ends =
      let (here, _) = All-split (λ e. d.meta.min_time ≤ℤ e.meta.min_time) g b begin in
      let start = (window_start_lem r d.meta.min_time h).0 in
      (
        (start, ground (arith, f)),
        All-map _ _ g (λ e both. (ground (arith, start, both.0), both.1))
            (All-both _ _ g here ends),
      )

pub Returns-map :
    {A : Type 0} (P Q : A → Type 0) (o : Option A)
    → ((a : A) → P a → Q a)
    → Returns P o
    → Returns Q o
Returns-map P Q none f h = h
Returns-map P Q (some a) f h = f a h

Returns-add_part :
    (P Q : List (List DirMeta) → Type 0) (d : DirMeta) (g : List DirMeta)
    (o : Option (List (List DirMeta)))
    → ((parts : List (List DirMeta)) → P parts → Q ((d ∷ g) ∷ parts))
    → Returns P o
    → Returns Q (add_part (d ∷ g) o)
Returns-add_part P Q d g none f h = h
Returns-add_part P Q d g (some parts) f h = f parts h

skip-IsSplit :
    (range : ℤ) (d : DirMeta) (dms : List DirMeta) (parts : List (List DirMeta))
    → fits range d ≡ false
    → IsSplit range dms parts
    → IsSplit range (d ∷ dms) parts
skip-IsSplit range d dms parts f s = record { together = rw f s.together; windows = s.windows }

add-IsSplit :
    (r : ℕ) (d : DirMeta) (g b : List DirMeta) (parts : List (List DirMeta))
    → 0 < r
    → fits (pos r) d ≡ true
    → BeginFrom d.meta.min_time (g ++ b)
    → EndBy (window_end (pos r) d) g
    → IsSplit (pos r) b parts
    → IsSplit (pos r) (d ∷ (g ++ b)) ((d ∷ g) ∷ parts)
add-IsSplit r d g b parts h f begin ends s = record {
  together =
      ap (λ (l : List DirMeta). d ∷ (g ++ l)) s.together ∙ sym (group_kept r h d g b f begin ends);
  windows = (group_window r h d g b f begin ends, s.windows);
}

split_lem :
    (r fuel : ℕ) (dms : List DirMeta)
    → 0 < r
    → length dms ≤ fuel
    → IsByStart dms
    → Returns (IsSplit (pos r) dms) (split fuel (pos r) dms)
unfolding split gather
split_lem r fuel [] h enough s = record { together = refl; windows = tt }
split_lem r zero (d ∷ dms) h enough s = absurd (omega arith)
split_lem r (suc fuel) (d ∷ dms) h enough s =
    elim (Bool-cases (ltb_ℤ (window_end (pos r) d) d.meta.max_time)) [
      | inl t ↦ rw t (
          Returns-map _ _ _ (λ parts. skip-IsSplit (pos r) d dms parts (ap not t))
            (split_lem r fuel dms h (omega arith) s.1))
      | inr f ↦
          let limit = window_end (pos r) d in
          let g = (gather limit dms).0 in
          let b = (gather limit dms).1 in
          let cut : g ++ b ≡ dms = gather-append limit dms in
          let shorter : length b ≤ length dms = omega (arith, ap length cut, length-append g b) in
          let begin : BeginFrom d.meta.min_time (g ++ b) =
            subst (BeginFrom d.meta.min_time) (sym cut) s.0 in
          rw f (
            Returns-add_part _ _ d g _
              (λ parts p.
                subst (λ (l : List DirMeta). IsSplit (pos r) (d ∷ l) ((d ∷ g) ∷ parts)) cut
                  (add-IsSplit r d g b parts h (ap not f) begin (gather-EndBy limit dms) p))
              (split_lem r fuel b h (omega (arith, shorter))
                (IsByStart-split g b (subst IsByStart (sym cut) s.1))))
    ]

-- With the blocks in the order of their starts and a positive range, `split_by_range` ends; its
-- parts together are the blocks that end in the aligned window in which they start, in order; and
-- no part is empty, or leaves the window in which its first block starts.
pub split_by_range_lem :
    (r : ℕ) (dms : List DirMeta)
    → 0 < r
    → IsByStart dms
    → Returns (IsSplit (pos r) dms) (split_by_range dms (pos r))
unfolding split_by_range
split_by_range_lem r dms h s = split_lem r (length dms) dms h (omega arith) s
