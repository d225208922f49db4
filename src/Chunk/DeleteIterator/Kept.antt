-- ===== src/Chunk/DeleteIterator/Kept.antt =====
-- The samples that the iterator of chunk/DeleteIterator.cpp yields.
use prom_tcs.Prelude.{
  ℕ, ◌+◌, ◌≤◌, ◌<◌, ◌≡◌, refl, sym, ap, ◌∙◌, Bool, true, false, ◌&&◌, ◌||◌, List, [], ◌∷◌, ltb, leb,
  arith, if◌then◌else◌, Bool-cases, inl, inr,
}
use prom_tcs.Tombstone.Interval.{Interval, in_bounds, is_subrange, InOrder}
use prom_tcs.Chunk.DeleteIterator.{as_int, skip_intervals}

-- The samples whose time no interval has.
unfoldable pub kept : List (ℕ × ℕ) → List Interval → List (ℕ × ℕ)
unfolding is_subrange
kept [] itvls = []
kept (x ∷ l) itvls = let rest = kept l itvls in if is_subrange x.0 x.0 itvls then rest else x ∷ rest

-- The times do not decrease and fit into an int.
abbrev pub IsTimeline : ℕ → List (ℕ × ℕ) → Type 0
IsTimeline low [] = Unit {0}
IsTimeline low (x ∷ l) = (low ≤ x.0) × ((as_int x.0 ≡ x.0) × IsTimeline x.0 l)

subrange-before :
    (t low : ℕ) (itvls : List Interval)
    → InOrder low itvls
    → t < low
    → is_subrange t t itvls ≡ false
unfolding is_subrange in_bounds
subrange-before t low [] o h = refl
subrange-before t low (i ∷ itvls) o h =
    let rest = subrange-before t (i.max_time + 1) itvls o.1.1 (omega (arith, o.0, o.1.0, h)) in
    let early : leb i.min_time t ≡ false = ground (arith, o.0, h) in
    rw (early, rest) (none_of (leb t i.max_time))
  where
    none_of : (b : Bool) → ((b && false) && (b && false)) || false ≡ false
    none_of true = refl
    none_of false = refl

kept-behind :
    (low : ℕ) (l : List (ℕ × ℕ)) (i : Interval) (itvls : List Interval)
    → IsTimeline low l
    → i.max_time < low
    → kept l (i ∷ itvls) ≡ kept l itvls
unfolding kept is_subrange in_bounds
kept-behind low [] i itvls h less = refl
kept-behind low (x ∷ l) i itvls h less =
    let late : leb x.0 i.max_time ≡ false = ground (arith, h.0, less) in
    rw (late, kept-behind x.0 l i itvls h.1.1 (omega (arith, h.0, less))) refl

subrange-cons :
    (t : ℕ) (i : Interval) (itvls : List Interval)
    → is_subrange t t (i ∷ itvls) ≡ in_bounds i t || is_subrange t t itvls
unfolding is_subrange
subrange-cons t i itvls = both (in_bounds i t)
  where
    both : (b : Bool) → (b && b) || is_subrange t t itvls ≡ b || is_subrange t t itvls
    both true = refl
    both false = refl

-- What the inner loop leaves.
pub record Skipped (t : ℕ) (l : List (ℕ × ℕ)) (itvls : List Interval) (r : Bool × List Interval)
    : Type 0 where
  pub tells : r.0 ≡ is_subrange t t itvls
  pub low : ℕ
  pub ordered : InOrder low r.1
  pub same : kept l r.1 ≡ kept l itvls

pub skip_intervals-Skipped :
    (t low : ℕ) (l : List (ℕ × ℕ)) (itvls : List Interval)
    → InOrder low itvls
    → IsTimeline t l
    → Skipped t l itvls (skip_intervals t itvls)
unfolding skip_intervals
skip_intervals-Skipped t low l [] o h = record {
  tells = unfold is_subrange in refl;
  low = low;
  ordered = tt;
  same = refl;
}
skip_intervals-Skipped t low l (i ∷ itvls) o h = elim (Bool-cases (in_bounds i t)) [
  | inl inside ↦
      let told = subrange-cons t i itvls ∙ ap (λ (b : Bool). b || is_subrange t t itvls) inside in
      rw inside (record { tells = sym told; low = low; ordered = o; same = refl })
  | inr outside ↦
      let told = subrange-cons t i itvls ∙ ap (λ (b : Bool). b || is_subrange t t itvls) outside in
      elim (Bool-cases (ltb i.max_time t)) [
        | inl passed ↦
            let rest = skip_intervals-Skipped t (i.max_time + 1) l itvls o.1.1 h in
            rw (outside, passed)
              (record {
                tells = rest.tells ∙ sym told;
                low = rest.low;
                ordered = rest.ordered;
                same = rest.same ∙ sym (kept-behind t l i itvls h (ground arith));
              })
        | inr not_passed ↦
            let before : t < i.max_time + 1 = unfold in_bounds in ground arith in
            rw (outside, not_passed)
              (record {
                tells = sym (told ∙ subrange-before t (i.max_time + 1) itvls o.1.1 before);
                low = low;
                ordered = o;
                same = refl;
              })
      ]
]
