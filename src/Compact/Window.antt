-- ===== src/Compact/Window.antt =====
-- The aligned windows of `split_by_range` of compact/LeveledCompactor.cpp: window k of size r is
-- [r k, r k + r).
use prom_tcs.Prelude.{ℕ, suc, ◌+◌, ◌-◌, ◌*◌, ◌/◌, ◌<◌, true, false, ◌≡◌, arith}
use prom_tcs.Prelude.Int.{
  ℤ, pos, negsuc, sub_ℕ, ◌+ℤ◌, ◌-ℤ◌, ◌/ℤ◌, ◌≤ℤ◌, ◌<ℤ◌, scale_pos, scale_neg, div_bounds,
  scaled_div_mono, leb_ℤ, +ℤ_parts,
}
use prom_tcs.Compact.{window_start}

window_start-pos : (r n : ℕ) → window_start (pos r) (pos n) ≡ pos (r * (n / r))
unfolding window_start ◌/ℤ◌
window_start-pos r n =
    let t : leb_ℤ (pos 0) (pos n) ≡ true = ground arith in rw t (scale_pos r (n / r))

before_lem : (r n : ℕ) → 0 < r → negsuc n -ℤ pos r +ℤ pos 1 ≡ negsuc (n + r - 1)
unfolding ◌-ℤ◌ ◌+ℤ◌
before_lem r n h = ground arith

window_start-negsuc :
    (r n : ℕ) → 0 < r → window_start (pos r) (negsuc n) ≡ sub_ℕ 0 (r * ((n + r) / r))
unfolding window_start ◌/ℤ◌
window_start-negsuc r n h =
    let e : suc (n + r - 1) ≡ n + r = omega arith in
    let f : leb_ℤ (pos 0) (negsuc n) ≡ false = ground arith in
    rw (f, before_lem r n h, e) (scale_neg r ((n + r) / r))

-- The window of a time has it.
pub window_start_lem :
    (r : ℕ) (t : ℤ) → 0 < r → (window_start (pos r) t ≤ℤ t) × (t <ℤ window_start (pos r) t +ℤ pos r)
window_start_lem r (pos n) h =
    rw (window_start-pos r n)
      (ground (arith, div_bounds n r h, +ℤ_parts (pos (r * (n / r))) (pos r)))
window_start_lem r (negsuc n) h =
    let start = sub_ℕ 0 (r * ((n + r) / r)) in
    rw (window_start-negsuc r n h) (ground (arith, div_bounds (n + r) r h, +ℤ_parts start (pos r)))

-- A later time has no earlier window.
pub window_start_mono :
    (r : ℕ) (s t : ℤ) → 0 < r → s ≤ℤ t → window_start (pos r) s ≤ℤ window_start (pos r) t
window_start_mono r (pos m) (pos n) h le =
    rw (window_start-pos r m, window_start-pos r n)
      (ground (arith, scaled_div_mono m n r h (omega arith)))
window_start_mono r (pos m) (negsuc n) h le = absurd (omega arith)
window_start_mono r (negsuc m) (pos n) h le =
    rw (window_start-pos r n, window_start-negsuc r m h) (ground arith)
window_start_mono r (negsuc m) (negsuc n) h le =
    rw (window_start-negsuc r m h, window_start-negsuc r n h)
      (ground (arith, scaled_div_mono (n + r) (m + r) r h (omega arith)))
