-- ===== src/Head/MemSeries/Append.antt =====
-- `append` of head/MemSeries.cpp: what a series holds, and what it has put.
pub mod Parts
pub mod Runs
pub mod Values
pub mod Whole
use prom_tcs.Prelude.{
  ℕ, zero, suc, ◌+◌, ◌-◌, ◌*◌, ◌/◌, ◌%◌, ◌^◌, ◌≤◌, ◌<◌, Bool, true, false, not, ◌&&◌, Option, some,
  List, [], ◌∷◌, ◌++◌, map, ◌≡◌, ◌≢◌, refl, ap, sym, arith, length, replicate, All, IsByte, IsU64,
  ◌==◌, if◌then◌else◌,
}
use prom_tcs.Prelude.Int.{ℤ, pos, negsuc, sub_ℕ, ◌*ℤ◌, ◌/ℤ◌, eqb_ℤ, scale_pos}
use prom_tcs.Chunk.XorAppender.{XorAppender}
use prom_tcs.Chunk.XorChunk.{xor_appender, new_chunk}
use prom_tcs.Chunk.XorChunk.Written.{Written}
use prom_tcs.Chunk.XorChunk.RoundTrip.{Holds-appender, new_chunk-Holds}
use prom_tcs.Head.MemSeries.{
  MemSeries, Put, bits64, new_appender, new_series, with_header, time_boundary_of, append,
}

-- A sample as the chunk has it.
abbrev pub encoded : ℤ × ℕ → ℕ × ℕ
encoded x = (bits64 x.0, x.1)

abbrev pub StartsAt : ℤ → List (ℤ × ℕ) → Type 0
StartsAt t [] = Unit {0}
StartsAt t (x ∷ part) = x.0 ≡ t

pub bits64-IsU64 : (t : ℤ) → IsU64 (bits64 t)
bits64-IsU64 (pos n) = omega arith
bits64-IsU64 (negsuc n) = omega arith

pub new_appender-Written :
    (header_size past : ℕ)
    → IsByte past
    → (a : XorAppender) × (new_appender header_size past ≡ some (xor_appender a))
      × Written a (replicate header_size 0) []
new_appender-Written header_size past small =
    Holds-appender (new_chunk header_size past) (replicate header_size 0) []
      (new_chunk-Holds header_size past small)

scale_left : (q r : ℕ) → sub_ℕ 0 q *ℤ pos r ≡ sub_ℕ 0 (q * r)
unfolding ◌*ℤ◌
scale_left zero r = ground arith
scale_left (suc q) r = ground arith

not_minus_one : (q size : ℕ) → 1 < size → eqb_ℤ (sub_ℕ 0 (q * size)) (negsuc 0) ≡ false
not_minus_one zero size h = ground arith
not_minus_one (suc q) size h = ground arith

-- No partition starts at -1, which stands for no partition.
pub time_boundary_of-proper :
    (size : ℕ) (t : ℤ) → 1 < size → eqb_ℤ (time_boundary_of (pos size) t) (negsuc 0) ≡ false
unfolding ◌/ℤ◌
time_boundary_of-proper size (pos n) h = rw (scale_pos (n / size) size) (ground arith)
time_boundary_of-proper size (negsuc n) h =
    rw (scale_left (suc n / size) size) (not_minus_one (suc n / size) size h)
