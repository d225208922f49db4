-- ===== src/Chunk/XorChunk/Changes.antt =====
-- One value behind another, in each branch of `write_delta_value`.
use prom_tcs.Prelude.{
  ℕ, ◌-◌, ◌/◌, ◌^◌, ◌≤◌, ◌<◌, bit_xor, ◌≡◌, refl, sym, ap, ap₂, ◌∙◌, Bool, true, false, not, ◌&&◌,
  List, [], ◌∷◌, ◌++◌, append_assoc, arith, leb, ◌==◌, Bool-cases, inl, inr, IsU64, ◌≢◌,
}
use prom_tcs.Prelude.Bits.{bit_xor_cancel, bit_xor_comm, bit_xor-lt, eq_of_bit_xor-zero}
use prom_tcs.Prelude.Digits.{bits_be}
use prom_tcs.Chunk.Zeros.{ctz, zeros_leave}
use prom_tcs.Chunk.BitStream.{write_bit}
use prom_tcs.Chunk.BitStream.Read.{IsReader, unread}
use prom_tcs.Chunk.BitStream.Appends.{Appends, Appends-then, Appends-write_bit, Appends-write_bits}
use prom_tcs.Chunk.XorAppender.{
  XorAppender, clamped_clz, write_same_window, write_new_window, write_delta_value,
}
use prom_tcs.Chunk.XorIterator.{XorIterator, counted, read_difference, second_control}
use prom_tcs.Chunk.XorChunk.Values.{
  Window, value_read, ReadsValue, Fits, clamped_le, Fits-window, difference_reads, changed_reads,
  same_reads, window_reads,
}

-- What an appender and an iterator in step with it do for the value `v`: the digits that are
-- appended, and the reading of them.
pub record ValueStep (a : XorAppender) (v : ℕ) (a' : XorAppender) : Type 0 where
  pub digits : List Bool
  pub appends : Appends a.bstream a'.bstream digits
  pub reads :
      (it : XorIterator) (rest : List Bool)
      → IsReader it.bstream
      → it.value ≡ a.value
      → Window a it.leading_zero it.trailing_zero
      → unread it.bstream ≡ digits ++ rest
      → ReadsValue it v rest a'

module _ (a : XorAppender) (v : ℕ) (small : IsU64 v) (small' : IsU64 a.value) where
  abbrev d : ℕ
  d = bit_xor v a.value

  d_small : IsU64 d
  d_small = bit_xor-lt 64 v a.value small small'

  back : bit_xor a.value d ≡ v
  back = bit_xor_comm 64 a.value d small' d_small ∙ bit_xor_cancel 64 v a.value small small'

  same_step : d ≡ 0 → ValueStep a v (record a { bstream = write_bit a.bstream false })
  same_step e = record {
    digits = false ∷ [];
    appends = Appends-write_bit a.bstream false;
    reads = λ it rest r value w e'.
        let (s, reads, r', after) = same_reads it rest r e' in
        let unchanged : it.value ≡ v =
          value ∙ sym (eq_of_bit_xor-zero 64 v a.value small small' e) in
        (
          s,
          it.leading_zero,
          it.trailing_zero,
          reads
              ∙ ap (λ (x : ℕ). counted (value_read it s x it.leading_zero it.trailing_zero))
                  unchanged,
          r',
          after,
          record { lead_small = w.lead_small; sum_small = w.sum_small; same = w.same },
        );
  }

  -- Behind the first control bit.
  abbrev marked : XorAppender
  marked = record a { bstream = write_bit a.bstream true }

  same_window_step :
      0 < d
      → a.leading_zero ≢ 0xff
      → a.leading_zero ≤ clamped_clz d
      → a.trailing_zero ≤ ctz d
      → ValueStep a v (write_same_window marked d)
  unfolding write_same_window second_control
  same_window_step pos known le le' =
      let n = 64 - a.leading_zero - a.trailing_zero in
      let field = d / 2 ^ a.trailing_zero in
      record {
        digits = (true ∷ []) ++ ((false ∷ []) ++ bits_be n field);
        appends =
            Appends-then (Appends-write_bit a.bstream true) (
              Appends-then (Appends-write_bit _ false)
                (Appends-write_bits _ field n (omega arith)));
        reads = λ it rest r value w e. elim w.same [
          | inl (none, zeros) ↦ absurd (known none)
          | inr (lead, trail) ↦
              let fits : Fits d it.leading_zero it.trailing_zero =
                rw (← lead, ← trail)
                  (Fits-window d a.leading_zero a.trailing_zero pos d_small le le') in
              let (s1, starts, r1, after) = changed_reads it false (bits_be n field ++ rest) r e in
              let (s2, reads, r2, after') =
                difference_reads (record it { bstream = s1 }) d v rest r1 fits d_small
                  (ap (λ (x : ℕ). bit_xor x d) value ∙ back)
                  (after
                    ∙ ap₂ (λ (l t : ℕ). bits_be (64 - l - t) (d / 2 ^ t) ++ rest) lead trail) in
              (
                s2,
                it.leading_zero,
                it.trailing_zero,
                starts ∙ reads,
                r2,
                after',
                record { lead_small = w.lead_small; sum_small = w.sum_small; same = w.same },
              )
        ];
      }

  new_window_step : 0 < d → ValueStep a v (write_new_window marked d)
  unfolding write_new_window second_control
  new_window_step pos =
      let lead = clamped_clz d in
      let trail = ctz d in
      let n = 64 - lead - trail in
      let field = d / 2 ^ trail in
      let (c31, cle) = clamped_le d in
      let leave = zeros_leave d pos d_small in
      let fits = Fits-window d lead trail pos d_small (omega arith) (omega arith) in
      record {
        digits =
            (true ∷ []) ++ ((true ∷ []) ++ (bits_be 5 lead ++ (bits_be 6 n ++ bits_be n field)));
        appends = Appends-then (Appends-write_bit a.bstream true) (
            Appends-then (Appends-write_bit _ true) (
              Appends-then (Appends-write_bits _ lead 5 (omega arith)) (
                Appends-then (Appends-write_bits _ n 6 (omega arith))
                  (Appends-write_bits _ field n (omega arith)))));
        reads = λ it rest r value w e.
            let (s1, starts, r1, after) =
              changed_reads it true (bits_be 5 lead ++ (bits_be 6 n ++ bits_be n field) ++ rest) r
                e in
            let (s2, windows, r2, after') =
              window_reads (record it { bstream = s1 }) lead n (bits_be n field ++ rest) r1 c31
                (omega arith) (omega arith)
                (after
                  ∙ append_assoc (bits_be 5 lead) (bits_be 6 n ++ bits_be n field) rest
                  ∙ ap (◌++◌ (bits_be 5 lead))
                      (append_assoc (bits_be 6 n) (bits_be n field) rest)) in
            let same : 64 - lead - n ≡ trail = omega arith in
            let it2 = record it { bstream = s2; leading_zero = lead; trailing_zero = trail } in
            let (s3, reads, r3, after'') =
              difference_reads it2 d v rest r2 fits d_small
                (ap (λ (x : ℕ). bit_xor x d) value ∙ back) after' in
            (
              s3,
              lead,
              trail,
              starts
                  ∙ windows
                  ∙ ap
                      (λ (t : ℕ).
                        read_difference
                          (record it { bstream = s2; leading_zero = lead; trailing_zero = t }))
                      same
                  ∙ reads,
              r3,
              after'',
              record { lead_small = c31; sum_small = omega arith; same = inr (refl, refl) },
            );
      }

  -- What `write_delta_value` appends for `v` is what `read_value` reads back as `v`.
  pub value_step : ValueStep a v (write_delta_value a v)
  unfolding write_delta_value
  value_step = elim (Bool-cases (d == 0)) [
    | inl t ↦ rw t (same_step (ground arith))
    | inr f ↦
        elim (Bool-cases (
          not (a.leading_zero == 0xff)
          && leb a.leading_zero (clamped_clz d)
          && leb a.trailing_zero (ctz d))) [
            | inl t' ↦
                rw (f, t')
                  (same_window_step (ground arith) (ground arith) (ground arith) (ground arith))
            | inr f' ↦ rw (f, f') (new_window_step (ground arith))
          ]
  ]
