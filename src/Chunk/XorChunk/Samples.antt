-- ===== src/Chunk/XorChunk/Samples.antt =====
-- One sample: what XORAppender::append writes for it, XORIterator::next reads back.
use prom_tcs.Prelude.{
  ℕ, ◌+◌, ◌%◌, ◌^◌, ◌≤◌, ◌<◌, ◌≡◌, refl, ap, ◌∙◌, Bool, true, false, List, [], ◌∷◌, ◌++◌,
  append-nil, append_assoc, arith, All, IsByte, IsU64,
}
use prom_tcs.Prelude.Digits.{bits_be, bits_of}
use prom_tcs.Base.Endian.{encode_signed_varint}
use prom_tcs.Base.Endian.Varint.{Groups-IsByte, encode_signed-Groups}
use prom_tcs.Chunk.BitStream.{BitStream, write_byte, read_bits}
use prom_tcs.Chunk.BitStream.Read.{IsReader, unread}
use prom_tcs.Chunk.BitStream.ReadBits.{read_bits_lem}
use prom_tcs.Chunk.BitStream.Varints.{read_signed_varint, read_signed_varint_lem}
use prom_tcs.Chunk.BitStream.Appends.{
  Appends, Keeps-refl, Appends-then, Appends-write_byte, Appends-write_bits,
}
use prom_tcs.Chunk.XorAppender.{
  XorAppender, sub64, write_all, write_delta_delta, append_first, append_second, append_later,
  finish_append,
}
use prom_tcs.Chunk.XorIterator.{
  XorIterator, at, failed, first_value, first_sample, next_first, add_delta, next_second,
  add_delta_delta, next_later, next,
}
use prom_tcs.Chunk.XorChunk.Values.{try_read-ok, Window}
use prom_tcs.Chunk.XorChunk.Changes.{ValueStep, value_step}
use prom_tcs.Chunk.XorChunk.Timestamps.{delta_step}

-- Some bytes in a row.
pub Appends-write_all :
    (s : BitStream) (xs : List ℕ) → All IsByte xs → Appends s (write_all s xs) (bits_of xs)
unfolding write_all bits_of
Appends-write_all s [] h = record { keeps = Keeps-refl s; wrote = λ bits w. rw append-nil w }
Appends-write_all s (x ∷ xs) h =
    Appends-then (Appends-write_byte s x h.0) (Appends-write_all (write_byte s x) xs h.1)

encoded_bytes : (v : ℕ) → IsU64 v → All IsByte (encode_signed_varint v)
encoded_bytes v h = Groups-IsByte (encode_signed-Groups v)

-- The iterator has read the `k` samples that the appender has written.
pub record InStep (a : XorAppender) (it : XorIterator) (k total : ℕ) : Type 0 where
  pub reader : IsReader it.bstream
  pub no_err : it.err ≡ false
  pub timestamp : it.timestamp ≡ a.timestamp
  pub value : it.value ≡ a.value
  pub delta_timestamp : it.delta_timestamp ≡ a.delta_timestamp
  pub window : Window a it.leading_zero it.trailing_zero
  pub num_read : it.num_read ≡ k
  pub num_total : it.num_total ≡ total
  pub fresh : k ≡ 0 → it.delta_timestamp ≡ 0

-- The sample is read and leaves the digits `rest`.
abbrev pub ReadsSample : XorIterator → ℕ → ℕ → List Bool → XorAppender → ℕ → ℕ → Type 0
ReadsSample it t v rest a' k total =
    (it' : XorIterator) × (next it ≡ (true, it'))
    × (at it' ≡ (t, v))
    × InStep a' it' k total
    × (unread it'.bstream ≡ rest)

-- What is appended for a sample, and the reading of it.
pub record SampleStep (a : XorAppender) (k t v : ℕ) (b a' : XorAppender) : Type 0 where
  pub digits : List Bool
  pub appends : Appends a.bstream b.bstream digits
  pub reads :
      (it : XorIterator) (total : ℕ) (rest : List Bool)
      → InStep a it k total
      → k < total
      → total < 2 ^ 16
      → unread it.bstream ≡ digits ++ rest
      → ReadsSample it t v rest a' (k + 1) total

module _ (a : XorAppender) (it : XorIterator) (k total : ℕ) (i : InStep a it k total)
    (more : k < total) where
  next_is_first : k ≡ 0 → next it ≡ next_first it
  unfolding next
  next_is_first e = ground (arith, i.no_err, i.num_read, i.num_total)

  next_is_second : k ≡ 1 → next it ≡ next_second it
  unfolding next
  next_is_second e = ground (arith, i.no_err, i.num_read, i.num_total)

  next_is_later : 2 ≤ k → next it ≡ next_later it
  unfolding next
  next_is_later le = ground (arith, i.no_err, i.num_read, i.num_total)

pub first_step :
    (a : XorAppender) (k t v : ℕ)
    → k ≡ 0
    → IsU64 t
    → IsU64 v
    → SampleStep a k t v (append_first a t v) (finish_append (append_first a t v) t v k 0)
unfolding append_first finish_append next_first first_value first_sample at
first_step a k t v e small small' = record {
  digits = bits_of (encode_signed_varint t) ++ bits_be 64 v;
  appends =
      Appends-then (Appends-write_all a.bstream (encode_signed_varint t) (encoded_bytes t small))
        (Appends-write_bits _ v 64 (omega arith));
  reads = λ it total rest i more bound d.
      let (s1, reads, r1, after) =
        read_signed_varint_lem t it.bstream (bits_be 64 v ++ rest) i.reader small
          (d ∙ append_assoc (bits_of (encode_signed_varint t)) (bits_be 64 v) rest) in
      let (s2, reads', r2, after') = read_bits_lem 64 v s1 rest r1 (omega arith) small' after in
      let it' = record it {
        bstream = s2;
        timestamp = t;
        value = v;
        num_read = (it.num_read + 1) % 2 ^ 16;
      } in
      (
        it',
        next_is_first a it k total i more e
            ∙ try_read-ok read_signed_varint failed first_value it reads
            ∙ try_read-ok (read_bits 64) failed (first_sample t) (record it { bstream = s1 })
                reads',
        refl,
        record {
          reader = r2;
          no_err = i.no_err;
          timestamp = refl;
          value = refl;
          delta_timestamp = i.fresh e;
          window = record {
            lead_small = i.window.lead_small;
            sum_small = i.window.sum_small;
            same = i.window.same;
          };
          num_read = omega (arith, i.num_read);
          num_total = i.num_total;
          fresh = λ z. absurd (omega arith);
        },
        after',
      );
}

-- The value behind the delta of the timestamps.
value_part :
    (a b' : XorAppender) (s s1 : BitStream) (it : XorIterator) (k total t v delta : ℕ)
    (rest : List Bool)
    → InStep a it k total
    → k < total
    → total < 2 ^ 16
    → (step : ValueStep (record a { bstream = s }) v b') → IsReader s1
    → unread s1 ≡ step.digits ++ rest
    → (a.timestamp + delta) % 2 ^ 64 ≡ t
    → (it' : XorIterator) × (add_delta delta (record it { bstream = s1 }) ≡ (true, it'))
      × (at it' ≡ (t, v))
      × InStep (finish_append b' t v k delta) it' (k + 1) total
      × (unread it'.bstream ≡ rest)
unfolding add_delta finish_append at
value_part a b' s s1 it k total t v delta rest i more bound step r d sum =
    let now : (it.timestamp + delta) % 2 ^ 64 ≡ t =
      ap (λ (x : ℕ). (x + delta) % 2 ^ 64) i.timestamp ∙ sum in
    let it1 = record it {
      bstream = s1;
      delta_timestamp = delta;
      timestamp = (it.timestamp + delta) % 2 ^ 64;
    } in
    let w : Window (record a { bstream = s }) it.leading_zero it.trailing_zero = record {
      lead_small = i.window.lead_small;
      sum_small = i.window.sum_small;
      same = i.window.same;
    } in
    let (s2, lead, trail, reads, r2, after, w') = step.reads it1 rest r i.value w d in
    (
      record it1 {
        bstream = s2;
        value = v;
        leading_zero = lead;
        trailing_zero = trail;
        num_read = (it.num_read + 1) % 2 ^ 16;
      },
      reads,
      ap (λ (x : ℕ). (x, v)) now,
      record {
        reader = r2;
        no_err = i.no_err;
        timestamp = now;
        value = refl;
        delta_timestamp = refl;
        window = record { lead_small = w'.lead_small; sum_small = w'.sum_small; same = w'.same };
        num_read = omega (arith, i.num_read);
        num_total = i.num_total;
        fresh = λ z. absurd (omega arith);
      },
      after,
    )

module _ (a : XorAppender) (k t v : ℕ) (small : IsU64 t) (small' : IsU64 v) (ts : IsU64 a.timestamp)
    (vs : IsU64 a.value) (ds : IsU64 a.delta_timestamp) where
  abbrev delta : ℕ
  delta = sub64 t a.timestamp

  pub second_step :
      k ≡ 1
      → SampleStep a k t v (append_second a t v) (finish_append (append_second a t v) t v k delta)
  unfolding append_second next_second
  second_step e =
      let bytes = encode_signed_varint delta in
      let delta_small : IsU64 delta = omega arith in
      let s = write_all a.bstream bytes in
      let step = value_step (record a { bstream = s }) v small' vs in
      record {
        digits = bits_of bytes ++ step.digits;
        appends =
            Appends-then (Appends-write_all a.bstream bytes (encoded_bytes delta delta_small))
              step.appends;
        reads = λ it total rest i more bound d.
            let (s1, reads, r1, after) =
              read_signed_varint_lem delta it.bstream (step.digits ++ rest) i.reader delta_small
                (d ∙ append_assoc (bits_of bytes) step.digits rest) in
            let (it', adds, there, i', after') =
              value_part a (append_second a t v) s s1 it k total t v delta rest i more bound step r1
                after (omega arith) in
            (
              it',
              next_is_second a it k total i more e
                  ∙ try_read-ok read_signed_varint failed add_delta it reads
                  ∙ adds,
              there,
              i',
              after',
            );
      }

  pub later_step :
      2 ≤ k
      → SampleStep a k t v (append_later a t v) (finish_append (append_later a t v) t v k delta)
  unfolding append_later add_delta_delta
  later_step le =
      let dd = sub64 delta a.delta_timestamp in
      let s = write_delta_delta a.bstream dd in
      let deltas = delta_step a.bstream dd (omega arith) in
      let step = value_step (record a { bstream = s }) v small' vs in
      record {
        digits = deltas.digits ++ step.digits;
        appends = Appends-then deltas.appends step.appends;
        reads = λ it total rest i more bound d.
            let (s1, reads, r1, after) =
              deltas.reads it (step.digits ++ rest) i.reader
                (d ∙ append_assoc deltas.digits step.digits rest) in
            let (it', adds, there, i', after') =
              value_part a (append_later a t v) s s1 it k total t v delta rest i more bound step r1
                after (omega arith) in
            let same : (dd + it.delta_timestamp) % 2 ^ 64 ≡ delta =
              ap (λ (x : ℕ). (dd + x) % 2 ^ 64) i.delta_timestamp ∙ omega arith in
            (
              it',
              next_is_later a it k total i more le
                  ∙ reads
                  ∙ ap (λ (x : ℕ). add_delta x (record it { bstream = s1 })) same
                  ∙ adds,
              there,
              i',
              after',
            );
      }
