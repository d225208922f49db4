-- ===== src/Chunk/XorChunk/Timestamps.antt =====
-- The delta of the deltas of timestamps: the bits that XORAppender::append writes for it are those
-- that XORIterator::next reads back.
use prom_tcs.Prelude.{
  ℕ, zero, suc, ◌+◌, ◌-◌, ◌*◌, ◌%◌, ◌^◌, ◌≤◌, ◌<◌, bit_or, ◌≡◌, refl, sym, ap, ◌∙◌, Bool, true,
  false, List, [], ◌∷◌, ◌++◌, append_assoc, arith, ltb, ◌==◌, Bool-cases, inl, inr, if◌then◌else◌,
  IsU64,
}
use prom_tcs.Prelude.Digits.{bits_be, bits_be-mod}
use prom_tcs.Chunk.BitStream.{
  BitStream, ok, Reader, pure, write_bit, write_bits, read_bit, read_bits,
}
use prom_tcs.Chunk.BitStream.Read.{IsReader, unread}
use prom_tcs.Chunk.BitStream.ReadBits.{read_bits_lem}
use prom_tcs.Chunk.BitStream.ReadBytes.{>>=-ok}
use prom_tcs.Chunk.BitStream.ReadBytes.{read_bit_lem}
use prom_tcs.Chunk.BitStream.Varints.{Returns}
use prom_tcs.Chunk.BitStream.Appends.{Appends, Appends-then, Appends-write_bit, Appends-write_bits}
use prom_tcs.Chunk.XorAppender.{bit_range, write_delta_delta}
use prom_tcs.Chunk.XorIterator.{
  XorIterator, failed, read_type, read_sized, read_delta_delta, type_known, add_delta_delta,
  next_later,
}
use prom_tcs.Chunk.XorChunk.Values.{try_read-ok}

-- Control bits, and the type that the loop makes of them with `k` rounds left.
data Code : ℕ → ℕ → List Bool → ℕ → Type 0 where
  full : (type : ℕ) → Code zero type [] type
  stop : (k type : ℕ) → Code (suc k) type (false ∷ []) (type * 2 % 256)
  more :
      (k type : ℕ) {bits : List Bool} {result : ℕ}
      → Code k (bit_or (type * 2 % 256) 1) bits result
      → Code (suc k) type (true ∷ bits) result

after_bit : ℕ → ℕ → Bool → Reader ℕ
after_bit k type bit =
    if bit then read_type k (bit_or (type * 2 % 256) 1) else pure (type * 2 % 256)

Code-reads :
    (k type : ℕ) (s : BitStream) (rest : List Bool) {bits : List Bool} {result : ℕ}
    → Code k type bits result
    → IsReader s
    → unread s ≡ bits ++ rest
    → Returns (read_type k type s) result rest
unfolding read_type after_bit
Code-reads zero type s rest (full _) r e = (s, refl, r, e)
Code-reads (suc k) type s rest (stop _ _) r e =
    let (s', reads, r', after) = read_bit_lem s false rest r e in
    (s', >>=-ok read_bit (after_bit k type) s reads, r', after)
Code-reads (suc k) type s rest (more _ _ {bits} c) r e =
    let (s', reads, r', after) = read_bit_lem s true (bits ++ rest) r e in
    let (s'', loops, r'', after') = Code-reads k (bit_or (type * 2 % 256) 1) s' rest c r' after in
    (s'', >>=-ok read_bit (after_bit k type) s reads ∙ loops, r'', after')

-- The sign of a number of `size` bits.
abbrev extended : ℕ → ℕ → ℕ
extended size v = if ltb (2 ^ (size - 1)) v then (v + 2 ^ 64 - 2 ^ size) % 2 ^ 64 else v

sized_reads :
    (size dd : ℕ) (s : BitStream) (rest : List Bool)
    → size ≤ 64
    → dd % 2 ^ size < 2 ^ size
    → extended size (dd % 2 ^ size) ≡ dd
    → IsReader s
    → unread s ≡ bits_be size dd ++ rest
    → Returns (read_sized size s) dd rest
unfolding read_sized
sized_reads size dd s rest h small back r e =
    let (s', reads, r', after) =
      read_bits_lem size (dd % 2 ^ size) s rest r h small
        (e ∙ ap (λ (l : List Bool). l ++ rest) (sym (bits_be-mod size dd))) in
    (
      s',
      >>=-ok (read_bits size) (λ v. pure (extended size v)) s reads ∙ ap (λ (t : ℕ). ok t s') back,
      r',
      after,
    )

range_back_14 : (dd : ℕ) → IsU64 dd → bit_range dd 14 ≡ true → extended 14 (dd % 2 ^ 14) ≡ dd
unfolding bit_range
range_back_14 dd h e = ground arith

range_back_17 : (dd : ℕ) → IsU64 dd → bit_range dd 17 ≡ true → extended 17 (dd % 2 ^ 17) ≡ dd
unfolding bit_range
range_back_17 dd h e = ground arith

range_back_20 : (dd : ℕ) → IsU64 dd → bit_range dd 20 ≡ true → extended 20 (dd % 2 ^ 20) ≡ dd
unfolding bit_range
range_back_20 dd h e = ground arith

Code-10 : Code 4 0 (bits_be 2 0x02) 0x02
unfolding bits_be
Code-10 = more 3 0 (stop 2 1)

Code-110 : Code 4 0 (bits_be 3 0x06) 0x06
unfolding bits_be
Code-110 = more 3 0 (more 2 1 (stop 1 3))

Code-1110 : Code 4 0 (bits_be 4 0x0e) 0x0e
unfolding bits_be
Code-1110 = more 3 0 (more 2 1 (more 1 3 (stop 0 7)))

Code-1111 : Code 4 0 (bits_be 4 0x0f) 0x0f
unfolding bits_be
Code-1111 = more 3 0 (more 2 1 (more 1 3 (more 0 7 (full 15))))

-- What is appended for the delta of deltas `dd`, and the reading of it.
pub record DeltaStep (s : BitStream) (dd : ℕ) (s' : BitStream) : Type 0 where
  pub digits : List Bool
  pub appends : Appends s s' digits
  pub reads :
      (it : XorIterator) (rest : List Bool)
      → IsReader it.bstream
      → unread it.bstream ≡ digits ++ rest
      → (s1 : BitStream) × (next_later it ≡ add_delta_delta dd (record it { bstream = s1 }))
        × IsReader s1
        × (unread s1 ≡ rest)

coded_step :
    (s : BitStream) (dd type : ℕ) (s' : BitStream) (code field : List Bool)
    → Code 4 0 code type
    → Appends s s' (code ++ field)
    → ((r : BitStream) (rest : List Bool)
        → IsReader r
        → unread r ≡ field ++ rest
        → Returns (read_delta_delta type r) dd rest)
    → DeltaStep s dd s'
unfolding next_later type_known
coded_step s dd type s' code field c appends field_reads = record {
  digits = code ++ field;
  appends = appends;
  reads = λ it rest r e.
      let (s1, reads, r1, after) =
        Code-reads 4 0 it.bstream (field ++ rest) c r (e ∙ append_assoc code field rest) in
      let (s2, reads', r2, after') = field_reads s1 rest r1 after in
      (
        s2,
        try_read-ok (read_type 4 0) failed type_known it reads
            ∙ try_read-ok (read_delta_delta type) failed add_delta_delta
                (record it { bstream = s1 }) reads',
        r2,
        after',
      );
}

module _ (s : BitStream) (dd : ℕ) (small : IsU64 dd) where
  sized_step :
      (size type prefix : ℕ)
      → (p : ℕ) → p ≤ 64
      → size ≤ 64
      → dd % 2 ^ size < 2 ^ size
      → extended size (dd % 2 ^ size) ≡ dd
      → Code 4 0 (bits_be p prefix) type
      → ((r : BitStream) → read_delta_delta type r ≡ read_sized size r)
      → DeltaStep s dd (write_bits (write_bits s prefix p) dd size)
  sized_step size type prefix p h h' fits back c same =
      coded_step s dd type (write_bits (write_bits s prefix p) dd size) (bits_be p prefix)
        (bits_be size dd) c
        (Appends-then (Appends-write_bits s prefix p h)
          (Appends-write_bits (write_bits s prefix p) dd size h'))
        (λ r rest q e.
          let (s1, reads, q', after) = sized_reads size dd r rest h' fits back q e in
          (s1, same r ∙ reads, q', after))

  zero_step : dd ≡ 0 → DeltaStep s dd (write_bit s false)
  unfolding read_delta_delta
  zero_step e =
      coded_step s dd 0 (write_bit s false) (false ∷ []) [] (stop 3 0) (Appends-write_bit s false)
        (λ r rest q e'. (r, ap (λ (t : ℕ). ok t r) (sym e), q, e'))

  whole_step : DeltaStep s dd (write_bits (write_bits s 0x0f 4) dd 64)
  unfolding read_delta_delta
  whole_step =
      coded_step s dd 0x0f (write_bits (write_bits s 0x0f 4) dd 64) (bits_be 4 0x0f) (bits_be 64 dd)
        Code-1111
        (Appends-then (Appends-write_bits s 0x0f 4 (omega arith))
          (Appends-write_bits (write_bits s 0x0f 4) dd 64 (omega arith)))
        (λ r rest q e. read_bits_lem 64 dd r rest q (omega arith) small e)

  -- The delta of deltas that is written is the one that is read.
  pub delta_step : DeltaStep s dd (write_delta_delta s dd)
  unfolding write_delta_delta read_delta_delta
  delta_step = elim (Bool-cases (dd == 0)) [
    | inl z ↦ rw z (zero_step (ground arith))
    | inr z ↦ elim (Bool-cases (bit_range dd 14)) [
      | inl t ↦
          rw (z, t)
            (sized_step 14 0x02 0x02 2 (omega arith) (omega arith) (omega arith)
              (range_back_14 dd small t) Code-10 (λ r. refl))
      | inr f ↦ elim (Bool-cases (bit_range dd 17)) [
        | inl t ↦
            rw (z, f, t)
              (sized_step 17 0x06 0x06 3 (omega arith) (omega arith) (omega arith)
                (range_back_17 dd small t) Code-110 (λ r. refl))
        | inr f' ↦ elim (Bool-cases (bit_range dd 20)) [
          | inl t ↦
              rw (z, f, f', t)
                (sized_step 20 0x0e 0x0e 4 (omega arith) (omega arith) (omega arith)
                  (range_back_20 dd small t) Code-1110 (λ r. refl))
          | inr f'' ↦ rw (z, f, f', f'') whole_step
        ]
      ]
    ]
  ]
