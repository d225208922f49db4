-- ===== src/Tsdbutil/Records/Ends.antt =====
-- The loops of tsdbutil/RecordDecoder.cpp end.
use prom_tcs.Prelude.{
  ℕ, suc, ◌<◌, ◌≡◌, inl, inr, not, List, [], ◌∷◌, ◌++◌, Option, arith, length, Bool-cases, ◌==◌,
}
use prom_tcs.Tsdbutil.DecBuf.{DecBuf, no_err, dec_buf, get_be_uint64, get_signed_variant}
use prom_tcs.Tsdbutil.DecBuf.Progress.{
  Goes, Advanced, Goes-trans, Advanced-Goes, Goes-Advanced, get_byte-Goes, get_be_uint64-Goes,
  get_be_uint64-Advanced, get_signed_variant-Goes,
}
use prom_tcs.Tsdbutil.RecordEncoder.{RefSample, Stone, record_samples, record_tombstones}
use prom_tcs.Tsdbutil.RecordDecoder.{
  invalid_record_type, no_error, len, open_record, read_loop, read_sample, read_first_sample,
  decode_samples, read_stone, decode_tombstones,
}
use prom_tcs.Tsdbutil.Records.Loop.{Advances, Returns, Returns-now, Returns-more, read_loop-ends}

Advanced-Advances : (d d' : DecBuf) → (0 < len d) × (d.err ≡ no_err) → Advanced d d' → Advances d d'
unfolding len
Advanced-Advances d d' g (inl failed) = inl failed
Advanced-Advances d d' g (inr (same, less)) = inr (omega (arith, g.0))

read_sample-Advanced : (base : RefSample) (d : DecBuf) → Advanced d (read_sample base d).1
unfolding read_sample
read_sample-Advanced base d =
    let d1 = (get_signed_variant d).1 in
    let d2 = (get_signed_variant d1).1 in
    let d3 = (get_signed_variant d2).1 in
    Goes-Advanced d d3 (get_be_uint64 d3).1
      (Goes-trans d d1 d3 (get_signed_variant-Goes d)
        (Goes-trans d1 d2 d3 (get_signed_variant-Goes d1) (get_signed_variant-Goes d2)))
      (get_be_uint64-Advanced d3)

read_stone-Advanced : (d : DecBuf) → Advanced d (read_stone d).1
unfolding read_stone
read_stone-Advanced d =
    let d1 = (get_be_uint64 d).1 in
    let d2 = (get_signed_variant d1).1 in
    Advanced-Goes d d1 _ (get_be_uint64-Advanced d)
      (Goes-trans d1 d2 _ (get_signed_variant-Goes d1) (get_signed_variant-Goes d2))

read_first_sample-Goes : (d : DecBuf) → Goes d (read_first_sample d).1
unfolding read_first_sample
read_first_sample-Goes d =
    let d1 = (get_be_uint64 d).1 in
    let d2 = (get_be_uint64 d1).1 in
    let d3 = (get_be_uint64 d2).1 in
    Goes-trans d d1 _ (get_be_uint64-Goes d) (
      Goes-trans d1 d2 _ (get_be_uint64-Goes d1)
        (Goes-trans d2 d3 _ (get_be_uint64-Goes d2) (get_be_uint64-Goes d3)))

-- A decoder's fuel is enough for a cursor that has gone on from the start of the record.
start-IsEnough : (rec : List ℕ) (d : DecBuf) → Goes (dec_buf rec) d → len d < suc (length rec)
unfolding len dec_buf
start-IsEnough rec d g = omega (arith, g.same)

-- Reading the rounds of a loop to the end.
loop-ends {ℓ} :
    {A : Type ℓ} (round : DecBuf → Option A × DecBuf)
    → ((d : DecBuf) → Advanced d (round d).1)
    → (rec : List ℕ) (d : DecBuf) (items : List A) → Goes (dec_buf rec) d
    → Returns items (read_loop round (suc (length rec)) d items)
loop-ends round advanced rec d items g =
    read_loop-ends round (λ d' going. Advanced-Advances d' (round d').1 going (advanced d'))
      (suc (length rec)) d items (inl (start-IsEnough rec d g))

open_record-Goes : (type : ℕ) (rec : List ℕ) → Goes (dec_buf rec) (open_record type rec).1
unfolding open_record
open_record-Goes type rec = get_byte-Goes (dec_buf rec)

decode_samples-ends :
    (rec : List ℕ) (items : List RefSample) → Returns items (decode_samples rec items)
unfolding decode_samples
decode_samples-ends rec items =
    let (known, d) = open_record record_samples rec in
    let (base, d') = read_first_sample d in
    elim (Bool-cases (not known)) [
      | inl t ↦ rw t (Returns-now items invalid_record_type tt)
      | inr f ↦ elim (Bool-cases (len d == 0)) [
        | inl t ↦ rw (f, t) (Returns-now items no_error tt)
        | inr f' ↦
            rw (f, f')
              (Returns-more items base _ (
                loop-ends (read_sample base) (read_sample-Advanced base) rec d' (items ++ base ∷ [])
                  (Goes-trans (dec_buf rec) d d' (open_record-Goes record_samples rec)
                    (read_first_sample-Goes d))))
      ]
    ]

decode_tombstones-ends :
    (rec : List ℕ) (items : List Stone) → Returns items (decode_tombstones rec items)
unfolding decode_tombstones
decode_tombstones-ends rec items =
    let (known, d) = open_record record_tombstones rec in
    elim (Bool-cases (not known)) [
      | inl t ↦ rw t (Returns-now items invalid_record_type tt)
      | inr f ↦ rw f (
          loop-ends read_stone read_stone-Advanced rec d items
            (open_record-Goes record_tombstones rec))
    ]

-- The decoders of samples and of tombstones return for every list of bytes, whether it is a record or
-- not: the fuel of the loop, the number of bytes and one more, is enough. Each keeps the items that
-- there were in front of those that it appends, and its error is never the one of bytes left in the
-- entry.
pub decoders-end :
    (rec : List ℕ) (samples : List RefSample) (stones : List Stone)
    → Returns samples (decode_samples rec samples) × Returns stones (decode_tombstones rec stones)
decoders-end rec samples stones =
    (decode_samples-ends rec samples, decode_tombstones-ends rec stones)
