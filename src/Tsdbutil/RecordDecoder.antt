-- ===== src/Tsdbutil/RecordDecoder.antt =====
-- tsdbutil/RecordDecoder.cpp: reading the records back. Each function is there for a vector and for
-- a pointer with a length, and the two do the same.
use prom_tcs.Prelude.{
  ℕ, zero, suc, ◌+◌, ◌-◌, ◌%◌, ◌^◌, Bool, not, ◌&&◌, List, [], ◌∷◌, ◌++◌, Option, none, some, ltb,
  leb, ◌==◌, if◌then◌else◌, length,
}
use prom_tcs.Label.{Label, sort_labels}
use prom_tcs.Tsdbutil.DecBuf.{
  DecBuf, dec_buf, no_err, get_byte, get_be_uint64, get_unsigned_variant, get_signed_variant,
  get_uvariant_string,
}
use prom_tcs.Tsdbutil.RecordEncoder.{
  RefSeries, RefSample, Stone, record_invalid, record_series, record_samples, record_tombstones,
}

unfoldable pub record_type : List ℕ → ℕ
record_type [] = record_invalid
record_type (t ∷ rec) =
    if not (t == record_series) && not (t == record_samples) && not (t == record_tombstones)
    then record_invalid
    else t

-- The errors, by their text; `decbuf_error` has the code of the buffer's error.
pub data RecordError : Type 0 where
  no_error : RecordError
  invalid_record_type : RecordError
  decbuf_error : ℕ → RecordError
  bytes_left : ℕ → RecordError

-- `len()`
unfoldable pub len : DecBuf → ℕ
len d = d.size - d.index

-- What stands behind each of the loops.
unfoldable pub final_error : DecBuf → RecordError
unfolding len
final_error d =
    if not (d.err == no_err)
    then decbuf_error d.err
    else if ltb 0 (len d)
    then bytes_left (len d)
    else no_error

-- `decbuf.len() > 0 && decbuf.error() == NO_ERR`
unfoldable pub going : DecBuf → Bool
unfolding len
going d = ltb 0 (len d) && (d.err == no_err)

-- A `while (decbuf.len() > 0 && decbuf.error() == NO_ERR)` loop: a round gives the item that it appends
-- and the buffer, or the error with which it returns. Without fuel there is no result.
unfoldable pub read_loop {ℓ} :
    {A : Type ℓ}
    → (DecBuf → Option A × DecBuf)
    → ℕ
    → DecBuf
    → List A
    → Option (RecordError × List A)
unfolding final_error going
read_loop round zero d items = none
read_loop round (suc fuel) d items =
    let (item, d') = round d in
    if not (going d) then some (final_error d, items) else elim item [
      | none ↦ some (decbuf_error d'.err, items)
      | some a ↦ read_loop round fuel d' (items ++ a ∷ [])
    ]

-- A record: its first byte is the type.
unfoldable pub open_record : ℕ → List ℕ → Bool × DecBuf
unfolding dec_buf get_byte
open_record type rec = let (t, d) = get_byte (dec_buf rec) in (t == type, d)

-- The strings of `num_lbs` labels; the loop goes on behind an error, with empty strings.
unfoldable pub read_labels : ℕ → DecBuf → List Label × DecBuf
unfolding get_uvariant_string
read_labels zero d = ([], d)
read_labels (suc num_lbs) d =
    let (label, d1) = get_uvariant_string d in
    let (value, d2) = get_uvariant_string d1 in
    let (lset, d3) = read_labels num_lbs d2 in (record { label = label; value = value } ∷ lset, d3)

-- How often a loop `for (int i = 0; i < n; ++i)` runs where `n` is a uint64_t and `i` wraps around:
-- `i` is converted to a uint64_t to be compared, so from 2^31 rounds on it counts from 2^64 - 2^31.
unfoldable pub int_rounds : ℕ → ℕ
int_rounds n =
    if leb n (2 ^ 31) then n else if leb n (2 ^ 64 - 2 ^ 31) then 2 ^ 31 else n - (2 ^ 64 - 2 ^ 32)

-- A round of the loop of `series`.
unfoldable pub read_series : DecBuf → Option RefSeries × DecBuf
unfolding get_be_uint64 get_unsigned_variant read_labels int_rounds sort_labels
read_series d =
    let (ref, d1) = get_be_uint64 d in
    let (flushed_txn, d2) = get_be_uint64 d1 in
    let (log_clean_txn, d3) = get_be_uint64 d2 in
    let (num_lbs, d4) = get_unsigned_variant d3 in
    let (lset, d5) = read_labels (int_rounds num_lbs) d4 in
    let series : RefSeries = record {
      ref = ref;
      lset = sort_labels lset;
      lset_ptr = none;
      flushed_txn = flushed_txn;
      log_clean_txn = log_clean_txn;
    } in
    if not (d5.err == no_err) then (none, d5) else (some series, d5)

-- The fuel: a round takes at least a byte or leaves an error.
unfoldable pub decode_series : List ℕ → List RefSeries → Option (RecordError × List RefSeries)
unfolding open_record read_series read_loop
decode_series rec refseries =
    let (known, d) = open_record record_series rec in
    if not known
    then some (invalid_record_type, refseries)
    else read_loop read_series (suc (length rec)) d refseries

-- The sum of two int64_t, on their 64 bits.
unfoldable pub apply_delta : ℕ → ℕ → ℕ
apply_delta base delta = (base + delta) % 2 ^ 64

-- A round of the loop of `samples`. Behind an error it has a sample too.
unfoldable pub read_sample : RefSample → DecBuf → Option RefSample × DecBuf
unfolding get_signed_variant get_be_uint64 apply_delta
read_sample base d =
    let (id_delta, d1) = get_signed_variant d in
    let (logical_id_delta, d2) = get_signed_variant d1 in
    let (time_delta, d3) = get_signed_variant d2 in
    let (value, d4) = get_be_uint64 d3 in
    (
      some (record {
        ref = apply_delta base.ref id_delta;
        logical_id = apply_delta base.logical_id logical_id_delta;
        t = apply_delta base.t time_delta;
        v = value;
      }),
      d4,
    )

unfoldable pub read_first_sample : DecBuf → RefSample × DecBuf
unfolding get_be_uint64
read_first_sample d =
    let (base_ref, d1) = get_be_uint64 d in
    let (base_logical_id, d2) = get_be_uint64 d1 in
    let (base_time, d3) = get_be_uint64 d2 in
    let (value, d4) = get_be_uint64 d3 in
    (record { ref = base_ref; logical_id = base_logical_id; t = base_time; v = value }, d4)

unfoldable pub decode_samples : List ℕ → List RefSample → Option (RecordError × List RefSample)
unfolding open_record read_first_sample read_sample read_loop len
decode_samples rec refsamples =
    let (known, d) = open_record record_samples rec in
    let (base, d') = read_first_sample d in
    if not known
    then some (invalid_record_type, refsamples)
    else if len d == 0
    then some (no_error, refsamples)
    else read_loop (read_sample base) (suc (length rec)) d' (refsamples ++ base ∷ [])

-- A round of the loop of `tombstones`: a stone of one interval.
unfoldable pub read_stone : DecBuf → Option Stone × DecBuf
unfolding get_signed_variant get_be_uint64
read_stone d =
    let (ref, d1) = get_be_uint64 d in
    let (t1, d2) = get_signed_variant d1 in
    let (t2, d3) = get_signed_variant d2 in
    (some (record { ref = ref; itvls = record { min_time = t1; max_time = t2 } ∷ [] }), d3)

unfoldable pub decode_tombstones : List ℕ → List Stone → Option (RecordError × List Stone)
unfolding open_record read_stone read_loop
decode_tombstones rec stones =
    let (known, d) = open_record record_tombstones rec in
    if not known
    then some (invalid_record_type, stones)
    else read_loop read_stone (suc (length rec)) d stones
