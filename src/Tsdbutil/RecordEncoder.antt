-- ===== src/Tsdbutil/RecordEncoder.antt =====
-- tsdbutil/RecordEncoder.cpp, with the types of tsdbutil/tsdbutils.hpp: the records of the
-- write-ahead log. An int64_t is its 64 bits and a double too; the pointers to series in memory,
-- which no record has, are left out.
use prom_tcs.Prelude.{ℕ, ◌+◌, ◌-◌, ◌%◌, ◌^◌, List, [], ◌∷◌, ◌++◌, Option, none, some, length}
use prom_tcs.Label.{Label}
use prom_tcs.Tsdbutil.EncBuf.{
  EncBuf, new_buf, contents, put_byte, put_be_uint64, put_unsigned_variant, put_signed_variant,
  put_uvariant_string,
}

abbrev pub record_invalid : ℕ
record_invalid = 255

abbrev pub record_series : ℕ
record_series = 1

abbrev pub record_samples : ℕ
record_samples = 2

abbrev pub record_tombstones : ℕ
record_tombstones = 3

-- `lset_ptr` is what the pointer points to, if it is not null.
pub record RefSeries : Type 0 where
  pub ref : ℕ
  pub lset : List Label
  pub lset_ptr : Option (List Label)
  pub flushed_txn : ℕ
  pub log_clean_txn : ℕ

pub record RefSample : Type 0 where
  pub ref : ℕ
  pub logical_id : ℕ
  pub t : ℕ
  pub v : ℕ

-- An interval of a stone, as the 64 bits of its ends.
pub record StoneInterval : Type 0 where
  pub min_time : ℕ
  pub max_time : ℕ

pub record Stone : Type 0 where
  pub ref : ℕ
  pub itvls : List StoneInterval

-- `lptr`
unfoldable pub labels_of : RefSeries → List Label
labels_of r = elim r.lset_ptr [ none ↦ r.lset | some lset ↦ lset ]

unfoldable pub put_labels : EncBuf → List Label → EncBuf
unfolding put_uvariant_string
put_labels e [] = e
put_labels e (l ∷ ls) = put_labels (put_uvariant_string (put_uvariant_string e l.label) l.value) ls

unfoldable pub put_series : EncBuf → RefSeries → EncBuf
unfolding put_be_uint64 put_unsigned_variant put_labels labels_of
put_series e r =
    let e1 = put_be_uint64 e r.ref in
    let e2 = put_be_uint64 e1 r.flushed_txn in
    let e3 = put_be_uint64 e2 r.log_clean_txn in
    put_labels (put_unsigned_variant e3 (length (labels_of r))) (labels_of r)

unfoldable pub put_all_series : EncBuf → List RefSeries → EncBuf
unfolding put_series
put_all_series e [] = e
put_all_series e (r ∷ rs) = put_all_series (put_series e r) rs

-- The bytes are inserted at the end of `rec`.
unfoldable pub encode_series : List RefSeries → List ℕ → List ℕ
unfolding contents new_buf put_byte put_all_series
encode_series refseries rec =
    rec ++ contents (put_all_series (put_byte new_buf record_series) refseries)

-- The difference of two int64_t, on their 64 bits.
unfoldable pub delta_bits : ℕ → ℕ → ℕ
delta_bits a base = (a + (2 ^ 64 - base)) % 2 ^ 64

unfoldable pub put_sample : RefSample → EncBuf → RefSample → EncBuf
unfolding put_be_uint64 put_signed_variant delta_bits
put_sample front e s =
    let e1 = put_signed_variant e (delta_bits s.ref front.ref) in
    let e2 = put_signed_variant e1 (delta_bits s.logical_id front.logical_id) in
    put_be_uint64 (put_signed_variant e2 (delta_bits s.t front.t)) s.v

unfoldable pub put_samples : RefSample → EncBuf → List RefSample → EncBuf
unfolding put_sample
put_samples front e [] = e
put_samples front e (s ∷ ss) = put_samples front (put_sample front e s) ss

unfoldable pub put_first_sample : EncBuf → RefSample → EncBuf
unfolding put_be_uint64
put_first_sample e s =
    put_be_uint64 (put_be_uint64 (put_be_uint64 (put_be_uint64 e s.ref) s.logical_id) s.t) s.v

unfoldable pub encode_samples : List RefSample → List ℕ → List ℕ
unfolding contents new_buf put_byte put_first_sample put_samples
encode_samples [] rec = rec
encode_samples (front ∷ refsamples) rec =
    let e = put_first_sample (put_byte new_buf record_samples) front in
    rec ++ contents (put_samples front e refsamples)

unfoldable pub put_intervals : ℕ → EncBuf → List StoneInterval → EncBuf
unfolding put_be_uint64 put_signed_variant
put_intervals ref e [] = e
put_intervals ref e (i ∷ itvls) =
    let e1 = put_signed_variant (put_be_uint64 e ref) i.min_time in
    put_intervals ref (put_signed_variant e1 i.max_time) itvls

unfoldable pub put_stones : EncBuf → List Stone → EncBuf
unfolding put_intervals
put_stones e [] = e
put_stones e (s ∷ stones) = put_stones (put_intervals s.ref e s.itvls) stones

unfoldable pub encode_tombstones : List Stone → List ℕ → List ℕ
unfolding contents new_buf put_byte put_stones
encode_tombstones stones rec =
    rec ++ contents (put_stones (put_byte new_buf record_tombstones) stones)
