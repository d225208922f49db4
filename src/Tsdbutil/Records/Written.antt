-- ===== src/Tsdbutil/Records/Written.antt =====
-- The bytes of a record, as tsdbutil/RecordEncoder.cpp writes them.
use prom_tcs.Prelude.{
  ℕ, ◌<◌, ◌^◌, All, IsU64, ◌≡◌, ap, ◌∙◌, List, [], ◌∷◌, ◌++◌, arith, length, concat_map,
}
use prom_tcs.Base.Endian.{encode_unsigned_varint, encode_signed_varint}
use prom_tcs.Base.Endian.BigEndian.{be64}
use prom_tcs.Label.{Label}
use prom_tcs.Tsdbutil.EncBuf.{
  EncBuf, IsBuf, new_buf, contents, put_byte, put_be_uint64, put_signed_variant,
  put_unsigned_variant, put_uvariant_string, variant_lem, contents-put_uvariant_string,
}
use prom_tcs.Tsdbutil.EncBuf.Contents.{
  Puts, Puts-nil, Puts-trans, Puts-byte, Puts-be_uint64, Puts-signed_variant,
}
use prom_tcs.Tsdbutil.RecordEncoder.{
  RefSeries, RefSample, Stone, StoneInterval, labels_of, put_labels, put_series, put_all_series,
  encode_series, delta_bits, put_sample, put_samples, put_first_sample, encode_samples,
  put_intervals, put_stones, encode_tombstones, record_series, record_samples, record_tombstones,
}

-- A label with strings that fit into the memory.
abbrev pub IsLabel : Label → Type 0
IsLabel l = IsU64 (length l.label) × IsU64 (length l.value)

-- The numbers of a series are 64 bits wide, and an `int` can count its labels.
abbrev pub IsSeries : RefSeries → Type 0
IsSeries r =
    IsU64 r.ref
    × IsU64 r.flushed_txn
    × IsU64 r.log_clean_txn
    × (length (labels_of r) < 2 ^ 31)
    × All IsLabel (labels_of r)

unfoldable pub string_bytes : List ℕ → List ℕ
string_bytes s = encode_unsigned_varint (length s) ++ s

unfoldable pub label_bytes : Label → List ℕ
label_bytes l = string_bytes l.label ++ string_bytes l.value

unfoldable pub series_bytes : RefSeries → List ℕ
series_bytes r =
    be64 r.ref
    ++ (be64 r.flushed_txn
        ++ (be64 r.log_clean_txn
            ++ (encode_unsigned_varint (length (labels_of r))
                ++ concat_map label_bytes (labels_of r))))

Puts-label :
    (e : EncBuf) (l : Label)
    → IsBuf e
    → IsLabel l
    → Puts e (put_uvariant_string (put_uvariant_string e l.label) l.value) (label_bytes l)
unfolding label_bytes string_bytes
Puts-label e l ok small =
    let e1 = put_uvariant_string e l.label in
    let p = contents-put_uvariant_string e l.label ok small.0 in
    Puts-trans e e1 (put_uvariant_string e1 l.value) _ _ p
      (contents-put_uvariant_string e1 l.value p.1 small.1)

Puts-labels :
    (e : EncBuf) (ls : List Label)
    → IsBuf e
    → All IsLabel ls
    → Puts e (put_labels e ls) (concat_map label_bytes ls)
unfolding put_labels
Puts-labels e [] ok small = Puts-nil e ok
Puts-labels e (l ∷ ls) ok small =
    let e1 = put_uvariant_string (put_uvariant_string e l.label) l.value in
    let p = Puts-label e l ok small.0 in
    Puts-trans e e1 (put_labels e1 ls) _ _ p (Puts-labels e1 ls p.1 small.1)

pub Puts-series :
    (e : EncBuf) (r : RefSeries) → IsBuf e → IsSeries r → Puts e (put_series e r) (series_bytes r)
unfolding put_series series_bytes
Puts-series e r ok (_, _, _, few, small) =
    let e1 = put_be_uint64 e r.ref in
    let e2 = put_be_uint64 e1 r.flushed_txn in
    let e3 = put_be_uint64 e2 r.log_clean_txn in
    let e4 = put_unsigned_variant e3 (length (labels_of r)) in
    let p1 = Puts-be_uint64 e r.ref ok in
    let p2 = Puts-be_uint64 e1 r.flushed_txn p1.1 in
    let p3 = Puts-be_uint64 e2 r.log_clean_txn p2.1 in
    let p4 = variant_lem e3 (length (labels_of r)) p3.1 (omega (arith, few)) in
    let e5 = put_labels e4 (labels_of r) in
    Puts-trans e e1 e5 _ _ p1 (
      Puts-trans e1 e2 e5 _ _ p2 (
        Puts-trans e2 e3 e5 _ _ p3
          (Puts-trans e3 e4 e5 _ _ p4 (Puts-labels e4 (labels_of r) p4.1 small))))

Puts-all_series :
    (e : EncBuf) (rs : List RefSeries)
    → IsBuf e
    → All IsSeries rs
    → Puts e (put_all_series e rs) (concat_map series_bytes rs)
unfolding put_all_series
Puts-all_series e [] ok small = Puts-nil e ok
Puts-all_series e (r ∷ rs) ok small =
    let p = Puts-series e r ok small.0 in
    Puts-trans e (put_series e r) _ _ _ p (Puts-all_series (put_series e r) rs p.1 small.1)

-- A record begins with its type.
record_lem :
    (type : ℕ) (bytes rec : List ℕ) (e : EncBuf)
    → Puts (put_byte new_buf type) e bytes
    → rec ++ contents e ≡ rec ++ type ∷ bytes
unfolding new_buf contents
record_lem type bytes rec e p =
    ap (λ (l : List ℕ). rec ++ l)
      (p.0 ∙ ap (λ (l : List ℕ). l ++ bytes) (Puts-byte new_buf type (omega arith)).0)

new_buf-IsBuf : (type : ℕ) → IsBuf (put_byte new_buf type)
unfolding new_buf
new_buf-IsBuf type = (Puts-byte new_buf type (omega arith)).1

pub encode_series-bytes :
    (rs : List RefSeries) (rec : List ℕ)
    → All IsSeries rs
    → encode_series rs rec ≡ rec ++ record_series ∷ concat_map series_bytes rs
unfolding encode_series
encode_series-bytes rs rec small =
    record_lem record_series _ rec _
      (Puts-all_series (put_byte new_buf record_series) rs (new_buf-IsBuf record_series) small)

unfoldable pub sample_bytes : RefSample → RefSample → List ℕ
sample_bytes front s =
    encode_signed_varint (delta_bits s.ref front.ref)
    ++ (encode_signed_varint (delta_bits s.logical_id front.logical_id)
        ++ (encode_signed_varint (delta_bits s.t front.t) ++ be64 s.v))

unfoldable pub first_sample_bytes : RefSample → List ℕ
first_sample_bytes s = be64 s.ref ++ (be64 s.logical_id ++ (be64 s.t ++ be64 s.v))

Puts-sample :
    (front : RefSample) (e : EncBuf) (s : RefSample)
    → IsBuf e
    → Puts e (put_sample front e s) (sample_bytes front s)
unfolding put_sample sample_bytes
Puts-sample front e s ok =
    let e1 = put_signed_variant e (delta_bits s.ref front.ref) in
    let e2 = put_signed_variant e1 (delta_bits s.logical_id front.logical_id) in
    let e3 = put_signed_variant e2 (delta_bits s.t front.t) in
    let p1 = Puts-signed_variant e (delta_bits s.ref front.ref) ok in
    let p2 = Puts-signed_variant e1 (delta_bits s.logical_id front.logical_id) p1.1 in
    let p3 = Puts-signed_variant e2 (delta_bits s.t front.t) p2.1 in
    let e4 = put_be_uint64 e3 s.v in
    Puts-trans e e1 e4 _ _ p1
      (Puts-trans e1 e2 e4 _ _ p2 (Puts-trans e2 e3 e4 _ _ p3 (Puts-be_uint64 e3 s.v p3.1)))

Puts-samples :
    (front : RefSample) (e : EncBuf) (ss : List RefSample)
    → IsBuf e
    → Puts e (put_samples front e ss) (concat_map (sample_bytes front) ss)
unfolding put_samples
Puts-samples front e [] ok = Puts-nil e ok
Puts-samples front e (s ∷ ss) ok =
    let p = Puts-sample front e s ok in
    Puts-trans e (put_sample front e s) _ _ _ p (Puts-samples front (put_sample front e s) ss p.1)

Puts-first_sample :
    (e : EncBuf) (s : RefSample) → IsBuf e → Puts e (put_first_sample e s) (first_sample_bytes s)
unfolding put_first_sample first_sample_bytes
Puts-first_sample e s ok =
    let e1 = put_be_uint64 e s.ref in
    let e2 = put_be_uint64 e1 s.logical_id in
    let e3 = put_be_uint64 e2 s.t in
    let e4 = put_be_uint64 e3 s.v in
    let p1 = Puts-be_uint64 e s.ref ok in
    let p2 = Puts-be_uint64 e1 s.logical_id p1.1 in
    let p3 = Puts-be_uint64 e2 s.t p2.1 in
    Puts-trans e e1 e4 _ _ p1
      (Puts-trans e1 e2 e4 _ _ p2 (Puts-trans e2 e3 e4 _ _ p3 (Puts-be_uint64 e3 s.v p3.1)))

pub encode_samples-bytes :
    (front : RefSample) (ss : List RefSample) (rec : List ℕ)
    → encode_samples (front ∷ ss) rec
      ≡ rec ++ record_samples ∷ (first_sample_bytes front ++ concat_map (sample_bytes front) ss)
unfolding encode_samples
encode_samples-bytes front ss rec =
    let e = put_byte new_buf record_samples in
    let e1 = put_first_sample e front in
    let p = Puts-first_sample e front (new_buf-IsBuf record_samples) in
    record_lem record_samples _ rec _
      (Puts-trans e e1 (put_samples front e1 ss) _ _ p (Puts-samples front e1 ss p.1))

unfoldable pub interval_bytes : ℕ → StoneInterval → List ℕ
interval_bytes ref i =
    be64 ref ++ (encode_signed_varint i.min_time ++ encode_signed_varint i.max_time)

Puts-intervals :
    (ref : ℕ) (e : EncBuf) (is : List StoneInterval)
    → IsBuf e
    → Puts e (put_intervals ref e is) (concat_map (interval_bytes ref) is)
unfolding put_intervals interval_bytes
Puts-intervals ref e [] ok = Puts-nil e ok
Puts-intervals ref e (i ∷ is) ok =
    let e1 = put_be_uint64 e ref in
    let e2 = put_signed_variant e1 i.min_time in
    let e3 = put_signed_variant e2 i.max_time in
    let p1 = Puts-be_uint64 e ref ok in
    let p2 = Puts-signed_variant e1 i.min_time p1.1 in
    let p3 = Puts-signed_variant e2 i.max_time p2.1 in
    Puts-trans e e3 (put_intervals ref e3 is) _ _
      (Puts-trans e e1 e3 _ _ p1 (Puts-trans e1 e2 e3 _ _ p2 p3)) (Puts-intervals ref e3 is p3.1)

unfoldable pub stone_bytes : Stone → List ℕ
stone_bytes s = concat_map (interval_bytes s.ref) s.itvls

Puts-stones :
    (e : EncBuf) (ss : List Stone) → IsBuf e → Puts e (put_stones e ss) (concat_map stone_bytes ss)
unfolding put_stones stone_bytes
Puts-stones e [] ok = Puts-nil e ok
Puts-stones e (s ∷ ss) ok =
    let p = Puts-intervals s.ref e s.itvls ok in
    Puts-trans e (put_intervals s.ref e s.itvls) _ _ _ p
      (Puts-stones (put_intervals s.ref e s.itvls) ss p.1)

pub encode_tombstones-bytes :
    (ss : List Stone) (rec : List ℕ)
    → encode_tombstones ss rec ≡ rec ++ record_tombstones ∷ concat_map stone_bytes ss
unfolding encode_tombstones
encode_tombstones-bytes ss rec =
    record_lem record_tombstones _ rec _
      (Puts-stones (put_byte new_buf record_tombstones) ss (new_buf-IsBuf record_tombstones))
