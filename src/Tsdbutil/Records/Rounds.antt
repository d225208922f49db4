-- ===== src/Tsdbutil/Records/Rounds.antt =====
-- A round of each loop in tsdbutil/RecordDecoder.cpp reads an item as tsdbutil/RecordEncoder.cpp
-- writes it.
use prom_tcs.Prelude.{
  ℕ, ◌≡◌, refl, sym, ap, ◌∙◌, ◌<◌, ◌^◌, subst, true, List, [], ◌∷◌, ◌++◌, append_assoc, none, some,
  ◌==◌, arith, length, concat_map, All, IsU64,
}
use prom_tcs.Base.Endian.{encode_unsigned_varint, encode_signed_varint}
use prom_tcs.Base.Endian.BigEndian.{be64}
use prom_tcs.Label.{Label, sort_labels}
use prom_tcs.Tsdbutil.DecBuf.{
  DecBuf, no_err, get_be_uint64, get_unsigned_variant, get_signed_variant, get_uvariant_string,
}
use prom_tcs.Tsdbutil.DecBuf.Reads.{
  IsAt, Reads, get_be_uint64-Reads, get_unsigned_variant-Reads, get_signed_variant-Reads,
  get_uvariant_string-Reads,
}
use prom_tcs.Tsdbutil.RecordEncoder.{
  RefSeries, RefSample, Stone, StoneInterval, labels_of, delta_bits,
}
use prom_tcs.Tsdbutil.RecordDecoder.{
  read_labels, int_rounds, read_series, apply_delta, read_sample, read_first_sample, read_stone,
}
use prom_tcs.Tsdbutil.Records.Written.{
  IsLabel, IsSeries, string_bytes, label_bytes, series_bytes, sample_bytes, first_sample_bytes,
  interval_bytes,
}

IsAt-assoc :
    (d : DecBuf) (xs ys rest : List ℕ) → IsAt d (xs ++ ys ++ rest) → IsAt d (xs ++ (ys ++ rest))
IsAt-assoc d xs ys rest h = subst (IsAt d) (append_assoc xs ys rest) h

string-Reads :
    (d : DecBuf) (s rest : List ℕ)
    → IsU64 (length s)
    → IsAt d (string_bytes s ++ rest)
    → Reads (get_uvariant_string d) s rest
unfolding string_bytes
string-Reads d s rest small h =
    get_uvariant_string-Reads d s rest small
      (IsAt-assoc d (encode_unsigned_varint (length s)) s rest h)

read_labels-Reads :
    (ls : List Label) (d : DecBuf) (rest : List ℕ)
    → All IsLabel ls
    → IsAt d (concat_map label_bytes ls ++ rest)
    → Reads (read_labels (length ls) d) ls rest
unfolding read_labels label_bytes
read_labels-Reads [] d rest ok h = (refl, h)
read_labels-Reads (l ∷ ls) d rest ok h =
    let behind = concat_map label_bytes ls ++ rest in
    let h0 = IsAt-assoc d (string_bytes l.label ++ string_bytes l.value) _ rest h in
    let (e1, h1) =
      string-Reads d l.label (string_bytes l.value ++ behind) ok.0.0
        (IsAt-assoc d (string_bytes l.label) _ behind h0) in
    let (e2, h2) = string-Reads (get_uvariant_string d).1 l.value behind ok.0.1 h1 in
    let d2 = (get_uvariant_string (get_uvariant_string d).1).1 in
    let (e3, h3) = read_labels-Reads ls d2 rest ok.1 h2 in (rw (e1, e2, e3) refl, h3)

-- What the decoder makes of a series: its labels in order.
unfoldable pub decoded_series : RefSeries → RefSeries
decoded_series r = record {
  ref = r.ref;
  lset = sort_labels (labels_of r);
  lset_ptr = none;
  flushed_txn = r.flushed_txn;
  log_clean_txn = r.log_clean_txn;
}

int_rounds_lem : (n : ℕ) → n < 2 ^ 31 → int_rounds n ≡ n
unfolding int_rounds
int_rounds_lem n h = ground (arith, h)

pub read_series-Reads :
    (d : DecBuf) (r : RefSeries) (rest : List ℕ)
    → IsSeries r
    → IsAt d (series_bytes r ++ rest)
    → Reads (read_series d) (some (decoded_series r)) rest
unfolding read_series series_bytes decoded_series
read_series-Reads d r rest (ok1, ok2, ok3, ok4, ok5) h =
    let ls = labels_of r in
    let d1 = (get_be_uint64 d).1 in
    let d2 = (get_be_uint64 d1).1 in
    let d3 = (get_be_uint64 d2).1 in
    let (n, d4) = get_unsigned_variant d3 in
    let t4 = encode_unsigned_varint (length ls) ++ concat_map label_bytes ls in
    let t3 = be64 r.log_clean_txn ++ t4 in
    let (e1, h1) = get_be_uint64-Reads d r.ref (be64 r.flushed_txn ++ t3 ++ rest) ok1 h in
    let (e2, h2) = get_be_uint64-Reads d1 r.flushed_txn (t3 ++ rest) ok2 h1 in
    let (e3, h3) = get_be_uint64-Reads d2 r.log_clean_txn (t4 ++ rest) ok3 h2 in
    let (e4, h4) =
      get_unsigned_variant-Reads d3 (length ls) (concat_map label_bytes ls ++ rest)
        (omega (arith, ok4))
        (IsAt-assoc d3 (encode_unsigned_varint (length ls)) (concat_map label_bytes ls) rest h3) in
    let (e5, h5) =
      subst (λ (k : ℕ). Reads (read_labels k d4) ls rest)
        (sym (ap int_rounds e4 ∙ int_rounds_lem (length ls) ok4))
        (read_labels-Reads ls d4 rest ok5 h4) in
    let fine : (read_labels (int_rounds n) d4).1.err == no_err ≡ true = ground (arith, h5.fine) in
    rw (fine, e1, e2, e3, e5) (refl, h5)

-- The numbers of a sample are 64 bits wide.
abbrev pub IsRefSample : RefSample → Type 0
IsRefSample s = IsU64 s.ref × IsU64 s.logical_id × IsU64 s.t × IsU64 s.v

delta_bits-IsU64 : (a base : ℕ) → IsU64 (delta_bits a base)
unfolding delta_bits
delta_bits-IsU64 a base = omega arith

apply_delta-delta_bits :
    (base a : ℕ) → IsU64 a → IsU64 base → apply_delta base (delta_bits a base) ≡ a
unfolding apply_delta delta_bits
apply_delta-delta_bits base a small small' = omega arith

signed-Reads :
    (d : DecBuf) (v : ℕ) (ys rest : List ℕ)
    → IsU64 v
    → IsAt d (encode_signed_varint v ++ ys ++ rest)
    → Reads (get_signed_variant d) v (ys ++ rest)
signed-Reads d v ys rest small h =
    get_signed_variant-Reads d v (ys ++ rest) small
      (IsAt-assoc d (encode_signed_varint v) ys rest h)

pub read_sample-Reads :
    (front : RefSample)
    → IsRefSample front
    → (d : DecBuf) (s : RefSample) (rest : List ℕ) → IsRefSample s
    → IsAt d (sample_bytes front s ++ rest)
    → Reads (read_sample front d) (some s) rest
unfolding read_sample sample_bytes
read_sample-Reads front (f1, f2, f3, f4) d s rest (ok1, ok2, ok3, ok4) h =
    let d1 = (get_signed_variant d).1 in
    let d2 = (get_signed_variant d1).1 in
    let d3 = (get_signed_variant d2).1 in
    let t2 = encode_signed_varint (delta_bits s.t front.t) ++ be64 s.v in
    let t1 = encode_signed_varint (delta_bits s.logical_id front.logical_id) ++ t2 in
    let (e1, h1) =
      signed-Reads d (delta_bits s.ref front.ref) t1 rest (delta_bits-IsU64 s.ref front.ref) h in
    let (e2, h2) =
      signed-Reads d1 (delta_bits s.logical_id front.logical_id) t2 rest
        (delta_bits-IsU64 s.logical_id front.logical_id) h1 in
    let (e3, h3) =
      signed-Reads d2 (delta_bits s.t front.t) (be64 s.v) rest (delta_bits-IsU64 s.t front.t) h2 in
    let (e4, h4) = get_be_uint64-Reads d3 s.v rest ok4 h3 in
    let r1 = apply_delta-delta_bits front.ref s.ref ok1 f1 in
    let r2 = apply_delta-delta_bits front.logical_id s.logical_id ok2 f2 in
    let r3 = apply_delta-delta_bits front.t s.t ok3 f3 in rw (e1, e2, e3, e4, r1, r2, r3) (refl, h4)

pub read_first_sample-Reads :
    (d : DecBuf) (s : RefSample) (rest : List ℕ)
    → IsRefSample s
    → IsAt d (first_sample_bytes s ++ rest)
    → Reads (read_first_sample d) s rest
unfolding read_first_sample first_sample_bytes
read_first_sample-Reads d s rest (ok1, ok2, ok3, ok4) h =
    let d1 = (get_be_uint64 d).1 in
    let d2 = (get_be_uint64 d1).1 in
    let d3 = (get_be_uint64 d2).1 in
    let t2 = be64 s.t ++ (be64 s.v ++ rest) in
    let (e1, h1) = get_be_uint64-Reads d s.ref (be64 s.logical_id ++ t2) ok1 h in
    let (e2, h2) = get_be_uint64-Reads d1 s.logical_id t2 ok2 h1 in
    let (e3, h3) = get_be_uint64-Reads d2 s.t (be64 s.v ++ rest) ok3 h2 in
    let (e4, h4) = get_be_uint64-Reads d3 s.v rest ok4 h3 in rw (e1, e2, e3, e4) (refl, h4)

-- The numbers of a stone's interval are 64 bits wide.
abbrev pub IsStoneInterval : ℕ × StoneInterval → Type 0
IsStoneInterval (ref, i) = IsU64 ref × IsU64 i.min_time × IsU64 i.max_time

-- What the decoder makes of an interval: a stone of its own.
abbrev pub own_stone : ℕ × StoneInterval → Stone
own_stone (ref, i) = record { ref = ref; itvls = i ∷ [] }

pub read_stone-Reads :
    (d : DecBuf) (i : ℕ × StoneInterval) (rest : List ℕ)
    → IsStoneInterval i
    → IsAt d (interval_bytes i.0 i.1 ++ rest)
    → Reads (read_stone d) (some (own_stone i)) rest
unfolding read_stone interval_bytes
read_stone-Reads d (ref, i) rest (ok1, ok2, ok3) h =
    let d1 = (get_be_uint64 d).1 in
    let d2 = (get_signed_variant d1).1 in
    let t2 = encode_signed_varint i.max_time in
    let (e1, h1) =
      get_be_uint64-Reads d ref (encode_signed_varint i.min_time ++ t2 ++ rest) ok1 h in
    let (e2, h2) = signed-Reads d1 i.min_time t2 rest ok2 h1 in
    let (e3, h3) = get_signed_variant-Reads d2 i.max_time rest ok3 h2 in rw (e1, e2, e3) (refl, h3)
