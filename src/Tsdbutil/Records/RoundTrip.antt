-- ===== src/Tsdbutil/Records/RoundTrip.antt =====
-- Decoding an encoded record, by tsdbutil/RecordEncoder.cpp and tsdbutil/RecordDecoder.cpp.
use prom_tcs.Prelude.{
  ℕ, suc, ◌<◌, ◌≡◌, refl, sym, ap, ap₂, ◌∙◌, true, false, List, [], ◌∷◌, ◌++◌, append_assoc, some,
  arith, map, length, length-append, concat_map, All, ◌==◌,
}
use prom_tcs.Base.Endian.{encode_signed_varint}
use prom_tcs.Base.Endian.BigEndian.{be64}
use prom_tcs.Tsdbutil.DecBuf.{dec_buf}
use prom_tcs.Tsdbutil.DecBuf.Reads.{IsAt, get_byte-Reads, left_lem}
use prom_tcs.Tsdbutil.RecordEncoder.{
  RefSeries, RefSample, Stone, StoneInterval, encode_series, encode_samples, encode_tombstones,
  record_series, record_samples, record_tombstones, delta_bits,
}
use prom_tcs.Tsdbutil.RecordDecoder.{
  no_error, len, open_record, read_series, read_loop, read_sample, read_stone, read_first_sample,
  decode_series, decode_samples, decode_tombstones,
}
use prom_tcs.Tsdbutil.Records.Loop.{read_loop-reads}
use prom_tcs.Tsdbutil.Records.Written.{
  IsSeries, series_bytes, sample_bytes, first_sample_bytes, interval_bytes, stone_bytes,
  encode_series-bytes, encode_samples-bytes, encode_tombstones-bytes,
}
use prom_tcs.Tsdbutil.Records.Rounds.{
  IsRefSample, IsStoneInterval, decoded_series, own_stone, read_series-Reads, read_sample-Reads,
  read_first_sample-Reads, read_stone-Reads,
}

start-IsAt : (rec : List ℕ) → IsAt (dec_buf rec) rec
unfolding dec_buf
start-IsAt rec = record { fine = refl; whole = refl; within = omega arith; next_bytes = refl }

-- The type of a record is read, and the items are next.
opened :
    (type : ℕ) (bytes : List ℕ)
    → ((open_record type (type ∷ bytes)).0 ≡ true) × IsAt (open_record type (type ∷ bytes)).1 bytes
unfolding open_record
opened type bytes =
    let (e, h) = get_byte-Reads (dec_buf (type ∷ bytes)) type bytes (start-IsAt (type ∷ bytes)) in
    (rw e (ground arith), h)

-- There are no more items than bytes.
items_le {ℓ} :
    {A : Type ℓ} (bytes : A → List ℕ)
    → ((x : A) → 0 < length (bytes x))
    → (xs : List A) (type : ℕ) → length xs < suc (length (type ∷ concat_map bytes xs))
items_le bytes pos [] type = omega arith
items_le bytes pos (x ∷ xs) type =
    omega (arith, pos x, length-append (bytes x) (concat_map bytes xs), items_le bytes pos xs type)

series_bytes-pos : (r : RefSeries) → 0 < length (series_bytes r)
unfolding series_bytes
series_bytes-pos r = omega arith

sample_bytes-pos : (front s : RefSample) → 0 < length (sample_bytes front s)
unfolding sample_bytes
sample_bytes-pos front s =
    let t2 = encode_signed_varint (delta_bits s.t front.t) ++ be64 s.v in
    let t1 = encode_signed_varint (delta_bits s.logical_id front.logical_id) ++ t2 in
    omega (
      arith,
      length-append (encode_signed_varint (delta_bits s.ref front.ref)) t1,
      length-append (encode_signed_varint (delta_bits s.logical_id front.logical_id)) t2,
      length-append (encode_signed_varint (delta_bits s.t front.t)) (be64 s.v),
    )

interval_bytes-pos : (i : ℕ × StoneInterval) → 0 < length (interval_bytes i.0 i.1)
unfolding interval_bytes
interval_bytes-pos i = omega arith

-- A record of the right type is read by the loop.
series-opened :
    (rec : List ℕ) (items : List RefSeries)
    → (open_record record_series rec).0 ≡ true
    → decode_series rec items
      ≡ read_loop read_series (suc (length rec)) (open_record record_series rec).1 items
unfolding decode_series
series-opened rec items known = rw known refl

samples-opened :
    (rec : List ℕ) (items : List RefSample)
    → (open_record record_samples rec).0 ≡ true
    → 0 < len (open_record record_samples rec).1
    → let (base, d) = read_first_sample (open_record record_samples rec).1 in
      decode_samples rec items
      ≡ read_loop (read_sample base) (suc (length rec)) d (items ++ base ∷ [])
unfolding decode_samples
samples-opened rec items known more =
    let e : len (open_record record_samples rec).1 == 0 ≡ false = ground (arith, more) in
    rw (known, e) refl

tombstones-opened :
    (rec : List ℕ) (items : List Stone)
    → (open_record record_tombstones rec).0 ≡ true
    → decode_tombstones rec items
      ≡ read_loop read_stone (suc (length rec)) (open_record record_tombstones rec).1 items
unfolding decode_tombstones
tombstones-opened rec items known = rw known refl

-- Decoding a record of series with numbers of 64 bits, strings that fit and fewer than 2^31 labels
-- each gives no error and appends the series, each with the labels that it has or points to, in order.
pub decode-encode_series :
    (rs items : List RefSeries)
    → All IsSeries rs
    → decode_series (encode_series rs []) items ≡ some (no_error, items ++ map decoded_series rs)
decode-encode_series rs items ok =
    let bytes = concat_map series_bytes rs in
    let (known, h) = opened record_series bytes in
    ap (λ (rec : List ℕ). decode_series rec items) (encode_series-bytes rs [] ok)
    ∙ series-opened (record_series ∷ bytes) items known
    ∙ read_loop-reads read_series IsSeries series_bytes decoded_series series_bytes-pos
        read_series-Reads (suc (length (record_series ∷ bytes))) rs
        (open_record record_series (record_series ∷ bytes)).1 items
        (items_le series_bytes series_bytes-pos rs record_series) ok h

map-id {ℓ} : {A : Type ℓ} (xs : List A) → map (λ (x : A). x) xs ≡ xs
map-id [] = refl
map-id (x ∷ xs) = ap (◌∷◌ x) (map-id xs)

-- Decoding a record of samples with numbers of 64 bits gives no error and appends the same samples,
-- also where a difference to the first sample overflows.
pub decode-encode_samples :
    (front : RefSample) (ss items : List RefSample)
    → All IsRefSample (front ∷ ss)
    → decode_samples (encode_samples (front ∷ ss) []) items ≡ some (no_error, items ++ front ∷ ss)
decode-encode_samples front ss items ok =
    let tail = concat_map (sample_bytes front) ss in
    let bytes = first_sample_bytes front ++ tail in
    let rec = record_samples ∷ bytes in
    let (known, h) = opened record_samples bytes in
    let start = (open_record record_samples rec).1 in
    let (e, h') = read_first_sample-Reads start front tail ok.0 h in
    ap (λ (r : List ℕ). decode_samples r items) (encode_samples-bytes front ss [])
    ∙ samples-opened rec items known
        (unfold len first_sample_bytes in omega (arith, left_lem start bytes h))
    ∙ ap
        (λ (base : RefSample).
          read_loop (read_sample base) (suc (length rec)) (read_first_sample start).1
            (items ++ base ∷ []))
        e
    ∙ read_loop-reads (read_sample front) IsRefSample (sample_bytes front) (λ s. s)
        (sample_bytes-pos front) (read_sample-Reads front ok.0) (suc (length rec)) ss
        (read_first_sample start).1 (items ++ front ∷ [])
        (omega (
          arith,
          items_le (sample_bytes front) (sample_bytes-pos front) ss record_samples,
          length-append (first_sample_bytes front) tail,
        ))
        ok.1 h'
    ∙ ap (λ (l : List RefSample). some (no_error, l))
        (append_assoc items (front ∷ []) (map (λ (s : RefSample). s) ss)
          ∙ ap (λ (l : List RefSample). items ++ front ∷ l) (map-id ss))

-- The intervals of some stones, with the series that each belongs to.
unfoldable pub intervals_of : List Stone → List (ℕ × StoneInterval)
intervals_of [] = []
intervals_of (s ∷ ss) = map (λ (i : StoneInterval). (s.ref, i)) s.itvls ++ intervals_of ss

interval_bytes_of : ℕ × StoneInterval → List ℕ
interval_bytes_of i = interval_bytes i.0 i.1

concat_map-append {ℓ} :
    {A : Type ℓ} (f : A → List ℕ) (xs ys : List A)
    → concat_map f (xs ++ ys) ≡ concat_map f xs ++ concat_map f ys
concat_map-append f [] ys = refl
concat_map-append f (x ∷ xs) ys =
    ap (λ (l : List ℕ). f x ++ l) (concat_map-append f xs ys)
    ∙ sym (append_assoc (f x) (concat_map f xs) (concat_map f ys))

own_bytes :
    (ref : ℕ) (is : List StoneInterval)
    → concat_map (interval_bytes ref) is
      ≡ concat_map interval_bytes_of (map (λ (i : StoneInterval). (ref, i)) is)
unfolding interval_bytes_of
own_bytes ref [] = refl
own_bytes ref (i ∷ is) = ap (λ (l : List ℕ). interval_bytes ref i ++ l) (own_bytes ref is)

stones-bytes :
    (ss : List Stone) → concat_map stone_bytes ss ≡ concat_map interval_bytes_of (intervals_of ss)
unfolding stone_bytes intervals_of
stones-bytes [] = refl
stones-bytes (s ∷ ss) =
    ap₂ (λ (a b : List ℕ). a ++ b) (own_bytes s.ref s.itvls) (stones-bytes ss)
    ∙ sym (
        concat_map-append interval_bytes_of (map (λ (i : StoneInterval). (s.ref, i)) s.itvls)
          (intervals_of ss))

-- Decoding a record of tombstones with numbers of 64 bits gives no error and appends a stone of its
-- own for each interval, in the order of the stones and of their intervals.
pub decode-encode_tombstones :
    (ss items : List Stone)
    → All IsStoneInterval (intervals_of ss)
    → decode_tombstones (encode_tombstones ss []) items
      ≡ some (no_error, items ++ map own_stone (intervals_of ss))
unfolding interval_bytes_of
decode-encode_tombstones ss items ok =
    let bytes = concat_map interval_bytes_of (intervals_of ss) in
    let rec = record_tombstones ∷ bytes in
    let (known, h) = opened record_tombstones bytes in
    ap (λ (r : List ℕ). decode_tombstones r items)
      (encode_tombstones-bytes ss [] ∙ ap (◌∷◌ record_tombstones) (stones-bytes ss))
    ∙ tombstones-opened rec items known
    ∙ read_loop-reads read_stone IsStoneInterval interval_bytes_of own_stone interval_bytes-pos
        read_stone-Reads (suc (length rec)) (intervals_of ss) (open_record record_tombstones rec).1
        items (items_le interval_bytes_of interval_bytes-pos (intervals_of ss) record_tombstones) ok
        h
