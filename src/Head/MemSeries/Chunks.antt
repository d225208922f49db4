-- ===== src/Head/MemSeries/Chunks.antt =====
-- What `decode_value` of querier/tsdb_querier.cc reads of a chunk that head/MemSeries.cpp has put.
use prom_tcs.Prelude.{
  ℕ, suc, ◌/◌, ◌%◌, ◌<◌, Bool, true, false, List, [], ◌∷◌, ◌++◌, ◌≡◌, refl, ap, sym, ◌∙◌,
  append-nil, append_assoc, arith, ◌==◌, if◌then◌else◌, length, length-append, drop, drop-length,
  get_or, All-append, IsByte,
}
use prom_tcs.Prelude.Digits.{bits_of, bits_be, bits_of-append}
use prom_tcs.Chunk.BitStream.{BitStream, of_pointer, bytes, bytes_ptr, size}
use prom_tcs.Chunk.XorAppender.{XorAppender}
use prom_tcs.Chunk.XorIterator.{XorIterator, xor_iterator_of, memory, collect}
use prom_tcs.Chunk.XorChunk.{read_chunk, xor_iterator}
use prom_tcs.Chunk.XorChunk.Header.{Counted, Behind-after_count, after_count, counted_stream}
use prom_tcs.Chunk.XorChunk.Written.{Written}
use prom_tcs.Chunk.XorChunk.Reopening.{Written-samples, opened_total}
use prom_tcs.Head.MemSeries.{with_header, decode_value}
use prom_tcs.Head.MemSeries.Header.{drop-with_header, first-with_header}

-- The stream behind its header.
abbrev behind : BitStream → ℕ → ℕ → BitStream
behind s k past = record s {
  stream = drop k s.stream;
  header_size = 0;
  end = length (drop k s.stream);
  vector_mode = true;
  past = past;
}

Counted-behind :
    {s : BitStream} {hdr : List ℕ} {n : ℕ} {body : List Bool}
    → Counted s hdr n body
    → (past : ℕ) → IsByte past
    → Counted (behind s (length hdr) past) [] n body
Counted-behind {s} {hdr} {n} {body} c past small =
    let b = Behind-after_count c in
    let w = c.wrote in
    let count = n / 256 ∷ n % 256 ∷ [] in
    record {
      header = refl;
      header_bytes = tt;
      n_small = c.n_small;
      past_byte = small;
      in_vector = refl;
      wrote = record {
        full = count ++ b.rest;
        q = w.q;
        full_bytes =
            All-append IsByte count b.rest (omega (arith, c.n_small), (omega arith, tt))
              b.rest_bytes;
        tail_small = w.tail_small;
        q_small = w.q_small;
        stream =
            ap (drop (length hdr)) (counted_stream c)
            ∙ drop-length hdr (n / 256 ∷ n % 256 ∷ after_count c);
        digits =
            ap (◌++◌ (bits_of count)) b.digits
            ∙ sym (append_assoc (bits_of count) (bits_of b.rest) (bits_be s.tail_count w.q))
            ∙ ap (λ (l : List Bool). l ++ bits_be s.tail_count w.q)
                (sym (bits_of-append count b.rest));
        ends = refl;
      };
    }

abbrev appender_behind : XorAppender → ℕ → ℕ → XorAppender
appender_behind a k past = record a { bstream = behind a.bstream k past }

Written-behind :
    (a : XorAppender) (hdr : List ℕ) (samples : List (ℕ × ℕ)) (past : ℕ)
    → IsByte past
    → Written a hdr samples
    → Written (appender_behind a (length hdr) past) [] samples
Written-behind a hdr samples past small w = record {
  body = w.body;
  counted = Counted-behind w.counted past small;
  timestamp_small = w.timestamp_small;
  value_small = w.value_small;
  delta_small = w.delta_small;
  none_yet = w.none_yet;
  replays = λ it total rest fresh le bound e.
      let (it', runs, i, after) = w.replays it total rest fresh le bound e in
      (
        it',
        runs,
        record {
          reader = i.reader;
          no_err = i.no_err;
          timestamp = i.timestamp;
          value = i.value;
          delta_timestamp = i.delta_timestamp;
          window = record {
            lead_small = i.window.lead_small;
            sum_small = i.window.sum_small;
            same = i.window.same;
          };
          num_read = i.num_read;
          num_total = i.num_total;
          fresh = i.fresh;
        },
        after,
      );
}

-- A chunk is read alike by pointer and from a vector.
same_iterator :
    (s : BitStream) (k past : ℕ)
    → xor_iterator (read_chunk (drop k s.stream) (length (drop k s.stream)) past)
      ≡ xor_iterator_of (behind s k past) false
unfolding xor_iterator read_chunk xor_iterator_of of_pointer memory size bytes_ptr bytes
same_iterator s k past = rw (append-nil (drop k s.stream)) refl

abbrev all_samples : XorIterator → List (ℕ × ℕ)
all_samples start = (collect (suc start.num_total) start).0

-- All that an iterator of the querier yields.
Written-read :
    (a : XorAppender) (hdr : List ℕ) (samples : List (ℕ × ℕ)) (past : ℕ)
    → IsByte past
    → Written a hdr samples
    → all_samples (
        xor_iterator (
          read_chunk
            (drop (length hdr) a.bstream.stream)
            (length (drop (length hdr) a.bstream.stream))
            past))
      ≡ samples
Written-read a hdr samples past small w =
    let b = appender_behind a (length hdr) past in
    let v = Written-behind a hdr samples past small w in
    let (it, collects, i) = Written-samples b [] samples false v in
    ap all_samples (same_iterator a.bstream (length hdr) past)
    ∙ ap (λ (n : ℕ). (collect (suc n) (xor_iterator_of b.bstream false)).0)
        (opened_total b [] samples false v)
    ∙ ap (λ (p : List (ℕ × ℕ) × XorIterator). p.0) collects

marked_lem :
    (fixed64_be : ℕ → List ℕ)
    → ((v : ℕ) → length (fixed64_be v) ≡ 8)
    → (stream : List ℕ) (logical_id txn : ℕ) → 0 < length stream
    → get_or (with_header fixed64_be stream logical_id txn) 0 0 ≡ 1
marked_lem fixed64_be eight [] logical_id txn h = absurd (omega arith)
marked_lem fixed64_be eight (b ∷ stream) logical_id txn h =
    first-with_header fixed64_be eight b stream logical_id txn

-- From a chunk with a header of 17 bytes, which `_flush` has filled in, `decode_value` reads the
-- samples that were appended to the chunk.
pub decode_value-with_header :
    (fixed64_be : ℕ → List ℕ)
    → ((v : ℕ) → length (fixed64_be v) ≡ 8)
    → (a : XorAppender) (hdr : List ℕ) (samples : List (ℕ × ℕ)) (logical_id txn past : ℕ)
    → length hdr ≡ 17
    → IsByte past
    → Written a hdr samples
    → decode_value past (with_header fixed64_be a.bstream.stream logical_id txn) ≡ samples
unfolding decode_value
decode_value-with_header fixed64_be eight a hdr samples logical_id txn past long small w =
    let value = with_header fixed64_be a.bstream.stream logical_id txn in
    let nonempty : 0 < length a.bstream.stream = omega (
      arith,
      ap length (counted_stream w.counted),
      long,
      length-append hdr (length samples / 256 ∷ length samples % 256 ∷ after_count w.counted),
    ) in
    let marked : get_or value 0 0 ≡ 1 =
      marked_lem fixed64_be eight a.bstream.stream logical_id txn nonempty in
    let skip : (if get_or value 0 0 == 1 then 17 else 1) ≡ 17 = ground (arith, marked) in
    let rest : drop 17 value ≡ drop (length hdr) a.bstream.stream =
      drop-with_header fixed64_be eight a.bstream.stream logical_id txn
      ∙ ap (λ (k : ℕ). drop k a.bstream.stream) (sym long) in
    ap
      (λ (k : ℕ).
        all_samples (xor_iterator (read_chunk (drop k value) (length (drop k value)) past)))
      skip
    ∙ ap (λ (l : List ℕ). all_samples (xor_iterator (read_chunk l (length l) past))) rest
    ∙ Written-read a hdr samples past small w
