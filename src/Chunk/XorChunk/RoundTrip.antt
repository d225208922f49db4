-- ===== src/Chunk/XorChunk/RoundTrip.antt =====
-- A whole chunk: appenders that are opened on it one after the other, and an iterator over it.
use prom_tcs.Prelude.{
  ℕ, suc, ◌+◌, ◌^◌, ◌<◌, ◌≡◌, refl, sym, ap, ap₂, ◌∙◌, Bool, true, false, not, List, [], ◌∷◌, ◌++◌,
  append-nil, append_assoc, concat, Option, none, some, arith, inl, length, length-append, All,
  IsByte, IsU64, replicate, All-split,
}
use prom_tcs.Chunk.BitStream.{BitStream, sized, bytes_ptr}
use prom_tcs.Base.Endian.{get_uint16_big_endian}
use prom_tcs.Chunk.XorAppender.{XorAppender, append}
use prom_tcs.Chunk.XorIterator.{XorIterator, xor_iterator_of, collect}
use prom_tcs.Chunk.XorChunk.{
  XorChunk, ChunkAppender, new_chunk, iterator, appender, xor_appender, empty_appender, num_samples,
}
use prom_tcs.Chunk.XorChunk.Header.{Counted-sized}
use prom_tcs.Chunk.XorChunk.Runs.{done}
use prom_tcs.Chunk.XorChunk.Written.{append_step, Written}
use prom_tcs.Chunk.XorChunk.Reopening.{
  Written-samples, opened_total, reopened, lead_of, Written-reopened, appender_opens, Holds,
}

unfoldable pub append_all : XorAppender → List (ℕ × ℕ) → XorAppender
append_all a [] = a
append_all a ((t, v) ∷ samples) = append_all (append a t v) samples

-- A batch of samples: an appender is opened on the chunk and takes them all.
unfoldable pub batch_result : XorChunk → List (ℕ × ℕ) → Option ChunkAppender → Option XorChunk
batch_result c samples opens = elim opens [
  | none ↦ none
  | some opened_appender ↦ elim opened_appender [
    | xor_appender a ↦ some (record c { bstream = (append_all a samples).bstream })
    | empty_appender ↦ some c
  ]
]

unfoldable pub add_batch : XorChunk → List (ℕ × ℕ) → Option XorChunk
unfolding batch_result
add_batch c samples = batch_result c samples (appender c)

abbrev pub IsSample : ℕ × ℕ → Type 0
IsSample x = IsU64 x.0 × IsU64 x.1

append_all-Written :
    (a : XorAppender) (hdr : List ℕ) (before samples : List (ℕ × ℕ))
    → Written a hdr before
    → All IsSample samples
    → length before + length samples < 2 ^ 16
    → Written (append_all a samples) hdr (before ++ samples)
unfolding append_all
append_all-Written a hdr before [] w h room = rw append-nil w
append_all-Written a hdr before ((t, v) ∷ samples) w h room =
    rw (sym (append_assoc before ((t, v) ∷ []) samples)) (
      append_all-Written (append a t v) hdr (before ++ (t, v) ∷ []) samples
        (append_step a hdr before t v w (omega (arith, room)) h.0.0 h.0.1) h.1
        (omega (arith, room, length-append before ((t, v) ∷ []))))

-- The appender of a chunk goes on behind the samples that it holds.
pub Holds-appender :
    (c : XorChunk) (hdr : List ℕ) (before : List (ℕ × ℕ))
    → Holds c hdr before
    → (a : XorAppender) × (appender c ≡ some (xor_appender a)) × Written a hdr before
Holds-appender c hdr before h =
    let s = c.bstream in
    let (it, collects, i) = Written-samples h.a hdr before false h.written in
    let total = opened_total h.a hdr before false h.written in
    let all_read : collect (suc (xor_iterator_of s false).num_total) (xor_iterator_of s false)
        ≡ (before, it) =
      ap
        (λ (b : BitStream).
          collect (suc (xor_iterator_of b false).num_total) (xor_iterator_of b false))
        h.same_stream
      ∙ ap (λ (k : ℕ). collect (suc k) (xor_iterator_of h.a.bstream false)) total
      ∙ collects in
    (
      reopened s it (lead_of s it),
      appender_opens c it before h.writes all_read i.no_err,
      rw h.same_stream (Written-reopened h.a hdr before it h.written i),
    )

add_batch-Holds :
    (c : XorChunk) (hdr : List ℕ) (before samples : List (ℕ × ℕ))
    → Holds c hdr before
    → All IsSample samples
    → length before + length samples < 2 ^ 16
    → (c' : XorChunk) × (add_batch c samples ≡ some c') × Holds c' hdr (before ++ samples)
unfolding add_batch batch_result
add_batch-Holds c hdr before samples h small room =
    let (a', opens, w) = Holds-appender c hdr before h in
    let a'' = append_all a' samples in
    (
      record c { bstream = a''.bstream },
      ap (batch_result c samples) opens,
      record {
        a = a'';
        written = append_all-Written a' hdr before samples w small room;
        same_stream = refl;
        writes = h.writes;
      },
    )

-- Batches one after the other.
unfoldable pub add_batches : XorChunk → List (List (ℕ × ℕ)) → Option XorChunk
unfolding add_batch
add_batches c [] = some c
add_batches c (samples ∷ batches) = elim (add_batch c samples) [
  | none ↦ none
  | some c' ↦ add_batches c' batches
]

next_batches : Option XorChunk → List (List (ℕ × ℕ)) → Option XorChunk
next_batches r batches = elim r [ none ↦ none | some c' ↦ add_batches c' batches ]

add_batches-Holds :
    (c : XorChunk) (hdr : List ℕ) (before : List (ℕ × ℕ)) (batches : List (List (ℕ × ℕ)))
    → Holds c hdr before
    → All IsSample (concat batches)
    → length before + length (concat batches) < 2 ^ 16
    → (c' : XorChunk) × (add_batches c batches ≡ some c') × Holds c' hdr (before ++ concat batches)
unfolding add_batches next_batches
add_batches-Holds c hdr before [] h small room = (c, refl, rw append-nil h)
add_batches-Holds c hdr before (samples ∷ batches) h small room =
    let (front, back) = All-split IsSample samples (concat batches) small in
    let sum = length-append samples (concat batches) in
    let (c1, adds, h1) = add_batch-Holds c hdr before samples h front (omega (arith, room, sum)) in
    let (c2, adds', h2) =
      add_batches-Holds c1 hdr (before ++ samples) batches h1 back
        (omega (arith, room, sum, length-append before samples)) in
    (
      c2,
      ap (λ (r : Option XorChunk). next_batches r batches) adds ∙ adds',
      rw (sym (append_assoc before samples (concat batches))) h2,
    )

pub new_chunk-Holds :
    (header_size past : ℕ)
    → IsByte past
    → Holds (new_chunk header_size past) (replicate header_size 0) []
unfolding new_chunk
new_chunk-Holds header_size past small = record {
  a = record {
    bstream = sized 2 header_size past;
    timestamp = 0;
    value = 0;
    delta_timestamp = 0;
    leading_zero = 0xff;
    trailing_zero = 0;
  };
  written = record {
    body = [];
    counted = Counted-sized header_size past small;
    timestamp_small = omega arith;
    value_small = omega arith;
    delta_small = omega arith;
    none_yet = λ z. refl;
    replays = λ it total rest fresh le bound e. (
      it,
      done it,
      record {
        reader = fresh.reader;
        no_err = fresh.no_err;
        timestamp = fresh.timestamp;
        value = fresh.value;
        delta_timestamp = fresh.delta_timestamp;
        window = record {
          lead_small = omega (arith, fresh.leading_zero);
          sum_small = omega (arith, fresh.leading_zero, fresh.trailing_zero);
          same = inl (refl, (fresh.leading_zero, fresh.trailing_zero));
        };
        num_read = fresh.num_read;
        num_total = fresh.num_total;
        fresh = λ z. fresh.delta_timestamp;
      },
      e,
    );
  };
  same_stream = refl;
  writes = refl;
}

total_stored :
    (s : BitStream) → (xor_iterator_of s true).num_total ≡ get_uint16_big_endian (bytes_ptr s) 0
unfolding xor_iterator_of
total_stored s = refl

-- Into a new chunk with a header of any size, samples are appended in any number of batches, each
-- by an appender of its own, fewer than 65536 samples together, each an int64_t and a double of 64
-- bits. No appender throws; the iterator then yields the same samples in the same order, and ends
-- without an error; and the chunk tells their number.
pub iterator-add_batches :
    (header_size past : ℕ) (batches : List (List (ℕ × ℕ)))
    → IsByte past
    → All IsSample (concat batches)
    → length (concat batches) < 2 ^ 16
    → (c : XorChunk) × (add_batches (new_chunk header_size past) batches ≡ some c)
      × (num_samples c ≡ length (concat batches))
      × ((collect (suc (length (concat batches))) (iterator c)).0 ≡ concat batches)
      × ((collect (suc (length (concat batches))) (iterator c)).1.err ≡ false)
unfolding iterator num_samples
iterator-add_batches header_size past batches byte small room =
    let hdr = replicate header_size 0 in
    let samples = concat batches in
    let (c, adds, h) =
      add_batches-Holds (new_chunk header_size past) hdr [] batches
        (new_chunk-Holds header_size past byte) small (omega (arith, room)) in
    let (it, collects, i) = Written-samples h.a hdr samples true h.written in
    let all_read : collect (suc (length samples)) (iterator c) ≡ (samples, it) =
      ap₂ (λ (s : BitStream) (m : Bool). collect (suc (length samples)) (xor_iterator_of s (not m)))
        h.same_stream h.writes
      ∙ collects in
    (
      c,
      adds,
      ap (λ (s : BitStream). get_uint16_big_endian (bytes_ptr s) 0) h.same_stream
          ∙ sym (total_stored h.a.bstream)
          ∙ opened_total h.a hdr samples true h.written,
      ap (λ (p : List (ℕ × ℕ) × XorIterator). p.0) all_read,
      ap (λ (p : List (ℕ × ℕ) × XorIterator). p.1.err) all_read ∙ i.no_err,
    )
