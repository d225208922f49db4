-- ===== src/Head/MemSeries/Append/Whole.antt =====
-- Any number of calls of `append` of head/MemSeries.cpp, on a new series.
use prom_tcs.Prelude.{
  ℕ, suc, ◌*◌, ◌≤◌, ◌<◌, true, Option, none, some, List, [], ◌∷◌, ◌++◌, map, concat, length-append,
  append-nil, append_assoc, ◌≡◌, refl, ap, sym, ◌∙◌, arith, length, replicate, All, IsByte, IsU64,
}
use prom_tcs.Prelude.Int.{ℤ, pos}
use prom_tcs.Chunk.XorAppender.{XorAppender}
use prom_tcs.Chunk.XorIterator.{XorIterator, xor_iterator_of, collect}
use prom_tcs.Chunk.XorChunk.{ChunkAppender, xor_appender, empty_appender}
use prom_tcs.Chunk.XorChunk.Written.{Written}
use prom_tcs.Chunk.XorChunk.Reopening.{Written-samples, opened_total}
use prom_tcs.Head.MemSeries.{MemSeries, Put, new_series, append}
use prom_tcs.Head.MemSeries.Append.{encoded, new_appender-Written}
use prom_tcs.Head.MemSeries.Append.Parts.{ArePuts}
use prom_tcs.Head.MemSeries.Append.Runs.{Keeps, append-Keeps}

-- A sample, and the transaction in which it is appended.
abbrev pub Item : Type 0
Item = (ℤ × ℕ) × ℕ

abbrev pub samples_of : List Item → List (ℤ × ℕ)
samples_of [] = []
samples_of (x ∷ items) = x.0 ∷ samples_of items

-- What an iterator on the chunk in memory yields.
unfoldable pub held_samples : Option ChunkAppender → List (ℕ × ℕ)
held_samples none = []
held_samples (some empty_appender) = []
held_samples (some (xor_appender a)) =
    let start = xor_iterator_of a.bstream true in (collect (suc start.num_total) start).0

held_samples-Written :
    (a : XorAppender) (hdr : List ℕ) (samples : List (ℕ × ℕ))
    → Written a hdr samples
    → held_samples (some (xor_appender a)) ≡ samples
unfolding held_samples
held_samples-Written a hdr samples w =
    let (it, collects, i) = Written-samples a hdr samples true w in
    ap (λ (n : ℕ). (collect (suc n) (xor_iterator_of a.bstream true)).0)
      (opened_total a hdr samples true w)
    ∙ ap (λ (p : List (ℕ × ℕ) × XorIterator). p.0) collects

map-append : (xs ys : List (ℤ × ℕ)) → map encoded (xs ++ ys) ≡ map encoded xs ++ map encoded ys
map-append [] ys = refl
map-append (x ∷ xs) ys = ap (◌∷◌ (encoded x)) (map-append xs ys)

module _ (header_size past : ℕ) (fixed64_be : ℕ → List ℕ) (encode_key : ℕ → ℤ → List ℕ)
    (size : ℕ) where
  unfoldable pub append_all : MemSeries → List Put → List Item → MemSeries × List Put
  append_all s db [] = (s, db)
  append_all s db (x ∷ items) =
      let (s', db', did_flush) =
        append header_size past fixed64_be encode_key (pos size) s db x.0.0 x.0.1 x.1 in
      append_all s' db' items

  abbrev pub KeepsAll : ℕ → ℕ → MemSeries → List Put → List (ℤ × ℕ) → Type 0
  KeepsAll = Keeps header_size past fixed64_be encode_key (pos size)

  module _ (ref logical_id : ℕ) (byte : IsByte past) (large : 1 < size) where
    new_series-Keeps :
        (tuple_st : ℤ)
        → KeepsAll ref logical_id (new_series header_size past ref logical_id tuple_st) [] []
    unfolding new_series
    new_series-Keeps tuple_st =
        let (a, opens, w) = new_appender-Written header_size past byte in
        record {
          parts = [];
          held = [];
          puts = tt;
          is_held = record {
            a = a;
            chunk = opens;
            written = w;
            count = refl;
            starts = tt;
            same_ref = refl;
            same_id = refl;
          };
          few = omega arith;
          partition = tt;
          together = refl;
        }

    append_all-more :
        (s : MemSeries) (db : List Put) (before : List (ℤ × ℕ)) (items : List Item)
        → All (λ x. IsU64 x.0.1) items
        → KeepsAll ref logical_id s db before
        → let after = append_all s db items in
          KeepsAll ref logical_id after.0 after.1 (before ++ samples_of items)
    unfolding append_all
    append_all-more s db before [] small k = rw (append-nil before) k
    append_all-more s db before (x ∷ items) small k =
        let next = append header_size past fixed64_be encode_key (pos size) s db x.0.0 x.0.1 x.1 in
        let k' =
          append-Keeps header_size past fixed64_be encode_key (pos size) ref logical_id byte size s
            db x.0.0 x.0.1 x.1 before refl large small.0 k in
        rw (← append_assoc before (x.0 ∷ []) (samples_of items))
          (append_all-more next.0 next.1 (before ++ (x.0 ∷ [])) items small.1 k')

    -- Samples of 64-bit values are appended to a new series, with a partition length of more than 1.
    -- What is put are, in order, parts of the samples, each as a chunk with a header under the
    -- series and its first time, of 1 to 32 samples of one partition; the chunk in memory has the
    -- rest, which are fewer than 32 and of the partition that the series notes.
    pub append_all-Keeps :
        (tuple_st : ℤ) (items : List Item)
        → All (λ x. IsU64 x.0.1) items
        → KeepsAll ref logical_id
            (append_all (new_series header_size past ref logical_id tuple_st) [] items).0
            (append_all (new_series header_size past ref logical_id tuple_st) [] items).1
            (samples_of items)
    append_all-Keeps tuple_st items small =
        append_all-more (new_series header_size past ref logical_id tuple_st) [] [] items small
          (new_series-Keeps tuple_st)

module _ (header_size past : ℕ) (fixed64_be : ℕ → List ℕ) (encode_key : ℕ → ℤ → List ℕ)
    (size ref logical_id : ℕ) where
  length-parts :
      (db : List Put) (parts : List (List (ℤ × ℕ)))
      → ArePuts header_size past fixed64_be encode_key (pos size) ref logical_id db parts
      → length (concat parts) ≤ 32 * length db
  length-parts [] [] h = omega arith
  length-parts [] (part ∷ parts) h = absurd h
  length-parts (p ∷ db) [] h = absurd h
  length-parts (p ∷ db) (part ∷ parts) h =
      let i = h.0 in
      omega (arith, length-append part (concat parts), i.few, length-parts db parts h.1)

  -- Samples of 64-bit values are appended to a new series, with a partition length of more than 1
  -- and any size of the header. An iterator on the chunk in memory yields the last of them in order,
  -- that is all but some first ones, of which there are at most 32 for each value that was put: all
  -- of them, if nothing was put.
  pub append_all-held :
      (tuple_st : ℤ) (items : List Item)
      → IsByte past
      → 1 < size
      → All (λ x. IsU64 x.0.1) items
      → let after =
          append_all header_size past fixed64_be encode_key size
            (new_series header_size past ref logical_id tuple_st)
            []
            items in
        (gone : List (ℤ × ℕ)) × (map encoded gone ++ held_samples after.0.chunk_appender
          ≡ map encoded (samples_of items))
        × (length gone ≤ 32 * length after.1)
  append_all-held tuple_st items byte large small =
      let k =
        append_all-Keeps header_size past fixed64_be encode_key size ref logical_id byte large
          tuple_st items small in
      let h = k.is_held in
      (
        concat k.parts,
        ap (◌++◌ (map encoded (concat k.parts))) (
              ap held_samples h.chunk
              ∙ held_samples-Written h.a (replicate header_size 0) (map encoded k.held) h.written)
            ∙ sym (map-append (concat k.parts) k.held)
            ∙ ap (map encoded) k.together,
        length-parts _ k.parts k.puts,
      )
