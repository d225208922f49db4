-- ===== src/Head/MemSeries/Append/Parts.antt =====
-- The parts of the samples that a series of head/MemSeries.cpp has put, and the part that it holds.
use prom_tcs.Prelude.{
  ℕ, suc, ◌+◌, ◌≤◌, ◌<◌, true, false, some, List, [], ◌∷◌, ◌++◌, map, ◌≡◌, refl, ap, arith, length,
  length-append, replicate, All, IsU64, ◌==◌, if◌then◌else◌,
}
use prom_tcs.Prelude.Int.{ℤ}
use prom_tcs.Chunk.XorAppender.{XorAppender}
use prom_tcs.Chunk.XorAppender
use prom_tcs.Chunk.XorChunk
use prom_tcs.Chunk.XorChunk.{xor_appender}
use prom_tcs.Chunk.XorChunk.Written.{Written, append_step}
use prom_tcs.Head.MemSeries.{
  MemSeries, Put, bits64, with_header, time_boundary_of, note_time, take_sample,
}
use prom_tcs.Head.MemSeries.Append.{encoded, StartsAt, bits64-IsU64}

module _ (header_size past : ℕ) (fixed64_be : ℕ → List ℕ) (encode_key : ℕ → ℤ → List ℕ)
    (partition_length : ℤ) (ref logical_id : ℕ) where
  -- The samples are of the partition that starts at `b`.
  abbrev pub InPartition : ℤ → List (ℤ × ℕ) → Type 0
  InPartition b = All (λ x. time_boundary_of partition_length x.0 ≡ b)

  -- The chunk in memory has the samples.
  pub record IsHeld (s : MemSeries) (held : List (ℤ × ℕ)) : Type 0 where
    pub a : XorAppender
    pub chunk : s.chunk_appender ≡ some (xor_appender a)
    pub written : Written a (replicate header_size 0) (map encoded held)
    pub count : s.num_samples ≡ length held
    pub starts : StartsAt s.tuple_st held
    pub same_ref : s.ref ≡ ref
    pub same_id : s.logical_id ≡ logical_id

  -- What is put is a chunk of 1 to 32 samples of one partition, with a header, under its first time.
  pub record IsPut (p : Put) (part : List (ℤ × ℕ)) : Type 0 where
    pub a : XorAppender
    pub start : ℤ
    pub boundary : ℤ
    pub txn : ℕ
    pub written : Written a (replicate header_size 0) (map encoded part)
    pub starts : StartsAt start part
    pub nonempty : 0 < length part
    pub few : length part ≤ 32
    pub partition : InPartition boundary part
    pub key : p.key ≡ encode_key ref start
    pub value : p.value ≡ with_header fixed64_be a.bstream.stream logical_id txn

  abbrev pub ArePuts : List Put → List (List (ℤ × ℕ)) → Type 0
  ArePuts [] [] = Unit {0}
  ArePuts [] (part ∷ parts) = ⊥
  ArePuts (p ∷ db) [] = ⊥
  ArePuts (p ∷ db) (part ∷ parts) = IsPut p part × ArePuts db parts

  pub ArePuts-append :
      (db : List Put) (parts : List (List (ℤ × ℕ))) (p : Put) (part : List (ℤ × ℕ))
      → ArePuts db parts
      → IsPut p part
      → ArePuts (db ++ (p ∷ [])) (parts ++ (part ∷ []))
  ArePuts-append [] [] p part h i = (i, tt)
  ArePuts-append [] (q ∷ parts) p part h i = absurd h
  ArePuts-append (d ∷ db) [] p part h i = absurd h
  ArePuts-append (d ∷ db) (q ∷ parts) p part h i = (h.0, ArePuts-append db parts p part h.1 i)

  pub note_time-IsHeld :
      (s : MemSeries) (t : ℤ) (held : List (ℤ × ℕ)) → IsHeld s held → IsHeld (note_time s t) held
  unfolding note_time
  note_time-IsHeld s t held h = record {
    a = h.a;
    chunk = h.chunk;
    written = h.written;
    count = h.count;
    starts = h.starts;
    same_ref = h.same_ref;
    same_id = h.same_id;
  }

  map-append :
      (held : List (ℤ × ℕ)) (x : ℤ × ℕ)
      → map encoded (held ++ (x ∷ [])) ≡ map encoded held ++ (encoded x ∷ [])
  map-append [] x = refl
  map-append (y ∷ held) x = ap (◌∷◌ (encoded y)) (map-append held x)

  length-map : (held : List (ℤ × ℕ)) → length (map encoded held) ≡ length held
  length-map [] = refl
  length-map (y ∷ held) = ap suc (length-map held)

  starts_still :
      (s : MemSeries) (t : ℤ) (v : ℕ) (held : List (ℤ × ℕ))
      → s.num_samples ≡ length held
      → StartsAt s.tuple_st held
      → StartsAt (if s.num_samples + 1 == 1 then t else s.tuple_st) (held ++ ((t, v) ∷ []))
  starts_still s t v [] n h = let e : s.num_samples + 1 == 1 ≡ true = ground (arith, n) in rw e refl
  starts_still s t v (x ∷ held) n h =
      let e : s.num_samples + 1 == 1 ≡ false = ground (arith, n) in rw e h

  pub take_sample-IsHeld :
      (s : MemSeries) (t : ℤ) (v : ℕ) (held : List (ℤ × ℕ))
      → IsHeld s held
      → length held < 32
      → IsU64 v
      → IsHeld (take_sample s t v) (held ++ ((t, v) ∷ []))
  unfolding take_sample
  take_sample-IsHeld s t v held h few small =
      let step =
        append_step h.a (replicate header_size 0) (map encoded held) (bits64 t) v h.written
          (omega (arith, few, length-map held)) (bits64-IsU64 t) small in
      record {
        a = XorAppender.append h.a (bits64 t) v;
        chunk = rw h.chunk (unfold XorChunk.append_to in refl);
        written = rw (map-append held (t, v)) step;
        count = omega (arith, h.count, length-append held ((t, v) ∷ []));
        starts = starts_still s t v held h.count h.starts;
        same_ref = h.same_ref;
        same_id = h.same_id;
      }
