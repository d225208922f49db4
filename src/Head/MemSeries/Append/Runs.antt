-- ===== src/Head/MemSeries/Append/Runs.antt =====
-- What a series of head/MemSeries.cpp keeps of the samples that `append` is given, one by one.
use prom_tcs.Prelude.{
  ℕ, ◌≤◌, ◌<◌, true, false, List, [], ◌∷◌, ◌++◌, concat, append-nil, append_assoc, ◌≡◌, refl, ap,
  ap₂, sym, subst, ◌∙◌, arith, length, length-append, All-append, IsByte, IsU64, ◌==◌, Bool-cases,
  inl, inr,
}
use prom_tcs.Prelude.Int.{ℤ, pos, negsuc, eqb_ℤ, eq_of_parts}
use prom_tcs.Head.MemSeries.{
  MemSeries, Put, mem_tuple_size, with_header, stream_of, time_boundary_of, flush, flush_if,
  note_time, crosses, take_sample, append_noted, append,
}
use prom_tcs.Head.MemSeries.Append.{new_appender-Written, time_boundary_of-proper}
use prom_tcs.Head.MemSeries.Append.Parts.{
  InPartition, IsHeld, ArePuts, ArePuts-append, note_time-IsHeld, take_sample-IsHeld,
}

concat-append :
    (parts : List (List (ℤ × ℕ))) (part : List (ℤ × ℕ))
    → concat (parts ++ (part ∷ [])) ≡ concat parts ++ part
concat-append [] part = append-nil part
concat-append (p ∷ parts) part =
    ap (◌++◌ p) (concat-append parts part) ∙ sym (append_assoc p (concat parts) part)

module _ (header_size past : ℕ) (fixed64_be : ℕ → List ℕ) (encode_key : ℕ → ℤ → List ℕ)
    (partition_length : ℤ) (ref logical_id : ℕ) where
  abbrev HeldIn : MemSeries → List (ℤ × ℕ) → Type 0
  HeldIn = IsHeld header_size past fixed64_be encode_key partition_length ref logical_id

  -- The parts that are put, and fewer than 32 samples in memory, are the samples.
  pub record Keeps (s : MemSeries) (db : List Put) (samples : List (ℤ × ℕ)) : Type 0 where
    pub parts : List (List (ℤ × ℕ))
    pub held : List (ℤ × ℕ)
    pub puts :
        ArePuts header_size past fixed64_be encode_key partition_length ref logical_id db parts
    pub is_held : HeldIn s held
    pub few : length held < 32
    pub partition :
        InPartition header_size past fixed64_be encode_key partition_length ref logical_id
          s.time_boundary held
    pub together : concat parts ++ held ≡ samples

  abbrev In : ℤ → List (ℤ × ℕ) → Type 0
  In = InPartition header_size past fixed64_be encode_key partition_length ref logical_id

  abbrev Puts : List Put → List (List (ℤ × ℕ)) → Type 0
  Puts = ArePuts header_size past fixed64_be encode_key partition_length ref logical_id

  abbrev flushed : MemSeries → List Put → ℕ → MemSeries × List Put
  flushed = flush header_size past fixed64_be encode_key partition_length

  module _ (byte : IsByte past) where
    flush-Puts :
        (s : MemSeries) (db : List Put) (txn : ℕ) (b : ℤ) (parts : List (List (ℤ × ℕ)))
        (held : List (ℤ × ℕ))
        → HeldIn s held
        → 0 < length held
        → length held ≤ 32
        → In b held
        → Puts db parts
        → HeldIn (flushed s db txn).0 [] × Puts (flushed s db txn).1 (parts ++ (held ∷ []))
    unfolding flush
    flush-Puts s db txn b parts held h any few in_b puts =
        let (a, opens, w) = new_appender-Written header_size past byte in
        (
          record {
            a = a;
            chunk = opens;
            written = w;
            count = refl;
            starts = tt;
            same_ref = h.same_ref;
            same_id = h.same_id;
          },
          ArePuts-append _ _ _ _ _ _ _ db parts _ held puts (record {
            a = h.a;
            start = s.tuple_st;
            boundary = b;
            txn = txn;
            written = h.written;
            starts = h.starts;
            nonempty = any;
            few = few;
            partition = in_b;
            key = ap (λ (r : ℕ). encode_key r s.tuple_st) h.same_ref;
            value =
                ap₂ (λ (l : List ℕ) (i : ℕ). with_header fixed64_be l i txn) (ap stream_of h.chunk)
                  h.same_id;
          }),
        )

    moved :
        (s : MemSeries) (b : ℤ) (held : List (ℤ × ℕ))
        → HeldIn s held
        → HeldIn (record s { time_boundary = b }) held
    moved s b held h = record {
      a = h.a;
      chunk = h.chunk;
      written = h.written;
      count = h.count;
      starts = h.starts;
      same_ref = h.same_ref;
      same_id = h.same_id;
    }

    -- The second half of `append`.
    take-Keeps :
        (s : MemSeries) (db : List Put) (t : ℤ) (v txn : ℕ) (parts : List (List (ℤ × ℕ)))
        (held : List (ℤ × ℕ))
        → HeldIn s held
        → length held < 32
        → IsU64 v
        → In (time_boundary_of partition_length t) held
        → Puts db parts
        → let taken = take_sample s t v in
          let left =
            flush_if header_size past fixed64_be encode_key partition_length
              (taken.num_samples == mem_tuple_size)
              taken
              db
              txn in
          Keeps
            (record (left.0) { time_boundary = time_boundary_of partition_length t })
            left.1
            (concat parts ++ (held ++ ((t, v) ∷ [])))
    take-Keeps s db t v txn parts held h few small in_b puts =
        let taken = take_sample s t v in
        let more = held ++ ((t, v) ∷ []) in
        let b = time_boundary_of partition_length t in
        let h' =
          take_sample-IsHeld header_size past fixed64_be encode_key partition_length ref logical_id
            s t v held h few small in
        let longer = length-append held ((t, v) ∷ []) in
        let in_b' : In b more = All-append _ held ((t, v) ∷ []) in_b (refl, tt) in
        elim (Bool-cases (taken.num_samples == mem_tuple_size)) [
          | inl full ↦
              let (empty, puts') =
                flush-Puts taken db txn b parts more h' (omega (arith, longer))
                  (omega (arith, longer, few)) in_b' puts in
              rw full (record {
                parts = parts ++ (more ∷ []);
                held = [];
                puts = puts';
                is_held = moved _ b [] empty;
                few = omega arith;
                partition = tt;
                together = append-nil (concat (parts ++ (more ∷ []))) ∙ concat-append parts more;
              })
          | inr room ↦ rw room (record {
            parts = parts;
            held = more;
            puts = puts;
            is_held = moved taken b more h';
            few = ground (arith, room, h'.count, longer, few);
            partition = in_b';
            together = refl;
          })
        ]

    -- A sample of another partition is taken after a flush.
    other-Keeps :
        (s : MemSeries) (db : List Put) (t : ℤ) (v txn : ℕ) (samples : List (ℤ × ℕ))
        → IsU64 v
        → Keeps s db samples
        → 0 < s.num_samples
        → let after =
            append_noted header_size past fixed64_be encode_key partition_length true s db t v
              txn in
          Keeps after.0 after.1 (samples ++ ((t, v) ∷ []))
    unfolding append_noted
    other-Keeps s db t v txn samples small k any =
        let (empty, puts) =
          flush-Puts s db txn s.time_boundary k.parts k.held k.is_held
            (omega (arith, any, k.is_held.count)) (omega (arith, k.few)) k.partition k.puts in
        let grown : concat (k.parts ++ (k.held ∷ [])) ++ ((t, v) ∷ []) ≡ samples ++ ((t, v) ∷ []) =
          ap (λ (l : List (ℤ × ℕ)). l ++ ((t, v) ∷ []))
            (concat-append k.parts k.held ∙ k.together) in
        rw (← grown) (
          take-Keeps (flushed s db txn).0 (flushed s db txn).1 t v txn (k.parts ++ (k.held ∷ [])) []
            empty (omega arith) small tt puts)

    same-Keeps :
        (s : MemSeries) (db : List Put) (t : ℤ) (v txn : ℕ) (samples : List (ℤ × ℕ))
        → IsU64 v
        → (k : Keeps s db samples) → In (time_boundary_of partition_length t) k.held
        → let after =
            append_noted header_size past fixed64_be encode_key partition_length false s db t v
              txn in
          Keeps after.0 after.1 (samples ++ ((t, v) ∷ []))
    unfolding append_noted
    same-Keeps s db t v txn samples small k same =
        let grown : concat k.parts ++ (k.held ++ ((t, v) ∷ [])) ≡ samples ++ ((t, v) ∷ []) =
          sym (append_assoc (concat k.parts) k.held ((t, v) ∷ []))
          ∙ ap (λ (l : List (ℤ × ℕ)). l ++ ((t, v) ∷ [])) k.together in
        rw (← grown) (take-Keeps s db t v txn k.parts k.held k.is_held k.few small same k.puts)

    note_time-Keeps :
        (s : MemSeries) (db : List Put) (t : ℤ) (samples : List (ℤ × ℕ))
        → Keeps s db samples
        → Keeps (note_time s t) db samples
    unfolding note_time
    note_time-Keeps s db t samples k = record {
      parts = k.parts;
      held = k.held;
      puts = k.puts;
      is_held =
          note_time-IsHeld header_size past fixed64_be encode_key partition_length ref logical_id s
            t k.held k.is_held;
      few = k.few;
      partition = k.partition;
      together = k.together;
    }

    crosses-nonempty :
        (s : MemSeries) (t : ℤ) → crosses partition_length s t ≡ true → 0 < s.num_samples
    unfolding crosses
    crosses-nonempty s t h = ground (arith, h)

    crosses_not :
        (s : MemSeries) (t : ℤ)
        → crosses partition_length s t ≡ false
        → 0 < s.num_samples
        → eqb_ℤ s.time_boundary (negsuc 0) ≡ false
        → eqb_ℤ (time_boundary_of partition_length t) s.time_boundary ≡ true
    unfolding crosses
    crosses_not s t h any proper = ground (arith, h, any, proper)

    -- A sample that does not lead to a flush is of the partition of those that are held.
    crosses-In :
        (size : ℕ) (s : MemSeries) (t : ℤ) (held : List (ℤ × ℕ))
        → partition_length ≡ pos size
        → 1 < size
        → crosses partition_length s t ≡ false
        → s.num_samples ≡ length held
        → In s.time_boundary held
        → In (time_boundary_of partition_length t) held
    crosses-In size s t [] e large h n i = tt
    crosses-In size s t (x ∷ held) e large h n i =
        let proper : eqb_ℤ s.time_boundary (negsuc 0) ≡ false =
          rw (← i.0, e) (time_boundary_of-proper size x.0 large) in
        let same : time_boundary_of partition_length t ≡ s.time_boundary =
          let eq = crosses_not s t h (omega (arith, n)) proper in
          eq_of_parts (time_boundary_of partition_length t) s.time_boundary (ground (arith, eq)) in
        subst (λ (b : ℤ). In b (x ∷ held)) (sym same) i

    -- A series that keeps what it was given, with a partition length over 1, keeps one more sample.
    pub append-Keeps :
        (size : ℕ) (s : MemSeries) (db : List Put) (t : ℤ) (v txn : ℕ) (samples : List (ℤ × ℕ))
        → partition_length ≡ pos size
        → 1 < size
        → IsU64 v
        → Keeps s db samples
        → let after = append header_size past fixed64_be encode_key partition_length s db t v txn in
          Keeps after.0 after.1 (samples ++ ((t, v) ∷ []))
    unfolding append
    append-Keeps size s db t v txn samples e large small k =
        let noted = note_time s t in
        let k' = note_time-Keeps s db t samples k in
        elim (Bool-cases (crosses partition_length noted t)) [
          | inl other ↦
              rw other
                (other-Keeps noted db t v txn samples small k' (crosses-nonempty noted t other))
          | inr same ↦ rw same (
              same-Keeps noted db t v txn samples small k'
                (crosses-In size noted t k'.held e large same k'.is_held.count k'.partition))
        ]
