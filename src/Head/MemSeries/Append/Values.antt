-- ===== src/Head/MemSeries/Append/Values.antt =====
-- When `append` of head/MemSeries.cpp puts a value.
use prom_tcs.Prelude.{
  ℕ, ◌+◌, ◌≤◌, ◌<◌, Bool, true, false, List, [], ◌∷◌, ◌++◌, length, length-append, ◌≡◌, ◌⊎◌, inl,
  inr, refl, ap, arith, ◌==◌, Bool-cases,
}
use prom_tcs.Prelude.Int.{ℤ, pos}
use prom_tcs.Head.MemSeries.{
  MemSeries, Put, mem_tuple_size, flush, note_time, crosses, take_sample, append_noted, append,
}
use prom_tcs.Head.MemSeries.Append.Whole.{Item, append_all}

-- A sample was taken, or a value was put.
abbrev Took : MemSeries → List Put → MemSeries × List Put → Type 0
Took s db (s', db') =
    (s'.num_samples < mem_tuple_size)
    × (((s'.num_samples ≡ s.num_samples + 1) × (db' ≡ db)) ⊎ (length db < length db'))

more : (db : List Put) (p : Put) → length db < length (db ++ p ∷ [])
more db p = omega (arith, length-append db (p ∷ []))

module _ (header_size past : ℕ) (fixed64_be : ℕ → List ℕ) (encode_key : ℕ → ℤ → List ℕ)
    (size : ℕ) where
  append_noted-Took :
      (is_other : Bool) (s : MemSeries) (db : List Put) (t : ℤ) (v txn : ℕ)
      → s.num_samples < mem_tuple_size
      → let r =
          append_noted header_size past fixed64_be encode_key (pos size) is_other s db t v txn in
        Took s db (r.0, r.1)
  unfolding append_noted flush take_sample
  append_noted-Took true s db t v txn few = (omega arith, inr (more db _))
  append_noted-Took false s db t v txn few =
      elim (Bool-cases (s.num_samples + 1 == mem_tuple_size)) [
        | inl t ↦ rw t (omega arith, inr (more db _))
        | inr f ↦ rw f (ground (arith, few), inl (refl, refl))
      ]

  append-Took :
      (s : MemSeries) (db : List Put) (t : ℤ) (v txn : ℕ)
      → s.num_samples < mem_tuple_size
      → let r = append header_size past fixed64_be encode_key (pos size) s db t v txn in
        Took s db (r.0, r.1)
  unfolding append note_time
  append-Took s db t v txn few =
      append_noted-Took (crosses (pos size) (note_time s t) t) (note_time s t) db t v txn few

  -- From any state in which fewer than 32 samples are held, fewer than 32 are held after any samples
  -- have been appended, and if those that were held and the new ones are 32 or more, a value has been
  -- put.
  pub append_all-puts :
      (s : MemSeries) (db : List Put) (items : List Item)
      → s.num_samples < mem_tuple_size
      → let after = append_all header_size past fixed64_be encode_key size s db items in
        (after.0.num_samples < mem_tuple_size)
        × (length db ≤ length after.1)
        × (mem_tuple_size ≤ s.num_samples + length items → length db < length after.1)
  unfolding append_all
  append_all-puts s db [] few = (few, omega arith, λ h. absurd (omega arith))
  append_all-puts s db (x ∷ items) few =
      let r = append header_size past fixed64_be encode_key (pos size) s db x.0.0 x.0.1 x.1 in
      let (few', took) = append-Took s db x.0.0 x.0.1 x.1 few in
      let (held, no_less, puts) = append_all-puts r.0 r.1 items few' in
      elim took [
        | inl (one, same) ↦ (
          held,
          omega (arith, no_less, ap length same),
          λ h. omega (arith, ap length same, puts (omega (arith, h, one))),
        )
        | inr put ↦ (held, omega (arith, no_less, put), λ h. omega (arith, no_less, put))
      ]
