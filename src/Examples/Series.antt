-- ===== src/Examples/Series.antt =====
-- Concrete runs of a series in memory: partitions of two hours, as the program has them.
use prom_tcs.Prelude.{ℕ, ◌+◌, ◌*◌, ◌≤◌, ◌<◌, List, [], ◌∷◌, ◌++◌, map, ◌≡◌, arith, length}
use prom_tcs.Prelude.Int.{ℤ, pos, negsuc}
use prom_tcs.Base.Endian.BigEndian.{be64}
use prom_tcs.Head.MemSeries.{MemSeries, mem_tuple_size, new_series}
use prom_tcs.Head.MemSeries.Append.{encoded}
use prom_tcs.Head.MemSeries.Append.Runs.{Keeps}
use prom_tcs.Head.MemSeries.Append.Values.{append_all-puts}
use prom_tcs.Head.MemSeries.Append.Whole.{
  Item, samples_of, append_all, held_samples, append_all-Keeps, append_all-held,
}

abbrev key_of : ℕ → ℤ → List ℕ
key_of id (pos t) = be64 id ++ be64 t
key_of id (negsuc t) = be64 id

-- Two samples of one partition, and one of the next.
abbrev items : List Item
items = ((pos 1000, 5), 1) ∷ ((pos 2000, 4607182418800017408), 2) ∷ ((pos 7200001, 6), 3) ∷ []

append_all-Keeps_example :
    Keeps 11 0 be64 key_of
      (pos 7200000)
      4
      9
      (append_all 11 0 be64 key_of 7200000 (new_series 11 0 4 9 (pos 0)) [] items).0
      (append_all 11 0 be64 key_of 7200000 (new_series 11 0 4 9 (pos 0)) [] items).1
      (samples_of items)
append_all-Keeps_example =
    append_all-Keeps 11 0 be64 key_of 7200000 4 9 (omega arith) (omega arith) (pos 0) items
      (omega arith)

append_all-held_example :
    let after = append_all 11 0 be64 key_of 7200000 (new_series 11 0 4 9 (pos 0)) [] items in
    (gone : List (ℤ × ℕ)) × (map encoded gone ++ held_samples after.0.chunk_appender
      ≡ map encoded (samples_of items))
    × (length gone ≤ 32 * length after.1)
append_all-held_example =
    append_all-held 11 0 be64 key_of 7200000 4 9 (pos 0) items (omega arith) (omega arith)
      (omega arith)

-- Thirty samples are held already.
abbrev thirty : MemSeries
thirty = record (new_series 11 0 4 9 (pos 0)) { num_samples = 30; time_boundary = pos 0 }

append_all-puts_example :
    let after = append_all 11 0 be64 key_of 7200000 thirty [] items in
    (after.0.num_samples < mem_tuple_size)
    × (0 ≤ length after.1)
    × (mem_tuple_size ≤ 30 + 3 → 0 < length after.1)
append_all-puts_example = append_all-puts 11 0 be64 key_of 7200000 thirty [] items (omega arith)
