-- ===== src/Examples/Records.antt =====
-- The theorems on the records of tsdbutil/ at concrete inputs.
use prom_tcs.Prelude.{◌≡◌, List, [], ◌∷◌, ◌++◌, none, some, map, arith, All}
use prom_tcs.Tsdbutil.RecordEncoder.{
  RefSeries, RefSample, Stone, labels_of, encode_series, encode_samples, encode_tombstones,
}
use prom_tcs.Tsdbutil.RecordDecoder.{no_error, decode_series, decode_samples, decode_tombstones}
use prom_tcs.Tsdbutil.Records.Loop.{Returns}
use prom_tcs.Tsdbutil.Records.Ends.{decoders-end}
use prom_tcs.Tsdbutil.Records.Written.{IsSeries}
use prom_tcs.Tsdbutil.Records.Rounds.{decoded_series, own_stone, IsStoneInterval}
use prom_tcs.Tsdbutil.Records.RoundTrip.{
  decode-encode_series, decode-encode_samples, decode-encode_tombstones, intervals_of,
}

-- The labels b = 1 and a = 2, not in order.
abbrev cpu : RefSeries
cpu = record {
  ref = 7;
  lset =
      record { label = 98 ∷ []; value = 49 ∷ [] }
      ∷ record { label = 97 ∷ []; value = 50 ∷ [] }
      ∷ [];
  lset_ptr = none;
  flushed_txn = 1;
  log_clean_txn = 18446744073709551615;
}

cpu-IsSeries : All IsSeries (cpu ∷ [])
unfolding labels_of
cpu-IsSeries = (
  (
    omega arith,
    omega arith,
    omega arith,
    omega arith,
    ((omega arith, omega arith), ((omega arith, omega arith), tt)),
  ),
  tt,
)

decode-encode_series_example :
    decode_series (encode_series (cpu ∷ []) []) []
    ≡ some (no_error, [] ++ map decoded_series (cpu ∷ []))
decode-encode_series_example = decode-encode_series (cpu ∷ []) [] cpu-IsSeries

-- The reference and the time of the second sample are less than those of the first one.
abbrev sample1 : RefSample
sample1 = record { ref = 9; logical_id = 1; t = 1000; v = 4607182418800017408 }

abbrev sample2 : RefSample
sample2 = record { ref = 2; logical_id = 3; t = 18446744073709551615; v = 0 }

decode-encode_samples_example :
    decode_samples (encode_samples (sample1 ∷ sample2 ∷ []) []) (sample2 ∷ [])
    ≡ some (no_error, (sample2 ∷ []) ++ sample1 ∷ sample2 ∷ [])
decode-encode_samples_example = decode-encode_samples sample1 (sample2 ∷ []) (sample2 ∷ []) (
  (omega arith, omega arith, omega arith, omega arith),
  ((omega arith, omega arith, omega arith, omega arith), tt),
)

abbrev two_ranges : List Stone
two_ranges =
    record {
      ref = 5;
      itvls =
          record { min_time = 10; max_time = 20 } ∷ record { min_time = 30; max_time = 40 } ∷ [];
    }
    ∷ []

two_ranges-IsStoneInterval : All IsStoneInterval (intervals_of two_ranges)
unfolding intervals_of
two_ranges-IsStoneInterval =
    ((omega arith, omega arith, omega arith), ((omega arith, omega arith, omega arith), tt))

decode-encode_tombstones_example :
    decode_tombstones (encode_tombstones two_ranges []) []
    ≡ some (no_error, [] ++ map own_stone (intervals_of two_ranges))
decode-encode_tombstones_example = decode-encode_tombstones two_ranges [] two_ranges-IsStoneInterval

-- A record of samples that ends too early.
decoders-end_example :
    Returns {A = RefSample} [] (decode_samples (2 ∷ 1 ∷ []) [])
    × Returns {A = Stone} [] (decode_tombstones (2 ∷ 1 ∷ []) [])
decoders-end_example = decoders-end (2 ∷ 1 ∷ []) [] []
