-- ===== src/Block.antt =====
-- block/BlockUtils.hpp: what is known of a block of the database, and of its directory. A name of
-- a directory is its bytes, and a ULID its 128-bit number.
use prom_tcs.Prelude.{ℕ, Bool, false, List, []}
use prom_tcs.Prelude.Int.{ℤ, pos, negsuc}

abbrev pub Dir : Type 0
Dir = List ℕ

abbrev pub Ulid : Type 0
Ulid = ℕ

pub record BlockStats : Type 0 where
  pub num_samples : ℕ
  pub num_series : ℕ
  pub num_chunks : ℕ
  pub num_tombstones : ℕ
  pub num_bytes : ℕ

pub record BlockDesc : Type 0 where
  pub ulid : Ulid
  pub max_time : ℤ
  pub min_time : ℤ

pub record BlockMetaCompaction : Type 0 where
  pub level : ℤ
  pub sources : List Ulid
  pub parents : List BlockDesc
  pub failed : Bool
  pub deletable : Bool

pub record BlockMeta : Type 0 where
  pub ulid : Ulid
  pub max_time : ℤ
  pub min_time : ℤ
  pub stats : BlockStats
  pub compaction : BlockMetaCompaction
  pub version : ℕ

pub record DirMeta : Type 0 where
  pub dir : Dir
  pub meta : BlockMeta

-- The least and the greatest value of `int64_t`.
abbrev pub int64_min : ℤ
int64_min = negsuc 9_223_372_036_854_775_807

abbrev pub int64_max : ℤ
int64_max = pos 9_223_372_036_854_775_807

abbrev pub no_stats : BlockStats
no_stats = record {
  num_samples = 0;
  num_series = 0;
  num_chunks = 0;
  num_tombstones = 0;
  num_bytes = 0;
}

abbrev pub no_compaction : BlockMetaCompaction
no_compaction = record {
  level = pos 0;
  sources = [];
  parents = [];
  failed = false;
  deletable = false;
}

-- The default constructor.
abbrev pub new_block_meta : BlockMeta
new_block_meta = record {
  ulid = 0;
  max_time = int64_min;
  min_time = int64_max;
  stats = no_stats;
  compaction = no_compaction;
  version = 1;
}
