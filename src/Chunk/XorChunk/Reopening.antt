-- ===== src/Chunk/XorChunk/Reopening.antt =====
-- A chunk, and the appender that is opened on it again.
use prom_tcs.Prelude.{
  ℕ, suc, ◌≡◌, refl, sym, ◌∙◌, Bool, true, false, List, some, arith, ◌==◌, Bool-cases, inl, inr,
  length, if◌then◌else◌,
}
use prom_tcs.Chunk.BitStream.{BitStream}
use prom_tcs.Chunk.XorAppender.{XorAppender, stored_count}
use prom_tcs.Chunk.XorIterator.{XorIterator, xor_iterator_of, next, collect}
use prom_tcs.Chunk.XorChunk.{XorChunk, xor_iterator, appender, xor_appender}
use prom_tcs.Chunk.XorChunk.Values.{Window, Window-unique, no-Window}
use prom_tcs.Chunk.XorChunk.Header.{stored_count_lem}
use prom_tcs.Chunk.XorChunk.Opening.{opened}
use prom_tcs.Chunk.XorChunk.Samples.{InStep}
use prom_tcs.Chunk.XorChunk.Runs.{collect-Runs}
use prom_tcs.Chunk.XorChunk.Written.{Written}

-- A chunk in write mode whose stream holds `samples`.
pub record Holds (c : XorChunk) (hdr : List ℕ) (samples : List (ℕ × ℕ)) : Type 0 where
  pub a : XorAppender
  pub written : Written a hdr samples
  pub same_stream : c.bstream ≡ a.bstream
  pub writes : c.read_mode ≡ false

at_end : (a : XorAppender) (it : XorIterator) (n : ℕ) → InStep a it n n → next it ≡ (false, it)
unfolding next
at_end a it n i = ground (arith, i.no_err, i.num_read, i.num_total)

-- What an iterator yields, on either kind of memory.
pub Written-samples :
    (a : XorAppender) (hdr : List ℕ) (samples : List (ℕ × ℕ)) (safe_mode : Bool)
    → Written a hdr samples
    → (it : XorIterator) × (collect (suc (length samples)) (xor_iterator_of a.bstream safe_mode)
        ≡ (samples, it))
      × InStep a it (length samples) (length samples)
Written-samples a hdr samples safe_mode w =
    let (fresh, (rest, e)) = opened w.counted safe_mode in
    let (it, runs, i, after) =
      w.replays (xor_iterator_of a.bstream safe_mode) (length samples) rest fresh (omega arith)
        w.counted.n_small e in
    (it, collect-Runs (suc (length samples)) runs (at_end a it (length samples) i) (omega arith), i)

pub opened_total :
    (a : XorAppender) (hdr : List ℕ) (samples : List (ℕ × ℕ)) (safe_mode : Bool)
    → Written a hdr samples
    → (xor_iterator_of a.bstream safe_mode).num_total ≡ length samples
opened_total a hdr samples safe_mode w = (opened w.counted safe_mode).0.num_total

-- The appender that `appender` makes of the iterator at the end of the samples.
abbrev pub reopened : BitStream → XorIterator → ℕ → XorAppender
reopened s it lead = record {
  bstream = s;
  timestamp = it.timestamp;
  value = it.value;
  delta_timestamp = it.delta_timestamp;
  leading_zero = lead;
  trailing_zero = it.trailing_zero;
}

-- No window yet, or that of the iterator.
abbrev pub lead_of : BitStream → XorIterator → ℕ
lead_of s it = if stored_count s == 0 then 0xff else it.leading_zero

reopened-Window :
    (a : XorAppender) (s : BitStream) (it : XorIterator) (lead trail n : ℕ)
    → stored_count s ≡ n
    → (n ≡ 0 → a.leading_zero ≡ 0xff)
    → Window a it.leading_zero it.trailing_zero
    → Window a lead trail
    → Window (reopened s it (lead_of s it)) lead trail
reopened-Window a s it lead trail n count unset w w' =
    let kept = Window-unique a it.leading_zero it.trailing_zero lead trail w w' in
    elim (Bool-cases (stored_count s == 0)) [
      | inl z ↦
          let first : a.leading_zero ≡ 0xff = unset (ground (arith, count)) in
          record {
            lead_small = w'.lead_small;
            sum_small = w'.sum_small;
            same = inl (rw z refl, no-Window a lead trail w' first);
          }
      | inr z ↦ record {
        lead_small = w'.lead_small;
        sum_small = w'.sum_small;
        same = inr (rw z kept.0, kept.1);
      }
    ]

reopened_step :
    (a : XorAppender) (s : BitStream) (it it' : XorIterator) (n total : ℕ)
    → stored_count s ≡ n
    → (n ≡ 0 → a.leading_zero ≡ 0xff)
    → InStep a it n n
    → InStep a it' n total
    → InStep (reopened s it (lead_of s it)) it' n total
reopened_step a s it it' n total count unset i i' = record {
  reader = i'.reader;
  no_err = i'.no_err;
  timestamp = i'.timestamp ∙ sym i.timestamp;
  value = i'.value ∙ sym i.value;
  delta_timestamp = i'.delta_timestamp ∙ sym i.delta_timestamp;
  window =
      reopened-Window a s it it'.leading_zero it'.trailing_zero n count unset i.window i'.window;
  num_read = i'.num_read;
  num_total = i'.num_total;
  fresh = i'.fresh;
}

-- An appender that is opened again goes on where the last one stopped.
pub Written-reopened :
    (a : XorAppender) (hdr : List ℕ) (samples : List (ℕ × ℕ)) (it : XorIterator)
    → Written a hdr samples
    → InStep a it (length samples) (length samples)
    → Written (reopened a.bstream it (lead_of a.bstream it)) hdr samples
Written-reopened a hdr samples it w i =
    let count = stored_count_lem w.counted in
    record {
      body = w.body;
      counted = w.counted;
      timestamp_small = rw i.timestamp w.timestamp_small;
      value_small = rw i.value w.value_small;
      delta_small = rw i.delta_timestamp w.delta_small;
      none_yet = λ z.
          let first : stored_count a.bstream == 0 ≡ true = ground (arith, count, z) in
          rw first refl;
      replays = λ it0 total rest fresh le bound e.
          let (it', runs, i', after) = w.replays it0 total rest fresh le bound e in
          (
            it',
            runs,
            reopened_step a a.bstream it it' (length samples) total count w.none_yet i i',
            after,
          );
    }

pub appender_opens :
    (c : XorChunk) (it : XorIterator) (samples : List (ℕ × ℕ))
    → c.read_mode ≡ false
    → collect (suc (xor_iterator_of c.bstream false).num_total) (xor_iterator_of c.bstream false)
      ≡ (samples, it)
    → it.err ≡ false
    → appender c ≡ some (xor_appender (reopened c.bstream it (lead_of c.bstream it)))
unfolding appender xor_iterator
appender_opens c it samples writes collects fine = rw (collects, writes, fine) refl
