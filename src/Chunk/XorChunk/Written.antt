-- ===== src/Chunk/XorChunk/Written.antt =====
-- A stream that an appender has written, sample by sample.
use prom_tcs.Prelude.{
  ℕ, ◌+◌, ◌^◌, ◌≤◌, ◌<◌, ◌≡◌, subst, ◌∙◌, Bool, List, [], ◌∷◌, ◌++◌, append_assoc, arith, ◌==◌,
  Bool-cases, inl, inr, length, length-append, IsU64,
}
use prom_tcs.Chunk.BitStream.Read.{unread}
use prom_tcs.Chunk.XorAppender.{
  XorAppender, append, sub64, append_first, append_second, append_later, finish_append,
}
use prom_tcs.Chunk.XorIterator.{XorIterator}
use prom_tcs.Chunk.XorChunk.Header.{Counted, Counted-Appends, Counted-put, stored_count_lem}
use prom_tcs.Chunk.XorChunk.Opening.{Fresh}
use prom_tcs.Chunk.XorChunk.Samples.{InStep, SampleStep, first_step, second_step, later_step}
use prom_tcs.Chunk.XorChunk.Runs.{Runs-add, Runs}

-- The stream of the appender holds `samples`, and an iterator that reads them is in step with it.
pub record Written (a : XorAppender) (hdr : List ℕ) (samples : List (ℕ × ℕ)) : Type 0 where
  pub body : List Bool
  pub counted : Counted a.bstream hdr (length samples) body
  pub timestamp_small : IsU64 a.timestamp
  pub value_small : IsU64 a.value
  pub delta_small : IsU64 a.delta_timestamp
  pub none_yet : length samples ≡ 0 → a.leading_zero ≡ 0xff
  pub replays :
      (it : XorIterator) (total : ℕ) (rest : List Bool)
      → Fresh it total
      → length samples ≤ total
      → total < 2 ^ 16
      → unread it.bstream ≡ body ++ rest
      → (it' : XorIterator) × Runs it samples it'
        × InStep a it' (length samples) total
        × (unread it'.bstream ≡ rest)

-- One more sample, whatever the branch of `append`.
Written-step :
    (a b : XorAppender) (hdr : List ℕ) (samples : List (ℕ × ℕ)) (t v delta : ℕ)
    → Written a hdr samples
    → length samples + 1 < 2 ^ 16
    → IsU64 t
    → IsU64 v
    → IsU64 delta
    → SampleStep a (length samples) t v b (finish_append b t v (length samples) delta)
    → Written (finish_append b t v (length samples) delta) hdr (samples ++ (t, v) ∷ [])
unfolding finish_append
Written-step a b hdr samples t v delta w room small small' small'' step =
    let grows : length samples + 1 ≡ length (samples ++ (t, v) ∷ []) =
      omega (arith, length-append samples ((t, v) ∷ [])) in
    record {
      body = w.body ++ step.digits;
      counted = rw (← grows) (Counted-put (Counted-Appends w.counted step.appends) room);
      timestamp_small = small;
      value_small = small';
      delta_small = small'';
      none_yet = λ z. absurd (omega (arith, grows));
      replays = λ it total rest fresh le bound e.
          let (it1, runs, i, after) =
            w.replays it total (step.digits ++ rest) fresh (omega (arith, grows)) bound
              (e ∙ append_assoc w.body step.digits rest) in
          let (it2, steps, there, i', after') =
            step.reads it1 total rest i (omega (arith, grows, le)) bound after in
          (
            it2,
            Runs-add runs steps there,
            subst (λ (n : ℕ). InStep (finish_append b t v (length samples) delta) it2 n total) grows
                i',
            after',
          );
    }

pub append_step :
    (a : XorAppender) (hdr : List ℕ) (samples : List (ℕ × ℕ)) (t v : ℕ)
    → Written a hdr samples
    → length samples + 1 < 2 ^ 16
    → IsU64 t
    → IsU64 v
    → Written (append a t v) hdr (samples ++ (t, v) ∷ [])
unfolding append
append_step a hdr samples t v w room small small' =
    let n = length samples in
    let count = stored_count_lem w.counted in
    let delta = sub64 t a.timestamp in
    let delta_fits : IsU64 delta = omega (arith, w.timestamp_small) in
    elim (Bool-cases (n == 0)) [
      | inl z ↦
          rw (count, z)
            (Written-step a (append_first a t v) hdr samples t v 0 w room small small' (omega arith)
              (first_step a n t v (ground arith) small small'))
      | inr z ↦ elim (Bool-cases (n == 1)) [
        | inl o ↦
            rw (count, z, o)
              (Written-step a (append_second a t v) hdr samples t v delta w room small small'
                delta_fits
                (second_step a n t v small small' w.timestamp_small w.value_small w.delta_small
                  (ground arith)))
        | inr o ↦
            rw (count, z, o)
              (Written-step a (append_later a t v) hdr samples t v delta w room small small'
                delta_fits
                (later_step a n t v small small' w.timestamp_small w.value_small w.delta_small
                  (ground arith)))
      ]
    ]
