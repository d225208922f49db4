-- ===== src/Head/MemSeries/Header.antt =====
-- The header of a flushed chunk of head/MemSeries.cpp.
use prom_tcs.Prelude.{
  ℕ, zero, suc, ◌+◌, ◌-◌, ◌≤◌, ◌<◌, List, [], ◌∷◌, ◌≡◌, refl, ap, ◌∙◌, arith, length, drop, set,
  get_or,
}
use prom_tcs.Head.MemSeries.{write_at, with_header}

length-set : (l : List ℕ) (i v : ℕ) → length (set l i v) ≡ length l
length-set [] i v = refl
length-set (x ∷ l) zero v = refl
length-set (x ∷ l) (suc i) v = ap suc (length-set l i v)

drop-set : (k : ℕ) (l : List ℕ) (i v : ℕ) → i < k → drop k (set l i v) ≡ drop k l
drop-set zero l i v h = absurd (omega arith)
drop-set (suc k) [] i v h = refl
drop-set (suc k) (x ∷ l) zero v h = refl
drop-set (suc k) (x ∷ l) (suc i) v h = drop-set k l i v (omega arith)

get_or-set_before : (l : List ℕ) (i v : ℕ) → get_or (set l (suc i) v) 0 0 ≡ get_or l 0 0
get_or-set_before [] i v = refl
get_or-set_before (x ∷ l) i v = refl

length-write_at : (l : List ℕ) (i : ℕ) (bytes : List ℕ) → length (write_at l i bytes) ≡ length l
unfolding write_at
length-write_at l i [] = refl
length-write_at l i (b ∷ bytes) = length-write_at (set l i b) (i + 1) bytes ∙ length-set l i b

drop-write_at :
    (k : ℕ) (l : List ℕ) (i : ℕ) (bytes : List ℕ)
    → i + length bytes ≤ k
    → drop k (write_at l i bytes) ≡ drop k l
unfolding write_at
drop-write_at k l i [] h = refl
drop-write_at k l i (b ∷ bytes) h =
    drop-write_at k (set l i b) (i + 1) bytes (omega arith) ∙ drop-set k l i b (omega arith)

first-write_at :
    (l : List ℕ) (i : ℕ) (bytes : List ℕ) → 0 < i → get_or (write_at l i bytes) 0 0 ≡ get_or l 0 0
unfolding write_at
first-write_at l i [] h = refl
first-write_at l i (b ∷ bytes) h =
    let e : i ≡ suc (i - 1) = omega arith in
    first-write_at (set l i b) (i + 1) bytes (omega arith)
    ∙ ap (λ (k : ℕ). get_or (set l k b) 0 0) e
    ∙ get_or-set_before l (i - 1) b

module _ (fixed64_be : ℕ → List ℕ) (eight : (v : ℕ) → length (fixed64_be v) ≡ 8) where
  -- The header takes the first 17 bytes, and says so in the first.
  pub drop-with_header :
      (stream : List ℕ) (logical_id txn : ℕ)
      → drop 17 (with_header fixed64_be stream logical_id txn) ≡ drop 17 stream
  unfolding with_header
  drop-with_header stream logical_id txn =
      let started = set stream 0 1 in
      drop-write_at 17 (write_at started 1 (fixed64_be logical_id)) 9 (fixed64_be txn)
        (omega (arith, eight txn))
      ∙ drop-write_at 17 started 1 (fixed64_be logical_id) (omega (arith, eight logical_id))
      ∙ drop-set 17 stream 0 1 (omega arith)

  pub first-with_header :
      (b : ℕ) (stream : List ℕ) (logical_id txn : ℕ)
      → get_or (with_header fixed64_be (b ∷ stream) logical_id txn) 0 0 ≡ 1
  unfolding with_header
  first-with_header b stream logical_id txn =
      first-write_at (write_at (1 ∷ stream) 1 (fixed64_be logical_id)) 9 (fixed64_be txn)
        (omega arith)
      ∙ first-write_at (1 ∷ stream) 1 (fixed64_be logical_id) (omega arith)
