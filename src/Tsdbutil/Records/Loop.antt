-- ===== src/Tsdbutil/Records/Loop.antt =====
-- The loop of the decoders in tsdbutil/RecordDecoder.cpp: it ends, and it reads the items that are next.
use prom_tcs.Prelude.{
  ℕ, zero, suc, ◌<◌, ◌≡◌, ◌⊎◌, inl, inr, refl, sym, ap, ◌∙◌, true, false, not, List, [], ◌∷◌, ◌++◌,
  append-nil, append_assoc, Option, some, ltb, ◌==◌, arith, length, length-append, Bool-cases,
  Option-cases, All, map, concat_map,
}
use prom_tcs.Tsdbutil.DecBuf.{DecBuf, no_err}
use prom_tcs.Tsdbutil.DecBuf.Reads.{IsAt, Reads, left_lem}
use prom_tcs.Tsdbutil.RecordDecoder.{
  RecordError, no_error, invalid_record_type, bytes_left, decbuf_error, len, going, final_error,
  read_loop,
}

-- A round leaves an error or less to read.
abbrev pub Advances : DecBuf → DecBuf → Type 0
Advances d d' = (0 < d'.err) ⊎ (len d' < len d)

going-true : (d : DecBuf) → going d ≡ true → (0 < len d) × (d.err ≡ no_err)
unfolding going
going-true d g = (ground arith, ground arith)

going-false : (d : DecBuf) → going d ≡ false → (len d ≡ 0) ⊎ (0 < d.err)
unfolding going
going-false d g = ground arith

len_lem : (d : DecBuf) (rest : List ℕ) → IsAt d rest → len d ≡ length rest
unfolding len
len_lem = left_lem

at_end : (d : DecBuf) → IsAt d [] → (going d ≡ false) × (final_error d ≡ no_error)
unfolding going final_error
at_end d h =
    let empty : ltb 0 (len d) ≡ false = ground (arith, len_lem d [] h) in
    let fine : d.err == no_err ≡ true = ground (arith, h.fine) in
    (rw empty refl, rw (empty, fine) refl)

not_at_end : (d : DecBuf) (rest : List ℕ) → IsAt d rest → 0 < length rest → going d ≡ true
unfolding going
not_at_end d rest h pos =
    let more : ltb 0 (len d) ≡ true = ground (arith, len_lem d rest h, pos) in
    let fine : d.err == no_err ≡ true = ground (arith, h.fine) in rw (more, fine) refl

-- The errors that a decoder returns: that of bytes left is none of them.
abbrev pub IsPossible : RecordError → Type 0
IsPossible no_error = Unit {0}
IsPossible invalid_record_type = Unit {0}
IsPossible (decbuf_error code) = Unit {0}
IsPossible (bytes_left n) = ⊥

-- A decoder returns, with such an error, and it has only appended to the items that there were.
abbrev pub Returns {ℓ} : {A : Type ℓ} → List A → Option (RecordError × List A) → Type ℓ
Returns {A} items result =
    (error : RecordError) × (more : List A) × (result ≡ some (error, items ++ more))
    × IsPossible error

pub Returns-now {ℓ} :
    {A : Type ℓ} (items : List A) (error : RecordError)
    → IsPossible error
    → Returns items (some (error, items))
Returns-now {A} items error possible =
    (error, [], ap (λ (l : List A). some (error, l)) (sym (append-nil items)), possible)

pub Returns-more {ℓ} :
    {A : Type ℓ} (items : List A) (a : A) (result : Option (RecordError × List A))
    → Returns (items ++ a ∷ []) result
    → Returns items result
Returns-more {A} items a result (error, more, e, possible) = (
  error,
  a ∷ more,
  e ∙ ap (λ (l : List A). some (error, l)) (append_assoc items (a ∷ []) more),
  possible,
)

-- Behind the loop there are no bytes left, or there is an error.
final_error-IsPossible : (d : DecBuf) → going d ≡ false → IsPossible (final_error d)
unfolding final_error
final_error-IsPossible d stop = elim (Bool-cases (not (d.err == no_err))) [
  | inl t ↦ rw t tt
  | inr f ↦
      let empty : ltb 0 (len d) ≡ false = ground (arith, going-false d stop) in rw (f, empty) tt
]

module _ {ℓ} {A : Type ℓ} (round : DecBuf → Option A × DecBuf) where
  -- What is left of the fuel after a round is enough again.
  abbrev pub IsEnough : ℕ → DecBuf → Type 0
  IsEnough fuel d = (len d < fuel) ⊎ ((0 < d.err) × (0 < fuel))

  IsEnough-step :
      (fuel : ℕ) (d d' : DecBuf)
      → (0 < len d) × (d.err ≡ no_err)
      → IsEnough (suc fuel) d
      → Advances d d'
      → IsEnough fuel d'
  IsEnough-step fuel d d' g (inl le) (inl failed) = inr (failed, omega (arith, g.0))
  IsEnough-step fuel d d' g (inl le) (inr less) = inl (omega arith)
  IsEnough-step fuel d d' g (inr (failed, pos)) a = absurd (omega (arith, g.1))

  pub read_loop-ends :
      ((d : DecBuf) → (0 < len d) × (d.err ≡ no_err) → Advances d (round d).1)
      → (fuel : ℕ) (d : DecBuf) (items : List A) → IsEnough fuel d
      → Returns items (read_loop round fuel d items)
  unfolding read_loop
  read_loop-ends step zero d items (inl le) = absurd (omega arith)
  read_loop-ends step zero d items (inr (failed, pos)) = absurd (omega arith)
  read_loop-ends step (suc fuel) d items enough = elim (Bool-cases (going d)) [
    | inr stop ↦ rw stop (Returns-now items (final_error d) (final_error-IsPossible d stop))
    | inl go ↦ elim (Option-cases (round d).0) [
      | inl e ↦ rw (go, e) (Returns-now items (decbuf_error (round d).1.err) tt)
      | inr (a, e) ↦
          let g = going-true d go in
          rw (go, e)
            (Returns-more items a _ (
              read_loop-ends step fuel (round d).1 (items ++ a ∷ [])
                (IsEnough-step fuel d (round d).1 g enough (step d g))))
    ]
  ]

  module _ {κ μ} {B : Type κ} (P : B → Type μ) (bytes : B → List ℕ) (decoded : B → A)
      (pos : (x : B) → 0 < length (bytes x))
      (one : (d : DecBuf) (x : B) (rest : List ℕ)
        → P x
        → IsAt d (bytes x ++ rest)
        → Reads (round d) (some (decoded x)) rest) where
    pub read_loop-reads :
        (fuel : ℕ) (xs : List B) (d : DecBuf) (items : List A)
        → length xs < fuel
        → All P xs
        → IsAt d (concat_map bytes xs)
        → read_loop round fuel d items ≡ some (no_error, items ++ map decoded xs)
    unfolding read_loop
    read_loop-reads zero xs d items enough ps h = absurd (omega arith)
    read_loop-reads (suc fuel) [] d items enough ps h =
        let (stop, clean) = at_end d h in
        rw (stop, clean) (ap (λ (l : List A). some (no_error, l)) (sym (append-nil items)))
    read_loop-reads (suc fuel) (x ∷ xs) d items enough ps h =
        let rest = concat_map bytes xs in
        let go =
          not_at_end d (bytes x ++ rest) h (omega (arith, pos x, length-append (bytes x) rest)) in
        let (item, behind) = one d x rest ps.0 h in
        rw (go, item)
          (read_loop-reads fuel xs (round d).1 (items ++ decoded x ∷ []) (omega arith) ps.1 behind
            ∙ ap (λ (l : List A). some (no_error, l))
                (append_assoc items (decoded x ∷ []) (map decoded xs)))
