-- ===== src/Tsdbutil/EncBuf/Contents.antt =====
-- What each setter of tsdbutil/EncBuf.hpp appends to the contents.
use prom_tcs.Prelude.{
  ℕ, zero, suc, ◌+◌, ◌-◌, ◌/◌, ◌^◌, ◌≤◌, ◌<◌, ◌≡◌, refl, sym, ap, ◌∙◌, List, [], ◌∷◌, ◌++◌,
  append-nil, append_assoc, arith, ltb, ◌==◌, Bool-cases, inl, inr, length, length-append, set,
  take-append_add, replicate, length-replicate, take-all,
}
use prom_tcs.Prelude.Bits.{bit_and_mask}
use prom_tcs.Base.Endian.{max_varint_len_64, put_uint64_big_endian, encode_signed_varint}
use prom_tcs.Base.Endian.Varint.{encode_signed_varint-short}
use prom_tcs.Base.Endian.BigEndian.{be64}
use prom_tcs.Tsdbutil.EncBuf.{
  EncBuf, IsBuf, contents, overwrite, resize, padded, put_byte, put_be_uint64, put_signed_variant,
  take-resize, resize-length, put_lem,
}

-- `e'` has the contents of `e` and some bytes behind them.
abbrev pub Puts : EncBuf → EncBuf → List ℕ → Type 0
Puts e e' bytes = (contents e' ≡ contents e ++ bytes) × IsBuf e'

pub Puts-nil : (e : EncBuf) → IsBuf e → Puts e e []
Puts-nil e ok = (sym (append-nil (contents e)), ok)

pub Puts-trans :
    (e e' e'' : EncBuf) (xs ys : List ℕ) → Puts e e' xs → Puts e' e'' ys → Puts e e'' (xs ++ ys)
Puts-trans e e' e'' xs ys p q =
    (q.0 ∙ ap (λ (l : List ℕ). l ++ ys) p.0 ∙ append_assoc (contents e) xs ys, q.1)

overwrite-none : (b : List ℕ) (at : ℕ) → overwrite b at [] ≡ b
unfolding overwrite
overwrite-none [] at = refl
overwrite-none (x ∷ b) zero = refl
overwrite-none (x ∷ b) (suc at) = ap (◌∷◌ x) (overwrite-none b at)

set-overwrite :
    (b bytes : List ℕ) (at v : ℕ)
    → at < length b
    → set (overwrite b (at + 1) bytes) at v ≡ overwrite b at (v ∷ bytes)
unfolding overwrite
set-overwrite [] bytes at v h = absurd (omega arith)
set-overwrite (x ∷ b) bytes zero v h = refl
set-overwrite (x ∷ b) bytes (suc at) v h =
    let e : suc at + 1 ≡ suc (at + 1) = omega arith in
    rw e (ap (◌∷◌ x) (set-overwrite b bytes at v (omega arith)))

-- One more byte in front of those that are written.
set_before :
    (b b' bytes : List ℕ) (at at' v w : ℕ)
    → at' ≡ at + 1
    → v ≡ w
    → at < length b
    → b' ≡ overwrite b at' bytes
    → set b' at v ≡ overwrite b at (w ∷ bytes)
set_before b b' bytes at at' v w step same h e = rw (e, step, same) (set-overwrite b bytes at w h)

put_uint64_lem :
    (b : List ℕ) (at num : ℕ)
    → at + 8 ≤ length b
    → put_uint64_big_endian b at num ≡ overwrite b at (be64 num)
unfolding put_uint64_big_endian
put_uint64_lem b at num h =
    let low = λ (v : ℕ). bit_and_mask 8 v in
    set_before b _ _ at (at + 1) _ _ (omega arith) (low (num / 2 ^ 56)) (omega arith) (
      set_before b _ _ (at + 1) (at + 2) _ _ (omega arith) (low (num / 2 ^ 48)) (omega arith) (
        set_before b _ _ (at + 2) (at + 3) _ _ (omega arith) (low (num / 2 ^ 40)) (omega arith) (
          set_before b _ _ (at + 3) (at + 4) _ _ (omega arith) (low (num / 2 ^ 32)) (omega arith) (
            set_before b _ _ (at + 4) (at + 5) _ _ (omega arith) (low (num / 2 ^ 24)) (omega arith)
              (set_before b _ _ (at + 5) (at + 6) _ _ (omega arith) (low (num / 2 ^ 16))
                (omega arith)
                (set_before b _ _ (at + 6) (at + 7) _ _ (omega arith) (low (num / 2 ^ 8))
                  (omega arith)
                  (set_before b b [] (at + 7) (at + 8) _ _ (omega arith) (low num) (omega arith)
                    (sym (overwrite-none b (at + 8))))))))))

-- Bytes written over the room that `padded` makes.
room_lem :
    (e e' : EncBuf) (n : ℕ) (bytes : List ℕ)
    → IsBuf e
    → length bytes ≤ n
    → e' ≡ record { b = overwrite (padded e n) e.index bytes; index = e.index + length bytes }
    → Puts e e' bytes
unfolding contents padded
room_lem e e' n bytes ok short same = elim (Bool-cases (ltb (length e.b) (e.index + n))) [
  | inl t ↦
      let m = e.index + n in
      rw (same, t)
        (put_lem e (resize e.b m) bytes (omega (arith, short, resize-length e.b m))
          (take-resize e.b m e.index ok))
  | inr f ↦ rw (same, f) (put_lem e e.b bytes (ground (arith, short)) refl)
]

padded-length : (e : EncBuf) (n : ℕ) → e.index + n ≤ length (padded e n)
unfolding padded resize
padded-length e n = ground (
  arith,
  length-append e.b (replicate (e.index + n - length e.b) 0),
  length-replicate {A = ℕ} (e.index + n - length e.b) 0,
)

pub Puts-be_uint64 : (e : EncBuf) (num : ℕ) → IsBuf e → Puts e (put_be_uint64 e num) (be64 num)
unfolding put_be_uint64
Puts-be_uint64 e num ok = room_lem e _ 8 (be64 num) ok (omega arith) (
    ap (λ (l : List ℕ). record { b = l; index = e.index + 8 })
      (put_uint64_lem (padded e 8) e.index num (padded-length e 8)))

pub Puts-signed_variant :
    (e : EncBuf) (num : ℕ) → IsBuf e → Puts e (put_signed_variant e num) (encode_signed_varint num)
unfolding put_signed_variant
Puts-signed_variant e num ok =
    room_lem e _ max_varint_len_64 (encode_signed_varint num) ok (encode_signed_varint-short num)
      refl

pub Puts-byte : (e : EncBuf) (byte : ℕ) → IsBuf e → Puts e (put_byte e byte) (byte ∷ [])
unfolding put_byte contents
Puts-byte e byte ok = elim (Bool-cases (e.index == length e.b)) [
  | inl t ↦
      let at_end : e.index ≡ length e.b = ground arith in
      rw t (
        take-append_add (e.index + 1) 1 e.b (byte ∷ []) (omega (arith, at_end))
            ∙ ap (λ (l : List ℕ). l ++ byte ∷ []) (sym (take-all e.index e.b at_end)),
        omega (arith, at_end, length-append e.b (byte ∷ [])),
      )
  | inr f ↦ rw f (put_lem e e.b (byte ∷ []) (ground (arith, ok)) refl)
]
