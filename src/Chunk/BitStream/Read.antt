-- ===== src/Chunk/BitStream/Read.antt =====
-- What the readers return, digit by digit.
use prom_tcs.Prelude.{
  ℕ, zero, suc, ◌+◌, ◌*◌, ◌≤◌, ◌<◌, ◌≡◌, refl, sym, ap, ◌∙◌, ◌⊎◌, inl, inr, Bool, List, [], ◌∷◌,
  ◌++◌, arith, ◌==◌, leb, length, length-append, length-drop, get_or, drop, All, Bool-cases, IsByte,
}
use prom_tcs.Prelude.Digits.{bits_be, bits_of, length-bits_be}
use prom_tcs.Chunk.BitStream.{BitStream, ok, eof, byte_at, refill}

-- The digits from a position on: the last `h` of the byte there, and those of the bytes behind it.
unfoldable pub rest_bits : ℕ → List ℕ → List Bool
rest_bits h [] = []
rest_bits h (x ∷ xs) = bits_be h x ++ bits_of xs

-- The digits that a stream has not returned yet.
unfoldable pub unread : BitStream → List Bool
unfolding rest_bits
unread s = rest_bits s.head_count (drop s.index s.stream)

pub record IsReader (s : BitStream) : Type 0 where
  pub ends : s.end ≡ length s.stream
  pub head_small : s.head_count ≤ 8
  pub bytes : All IsByte s.stream
  pub past_byte : IsByte s.past

-- The bytes from index `i` on: none, or the one there and those behind it.
pub data At (l : List ℕ) (i d : ℕ) : Type 0 where
  behind : drop i l ≡ [] → get_or l i d ≡ d → length l ≤ i → At l i d
  inside :
      (x : ℕ) (xs : List ℕ)
      → drop i l ≡ x ∷ xs
      → drop (suc i) l ≡ xs
      → get_or l i d ≡ x
      → i < length l
      → IsByte x
      → At l i d

pub At-drop : (l : List ℕ) (i d : ℕ) → All IsByte l → At l i d
At-drop [] zero d h = behind refl refl (omega arith)
At-drop [] (suc i) d h = behind refl refl (omega arith)
At-drop (x ∷ l) zero d h = inside x l refl refl refl (omega arith) h.0
At-drop (x ∷ l) (suc i) d h = elim (At-drop l i d h.1) [
  | behind e p le ↦ behind e p (omega arith)
  | inside y ys e t g lt small ↦ inside y ys e t g (omega arith) small
]

-- At a position inside a byte, with a digit of it left.
pub record IsReady (s : BitStream) : Type 0 where
  pub reader : IsReader s
  pub pos : 0 < s.head_count
  pub x : ℕ
  pub xs : List ℕ
  pub here : drop s.index s.stream ≡ x ∷ xs
  pub there : drop (suc s.index) s.stream ≡ xs
  pub byte : byte_at s s.index ≡ x
  pub index_small : s.index < length s.stream
  pub x_small : IsByte x

pub unread-at :
    (s : BitStream) {x : ℕ} {xs : List ℕ}
    → drop s.index s.stream ≡ x ∷ xs
    → unread s ≡ bits_be s.head_count x ++ bits_of xs
unfolding unread
unread-at s e = ap (rest_bits s.head_count) e

pub unread-behind : (s : BitStream) → drop s.index s.stream ≡ [] → unread s ≡ []
unfolding unread
unread-behind s e = ap (rest_bits s.head_count) e

unread-used :
    (s : BitStream) {x : ℕ} {xs : List ℕ}
    → drop s.index s.stream ≡ x ∷ xs
    → s.head_count ≡ 0
    → unread s ≡ bits_of xs
unread-used s {x} {xs} e used =
    unread-at s e ∙ ap (λ (h : ℕ). bits_be h x ++ bits_of xs) used ∙ unfold bits_be in refl

-- The state after `refill` has stepped to the next byte.
abbrev pub stepped : BitStream → BitStream
stepped s = record s { index = s.index + 1; head_count = 8 }

pub drop_next :
    (s : BitStream) {xs : List ℕ}
    → drop (suc s.index) s.stream ≡ xs
    → drop (s.index + 1) s.stream ≡ xs
drop_next s e =
    let same : s.index + 1 ≡ suc s.index = omega arith in ap (λ (i : ℕ). drop i s.stream) same ∙ e

refill_stays :
    (s : BitStream) → IsReader s → s.index < length s.stream → 0 < s.head_count → refill s ≡ ok tt s
unfolding refill
refill_stays s r lt pos = ground (arith, r.ends)

refill_steps :
    (s : BitStream)
    → IsReader s
    → s.index + 1 < length s.stream
    → s.head_count ≡ 0
    → refill s ≡ ok tt (stepped s)
unfolding refill
refill_steps s r lt used = ground (arith, r.ends)

refill_throws :
    (s : BitStream)
    → IsReader s
    → length s.stream ≤ s.index + 1
    → (s.head_count ≡ 0) ⊎ (length s.stream ≤ s.index)
    → (s' : BitStream) × (refill s ≡ eof s')
unfolding refill
refill_throws s r le why = elim (Bool-cases (leb s.end s.index)) [
  | inl t ↦ (s, rw t)
  | inr f ↦ (record s { index = s.index + 1 }, ground (arith, r.ends))
]

-- `refill` moves to the next digit, if there is one.
pub refill-IsReady :
    (s : BitStream)
    → IsReader s
    → 0 < length (unread s)
    → (s' : BitStream) × (refill s ≡ ok tt s') × IsReady s' × (unread s' ≡ unread s)
refill-IsReady s r h = elim (At-drop s.stream s.index s.past r.bytes) [
  | behind e p le ↦ absurd (omega (arith, ap length (unread-behind s e)))
  | inside x xs here there byte lt small ↦ elim (Bool-cases (s.head_count == 0)) [
    | inr left ↦
        let pos : 0 < s.head_count = ground arith in
        (
          s,
          refill_stays s r lt pos,
          record {
            reader = r;
            pos = pos;
            x = x;
            xs = xs;
            here = here;
            there = there;
            byte = byte;
            index_small = lt;
            x_small = small;
          },
          refl,
        )
    | inl zero_left ↦
        let used : s.head_count ≡ 0 = ground arith in
        elim (At-drop s.stream (s.index + 1) s.past r.bytes) [
          | behind e p le ↦ absurd (
              omega (
                arith,
                ap length (unread-used s here used),
                ap length (ap bits_of (sym (drop_next s there) ∙ e)),
                (let none_left : length (bits_of []) ≡ 0 = unfold bits_of in refl in none_left),
              ))
          | inside y ys here' there' byte' lt' small' ↦ (
            stepped s,
            refill_steps s r lt' used,
            record {
              reader = record {
                ends = r.ends;
                head_small = omega arith;
                bytes = r.bytes;
                past_byte = r.past_byte;
              };
              pos = omega arith;
              x = y;
              xs = ys;
              here = here';
              there = there';
              byte = byte';
              index_small = lt';
              x_small = small';
            },
            unread-at (stepped s) here'
                ∙ sym (
                    unread-used s here used
                    ∙ ap bits_of (sym (drop_next s there) ∙ here')
                    ∙ unfold bits_of in refl),
          )
        ]
  ]
]

pub length-bits_of : (xs : List ℕ) → length (bits_of xs) ≡ 8 * length xs
unfolding bits_of
length-bits_of [] = refl
length-bits_of (x ∷ xs) =
    omega (arith, length-append (bits_be 8 x) (bits_of xs), length-bits_be 8 x, length-bits_of xs)

-- At the end of the stream `refill` throws.
pub refill_eof :
    (s : BitStream) → IsReader s → unread s ≡ [] → (s' : BitStream) × (refill s ≡ eof s')
refill_eof s r e = elim (At-drop s.stream s.index s.past r.bytes) [
  | behind e' p le ↦ refill_throws s r (omega arith) (inr le)
  | inside x xs here there byte lt small ↦
      let none_left : 0 ≡ s.head_count + 8 * length xs = omega (
        arith,
        ap length (sym e ∙ unread-at s here),
        length-append (bits_be s.head_count x) (bits_of xs),
        length-bits_be s.head_count x,
        length-bits_of xs,
      ) in
      refill_throws s r
        (omega (arith, none_left, ap length there, length-drop (suc s.index) s.stream))
        (inl (omega (arith, none_left)))
]
