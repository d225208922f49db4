-- ===== src/Chunk/BitStream/ReadBytes.antt =====
-- One bit, one byte, and whole bytes that are read.
use native.Mathlib.Nat.{mod-eq_of_lt, one-le-pow, pow-le-pow_right}
use prom_tcs.Prelude.{
  ℕ, zero, suc, ◌+◌, ◌*◌, ◌%◌, ◌^◌, ◌≤◌, ◌<◌, bit_or, ◌≡◌, refl, sym, ap, ◌∙◌, Bool, List, [], ◌∷◌,
  ◌++◌, append_assoc, arith, length, length-append, append_cancel,
}
use prom_tcs.Prelude.Bits.{bit_or_disjoint}
use prom_tcs.Prelude.Digits.{
  bits_be, length-bits_be, bits_be_fields, fields-lt, pow_add, eq_of_bits_be,
}
use prom_tcs.Chunk.BitStream.{
  BitStream, Result, Reader, ok, eof, stuck, ◌>>=◌, refill, take_bit, join_byte, read_bit,
  read_byte, read_bits_bytes,
}
use prom_tcs.Chunk.BitStream.Read.{unread, IsReader, refill-IsReady}
use prom_tcs.Chunk.BitStream.Took.{Took, take_bit_digits, join_byte_digits}

pub Took-append :
    (n m k v w : ℕ) {s s' s'' : BitStream}
    → k ≡ n + m
    → Took n s s' v
    → Took m s' s'' w
    → Took k s s'' (v * 2 ^ m + w)
Took-append n m k v w {s'' = s''} e t u = record {
  value_small = fields-lt n m k v w e t.value_small u.value_small;
  digits =
      t.digits
      ∙ ap (◌++◌ (bits_be n v)) u.digits
      ∙ sym (append_assoc (bits_be n v) (bits_be m w) (unread s''))
      ∙ ap (λ (l : List Bool). l ++ unread s'')
          (sym (bits_be_fields n m k v w (omega arith) u.value_small));
  reader = u.reader;
}

pub length-Took :
    {n v : ℕ} {s s' : BitStream} → Took n s s' v → length (unread s) ≡ n + length (unread s')
length-Took {n} {v} {s' = s'} t =
    omega (arith, ap length t.digits, length-append (bits_be n v) (unread s'), length-bits_be n v)

-- What is read is determined by what comes next.
pub Took-eq :
    (n v w : ℕ) {s s' : BitStream} (rest : List Bool)
    → Took n s s' w
    → v < 2 ^ n
    → unread s ≡ bits_be n v ++ rest
    → (w ≡ v) × (unread s' ≡ rest)
Took-eq n v w {s' = s'} rest t small e =
    let (heads, tails) =
      append_cancel (bits_be n w) (bits_be n v) (unread s') rest
        (omega (arith, length-bits_be n w, length-bits_be n v)) (sym t.digits ∙ e) in
    (eq_of_bits_be n w v t.value_small small heads, tails)

-- A step that returned, inside a chain.
pub >>=-ok :
    {A B : Type 0} (m : Reader A) (f : A → Reader B) (s : BitStream) {a : A} {s' : BitStream}
    → m s ≡ ok a s'
    → (m >>= f) s ≡ f a s'
>>=-ok {A} {B} m f s e = ap (λ (t : Result A). bind_result t f) e
  where
    bind_result : Result A → (A → Reader B) → Result B
    bind_result t f = elim t [ ok a s' ↦ f a s' | eof s' ↦ eof s' | stuck ↦ stuck ]

read_bit_steps : (s : BitStream) {s' : BitStream} → refill s ≡ ok tt s' → read_bit s ≡ take_bit s'
unfolding read_bit
read_bit_steps s e = >>=-ok refill (λ _. take_bit) s e

pub read_byte_steps :
    (s : BitStream) {s' : BitStream} → refill s ≡ ok tt s' → read_byte s ≡ join_byte s'
unfolding read_byte
read_byte_steps s e = >>=-ok refill (λ _. join_byte) s e

-- In a stream whose bytes are bytes and whose end is its length, at any position inside a byte: if
-- the digit `b` is next, `read_bit` returns it, and what is unread afterwards is what followed it.
pub read_bit_lem :
    (s : BitStream) (b : Bool) (rest : List Bool)
    → IsReader s
    → unread s ≡ b ∷ rest
    → (s' : BitStream) × (read_bit s ≡ ok b s') × IsReader s' × (unread s' ≡ rest)
read_bit_lem s b rest r e =
    let (s1, moves, ready, same) = refill-IsReady s r (omega (arith, ap length e)) in
    let (b', s2, takes, digits, r2) = take_bit_digits s1 ready in
    let both = sym digits ∙ same ∙ e in
    let head : b' ≡ b = cc both in
    (s2, read_bit_steps s moves ∙ takes ∙ ap (λ (c : Bool). ok c s2) head, r2, cc both)

pub read_byte-Took :
    (s : BitStream)
    → IsReader s
    → 8 ≤ length (unread s)
    → (v : ℕ) × (s' : BitStream) × (read_byte s ≡ ok v s') × Took 8 s s' v
read_byte-Took s r enough =
    let (s1, moves, ready, same) = refill-IsReady s r (omega (arith, enough)) in
    let (v, s2, joins, took) = join_byte_digits s1 ready (rw same enough) in
    (
      v,
      s2,
      read_byte_steps s moves ∙ joins,
      record {
        value_small = took.value_small;
        digits = sym same ∙ took.digits;
        reader = took.reader;
      },
    )

-- One more field behind `acc`.
pub or_field :
    (a n acc v : ℕ)
    → a + n ≤ 64
    → acc < 2 ^ a
    → v < 2 ^ n
    → bit_or (acc * 2 ^ n % 2 ^ 64) v ≡ acc * 2 ^ n + v
or_field a n acc v fits small small' =
    ap (λ (t : ℕ). bit_or t v)
      (mod-eq_of_lt (
        omega (
          arith,
          fields-lt a n (a + n) acc 0 refl small (one-le-pow n 2 (omega arith)),
          pow-le-pow_right {n = 2} (omega arith) fits,
        )))
    ∙ bit_or_disjoint n acc v small'

pub join_fields :
    (p q k acc v w : ℕ) → k ≡ p + q → (acc * 2 ^ p + v) * 2 ^ q + w ≡ acc * 2 ^ k + (v * 2 ^ q + w)
join_fields p q k acc v w e = rw (e, pow_add p q) (omega arith)

-- `m` reads `n` digits behind the ones in `acc`.
abbrev pub Reads : ℕ → ℕ → BitStream → Result ℕ → Type 0
Reads n acc s m = (v : ℕ) × (s' : BitStream) × (m ≡ ok (acc * 2 ^ n + v) s') × Took n s s' v

read_bits_bytes_steps :
    (k acc : ℕ) (s : BitStream) {v joined : ℕ} {s' : BitStream}
    → read_byte s ≡ ok v s'
    → bit_or (acc * 2 ^ 8 % 2 ^ 64) v ≡ joined
    → read_bits_bytes (suc k) acc s ≡ read_bits_bytes k joined s'
unfolding read_bits_bytes
read_bits_bytes_steps k acc s {s' = s'} e j =
    >>=-ok read_byte (λ temp. read_bits_bytes k (bit_or (acc * 2 ^ 8 % 2 ^ 64) temp)) s e
    ∙ ap (λ (t : ℕ). read_bits_bytes k t s') j

pub zero_digits : (v : ℕ) → bits_be 0 v ≡ []
unfolding bits_be
zero_digits v = refl

Took-zero : (s : BitStream) → IsReader s → Took 0 s s 0
Took-zero s r = record {
  value_small = omega arith;
  digits = sym (ap (λ (l : List Bool). l ++ unread s) (zero_digits 0));
  reader = r;
}

pub read_bits_bytes_took :
    (k a acc : ℕ) (s : BitStream)
    → IsReader s
    → a + k * 8 ≤ 64
    → acc < 2 ^ a
    → k * 8 ≤ length (unread s)
    → Reads (k * 8) acc s (read_bits_bytes k acc s)
read_bits_bytes_took zero a acc s r fits small enough =
    (0, s, unfold read_bits_bytes in ap (λ (t : ℕ). ok t s) (omega arith), Took-zero s r)
read_bits_bytes_took (suc k) a acc s r fits small enough =
    let (v, s1, reads, took) = read_byte-Took s r (omega arith) in
    let grown = or_field a 8 acc v (omega arith) small took.value_small in
    let (w, s2, loops, took') =
      read_bits_bytes_took k (a + 8) (acc * 2 ^ 8 + v) s1 took.reader (omega arith)
        (fields-lt a 8 (a + 8) acc v refl small took.value_small)
        (omega (arith, length-Took took)) in
    (
      v * 2 ^ (k * 8) + w,
      s2,
      read_bits_bytes_steps k acc s reads grown
          ∙ loops
          ∙ ap (λ (t : ℕ). ok t s2) (join_fields 8 (k * 8) (suc k * 8) acc v w (omega arith)),
      Took-append 8 (k * 8) (suc k * 8) v w (omega arith) took took',
    )
