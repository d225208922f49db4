-- ===== src/Chunk/XorChunk/Values.antt =====
-- A value of a sample: the bits that XORAppender::write_delta_value appends are those that
-- XORIterator::read_value reads back.
use native.Mathlib.Nat.{mod-eq_of_lt, pow-le-pow_right}
use prom_tcs.Prelude.{
  ℕ, ◌+◌, ◌-◌, ◌*◌, ◌/◌, ◌%◌, ◌^◌, ◌≤◌, ◌<◌, bit_xor, ◌≡◌, sym, ap, ◌∙◌, Bool, true, false, List,
  ◌∷◌, ◌++◌, arith, ◌⊎◌, inl, inr, IsU64,
}
use prom_tcs.Prelude.Digits.{bits_be, bits_be-mod, div-lt_pow}
use prom_tcs.Chunk.Zeros.{clz, ctz, leading_zeros-lt, trailing_zeros-exact, cut_exact, zeros_leave}
use prom_tcs.Chunk.BitStream.{BitStream, Result, ok, eof, stuck, Reader, read_bit, read_bits}
use prom_tcs.Chunk.BitStream.Read.{IsReader, unread}
use prom_tcs.Chunk.BitStream.ReadBits.{read_bits_lem}
use prom_tcs.Chunk.BitStream.ReadBytes.{read_bit_lem}
use prom_tcs.Chunk.XorAppender.{XorAppender, clamped_clz}
use prom_tcs.Chunk.XorIterator.{
  XorIterator, Step, try_read, counted, ended, significant, add_difference, read_difference,
  set_leading, set_trailing, read_window, first_control, second_control, read_value,
}

-- A read that returns goes on with the body.
pub try_read-ok :
    {A : Type 0} (m : Reader A) (handler : XorIterator → Step) (body : A → XorIterator → Step)
    (it : XorIterator) {a : A} {s : BitStream}
    → m it.bstream ≡ ok a s
    → try_read m handler body it ≡ body a (record it { bstream = s })
unfolding try_read
try_read-ok {A} m handler body it e = ap go e
  where
    go : Result A → Step
    go r = elim r [
      | ok a s ↦ body a (record it { bstream = s })
      | eof s ↦ handler (record it { bstream = s })
      | stuck ↦ handler it
    ]

-- The window of the appender, unless it has none yet, is the one of the iterator.
pub record Window (a : XorAppender) (lead trail : ℕ) : Type 0 where
  pub lead_small : lead ≤ 31
  pub sum_small : lead + trail ≤ 63
  pub same :
      ((a.leading_zero ≡ 0xff) × ((lead ≡ 0) × (trail ≡ 0)))
      ⊎ ((a.leading_zero ≡ lead) × (a.trailing_zero ≡ trail))

-- Two iterators in step with one appender have the same window.
pub Window-unique :
    (a : XorAppender) (lead trail lead' trail' : ℕ)
    → Window a lead trail
    → Window a lead' trail'
    → (lead ≡ lead') × (trail ≡ trail')
Window-unique a lead trail lead' trail' w w' = elim w.same [
  | inl (none, (z, z')) ↦ elim w'.same [
    | inl (none', (y, y')) ↦ (z ∙ sym y, z' ∙ sym y')
    | inr (l, t) ↦ absurd (omega (arith, none, l, w'.lead_small))
  ]
  | inr (l, t) ↦ elim w'.same [
    | inl (none', (y, y')) ↦ absurd (omega (arith, none', l, w.lead_small))
    | inr (l', t') ↦ (sym l ∙ l', sym t ∙ t')
  ]
]

-- Without a window the iterator still has zeros.
pub no-Window :
    (a : XorAppender) (lead trail : ℕ)
    → Window a lead trail
    → a.leading_zero ≡ 0xff
    → (lead ≡ 0) × (trail ≡ 0)
no-Window a lead trail w e = elim w.same [
  | inl (none, zeros) ↦ zeros
  | inr (l, t) ↦ absurd (omega (arith, e, l, w.lead_small))
]

-- The iterator behind a value.
abbrev pub value_read : XorIterator → BitStream → ℕ → ℕ → ℕ → XorIterator
value_read it s v lead trail = record it {
  bstream = s;
  value = v;
  leading_zero = lead;
  trailing_zero = trail;
}

-- `read_value` returns `v` and leaves the digits `rest`, in step with the appender `a'`.
abbrev pub ReadsValue : XorIterator → ℕ → List Bool → XorAppender → Type 0
ReadsValue it v rest a' =
    (s : BitStream) × (lead : ℕ) × (trail : ℕ) × (read_value it
      ≡ counted (value_read it s v lead trail))
    × IsReader s
    × (unread s ≡ rest)
    × Window a' lead trail

-- The difference fits into the window of `lead` and `trail` zeros.
pub record Fits (d lead trail : ℕ) : Type 0 where
  lead_small : lead ≤ 31
  sum_small : lead + trail ≤ 63
  exact : d / 2 ^ trail * 2 ^ trail ≡ d
  small : d / 2 ^ trail < 2 ^ (64 - lead - trail)

pub clamped_le : (d : ℕ) → (clamped_clz d ≤ 31) × (clamped_clz d ≤ clz d)
clamped_le d = ground arith

pub Fits-window :
    (d lead trail : ℕ) → 0 < d → IsU64 d → lead ≤ clamped_clz d → trail ≤ ctz d → Fits d lead trail
Fits-window d lead trail pos h le le' =
    let (c31, cle) = clamped_le d in
    let leave = zeros_leave d pos h in
    let (_, lt) = leading_zeros-lt 64 d h in
    let order : 2 ^ (64 - clz d) ≤ 2 ^ (64 - lead) =
      pow-le-pow_right {n = 2} (omega arith) (omega arith) in
    let exponent : 64 - lead ≡ (64 - lead - trail) + trail = omega arith in
    record {
      lead_small = omega arith;
      sum_small = omega arith;
      exact = cut_exact trail (ctz d) d le' (trailing_zeros-exact 64 d);
      small =
          div-lt_pow (64 - lead - trail) trail (64 - lead) d exponent (omega (arith, lt, order));
    }

-- The bits of a difference, and the value that they give.
pub difference_reads :
    (it : XorIterator) (d v : ℕ) (rest : List Bool)
    → IsReader it.bstream
    → Fits d it.leading_zero it.trailing_zero
    → IsU64 d
    → bit_xor it.value d ≡ v
    → unread it.bstream
      ≡ bits_be (64 - it.leading_zero - it.trailing_zero) (d / 2 ^ it.trailing_zero) ++ rest
    → (s : BitStream) × (read_difference it ≡ counted (record it { bstream = s; value = v }))
      × IsReader s
      × (unread s ≡ rest)
unfolding read_difference add_difference
difference_reads it d v rest r fits small xor e =
    let n = 64 - it.leading_zero - it.trailing_zero in
    let bits = d / 2 ^ it.trailing_zero in
    let (s, reads, r', after) = read_bits_lem n bits it.bstream rest r (omega arith) fits.small e in
    let shifted : bits * 2 ^ it.trailing_zero % 2 ^ 64 ≡ d =
      ap (λ (t : ℕ). t % 2 ^ 64) fits.exact ∙ mod-eq_of_lt small in
    (
      s,
      try_read-ok (read_bits n) ended add_difference it reads
          ∙ ap (λ (x : ℕ). counted (record it { bstream = s; value = x }))
              (ap (bit_xor it.value) shifted ∙ xor),
      r',
      after,
    )

-- The start of `read_value`: the first control bit is 1.
pub changed_reads :
    (it : XorIterator) (second : Bool) (rest : List Bool)
    → IsReader it.bstream
    → unread it.bstream ≡ true ∷ second ∷ rest
    → (s : BitStream) × (read_value it ≡ second_control second (record it { bstream = s }))
      × IsReader s
      × (unread s ≡ rest)
unfolding read_value first_control
changed_reads it second rest r e =
    let (s1, reads, r1, after) = read_bit_lem it.bstream true (second ∷ rest) r e in
    let (s2, reads', r2, after') = read_bit_lem s1 second rest r1 after in
    (
      s2,
      try_read-ok read_bit ended first_control it reads
          ∙ try_read-ok read_bit ended second_control (record it { bstream = s1 }) reads',
      r2,
      after',
    )

pub same_reads :
    (it : XorIterator) (rest : List Bool)
    → IsReader it.bstream
    → unread it.bstream ≡ false ∷ rest
    → (s : BitStream) × (read_value it ≡ counted (record it { bstream = s }))
      × IsReader s
      × (unread s ≡ rest)
unfolding read_value first_control
same_reads it rest r e =
    let (s, reads, r', after) = read_bit_lem it.bstream false rest r e in
    (s, try_read-ok read_bit ended first_control it reads, r', after)

-- The start of `read_difference` with a new window.
pub window_reads :
    (it : XorIterator) (lead bits : ℕ) (rest : List Bool)
    → IsReader it.bstream
    → lead ≤ 31
    → 1 ≤ bits
    → lead + bits ≤ 64
    → unread it.bstream ≡ bits_be 5 lead ++ (bits_be 6 bits ++ rest)
    → (s : BitStream) × (read_window it
        ≡ read_difference
            (record it { bstream = s; leading_zero = lead; trailing_zero = 64 - lead - bits }))
      × IsReader s
      × (unread s ≡ rest)
unfolding read_window set_leading set_trailing
window_reads it lead bits rest r small pos sum e =
    let (s1, reads, r1, after) =
      read_bits_lem 5 lead it.bstream (bits_be 6 bits ++ rest) r (omega arith) (omega arith) e in
    let (s2, reads', r2, after') =
      read_bits_lem 6 (bits % 64) s1 rest r1 (omega arith) (omega arith)
        (after ∙ ap (λ (l : List Bool). l ++ rest) (sym (bits_be-mod 6 bits))) in
    let it1 = record it { bstream = s1 } in
    let trail : (64 + 256 - lead - significant (bits % 64)) % 256 ≡ 64 - lead - bits =
      ground arith in
    (
      s2,
      try_read-ok (read_bits 5) ended set_leading it reads
          ∙ try_read-ok (read_bits 6) ended set_trailing (record it1 { leading_zero = lead }) reads'
          ∙ ap
              (λ (t : ℕ).
                read_difference
                  (record it { bstream = s2; leading_zero = lead; trailing_zero = t }))
              trail,
      r2,
      after',
    )
