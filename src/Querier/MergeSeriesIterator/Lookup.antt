-- ===== src/Querier/MergeSeriesIterator/Lookup.antt =====
-- What increasing lists of samples have at a time, their merge has.
use prom_tcs.Prelude.{
  ℕ, zero, suc, ◌+◌, ◌≤◌, ◌<◌, ◌≡◌, ◌≢◌, refl, ap, sym, ◌∙◌, false, Option, none, some, List, [],
  ◌∷◌, arith, length, length-append, concat, All, ltb, ◌==◌, if◌then◌else◌, Bool-cases, inl, inr,
}
use prom_tcs.Querier.MergeSeriesIterator.Picks.{least, last_value, least-le}
use prom_tcs.Querier.MergeSeriesIterator.Merged.{
  push, firsts, rest_of, merged, total, Increases, lookup, later_one, found_in, lookup-above,
  total-rest_of, total-smaller, total-push,
}

abbrev AllIncrease : ℕ → List (List (ℕ × ℕ)) → Type 0
AllIncrease low = All (Increases low)

found_in-some :
    (t v : ℕ) (ls : List (List (ℕ × ℕ)))
    → AllIncrease t ls
    → found_in t (some v) ls ≡ some (last_value t v (firsts ls))
unfolding found_in lookup last_value
found_in-some t v [] i = refl
found_in-some t v ([] ∷ ls) i = found_in-some t v ls i.1
found_in-some t v ((x ∷ l) ∷ ls) i = elim (Bool-cases (x.0 == t)) [
  | inl same ↦ rw (found_in, last_value, same) (found_in-some t x.1 ls i.1)
  | inr other ↦
      let above : lookup t l ≡ none =
        lookup-above t (x.0 + 1) l (ground (arith, other, i.0.0)) i.0.1 in
      rw (found_in, last_value, other, above) (found_in-some t v ls i.1)
]

found_in-none :
    (t b w : ℕ) (ls : List (List (ℕ × ℕ)))
    → AllIncrease t ls
    → t ≡ least b (firsts ls)
    → t ≢ b
    → found_in t none ls ≡ some (last_value t w (firsts ls))
unfolding found_in lookup last_value least
found_in-none t b w [] i e n = absurd (n e)
found_in-none t b w ([] ∷ ls) i e n = found_in-none t b w ls i.1 e n
found_in-none t b w ((x ∷ l) ∷ ls) i e n = elim (Bool-cases (x.0 == t)) [
  | inl same ↦ rw (found_in, last_value, same) (found_in-some t x.1 ls i.1)
  | inr other ↦
      let above : lookup t l ≡ none =
        lookup-above t (x.0 + 1) l (ground (arith, other, i.0.0)) i.0.1 in
      let ih =
        found_in-none t (if ltb x.0 b then x.0 else b) w ls i.1 e
          (λ q. ground (arith, n, q, other)) in
      rw (found_in, last_value, other, above) ih
]

found_in-push :
    (s : ℕ) (o : Option ℕ) (l : List (ℕ × ℕ)) (ls : List (List (ℕ × ℕ)))
    → found_in s o (push l ls) ≡ found_in s (later_one o (lookup s l)) ls
unfolding found_in lookup
found_in-push s o [] ls = refl
found_in-push s o (x ∷ l) ls = refl

-- What is taken off has another time.
found_in-rest_of :
    (s t : ℕ) (o : Option ℕ) (ls : List (List (ℕ × ℕ)))
    → s ≢ t
    → found_in s o (rest_of t ls) ≡ found_in s o ls
unfolding found_in lookup rest_of
found_in-rest_of s t o [] n = refl
found_in-rest_of s t o ([] ∷ ls) n = found_in-rest_of s t o ls n
found_in-rest_of s t o ((x ∷ l) ∷ ls) n = elim (Bool-cases (x.0 == t)) [
  | inl same ↦
      let other : x.0 == s ≡ false = ground (arith, same, n) in
      rw (same, other)
        (found_in-push s o l (rest_of t ls) ∙ found_in-rest_of s t (later_one o (lookup s l)) ls n)
  | inr other ↦
      rw other (found_in-rest_of s t (later_one o (if x.0 == s then some x.1 else lookup s l)) ls n)
]

Increases-least :
    (t b low : ℕ) (ls : List (List (ℕ × ℕ)))
    → t ≡ least b (firsts ls)
    → AllIncrease low ls
    → AllIncrease t ls
unfolding least
Increases-least t b low [] e i = tt
Increases-least t b low ([] ∷ ls) e i = (tt, Increases-least t b low ls e i.1)
Increases-least t b low ((x ∷ l) ∷ ls) e i =
    let b' = if ltb x.0 b then x.0 else b in
    ((ground (arith, e, least-le b' (firsts ls)), i.0.1), Increases-least t b' low ls e i.1)

least-low :
    (b low : ℕ) (ls : List (List (ℕ × ℕ)))
    → low ≤ b
    → AllIncrease low ls
    → low ≤ least b (firsts ls)
unfolding least
least-low b low [] h i = h
least-low b low ([] ∷ ls) h i = least-low b low ls h i.1
least-low b low ((x ∷ l) ∷ ls) h i =
    least-low (if ltb x.0 b then x.0 else b) low ls (ground (arith, h, i.0.0)) i.1

push-Increases :
    (low : ℕ) (l : List (ℕ × ℕ)) (ls : List (List (ℕ × ℕ)))
    → Increases low l
    → AllIncrease low ls
    → AllIncrease low (push l ls)
push-Increases low [] ls i is = is
push-Increases low (x ∷ l) ls i is = (i, is)

Increases-later :
    (low high : ℕ) (l : List (ℕ × ℕ)) → low ≤ high → Increases high l → Increases low l
Increases-later low high [] h i = tt
Increases-later low high (x ∷ l) h i = (omega (arith, i.0), i.1)

rest_of-Increases :
    (t : ℕ) (ls : List (List (ℕ × ℕ))) → AllIncrease t ls → AllIncrease (t + 1) (rest_of t ls)
unfolding rest_of
rest_of-Increases t [] i = tt
rest_of-Increases t ([] ∷ ls) i = rest_of-Increases t ls i.1
rest_of-Increases t ((x ∷ l) ∷ ls) i =
    let ih = rest_of-Increases t ls i.1 in
    elim (Bool-cases (x.0 == t)) [
      | inl same ↦ rw same (
          push-Increases (t + 1) l (rest_of t ls)
            (Increases-later (t + 1) (x.0 + 1) l (ground (arith, same)) i.0.1) ih)
      | inr other ↦ rw other ((ground (arith, other, i.0.0), i.0.1), ih)
    ]

-- The merge increases too.
pub merged-Increases :
    (n low : ℕ) (ls : List (List (ℕ × ℕ))) → AllIncrease low ls → Increases low (merged n ls)
unfolding merged
merged-Increases zero low ls i = tt
merged-Increases (suc n) low [] i = tt
merged-Increases (suc n) low ([] ∷ ls) i = tt
merged-Increases (suc n) low ((x ∷ l) ∷ ls) i =
    let t = least x.0 (firsts ls) in
    let below = least-le x.0 (firsts ls) in
    let at_t : Increases t (x ∷ l) = (omega (arith, below), i.0.1) in
    (
      least-low x.0 low ls i.0.0 i.1,
      merged-Increases n (t + 1) (rest_of t ((x ∷ l) ∷ ls))
          (rest_of-Increases t ((x ∷ l) ∷ ls) (at_t, Increases-least t x.0 low ls refl i.1)),
    )

abbrev pub AllNonempty : List (List (ℕ × ℕ)) → Type 0
AllNonempty = All (λ l. 0 < length l)

pub rest_of-nonempty : (t : ℕ) (ls : List (List (ℕ × ℕ))) → AllNonempty (rest_of t ls)
unfolding rest_of
rest_of-nonempty t [] = tt
rest_of-nonempty t ([] ∷ ls) = rest_of-nonempty t ls
rest_of-nonempty t ((x ∷ []) ∷ ls) = elim (Bool-cases (x.0 == t)) [
  | inl same ↦ rw same (rest_of-nonempty t ls)
  | inr other ↦ rw other (omega arith, rest_of-nonempty t ls)
]
rest_of-nonempty t ((x ∷ y ∷ l) ∷ ls) = elim (Bool-cases (x.0 == t)) [
  | inl same ↦ rw same (omega arith, rest_of-nonempty t ls)
  | inr other ↦ rw other (omega arith, rest_of-nonempty t ls)
]

module _ (x : ℕ × ℕ) (l : List (ℕ × ℕ)) (ls : List (List (ℕ × ℕ))) (t : ℕ)
    (e : t ≡ least x.0 (firsts ls)) where
  pub total-first : total (rest_of t ((x ∷ l) ∷ ls)) < total ((x ∷ l) ∷ ls)
  unfolding rest_of
  total-first = elim (Bool-cases (x.0 == t)) [
    | inl same ↦ rw same (
        omega (arith, total-rest_of t ls, total-push l (rest_of t ls), length-append l (concat ls)))
    | inr other ↦
        let ih = total-smaller t x.0 ls e (λ q. ground (arith, q, other)) in
        rw other
          (omega (arith, ih, length-append l (concat (rest_of t ls)), length-append l (concat ls)))
  ]

  found_in-least :
      AllIncrease t ((x ∷ l) ∷ ls)
      → found_in t none ((x ∷ l) ∷ ls) ≡ some (last_value t 0 (x ∷ firsts ls))
  unfolding found_in last_value lookup
  found_in-least i = elim (Bool-cases (x.0 == t)) [
    | inl same ↦ rw (found_in, last_value, same) (found_in-some t x.1 ls i.1)
    | inr other ↦
        let above : lookup t l ≡ none =
          lookup-above t (x.0 + 1) l (ground (arith, other, i.0.0)) i.0.1 in
        rw (found_in, last_value, other, above)
          (found_in-none t x.0 0 ls i.1 e (λ q. ground (arith, q, other)))
  ]

-- The merge has at each time what the last of the lists has that has the time.
pub lookup-merged :
    (n low s : ℕ) (ls : List (List (ℕ × ℕ)))
    → AllIncrease low ls
    → AllNonempty ls
    → total ls ≤ n
    → lookup s (merged n ls) ≡ found_in s none ls
unfolding merged lookup found_in
lookup-merged zero low s [] i a enough = refl
lookup-merged zero low s (l ∷ ls) i a enough =
    absurd (omega (arith, a.0, length-append l (concat ls)))
lookup-merged (suc n) low s [] i a enough = refl
lookup-merged (suc n) low s ([] ∷ ls) i a enough = absurd (omega (arith, a.0))
lookup-merged (suc n) low s ((x ∷ l) ∷ ls) i a enough =
    let t = least x.0 (firsts ls) in
    let at_t : AllIncrease t ((x ∷ l) ∷ ls) =
      ((omega (arith, least-le x.0 (firsts ls)), i.0.1), Increases-least t x.0 low ls refl i.1) in
    let rest = rest_of t ((x ∷ l) ∷ ls) in
    elim (Bool-cases (t == s)) [
      | inl same ↦
          let q : t ≡ s = ground (arith, same) in
          rw (lookup, same)
            (sym (found_in-least x l ls t refl at_t)
              ∙ ap (λ (r : ℕ). found_in r none ((x ∷ l) ∷ ls)) q)
      | inr other ↦
          rw (lookup, other)
            (lookup-merged n (t + 1) s rest (rest_of-Increases t ((x ∷ l) ∷ ls) at_t)
                (rest_of-nonempty t ((x ∷ l) ∷ ls))
                (omega (arith, total-first x l ls t refl, enough))
              ∙ found_in-rest_of s t none ((x ∷ l) ∷ ls) (λ w. ground (arith, w, other)))
    ]
