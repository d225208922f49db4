-- ===== src/Index/UnionPostings/Sets.antt =====
-- The set into which index/UnionPostings.cpp inserts the numbers.
use prom_tcs.Prelude.{
  ℕ, ◌<◌, ◌≡◌, ◌⊎◌, ◌↔◌, inl, inr, ◌∙◌, List, [], ◌∷◌, arith, ltb, Bool-cases, All,
}
use prom_tcs.Index.Postings.{IsIncreasing}
use prom_tcs.Index.Postings.Lists.{Member, All-less}
use prom_tcs.Index.UnionPostings.{insert_set, insert_all}

-- A number of some of the lists.
abbrev pub InSome : ℕ → List (List ℕ) → Type 0
InSome x [] = ⊥
InSome x (l ∷ ls) = Member x l ⊎ InSome x ls

insert_set-above :
    (z x : ℕ) (s : List ℕ) → z < x → All (λ y. z < y) s → All (λ y. z < y) (insert_set x s)
unfolding insert_set
insert_set-above z x [] h above = (h, tt)
insert_set-above z x (y ∷ s) h above = elim (Bool-cases (ltb x y)) [
  | inl t ↦ rw t (h, above)
  | inr f ↦ elim (Bool-cases (ltb y x)) [
    | inl t ↦ rw (f, t) (above.0, insert_set-above z x s h above.1)
    | inr f' ↦ rw (f, f') above
  ]
]

insert_set-IsIncreasing : (x : ℕ) (s : List ℕ) → IsIncreasing s → IsIncreasing (insert_set x s)
unfolding insert_set
insert_set-IsIncreasing x [] inc = (tt, tt)
insert_set-IsIncreasing x (y ∷ s) inc = elim (Bool-cases (ltb x y)) [
  | inl t ↦ let less : x < y = ground arith in rw t ((less, All-less x y s less inc.0), inc)
  | inr f ↦ elim (Bool-cases (ltb y x)) [
    | inl t ↦
        rw (f, t) (insert_set-above y x s (ground arith) inc.0, insert_set-IsIncreasing x s inc.1)
    | inr f' ↦ rw (f, f') inc
  ]
]

insert_set-Member : (x z : ℕ) (s : List ℕ) → Member z (insert_set x s) ↔ ((z ≡ x) ⊎ Member z s)
unfolding insert_set
insert_set-Member x z [] = (λ m. m, λ m. m)
insert_set-Member x z (y ∷ s) = elim (Bool-cases (ltb x y)) [
  | inl t ↦ rw t (λ m. m, λ m. m)
  | inr f ↦ elim (Bool-cases (ltb y x)) [
    | inl t ↦
        let rest = insert_set-Member x z s in
        rw (f, t)
          (
            λ m. elim m [
              | inl e ↦ inr (inl e)
              | inr m' ↦ elim (rest.0 m') [ inl e ↦ inl e | inr m'' ↦ inr (inr m'') ]
            ],
            λ m. elim m [
              | inl e ↦ inr (rest.1 (inl e))
              | inr m' ↦ elim m' [ inl e ↦ inl e | inr m'' ↦ inr (rest.1 (inr m'')) ]
            ],
          )
    | inr f' ↦
        let same : x ≡ y = ground arith in
        rw (f, f') (λ m. inr m, λ m. elim m [ inl e ↦ inl (e ∙ same) | inr m' ↦ m' ])
  ]
]

pub insert_all-IsIncreasing : (d s : List ℕ) → IsIncreasing s → IsIncreasing (insert_all d s)
unfolding insert_all
insert_all-IsIncreasing [] s inc = inc
insert_all-IsIncreasing (x ∷ d) s inc =
    insert_all-IsIncreasing d (insert_set x s) (insert_set-IsIncreasing x s inc)

pub insert_all-Member :
    (d s : List ℕ) (z : ℕ) → Member z (insert_all d s) ↔ (Member z d ⊎ Member z s)
unfolding insert_all
insert_all-Member [] s z =
    (λ m. inr m, λ m. elim m [ inl none_there ↦ absurd none_there | inr m' ↦ m' ])
insert_all-Member (x ∷ d) s z =
    let rest = insert_all-Member d (insert_set x s) z in
    let first = insert_set-Member x z s in
    (
      λ m. elim (rest.0 m) [
        | inl m' ↦ inl (inr m')
        | inr m' ↦ elim (first.0 m') [ inl e ↦ inl (inl e) | inr m'' ↦ inr m'' ]
      ],
      λ m. elim m [
        | inl m' ↦ elim m' [ inl e ↦ rest.1 (inr (first.1 (inl e))) | inr m'' ↦ rest.1 (inl m'') ]
        | inr m' ↦ rest.1 (inr (first.1 (inr m')))
      ],
    )
