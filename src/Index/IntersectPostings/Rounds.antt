-- ===== src/Index/IntersectPostings/Rounds.antt =====
-- What a round of `recursive_next` in index/IntersectPostings.cpp does to the lists of the postings.
use prom_tcs.Prelude.{
  ℕ, ◌≤◌, ◌<◌, ◌≡◌, ◌⊎◌, ◌↔◌, inl, inr, refl, sym, ap, subst, ◌∙◌, Bool, true, false, not, ◌&&◌,
  List, [], ◌∷◌, Option, none, some, arith, ltb, Bool-cases, All,
}
use prom_tcs.Index.Postings.{Postings, IsPostings, nonempty, drop_less, IsIncreasing}
use prom_tcs.Index.Postings.Lists.{
  Member, InAll, Member-head, Member-drop_less_iff, drop_less-IsIncreasing, count_above_mono,
  count_above-drop_less, count_above-less, count_above, count_all, count_all_mono, drop_less-Member,
  drop_less-ge,
}
use prom_tcs.Index.IntersectPostings.{raised, round}

-- The list begins with the number.
abbrev pub HasHead : ℕ → List ℕ → Type 0
HasHead x [] = ⊥
HasHead x (y ∷ l) = y ≡ x

-- The common numbers from `max` on are those of the other lists from `max'` on.
abbrev pub SameFrom : ℕ → List (List ℕ) → ℕ → List (List ℕ) → Type 0
SameFrom max ls max' ls' = (x : ℕ) → ((max ≤ x) × InAll x ls) ↔ ((max' ≤ x) × InAll x ls')

-- There are fewer numbers above any one.
abbrev pub Fewer : List (List ℕ) → List (List ℕ) → Type 0
Fewer ls' ls = (u : ℕ) → count_all u ls' ≤ count_all u ls

and-false : (b : Bool) → b && false ≡ false
and-false true = refl
and-false false = refl

module _ {ℓ} {S : Type ℓ} (p : Postings S) (c : IsPostings p) where
  -- The postings show the lists, one by one.
  abbrev pub Shows : List S → List (List ℕ) → Type 0
  Shows [] [] = Unit {0}
  Shows [] (l ∷ ls) = ⊥
  Shows (s ∷ ss) [] = ⊥
  Shows (s ∷ ss) (l ∷ ls) = c.Current s l × Shows ss ls

  -- One of the postings is at its end, and those in front of it are not ahead.
  pub data Ended : List S → Type ℓ where
    at_end : {s : S} {ss : List S} → c.Current s [] → Ended (s ∷ ss)
    behind : {s : S} {ss : List S} (l : List ℕ) → c.Current s l → Ended ss → Ended (s ∷ ss)

  -- The ways in which a round ends.
  pub data Round (max : ℕ) (ls : List (List ℕ)) : Option (ℕ × Bool) × List S → Type ℓ where
    exhausted :
        {ss : List S} → Ended ss → ((x : ℕ) → max ≤ x → ¬ InAll x ls) → Round max ls (none, ss)
    agreed :
        {ss : List S} (ls' : List (List ℕ))
        → Shows ss ls'
        → SameFrom max ls max ls'
        → All (HasHead max) ls'
        → Fewer ls' ls
        → Round max ls (some (max, true), ss)
    raised_to :
        {ss : List S} (max' : ℕ) (ls' : List (List ℕ))
        → Shows ss ls'
        → SameFrom max ls max' ls'
        → max < max'
        → Fewer ls' ls
        → count_all max' ls' < count_all max ls
        → Round max ls (some (max', false), ss)

  module _ (max h : ℕ) (l t : List ℕ) (ls : List (List ℕ)) (inc : IsIncreasing l)
      (e : drop_less max l ≡ h ∷ t) where
    head-ge : max ≤ h
    head-ge = drop_less-ge max h l inc (subst (Member h) (sym e) (inl refl))

    head-Member : Member h l
    head-Member = drop_less-Member max h l (subst (Member h) (sym e) (inl refl))

    -- The lists behind the first are treated from its head on.
    cons-SameFrom :
        (max' : ℕ) (ls' : List (List ℕ))
        → SameFrom h ls max' ls'
        → SameFrom max (l ∷ ls) max' ((h ∷ t) ∷ ls')
    cons-SameFrom max' ls' same x = (
      λ (le, (m, ms)).
          let m' = subst (Member x) e ((Member-drop_less_iff max x l inc).1 (le, m)) in
          let inc' = subst IsIncreasing e (drop_less-IsIncreasing max l inc) in
          let (le', ms') = (same x).0 (Member-head h x t inc' m', ms) in (le', (m', ms')),
      λ (le', (m', ms')).
          let (le, m) = (Member-drop_less_iff max x l inc).0 (subst (Member x) (sym e) m') in
          (le, (m, ((same x).1 (le', ms')).1)),
    )

    cons-Fewer : (ls' : List (List ℕ)) → Fewer ls' ls → Fewer ((h ∷ t) ∷ ls') (l ∷ ls)
    cons-Fewer ls' few u = omega (
      arith,
      few u,
      subst (λ (k : List ℕ). count_above u k ≤ count_above u l) e (count_above-drop_less max u l),
    )

    count-le : (max' : ℕ) → h ≤ max' → count_above max' (h ∷ t) ≤ count_above max l
    count-le max' le = omega (
      arith,
      head-ge,
      count_above_mono max max' l,
      subst (λ (k : List ℕ). count_above max' k ≤ count_above max' l) e
          (count_above-drop_less max max' l),
    )

    count-less : (max' : ℕ) → h ≤ max' → max < h → count_above max' (h ∷ t) < count_above max l
    count-less max' le less = omega (
      arith,
      count_above-less max h l head-Member less,
      count_above_mono h max' l le,
      subst (λ (k : List ℕ). count_above max' k ≤ count_above max' l) e
          (count_above-drop_less max max' l),
    )

  -- No common number is left where the first list has none.
  first-exhausted :
      (max x : ℕ) (l : List ℕ) (ls : List (List ℕ))
      → IsIncreasing l
      → drop_less max l ≡ []
      → max ≤ x
      → ¬ InAll x (l ∷ ls)
  first-exhausted max x l ls inc e le m =
      subst (Member x) e ((Member-drop_less_iff max x l inc).1 (le, m.0))

  -- The round behind the first of the postings.
  abbrev after : ℕ → S → Option (ℕ × Bool) × List S → Option (ℕ × Bool) × List S
  after max s' (result, ss') = (
    elim result as (λ r. Option (ℕ × Bool)) [
      | none ↦ none
      | some (max', find) ↦ some (max', not (ltb max (p.at s')) && find)
    ],
    s' ∷ ss',
  )

  cons-Round :
      (max h : ℕ) (l t : List ℕ) (ls : List (List ℕ)) (s' : S)
      → IsIncreasing l
      → drop_less max l ≡ h ∷ t
      → c.Current s' (h ∷ t)
      → (rest : Option (ℕ × Bool) × List S) → Round h ls rest
      → Round max (l ∷ ls) (after max s' rest)
  cons-Round max h l t ls s' inc e cur rest (exhausted ended none_before) =
      exhausted (behind (h ∷ t) cur ended) (λ x le m.
        let inc' = subst IsIncreasing e (drop_less-IsIncreasing max l inc) in
        let m' = subst (Member x) e ((Member-drop_less_iff max x l inc).1 (le, m.0)) in
        none_before x (Member-head h x t inc' m') m.1)
  cons-Round max h l t ls s' inc e cur rest (agreed ls' shows same heads few) =
      let at_h = c.at-current s' h t cur in
      elim (Bool-cases (ltb max h)) [
        | inl more ↦
            let up : max < h = ground arith in
            rw (at_h, more)
              (raised_to h ((h ∷ t) ∷ ls') (cur, shows)
                (cons-SameFrom max h l t ls inc e h ls' same) up
                (cons-Fewer max h l t ls inc e ls' few)
                (omega (
                  arith,
                  few h,
                  count-less max h l t ls inc e h (omega arith) up,
                  count_all_mono max h ls (omega (arith, up)),
                )))
        | inr not_more ↦
            let eq : h ≡ max = ground (arith, head-ge max h l t ls inc e) in
            let same' = cons-SameFrom max h l t ls inc e h ls' same in
            rw (at_h, not_more)
              (subst (λ (k : ℕ). Round max (l ∷ ls) (some (k, true), s' ∷ rest.1)) (sym eq)
                (agreed ((h ∷ t) ∷ ls') (cur, shows)
                  (subst (λ (k : ℕ). SameFrom max (l ∷ ls) k ((h ∷ t) ∷ ls')) eq same')
                  (eq, subst (λ (k : ℕ). All (HasHead k) ls') eq heads)
                  (cons-Fewer max h l t ls inc e ls' few)))
      ]
  cons-Round max h l t ls s' inc e cur rest (raised_to max' ls' shows same less few fewer) =
      let at_h = c.at-current s' h t cur in
      let le = head-ge max h l t ls inc e in
      let never : not (ltb max (p.at s')) && false ≡ false = and-false (not (ltb max (p.at s'))) in
      rw never (
        raised_to max' ((h ∷ t) ∷ ls') (cur, shows) (cons-SameFrom max h l t ls inc e max' ls' same)
          (omega (arith, le)) (cons-Fewer max h l t ls inc e ls' few)
          (omega (
            arith,
            fewer,
            count-le max h l t ls inc e max' (omega arith),
            count_all_mono max h ls le,
          )))

  raised-head :
      (max h : ℕ) (t : List ℕ) (s : S) → c.Current s (h ∷ t) → max ≤ h → raised p max s ≡ h
  unfolding raised
  raised-head max h t s cur le = rw (c.at-current s h t cur) (ground arith)

  pub List-cases : (l : List ℕ) → (l ≡ []) ⊎ ((h : ℕ) × (t : List ℕ) × (l ≡ h ∷ t))
  List-cases [] = inl refl
  List-cases (h ∷ t) = inr (h, t, refl)

  pub round-Round :
      (ss : List S) (ls : List (List ℕ)) (max : ℕ) → Shows ss ls → Round max ls (round p max ss)
  unfolding round
  round-Round [] [] max shows = agreed [] tt (λ x. (λ h. h, λ h. h)) tt (λ u. omega arith)
  round-Round [] (l ∷ ls) max shows = absurd shows
  round-Round (s ∷ ss) [] max shows = absurd shows
  round-Round (s ∷ ss) (l ∷ ls) max shows =
      let inc = c.increasing s l shows.0 in
      let (found, cur) = c.seek-current s max l shows.0 in
      let s' = (p.seek s max).1 in
      elim (List-cases (drop_less max l)) [
        | inl e ↦
            let none_found : (p.seek s max).0 ≡ false = found ∙ ap nonempty e in
            rw none_found (
              exhausted (at_end (subst (c.Current s') e cur))
                (λ x le. first-exhausted max x l ls inc e le))
        | inr (h, t, e) ↦
            let one_found : (p.seek s max).0 ≡ true = found ∙ ap nonempty e in
            let cur' = subst (c.Current s') e cur in
            rw (one_found, raised-head max h t s' cur' (head-ge max h l t ls inc e))
              (cons-Round max h l t ls s' inc e cur' (round p h ss) (round-Round ss ls h shows.1))
      ]
