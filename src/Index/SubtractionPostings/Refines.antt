-- ===== src/Index/SubtractionPostings/Refines.antt =====
-- The postings of index/SubtractionPostings.cpp show the difference of two lists.
use prom_tcs.Prelude.{
  ℕ, zero, suc, ◌+◌, ◌≤◌, ◌<◌, ◌≡◌, refl, sym, ap, subst, ◌∙◌, Bool, true, false, not, List, [],
  ◌∷◌, Option, some, arith, ltb, length, Bool-cases, inl, inr, All,
}
use prom_tcs.Index.Postings.{
  Postings, IsPostings, nonempty, drop_less, expand_postings, expand_postings-end,
  expand_postings-step,
}
use prom_tcs.Index.Postings.Lists.{All-less}
use prom_tcs.Index.SubtractionPostings.{
  Subtraction, branch, subtraction, full_next, take_full, drop_seek, subtract_loop, initialize,
  subtract_next, subtract_at,
}
use prom_tcs.Index.SubtractionPostings.Branches.{
  if_false, branch-ended, branch_alone, branch_less, branch_more, branch_same,
}
use prom_tcs.Index.SubtractionPostings.Lists.{
  elem, without, elem-above, without-drop_less, All-weaken, length-drop_less_head,
}

module _ {ℓ κ} {S : Type ℓ} {T : Type κ} (p : Postings S) (q : Postings T) (c : IsPostings p)
    (e : IsPostings q) where
  -- The two cursors show what is left of the two lists.
  pub record Remains (s : Subtraction S T) (f d : List ℕ) : Type (ℓ ⊔ κ) where
    pub full_left : s.full_ok ≡ nonempty f
    pub drop_left : s.drop_ok ≡ nonempty d
    pub full_at : c.Current s.full f
    pub drop_at : e.Current s.drop d
    pub begun : s.initialized ≡ true

  full_next-Remains :
      (s : Subtraction S T) (x : ℕ) (f d : List ℕ)
      → Remains s (x ∷ f) d
      → Remains (full_next p q s) f d
  unfolding full_next
  full_next-Remains s x f d h =
      let (found, cur) = c.next-current s.full x f h.full_at in
      record {
        full_left = found;
        drop_left = h.drop_left;
        full_at = cur;
        drop_at = h.drop_at;
        begun = h.begun;
      }

  drop_seek-Remains :
      (s : Subtraction S T) (v : ℕ) (f d : List ℕ)
      → Remains s f d
      → Remains (drop_seek p q s v) f (drop_less v d)
  unfolding drop_seek
  drop_seek-Remains s v f d h =
      let (found, cur) = e.seek-current s.drop v d h.drop_at in
      record {
        full_left = h.full_left;
        drop_left = found;
        full_at = h.full_at;
        drop_at = cur;
        begun = h.begun;
      }

  -- A call stands at the first number that is left of the difference, with the others still to come.
  abbrev pub After : ℕ → Subtraction S T → List ℕ → Type (ℓ ⊔ κ)
  After bound s [] = Unit
  After bound s (x ∷ r) =
      (s.cur ≡ x)
      × (f : List ℕ) × (d : List ℕ) × Remains s f d
      × (without f d ≡ r)
      × (length f + length d < bound)

  abbrev pub Gives : ℕ → Option (Bool × Subtraction S T) → List ℕ → Type (ℓ ⊔ κ)
  Gives bound o l = (s : Subtraction S T) × (o ≡ some (nonempty l, s)) × After bound s l

  take_full-Gives :
      (bound : ℕ) (s : Subtraction S T) (x : ℕ) (f d : List ℕ)
      → Remains s (x ∷ f) d
      → length f + length d < bound
      → Gives bound (some (true, take_full p q s)) (x ∷ without f d)
  unfolding take_full full_next
  take_full-Gives bound s x f d h few = (
    take_full p q s,
    refl,
    (
      c.at-current s.full x f h.full_at,
      f,
      d,
      (let (found, cur) = c.next-current s.full x f h.full_at in
          record {
            full_left = found;
            drop_left = h.drop_left;
            full_at = cur;
            drop_at = h.drop_at;
            begun = h.begun;
          }),
      refl,
      few,
    ),
  )

  Gives-eq :
      (bound : ℕ) (o o' : Option (Bool × Subtraction S T)) (l l' : List ℕ)
      → o ≡ o'
      → l ≡ l'
      → Gives bound o' l'
      → Gives bound o l
  Gives-eq bound o o' l l' same same' g = rw (same, same') g

  -- One round of the loop.
  stepped :
      (fuel : ℕ) (s : Subtraction S T) (o : Option (Bool × Subtraction S T))
      → branch s.full_ok s.drop_ok
          (ltb (p.at s.full) (q.at s.drop))
          (ltb (q.at s.drop) (p.at s.full))
          (some (false, s))
          (some (true, take_full p q s))
          (subtract_loop p q fuel (drop_seek p q s (p.at s.full)))
          (subtract_loop p q fuel (full_next p q s))
        ≡ o
      → subtract_loop p q (suc fuel) s ≡ o
  unfolding subtract_loop
  stepped fuel s o same = same

  loop-Gives :
      (bound fuel : ℕ) (s : Subtraction S T) (f d : List ℕ)
      → Remains s f d
      → length f + length d < fuel
      → fuel ≤ bound
      → Gives bound (subtract_loop p q fuel s) (without f d)
  loop-Gives bound zero s f d h enough le = absurd (omega arith)
  loop-Gives bound (suc fuel) s [] d h enough le =
      Gives-eq bound (subtract_loop p q (suc fuel) s) (some (false, s)) [] []
        (stepped fuel s _ (branch-ended _ _ _ _ _ _ _ _ h.full_left)) refl (s, refl, tt)
  loop-Gives bound (suc fuel) s (x ∷ f) [] h enough le =
      Gives-eq bound (subtract_loop p q (suc fuel) s) (some (true, take_full p q s))
        (x ∷ without f []) (x ∷ without f [])
        (stepped fuel s _ (branch_alone _ _ _ _ _ _ _ _ h.full_left h.drop_left)) refl
        (take_full-Gives bound s x f [] h (omega arith))
  loop-Gives bound (suc fuel) s (x ∷ f) (y ∷ d) h enough le =
      let at_full = c.at-current s.full x f h.full_at in
      let at_drop = e.at-current s.drop y d h.drop_at in
      let f_inc = c.increasing s.full (x ∷ f) h.full_at in
      let d_inc = e.increasing s.drop (y ∷ d) h.drop_at in
      elim (Bool-cases (ltb (p.at s.full) (q.at s.drop))) [
        | inl less ↦
            let lt : x < y = ground (arith, less, at_full, at_drop) in
            let out = elem-above x (y ∷ d) (lt, All-less x y d lt d_inc.0) in
            Gives-eq bound (subtract_loop p q (suc fuel) s) (some (true, take_full p q s))
              (without (x ∷ f) (y ∷ d)) (x ∷ without f (y ∷ d))
              (stepped fuel s _ (branch_less _ _ _ _ _ _ _ _ h.full_left h.drop_left less))
              (rw out refl) (take_full-Gives bound s x f (y ∷ d) h (omega arith))
        | inr not_less ↦ elim (Bool-cases (ltb (q.at s.drop) (p.at s.full))) [
          | inl more ↦
              let v = p.at s.full in
              let low =
                subst (λ (k : ℕ). All (λ z. k ≤ z) (x ∷ f)) (sym at_full)
                  (omega arith, All-weaken x f f_inc.0) in
              let fewer = length-drop_less_head v y d (ground (arith, more, at_drop)) in
              Gives-eq bound (subtract_loop p q (suc fuel) s)
                (subtract_loop p q fuel (drop_seek p q s v)) (without (x ∷ f) (y ∷ d))
                (without (x ∷ f) (drop_less v (y ∷ d)))
                (stepped fuel s _
                  (branch_more _ _ _ _ _ _ _ _ h.full_left h.drop_left not_less more))
                (sym (without-drop_less v (x ∷ f) (y ∷ d) low))
                (loop-Gives bound fuel (drop_seek p q s v) (x ∷ f) (drop_less v (y ∷ d))
                  (drop_seek-Remains s v (x ∷ f) (y ∷ d) h) (omega (arith, fewer, enough))
                  (omega arith))
          | inr not_more ↦
              let same : elem x (y ∷ d) ≡ true =
                ground (arith, not_less, not_more, at_full, at_drop) in
              Gives-eq bound (subtract_loop p q (suc fuel) s)
                (subtract_loop p q fuel (full_next p q s)) (without (x ∷ f) (y ∷ d))
                (without f (y ∷ d))
                (stepped fuel s _
                  (branch_same _ _ _ _ _ _ _ _ h.full_left h.drop_left not_less not_more))
                (rw same refl)
                (loop-Gives bound fuel (full_next p q s) f (y ∷ d)
                  (full_next-Remains s x f (y ∷ d) h) (omega (arith, enough)) (omega arith))
        ]
      ]

  initialize-Remains :
      (s : S) (t : T) (i : Bool × Bool × ℕ) (f d : List ℕ)
      → c.Ahead s f
      → e.Ahead t d
      → Remains (initialize p q (subtraction p q s t i)) f d
  unfolding initialize full_next subtraction
  initialize-Remains s t i f d h h' =
      let (found, cur) = c.next-ahead s f h in
      let (found', cur') = e.next-ahead t d h' in
      record { full_left = found; drop_left = found'; full_at = cur; drop_at = cur'; begun = refl }

  initialize_again : (s : Subtraction S T) (f d : List ℕ) → Remains s f d → initialize p q s ≡ s
  unfolding initialize
  initialize_again s f d h = if_false (not s.initialized) _ s (ap not h.begun)

  expand-later :
      (bound : ℕ) (l : List ℕ) (n : ℕ) (s : Subtraction S T)
      → length l < n
      → Gives bound (subtract_next p q bound s) l
      → expand_postings (subtract_next p q bound) (subtract_at p q) n s ≡ some l
  unfolding subtract_next subtract_at
  expand-later bound l zero s enough g = absurd (omega arith)
  expand-later bound [] (suc n) s enough (s', same, after) =
      expand_postings-end (subtract_next p q bound) (subtract_at p q) n s s' same
  expand-later bound (x ∷ r) (suc n) s enough (s', same, (at_x, f, d, h, left, few)) =
      expand_postings-step (subtract_next p q bound) (subtract_at p q) n s s' r same (
        expand-later bound r n s' (omega arith) (
          Gives-eq bound (subtract_next p q bound s') (subtract_loop p q bound s') r (without f d)
            (ap (subtract_loop p q bound) (initialize_again s' f d h)) (sym left)
            (loop-Gives bound bound s' f d h few (omega arith))))
      ∙ ap (λ (y : ℕ). some (y ∷ r)) at_x

  -- Where neither of two postings has been moved yet, expanding their subtraction returns the
  -- numbers of the first one's list that the second one's list does not have, in order, whatever
  -- the members without a value are. The fuel of each call is more than the numbers of both lists,
  -- and there are more calls than numbers in the result.
  pub expand_postings-subtraction :
      (bound n : ℕ) (s : S) (t : T) (i : Bool × Bool × ℕ) (f d : List ℕ)
      → c.Ahead s f
      → e.Ahead t d
      → length f + length d < bound
      → length (without f d) < n
      → expand_postings (subtract_next p q bound) (subtract_at p q) n (subtraction p q s t i)
        ≡ some (without f d)
  unfolding subtract_next
  expand_postings-subtraction bound n s t i f d h h' few enough =
      expand-later bound (without f d) n (subtraction p q s t i) enough (
        loop-Gives bound bound (initialize p q (subtraction p q s t i)) f d
          (initialize-Remains s t i f d h h') few (omega arith))
