-- ===== src/Index/IntersectPostings/Laws.antt =====
-- `next`, `seek` and `at` of index/IntersectPostings.cpp on the intersection of the lists.
use prom_tcs.Prelude.{
  ℕ, zero, suc, ◌≤◌, ◌<◌, ◌≡◌, ◌↔◌, inl, inr, refl, ap, subst, ◌∙◌, true, false, List, [], ◌∷◌,
  Option, none, some, arith, map, length, All,
}
use prom_tcs.Index.Postings.{
  Postings, IsPostings, nonempty, drop_less, IsIncreasing, expand_postings, expand_postings-end,
  expand_postings-step,
}
use prom_tcs.Index.Postings.Lists.{
  Member, InAll, Member-above, Member-drop_less_iff, drop_less-IsIncreasing, count_all,
  count_above-drop_less,
}
use prom_tcs.Index.IntersectPostings.{next_all, seek_all, at_all, move_all, moved, raised}
use prom_tcs.Index.IntersectPostings.Rounds.{
  HasHead, Fewer, Shows, Ended, at_end, behind, List-cases,
}
use prom_tcs.Index.IntersectPostings.Settling.{Moves, moved-Settles, move_all-AllMoved}
use prom_tcs.Index.IntersectPostings.Refines.{
  StandsAt, View, Shown, Settles-Shown, tails, next-Moves, tails-Fewer, InAll-tails, tails-InAll,
  tails-above, not_all, heads-le,
}

module _ {ℓ} {S : Type ℓ} (p : Postings S) (c : IsPostings p) (fuel : ℕ) where
  -- Before the first call.
  pub record StandsAhead (ss : List S) (l : List ℕ) : Type ℓ where
    pub ls : List (List ℕ)
    pub moves : Moves p c p.next ss ls
    pub members : (y : ℕ) → Member y l ↔ InAll y ls
    pub increasing : IsIncreasing l
    pub enough : count_all 0 ls < fuel

  pub next_all-ahead :
      (ss : List S) (l : List ℕ) → StandsAhead ss l → Shown p c fuel (next_all p fuel ss) l
  unfolding next_all
  next_all-ahead ss l v =
      Settles-Shown p c fuel 0 v.ls l _ v.increasing
        (λ y. (λ m. (omega arith, (v.members y).0 m), λ h. (v.members y).1 h.1)) v.enough
        (moved-Settles p c fuel v.ls _ v.enough (move_all-AllMoved p c p.next ss v.ls 0 v.moves))

  next_from :
      (x : ℕ) (t : List ℕ) (ss : List S) (ls : List (List ℕ))
      → Shows p c ss ls
      → All (HasHead x) ls
      → ((y : ℕ) → Member y (x ∷ t) ↔ ((x ≤ y) × InAll y ls))
      → IsIncreasing (x ∷ t)
      → (y : ℕ) → Member y t ↔ ((0 ≤ y) × InAll y (tails p c fuel ls))
  next_from x t [] [] shows heads members inc y =
      absurd (not_all x (x ∷ t) (λ z le. (members z).1 (le, tt)))
  next_from x t [] (l ∷ ls) shows heads members inc y = absurd shows
  next_from x t (s ∷ ss) [] shows heads members inc y = absurd shows
  next_from x t (s ∷ ss) (l ∷ ls) shows heads members inc y = (
    λ m. (
      omega arith,
      InAll-tails p c fuel x y (l ∷ ls) heads (Member-above x y t inc.0 m)
          ((members y).0 (inr m)).1,
    ),
    λ h.
        let less = tails-above p c fuel x y s ss l ls shows heads h.1 in
        elim ((members y).1 (omega (arith, less), tails-InAll p c fuel y (l ∷ ls) h.1)) [
          | inl e ↦ absurd (omega (arith, less, e))
          | inr m ↦ m
        ],
  )

  -- If the parts stand at a common number, and the numbers from it on that are in the lists of all
  -- parts form an increasing list, then `next` of the intersection returns, tells whether there is
  -- another common number, and leaves the parts at it, or one of them at its end.
  pub next_all-Shown :
      (ss : List S) (x : ℕ) (t : List ℕ)
      → StandsAt p c fuel ss x t
      → Shown p c fuel (next_all p fuel ss) t
  unfolding next_all
  next_all-Shown ss x t v =
      let ts = tails p c fuel v.ls in
      let enough : count_all 0 ts < fuel = omega (arith, v.enough, tails-Fewer p c fuel v.ls 0) in
      Settles-Shown p c fuel 0 ts t _ v.increasing.1
        (next_from x t ss v.ls v.shows v.heads v.members v.increasing) enough
        (moved-Settles p c fuel ts _ enough
          (move_all-AllMoved p c p.next ss ts 0 (next-Moves p c fuel x ss v.ls v.shows v.heads)))

  seek-Moves :
      (v : ℕ) (ss : List S) (ls : List (List ℕ))
      → Shows p c ss ls
      → Moves p c (λ s. p.seek s v) ss (map (drop_less v) ls)
  seek-Moves v [] [] shows = tt
  seek-Moves v [] (l ∷ ls) shows = absurd shows
  seek-Moves v (s ∷ ss) [] shows = absurd shows
  seek-Moves v (s ∷ ss) (l ∷ ls) shows = (c.seek-current s v l shows.0, seek-Moves v ss ls shows.1)

  seek-Fewer : (v : ℕ) (ls : List (List ℕ)) → Fewer (map (drop_less v) ls) ls
  seek-Fewer v [] u = omega arith
  seek-Fewer v (l ∷ ls) u = omega (arith, count_above-drop_less v u l, seek-Fewer v ls u)

  seek-InAll :
      (v y : ℕ) (ss : List S) (ls : List (List ℕ))
      → Shows p c ss ls
      → v ≤ y
      → InAll y ls ↔ InAll y (map (drop_less v) ls)
  seek-InAll v y [] [] shows le = (λ m. m, λ m. m)
  seek-InAll v y [] (l ∷ ls) shows le = absurd shows
  seek-InAll v y (s ∷ ss) [] shows le = absurd shows
  seek-InAll v y (s ∷ ss) (l ∷ ls) shows le =
      let drop = Member-drop_less_iff v y l (c.increasing s l shows.0) in
      let rest = seek-InAll v y ss ls shows.1 le in
      (λ m. (drop.1 (le, m.0), rest.0 m.1), λ m. ((drop.0 m.0).1, rest.1 m.1))

  seek_from :
      (v x : ℕ) (t : List ℕ) (ss : List S) (ls : List (List ℕ))
      → Shows p c ss ls
      → All (HasHead x) ls
      → ((y : ℕ) → Member y (x ∷ t) ↔ ((x ≤ y) × InAll y ls))
      → IsIncreasing (x ∷ t)
      → (y : ℕ) → Member y (drop_less v (x ∷ t)) ↔ ((0 ≤ y) × InAll y (map (drop_less v) ls))
  seek_from v x t [] [] shows heads members inc y =
      absurd (not_all x (x ∷ t) (λ z le. (members z).1 (le, tt)))
  seek_from v x t [] (l ∷ ls) shows heads members inc y = absurd shows
  seek_from v x t (s ∷ ss) [] shows heads members inc y = absurd shows
  seek_from v x t (s ∷ ss) (l ∷ ls) shows heads members inc y =
      let whole = Member-drop_less_iff v y (x ∷ t) inc in
      let first = Member-drop_less_iff v y l (c.increasing s l shows.0) in
      (
        λ m.
            let (le, m') = whole.0 m in
            (omega arith, (seek-InAll v y (s ∷ ss) (l ∷ ls) shows le).0 ((members y).0 m').1),
        λ h.
            let le = (first.0 h.1.0).0 in
            let m = (seek-InAll v y (s ∷ ss) (l ∷ ls) shows le).1 h.1 in
            whole.1 (le, (members y).1 (heads-le p c fuel x y s ss l ls shows heads m, m)),
      )

  -- The postings at their end stay there.
  seek-Ended :
      (v max : ℕ) (ss : List S)
      → Ended p c ss
      → (ss' : List S) × (move_all p (λ s. p.seek s v) max ss ≡ (none, ss')) × Ended p c ss'
  unfolding move_all
  seek-Ended v max [] ended = elim ended [ ]
  seek-Ended v max (s ∷ ss) (at_end cur) =
      let (found, cur') = c.seek-current s v [] cur in
      ((p.seek s v).1 ∷ ss, rw found refl, at_end cur')
  seek-Ended v max (s ∷ ss) (behind l cur ended) =
      let (found, cur') = c.seek-current s v l cur in
      let s' = (p.seek s v).1 in
      elim (List-cases p c (drop_less v l)) [
        | inl e ↦ (
          s' ∷ ss,
          (let none_found : (p.seek s v).0 ≡ false = found ∙ ap nonempty e in rw none_found refl),
          at_end (subst (c.Current s') e cur'),
        )
        | inr (h, t, e) ↦
            let one_found : (p.seek s v).0 ≡ true = found ∙ ap nonempty e in
            let (ss', e', ended') = seek-Ended v (raised p max s') ss ended in
            (
              s' ∷ ss',
              rw one_found (ap (λ (r : Option ℕ × List S). (r.0, s' ∷ r.1)) e'),
              behind (drop_less v l) cur' ended',
            )
      ]

  -- If the parts stand at a common number, or one of them at its end, then `seek` of the
  -- intersection returns, tells whether there is a common number from `v` on, and leaves the parts
  -- at the first one that is not passed yet, or one of them at its end.
  pub seek_all-Shown :
      (ss : List S) (v : ℕ) (l : List ℕ)
      → View p c fuel ss l
      → Shown p c fuel (seek_all p fuel ss v) (drop_less v l)
  unfolding seek_all moved
  seek_all-Shown ss v [] ended =
      let (ss', e, ended') = seek-Ended v 0 ss ended in
      (ss', ap (λ (r : Option ℕ × List S). moved p fuel r) e, ended')
  seek_all-Shown ss v (x ∷ t) w =
      let ds = map (drop_less v) w.ls in
      let enough : count_all 0 ds < fuel = omega (arith, w.enough, seek-Fewer v w.ls 0) in
      Settles-Shown p c fuel 0 ds (drop_less v (x ∷ t)) _
        (drop_less-IsIncreasing v (x ∷ t) w.increasing)
        (seek_from v x t ss w.ls w.shows w.heads w.members w.increasing) enough
        (moved-Settles p c fuel ds _ enough
          (move_all-AllMoved p c (λ s. p.seek s v) ss ds 0 (seek-Moves v ss w.ls w.shows)))

  at_first :
      (x : ℕ) (t : List ℕ) (ss : List S) (ls : List (List ℕ))
      → Shows p c ss ls
      → All (HasHead x) ls
      → ((y : ℕ) → Member y (x ∷ t) ↔ ((x ≤ y) × InAll y ls))
      → at_all p ss ≡ x
  unfolding at_all
  at_first x t [] [] shows heads members =
      absurd (not_all x (x ∷ t) (λ z le. (members z).1 (le, tt)))
  at_first x t [] (l ∷ ls) shows heads members = absurd shows
  at_first x t (s ∷ ss) [] shows heads members = absurd shows
  at_first x t (s ∷ ss) ([] ∷ ls) shows heads members = absurd heads.0
  at_first x t (s ∷ ss) ((h ∷ t') ∷ ls) shows heads members = c.at-current s h t' shows.0 ∙ heads.0

  -- `at` of the intersection is the number at which the parts stand.
  pub at_all-Shown : (ss : List S) (x : ℕ) (t : List ℕ) → StandsAt p c fuel ss x t → at_all p ss ≡ x
  at_all-Shown ss x t v = at_first x t ss v.ls v.shows v.heads v.members

  expand-shown :
      (l : List ℕ) (n : ℕ) (ss : List S)
      → length l < n
      → Shown p c fuel (next_all p fuel ss) l
      → expand_postings (next_all p fuel) (at_all p) n ss ≡ some l
  expand-shown l zero ss enough shown = absurd (omega arith)
  expand-shown [] (suc n) ss enough (ss', e, view) =
      expand_postings-end (next_all p fuel) (at_all p) n ss ss' e
  expand-shown (x ∷ t) (suc n) ss enough (ss', e, view) =
      expand_postings-step (next_all p fuel) (at_all p) n ss ss' t e
        (expand-shown t n ss' (omega arith) (next_all-Shown ss' x t view))
      ∙ ap (λ (y : ℕ). some (y ∷ t)) (at_all-Shown ss' x t view)

  -- If an increasing list has just the numbers that all of the parts have, none of which has been
  -- moved yet, then expanding their intersection returns this list, where the fuel is more than the
  -- numbers in the lists of the parts that are not 0, and the rounds are more than its length.
  pub expand_postings-intersection :
      (ss : List S) (l : List ℕ) (n : ℕ)
      → StandsAhead ss l
      → length l < n
      → expand_postings (next_all p fuel) (at_all p) n ss ≡ some l
  expand_postings-intersection ss l n v enough = expand-shown l n ss enough (next_all-ahead ss l v)
