-- ===== src/Index/IntersectPostings/Settling.antt =====
-- How `next` and `seek` of index/IntersectPostings.cpp end: they return, and their postings agree.
use prom_tcs.Prelude.{
  ℕ, zero, suc, ◌≤◌, ◌<◌, ◌≡◌, refl, Bool, true, false, List, [], ◌∷◌, Option, none, some, arith,
  All,
}
use prom_tcs.Index.Postings.{Postings, IsPostings, Moved}
use prom_tcs.Index.Postings.Lists.{InAll, Member-head, count_all, count_all_mono}
use prom_tcs.Index.IntersectPostings.{raised, round, recursive_next, move_all, moved}
use prom_tcs.Index.IntersectPostings.Rounds.{
  HasHead, SameFrom, Fewer, Shows, Ended, at_end, behind, Round, exhausted, agreed, raised_to,
  round-Round,
}

module _ {ℓ} {S : Type ℓ} (p : Postings S) (c : IsPostings p) where
  -- What `recursive_next` and those that call it leave.
  pub data Settled (max : ℕ) (ls : List (List ℕ)) : Bool × List S → Type ℓ where
    none_left :
        {ss : List S}
        → Ended p c ss
        → ((x : ℕ) → max ≤ x → ¬ InAll x ls)
        → Settled max ls (false, ss)
    stands_at :
        {ss : List S} (m : ℕ) (ls' : List (List ℕ))
        → Shows p c ss ls'
        → SameFrom max ls m ls'
        → All (HasHead m) ls'
        → Fewer ls' ls
        → Settled max ls (true, ss)

  -- There is a result, and it is settled.
  abbrev pub Settles : ℕ → List (List ℕ) → Option (Bool × List S) → Type ℓ
  Settles max ls o = (r : Bool × List S) × (o ≡ some r) × Settled max ls r

  Settled-later :
      (max max' : ℕ) (ls ls' : List (List ℕ)) (r : Bool × List S)
      → SameFrom max ls max' ls'
      → Fewer ls' ls
      → Settled max' ls' r
      → Settled max ls r
  Settled-later max max' ls ls' r same few (none_left ended none_before) =
      none_left ended (λ x le m. let (le', m') = (same x).0 (le, m) in none_before x le' m')
  Settled-later max max' ls ls' r same few (stands_at m ls'' shows same' heads few') =
      stands_at m ls'' shows
        (λ x. (λ h. (same' x).0 ((same x).0 h), λ h. (same x).1 ((same' x).1 h))) heads
        (λ u. omega (arith, few u, few' u))

  recursive_next-Settles :
      (fuel max : ℕ) (ss : List S) (ls : List (List ℕ))
      → count_all max ls < fuel
      → Shows p c ss ls
      → Settles max ls (recursive_next p fuel max ss)
  unfolding recursive_next
  recursive_next-Settles zero max ss ls enough shows = absurd (omega arith)
  recursive_next-Settles (suc fuel) max ss ls enough shows =
      go (round p max ss) (round-Round p c ss ls max shows)
        (λ max' ss' ls'. recursive_next-Settles fuel max' ss' ls')
    where
      go :
          (r : Option (ℕ × Bool) × List S)
          → Round p c max ls r
          → ((max' : ℕ) (ss' : List S) (ls' : List (List ℕ))
              → count_all max' ls' < fuel
              → Shows p c ss' ls'
              → Settles max' ls' (recursive_next p fuel max' ss'))
          → Settles max ls (elim r.0 [
            | none ↦ some (false, r.1)
            | some (max', find) ↦ elim find [
              | true ↦ some (true, r.1)
              | false ↦ recursive_next p fuel max' r.1
            ]
          ])
      go r (exhausted {ss = ss'} ended none_before) again =
          ((false, ss'), refl, none_left ended none_before)
      go r (agreed {ss = ss'} ls' shows' same heads few) again =
          ((true, ss'), refl, stands_at max ls' shows' same heads few)
      go r (raised_to {ss = ss'} max' ls' shows' same less few fewer) again =
          let (result, e, settled) = again max' ss' ls' (omega arith) shows' in
          (result, e, Settled-later max max' ls ls' result same few settled)

  -- Each call of `move` makes the postings show a list.
  abbrev pub Moves : (S → Bool × S) → List S → List (List ℕ) → Type 0
  Moves move [] [] = Unit {0}
  Moves move [] (l ∷ ls) = ⊥
  Moves move (s ∷ ss) [] = ⊥
  Moves move (s ∷ ss) (l ∷ ls) = Moved c.Current (move s) l × Moves move ss ls

  -- What the loop over `move` leaves.
  pub data AllMoved (max : ℕ) (ls : List (List ℕ)) : Option ℕ × List S → Type ℓ where
    stopped : {ss : List S} → Ended p c ss → ((x : ℕ) → ¬ InAll x ls) → AllMoved max ls (none, ss)
    moved_to :
        {ss : List S} (max' : ℕ)
        → Shows p c ss ls
        → ((x : ℕ) → max ≤ x → InAll x ls → max' ≤ x)
        → AllMoved max ls (some max', ss)

  cons-AllMoved :
      (max h : ℕ) (t : List ℕ) (ls : List (List ℕ)) (s' : S) (rest : Option ℕ × List S)
      → c.Current s' (h ∷ t)
      → AllMoved (raised p max s') ls rest
      → AllMoved max ((h ∷ t) ∷ ls) (rest.0, s' ∷ rest.1)
  unfolding raised
  cons-AllMoved max h t ls s' rest cur (stopped ended none_before) =
      stopped (behind (h ∷ t) cur ended) (λ x m. none_before x m.1)
  cons-AllMoved max h t ls s' rest cur (moved_to max' shows above) =
      moved_to max' (cur, shows)
        (λ x le m.
          let below = Member-head h x t (c.increasing s' (h ∷ t) cur) m.0 in
          above x (rw (c.at-current s' h t cur) (ground (arith, below, le))) m.1)

  pub move_all-AllMoved :
      (move : S → Bool × S) (ss : List S) (ls : List (List ℕ)) (max : ℕ)
      → Moves move ss ls
      → AllMoved max ls (move_all p move max ss)
  unfolding move_all
  move_all-AllMoved move [] [] max moves = moved_to max tt (λ x le m. le)
  move_all-AllMoved move [] (l ∷ ls) max moves = absurd moves
  move_all-AllMoved move (s ∷ ss) [] max moves = absurd moves
  move_all-AllMoved move (s ∷ ss) ([] ∷ ls) max moves =
      rw moves.0.0 (stopped (at_end moves.0.1) (λ x m. m.0))
  move_all-AllMoved move (s ∷ ss) ((h ∷ t) ∷ ls) max moves =
      let s' = (move s).1 in
      rw moves.0.0 (
        cons-AllMoved max h t ls s' (move_all p move (raised p max s') ss) moves.0.1
          (move_all-AllMoved move ss ls (raised p max s') moves.1))

  pub moved-Settles :
      (fuel : ℕ) (ls : List (List ℕ)) (r : Option ℕ × List S)
      → count_all 0 ls < fuel
      → AllMoved 0 ls r
      → Settles 0 ls (moved p fuel r)
  unfolding moved
  moved-Settles fuel ls r enough (stopped {ss = ss'} ended none_before) =
      ((false, ss'), refl, none_left ended (λ x le. none_before x))
  moved-Settles fuel ls r enough (moved_to {ss = ss'} max' shows above) =
      let (result, e, settled) =
        recursive_next-Settles fuel max' ss' ls
          (omega (arith, enough, count_all_mono 0 max' ls (omega arith))) shows in
      (
        result,
        e,
        Settled-later 0 max' ls ls result
            (λ x. (λ h. (above x h.0 h.1, h.1), λ h. (omega arith, h.1))) (λ u. omega arith)
            settled,
      )
