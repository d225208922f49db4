-- ===== src/Index/IntersectPostings/Refines.antt =====
-- The postings of index/IntersectPostings.cpp show the intersection of the lists of their parts.
use prom_tcs.Prelude.{
  ℕ, suc, ◌+◌, ◌≤◌, ◌<◌, ◌≡◌, ◌↔◌, inl, inr, refl, sym, ap, subst, ◌∙◌, Bool, List, [], ◌∷◌, Option,
  some, arith, All,
}
use prom_tcs.Index.Postings.{Postings, IsPostings, nonempty, IsIncreasing}
use prom_tcs.Index.Postings.Lists.{Member, InAll, Member-head, Member-above, count_all}
use prom_tcs.Index.IntersectPostings.Rounds.{HasHead, Fewer, Shows, Ended}
use prom_tcs.Index.IntersectPostings.Settling.{Settled, none_left, stands_at, Settles, Moves}

total : List ℕ → ℕ
total [] = 0
total (x ∷ l) = x + total l

Member-total : (x : ℕ) (l : List ℕ) → Member x l → x ≤ total l
unfolding total
Member-total x [] m = absurd m
Member-total x (y ∷ l) (inl e) = omega (arith, e)
Member-total x (y ∷ l) (inr m) = omega (arith, Member-total x l m)

-- Some common number of no list at all is in no list.
pub not_all : (x : ℕ) (l : List ℕ) → ¬ ((y : ℕ) → x ≤ y → Member y l)
not_all x l all =
    let m = Member-total (x + suc (total l)) l (all (x + suc (total l)) (omega arith)) in
    omega (arith, m)

module _ {ℓ} {S : Type ℓ} (p : Postings S) (c : IsPostings p) (fuel : ℕ) where
  -- The list `x ∷ t` is the intersection of those that the parts show, all of them at `x`.
  pub record StandsAt (ss : List S) (x : ℕ) (t : List ℕ) : Type ℓ where
    pub ls : List (List ℕ)
    pub shows : Shows p c ss ls
    pub members : (y : ℕ) → Member y (x ∷ t) ↔ ((x ≤ y) × InAll y ls)
    pub increasing : IsIncreasing (x ∷ t)
    pub heads : All (HasHead x) ls
    pub enough : count_all 0 ls < fuel

  abbrev pub View : List S → List ℕ → Type ℓ
  View ss [] = Ended p c ss
  View ss (x ∷ t) = StandsAt ss x t

  -- A call returns, tells whether a number is left, and leaves postings with that view.
  abbrev pub Shown : Option (Bool × List S) → List ℕ → Type ℓ
  Shown o l = (ss : List S) × (o ≡ some (nonempty l, ss)) × View ss l

  -- No number is less than a common head.
  pub heads-le :
      (x y : ℕ) (s : S) (ss : List S) (l : List ℕ) (ls : List (List ℕ))
      → Shows p c (s ∷ ss) (l ∷ ls)
      → All (HasHead x) (l ∷ ls)
      → InAll y (l ∷ ls)
      → x ≤ y
  heads-le x y s ss [] ls shows heads m = absurd m.0
  heads-le x y s ss (h ∷ t) ls shows heads m =
      omega (arith, heads.0, Member-head h y t (c.increasing s (h ∷ t) shows.0) m.0)

  heads-InAll : (x : ℕ) (ls : List (List ℕ)) → All (HasHead x) ls → InAll x ls
  heads-InAll x [] heads = tt
  heads-InAll x ([] ∷ ls) heads = absurd heads.0
  heads-InAll x ((h ∷ t) ∷ ls) heads = (inl (sym heads.0), heads-InAll x ls heads.1)

  Settled-Shown :
      (max : ℕ) (ls : List (List ℕ)) (l : List ℕ) (r : Bool × List S)
      → IsIncreasing l
      → ((y : ℕ) → Member y l ↔ ((max ≤ y) × InAll y ls))
      → count_all 0 ls < fuel
      → Settled p c max ls r
      → (r.0 ≡ nonempty l) × View r.1 l
  Settled-Shown max ls [] r inc members enough (none_left ended none_before) = (refl, ended)
  Settled-Shown max ls (x ∷ t) r inc members enough (none_left ended none_before) =
      let (le, m) = (members x).0 (inl refl) in absurd (none_before x le m)
  Settled-Shown max ls [] r inc members enough (stands_at m ls' shows same heads few) =
      absurd ((members m).1 ((same m).1 (omega arith, heads-InAll m ls' heads)))
  Settled-Shown max ls (x ∷ t) r inc members enough (stands_at m ls' shows same heads few) =
      let there = (members m).1 ((same m).1 (omega arith, heads-InAll m ls' heads)) in
      let (le, x_there) = (same x).0 ((members x).0 (inl refl)) in
      let e : m ≡ x = omega (arith, le, Member-head x m t inc there) in
      (
        refl,
        record {
          ls = ls';
          shows = shows;
          members = λ y. (
            λ h. let (le', h') = (same y).0 ((members y).0 h) in (omega (arith, e, le'), h'),
            λ h. (members y).1 ((same y).1 (omega (arith, e, h.0), h.1)),
          );
          increasing = inc;
          heads = subst (λ (k : ℕ). All (HasHead k) ls') e heads;
          enough = omega (arith, enough, few 0);
        },
      )

  pub Settles-Shown :
      (max : ℕ) (ls : List (List ℕ)) (l : List ℕ) (o : Option (Bool × List S))
      → IsIncreasing l
      → ((y : ℕ) → Member y l ↔ ((max ≤ y) × InAll y ls))
      → count_all 0 ls < fuel
      → Settles p c max ls o
      → Shown o l
  Settles-Shown max ls l o inc members enough (r, e, settled) =
      let (found, view) = Settled-Shown max ls l r inc members enough settled in
      (r.1, e ∙ ap (λ (b : Bool). some (b, r.1)) found, view)

  -- The lists behind their common head.
  abbrev pub tails : List (List ℕ) → List (List ℕ)
  tails [] = []
  tails ([] ∷ ls) = [] ∷ tails ls
  tails ((h ∷ t) ∷ ls) = t ∷ tails ls

  pub next-Moves :
      (x : ℕ) (ss : List S) (ls : List (List ℕ))
      → Shows p c ss ls
      → All (HasHead x) ls
      → Moves p c p.next ss (tails ls)
  next-Moves x [] [] shows heads = tt
  next-Moves x [] (l ∷ ls) shows heads = absurd shows
  next-Moves x (s ∷ ss) [] shows heads = absurd shows
  next-Moves x (s ∷ ss) ([] ∷ ls) shows heads = absurd heads.0
  next-Moves x (s ∷ ss) ((h ∷ t) ∷ ls) shows heads =
      (c.next-current s h t shows.0, next-Moves x ss ls shows.1 heads.1)

  pub tails-Fewer : (ls : List (List ℕ)) → Fewer (tails ls) ls
  tails-Fewer [] u = omega arith
  tails-Fewer ([] ∷ ls) u = omega (arith, tails-Fewer ls u)
  tails-Fewer ((h ∷ t) ∷ ls) u = ground (arith, tails-Fewer ls u)

  pub InAll-tails :
      (x y : ℕ) (ls : List (List ℕ)) → All (HasHead x) ls → x < y → InAll y ls → InAll y (tails ls)
  InAll-tails x y [] heads less m = tt
  InAll-tails x y ([] ∷ ls) heads less m = absurd heads.0
  InAll-tails x y ((h ∷ t) ∷ ls) heads less (inl e, ms) = absurd (omega (arith, heads.0, e))
  InAll-tails x y ((h ∷ t) ∷ ls) heads less (inr m, ms) = (m, InAll-tails x y ls heads.1 less ms)

  pub tails-InAll : (y : ℕ) (ls : List (List ℕ)) → InAll y (tails ls) → InAll y ls
  tails-InAll y [] m = tt
  tails-InAll y ([] ∷ ls) m = absurd m.0
  tails-InAll y ((h ∷ t) ∷ ls) m = (inr m.0, tails-InAll y ls m.1)

  pub tails-above :
      (x y : ℕ) (s : S) (ss : List S) (l : List ℕ) (ls : List (List ℕ))
      → Shows p c (s ∷ ss) (l ∷ ls)
      → All (HasHead x) (l ∷ ls)
      → InAll y (tails (l ∷ ls))
      → x < y
  tails-above x y s ss [] ls shows heads m = absurd m.0
  tails-above x y s ss (h ∷ t) ls shows heads m =
      omega (arith, heads.0, Member-above h y t (c.increasing s (h ∷ t) shows.0).0 m.0)
