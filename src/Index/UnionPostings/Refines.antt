-- ===== src/Index/UnionPostings/Refines.antt =====
-- The postings of index/UnionPostings.cpp show the union of the lists of their parts.
use prom_tcs.Prelude.{
  ℕ, zero, suc, ◌<◌, ◌≡◌, ◌⊎◌, ◌↔◌, inl, inr, refl, ap, ◌∙◌, Bool, List, [], ◌∷◌, Option, none,
  some, arith, length, map, All,
}
use prom_tcs.Index.Postings.{
  Postings, IsPostings, nonempty, IsIncreasing, expand_postings, expand_postings-end,
  expand_postings-step,
}
use prom_tcs.Index.Postings.Lists.{Member}
use prom_tcs.Index.ListPostings.{ListPostings, postings_of}
use prom_tcs.Index.ListPostings.Implements.{list_postings, list_postings-IsPostings, fresh-Ahead}
use prom_tcs.Index.UnionPostings.{insert_all, union_set, union_postings, union_next, union_at}
use prom_tcs.Index.UnionPostings.Sets.{InSome, insert_all-IsIncreasing, insert_all-Member}

module _ {ℓ} {S : Type ℓ} (p : Postings S) (c : IsPostings p) where
  expand-moved :
      (l : List ℕ) (n : ℕ) (s s' : S)
      → length l < n
      → p.next s ≡ (nonempty l, s')
      → c.Current s' l
      → expand_postings (λ x. some (p.next x)) p.at n s ≡ some l
  expand-moved l zero s s' enough e cur = absurd (omega arith)
  expand-moved [] (suc n) s s' enough e cur =
      expand_postings-end (λ x. some (p.next x)) p.at n s s' (ap (λ (r : Bool × S). some r) e)
  expand-moved (x ∷ l) (suc n) s s' enough e cur =
      let (found, cur') = c.next-current s' x l cur in
      expand_postings-step (λ y. some (p.next y)) p.at n s s' l (ap (λ (r : Bool × S). some r) e)
        (expand-moved l n s' (p.next s').1 (omega arith)
          (ap (λ (b : Bool). (b, (p.next s').1)) found) cur')
      ∙ ap (λ (y : ℕ). some (y ∷ l)) (c.at-current s' x l cur)

  -- Expanding postings that have not been moved yet returns their list.
  pub expand-ahead :
      (l : List ℕ) (n : ℕ) (s : S)
      → length l < n
      → c.Ahead s l
      → expand_postings (λ x. some (p.next x)) p.at n s ≡ some l
  expand-ahead l n s enough h =
      let (found, cur) = c.next-ahead s l h in
      expand-moved l n s (p.next s).1 enough (ap (λ (b : Bool). (b, (p.next s).1)) found) cur

module _ {ℓ} {S : Type ℓ} (p : Postings S) (fuel : ℕ) where
  -- What the loop makes of an expanded part, and what the constructor makes of the set.
  go_on : List S → List ℕ → Option (List ℕ) → Option (List ℕ)
  go_on ptrs s o = elim o [ none ↦ none | some d ↦ union_set p fuel ptrs (insert_all d s) ]

  made : Option (List ℕ) → Option ListPostings
  made o = elim o [ none ↦ none | some d ↦ some (postings_of d) ]

  union_set-step :
      (ptr : S) (ptrs : List S) (s d : List ℕ)
      → expand_postings (λ x. some (p.next x)) p.at fuel ptr ≡ some d
      → union_set p fuel (ptr ∷ ptrs) s ≡ union_set p fuel ptrs (insert_all d s)
  unfolding union_set go_on
  union_set-step ptr ptrs s d e = ap (go_on ptrs s) e

  union_postings-made :
      (ptrs : List S) (d : List ℕ)
      → union_set p fuel ptrs [] ≡ some d
      → union_postings p fuel ptrs ≡ some (postings_of d)
  unfolding union_postings made
  union_postings-made ptrs d e = ap made e

-- The set behind the loop over the parts.
union_set-lists :
    (n : ℕ) (ls : List (List ℕ)) (s : List ℕ)
    → All IsIncreasing ls
    → All (λ l. length l < n) ls
    → IsIncreasing s
    → (u : List ℕ) × (union_set list_postings n (map postings_of ls) s ≡ some u)
      × IsIncreasing u
      × ((z : ℕ) → Member z u ↔ (InSome z ls ⊎ Member z s))
unfolding union_set
union_set-lists n [] s all few inc = (
  s,
  refl,
  inc,
  λ z. (λ m. inr m, λ m. elim m [ inl none_there ↦ absurd none_there | inr m' ↦ m' ]),
)
union_set-lists n (l ∷ ls) s all few inc =
    let (u, e, inc', members) =
      union_set-lists n ls (insert_all l s) all.1 few.1 (insert_all-IsIncreasing l s inc) in
    (
      u,
      union_set-step list_postings n (postings_of l) (map postings_of ls) s l (
            expand-ahead list_postings list_postings-IsPostings l n (postings_of l) few.0
              (fresh-Ahead l all.0))
          ∙ e,
      inc',
      λ z.
          let all_of = insert_all-Member l s z in
          (
            λ m. elim ((members z).0 m) [
              | inl m' ↦ inl (inr m')
              | inr m' ↦ elim (all_of.0 m') [ inl m'' ↦ inl (inl m'') | inr m'' ↦ inr m'' ]
            ],
            λ m. elim m [
              | inl m' ↦ elim m' [
                | inl m'' ↦ (members z).1 (inr (all_of.1 (inl m'')))
                | inr m'' ↦ (members z).1 (inl m'')
              ]
              | inr m' ↦ (members z).1 (inr (all_of.1 (inr m')))
            ],
          ),
    )

-- The union of the postings of some increasing lists, where the rounds are more than the numbers of
-- each list, is made, and expanding it returns an increasing list with just the numbers that some of
-- the lists have.
pub union_postings-lists :
    (n : ℕ) (ls : List (List ℕ))
    → All IsIncreasing ls
    → All (λ l. length l < n) ls
    → (u : List ℕ) × (union_postings list_postings n (map postings_of ls) ≡ some (postings_of u))
      × (expand_postings (λ x. some (union_next x)) union_at (suc (length u)) (postings_of u)
          ≡ some u)
      × IsIncreasing u
      × ((z : ℕ) → Member z u ↔ InSome z ls)
unfolding union_next union_at
union_postings-lists n ls all few =
    let (u, e, inc, members) = union_set-lists n ls [] all few tt in
    (
      u,
      union_postings-made list_postings n (map postings_of ls) u e,
      expand-ahead list_postings list_postings-IsPostings u (suc (length u)) (postings_of u)
          (omega arith) (fresh-Ahead u inc),
      inc,
      λ z. (
        λ m. elim ((members z).0 m) [ inl m' ↦ m' | inr none_there ↦ absurd none_there ],
        λ m. (members z).1 (inl m),
      ),
    )
