-- ===== src/Index/ListPostings/Implements.antt =====
-- The postings of index/ListPostings.cpp keep the promises of index/PostingsInterface.hpp.
use prom_tcs.Prelude.{
  ℕ, ◌+◌, ◌-◌, ◌≤◌, ◌≡◌, inl, inr, refl, sym, ap, ◌∙◌, true, false, ◌||◌, List, [], ◌∷◌, arith, ltb,
  leb, ◌==◌, Bool-cases, length, drop, length-drop, get_or, get_or-drop, drop_add,
}
use prom_tcs.Index.Postings.{Postings, IsPostings, Moved, nonempty, drop_less, IsIncreasing}
use prom_tcs.Index.Postings.Lists.{drop_less-cases, drop_less-IsIncreasing}
use prom_tcs.Index.ListPostings.{
  ListPostings, postings_of, next, seek, seek_from, at, lower_bound, lower_bound-stops,
}

abbrev pub list_postings : Postings ListPostings
list_postings = record { next = next; seek = seek; at = at }

pub record IsAhead (p : ListPostings) (l : List ℕ) : Type 0 where
  pub fresh : p.position ≡ 0
  pub all : p.list ≡ l
  pub increasing : IsIncreasing l

pub record IsCurrent (p : ListPostings) (l : List ℕ) : Type 0 where
  pub begun : 1 ≤ p.position
  pub left : drop (p.position - 1) p.list ≡ l
  pub increasing : IsIncreasing l

drop_less-drop : (v : ℕ) (l : List ℕ) → drop_less v l ≡ drop (lower_bound l v) l
unfolding lower_bound
drop_less-drop v [] = refl
drop_less-drop v (x ∷ l) = elim (Bool-cases (ltb x v)) [
  | inl t ↦ rw t (drop_less-drop v l)
  | inr f ↦ rw f refl
]

left-length :
    (p : ListPostings) (l : List ℕ) → IsCurrent p l → length p.list - (p.position - 1) ≡ length l
left-length p l h = sym (length-drop (p.position - 1) p.list) ∙ ap length h.left

nonempty-length : (l : List ℕ) → nonempty l ≡ ltb 0 (length l)
nonempty-length [] = refl
nonempty-length (x ∷ l) = ground arith

next-ahead : (p : ListPostings) (l : List ℕ) → IsAhead p l → Moved IsCurrent (next p) l
unfolding next
next-ahead p l h = (
  ground (arith, h.fresh, ap length h.all, nonempty-length l),
  record {
    begun = omega arith;
    left = rw (let e : p.position + 1 - 1 ≡ 0 = omega (arith, h.fresh) in e) h.all;
    increasing = h.increasing;
  },
)

next-IsCurrent :
    (p : ListPostings) (x : ℕ) (l : List ℕ) → IsCurrent p (x ∷ l) → Moved IsCurrent (next p) l
unfolding next
next-IsCurrent p x l h = (
  ground (arith, h.begun, left-length p (x ∷ l) h, nonempty-length l),
  record {
    begun = omega arith;
    left =
        ap (λ (n : ℕ). drop n p.list)
          (let e : p.position + 1 - 1 ≡ p.position - 1 + 1 = omega (arith, h.begun) in e)
        ∙ sym (drop_add (p.position - 1) 1 p.list)
        ∙ ap (drop 1) h.left;
    increasing = h.increasing.1;
  },
)

at-current : (p : ListPostings) (x : ℕ) (l : List ℕ) → IsCurrent p (x ∷ l) → at p ≡ x
unfolding at
at-current p x l h =
    let e : p.position - 1 + 0 ≡ p.position - 1 = omega arith in
    ap (λ (n : ℕ). get_or p.list n 0) (sym e)
    ∙ sym (get_or-drop (p.position - 1) 0 p.list 0)
    ∙ ap (λ (k : List ℕ). get_or k 0 0) h.left

-- The cursor at an index of the list that is left.
IsCurrent-at :
    (p : ListPostings) (l l' : List ℕ) (i n : ℕ)
    → IsCurrent p l
    → i ≡ p.position - 1 + n + 1
    → drop n l ≡ l'
    → IsIncreasing l'
    → IsCurrent (record p { position = i }) l'
IsCurrent-at p l l' i n h e e' inc = record {
  begun = omega (arith, e);
  left =
      ap (λ (k : ℕ). drop k p.list) (let e'' : i - 1 ≡ p.position - 1 + n = omega (arith, e) in e'')
      ∙ sym (drop_add (p.position - 1) n p.list)
      ∙ ap (drop n) h.left
      ∙ e';
  increasing = inc;
}

nonempty-drop : (n : ℕ) (l : List ℕ) → nonempty (drop n l) ≡ ltb n (length l)
nonempty-drop n l = nonempty-length (drop n l) ∙ ground (arith, length-drop n l)

seek_from-IsCurrent :
    (p : ListPostings) (v x : ℕ) (t : List ℕ)
    → IsCurrent p (x ∷ t)
    → Moved IsCurrent (seek_from p (p.position - 1) v) (drop_less v (x ∷ t))
unfolding seek_from at
seek_from-IsCurrent p v x t h =
    let l = x ∷ t in
    let index = p.position - 1 in
    let lb = lower_bound (drop index p.list) v in
    let here : get_or p.list index 0 ≡ x = at-current p x t h in
    let more = left-length p l h in
    let inc = drop_less-IsIncreasing v l h.increasing in
    elim (Bool-cases (leb v (get_or p.list index 0))) [
      | inl low ↦ elim (drop_less-cases v x t) [
        | inl (less, e) ↦ absurd (ground (arith, here, less, low))
        | inr (le, e) ↦
            rw (low, e) (refl, IsCurrent-at p l l (index + 1) 0 h (omega arith) refl h.increasing)
      ]
      | inr high ↦
          let dropped : drop lb l ≡ drop_less v l =
            ap (λ (k : List ℕ). drop (lower_bound k v) l) h.left ∙ sym (drop_less-drop v l) in
          let found = ap nonempty (sym dropped) ∙ nonempty-drop lb l in
          let le = (lower_bound-stops (drop index p.list) v).0 in
          let same = ap length h.left in
          elim (Bool-cases (index + lb == length p.list)) [
            | inl at_end ↦
                rw (high, at_end)
                  (
                    sym (found ∙ ground (arith, more, at_end, h.begun)),
                    IsCurrent-at p l (drop_less v l) (length p.list + 1) lb h
                        (ground (arith, at_end)) dropped inc,
                  )
            | inr before ↦
                rw (high, before)
                  (
                    sym (found ∙ ground (arith, more, before, le, same, h.begun)),
                    IsCurrent-at p l (drop_less v l) (index + lb + 1) lb h refl dropped inc,
                  )
          ]
    ]

seek-IsCurrent :
    (p : ListPostings) (v : ℕ) (l : List ℕ)
    → IsCurrent p l
    → Moved IsCurrent (seek p v) (drop_less v l)
unfolding seek
seek-IsCurrent p v [] h =
    let over : (length p.list == 0) || ltb (length p.list) p.position ≡ true =
      ground (arith, h.begun, left-length p [] h) in
    rw over (refl, h)
seek-IsCurrent p v (x ∷ t) h =
    let inside : (length p.list == 0) || ltb (length p.list) p.position ≡ false =
      ground (arith, h.begun, left-length p (x ∷ t) h) in
    rw inside (seek_from-IsCurrent p v x t h)

-- The postings of an increasing list keep what is promised of postings: `next` and `seek` tell
-- whether a number is left and move on to it, and `at` is that number.
pub list_postings-IsPostings : IsPostings list_postings
list_postings-IsPostings = record {
  Ahead = IsAhead;
  Current = IsCurrent;
  increasing = λ p l h. h.increasing;
  next-ahead = next-ahead;
  next-current = next-IsCurrent;
  seek-current = seek-IsCurrent;
  at-current = at-current;
}

pub fresh-Ahead : (l : List ℕ) → IsIncreasing l → list_postings-IsPostings.Ahead (postings_of l) l
unfolding list_postings-IsPostings postings_of
fresh-Ahead l inc = record { fresh = refl; all = refl; increasing = inc }
