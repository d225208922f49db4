-- ===== src/Label/Order.antt =====
-- The order of labels and of label lists in label/Label.cpp, and the lists that are kept in order.
use prom_tcs.Prelude.{
  ℕ, subst, ◌≡◌, refl, sym, ap, ap₂, ◌∙◌, inl, inr, true, false, not, List, [], ◌∷◌, ◌++◌, ◌⊎◌,
  Bool-cases,
}
use prom_tcs.Prelude.Comparison.{
  IsComparison, compare-IsComparison, lexicographic-IsComparison, then_by, is_less, flip,
  then_trans, then-swap, then-equal, then_self,
}
use prom_tcs.Prelude.Sorting.{IsOrder, IsSorted, sort-IsSorted, sort-Perm}
use prom_tcs.Label.{
  Label, compare_string, label_less, label_less_equal, sort_labels, compare_label, lbs_compare,
  string_equal, has_name, lbs_add,
}
use Prim.Native.Nat.{Ordering, compare}
use mathlib.Core.List.{Perm, perm_append_singleton}
use mathlib.Core.List.Perm

pub compare_string-IsComparison : IsComparison compare_string
unfolding compare_string
compare_string-IsComparison = lexicographic-IsComparison compare compare-IsComparison

compare_label-equal : (a b : Label) → compare_label a b ≡ Ordering.eq → a ≡ b
unfolding compare_label
compare_label-equal a b e =
    let (h, t) =
      then-equal compare_string compare_string-IsComparison a.label b.label
        (compare_string a.value b.value) e in
    ap₂ (λ (n v : List ℕ). record { label = n; value = v }) h
      (compare_string-IsComparison.equal a.value b.value t)

-- `compare_label` is a linear order of the labels.
pub compare_label-IsComparison : IsComparison compare_label
unfolding compare_label
compare_label-IsComparison =
    let c = compare_string-IsComparison in
    record {
      equal = compare_label-equal;
      self =
          λ a. then_self compare_string c a.label (compare_string a.value a.value) ∙ c.self a.value;
      swap = λ a b.
          then-swap compare_string c a.label b.label (compare_string a.value b.value)
            (compare_string b.value a.value) (c.swap a.value b.value);
      trans = λ a b d.
          then_trans compare_string c a.label b.label d.label (compare_string a.value b.value)
            (compare_string b.value d.value) (compare_string a.value d.value)
            (c.trans a.value b.value d.value);
    }

-- Comparing two label sets finds no difference just for equal ones, gives the opposite result where
-- they are exchanged, and is transitive.
pub lbs_compare-IsComparison : IsComparison lbs_compare
unfolding lbs_compare
lbs_compare-IsComparison = lexicographic-IsComparison compare_label compare_label-IsComparison

-- What the two operators make of the results of the comparisons.
less_of :
    (o o' : Ordering)
    → (elim o [
      | Ordering.gt ↦ false
      | Ordering.lt ↦ true
      | Ordering.eq ↦ elim o' [ Ordering.lt ↦ true | _ ↦ false ]
    ])
      ≡ is_less (then_by o o')
less_of Ordering.lt o' = refl
less_of Ordering.eq Ordering.lt = refl
less_of Ordering.eq Ordering.eq = refl
less_of Ordering.eq Ordering.gt = refl
less_of Ordering.gt o' = refl

less_equal_of :
    (o o' : Ordering)
    → (elim o [
      | Ordering.gt ↦ false
      | Ordering.lt ↦ true
      | Ordering.eq ↦ elim o' [ Ordering.gt ↦ false | _ ↦ true ]
    ])
      ≡ not (is_less (flip (then_by o o')))
less_equal_of Ordering.lt o' = refl
less_equal_of Ordering.eq Ordering.lt = refl
less_equal_of Ordering.eq Ordering.eq = refl
less_equal_of Ordering.eq Ordering.gt = refl
less_equal_of Ordering.gt o' = refl

label_less-compare : (a b : Label) → label_less a b ≡ is_less (compare_label a b)
unfolding label_less compare_label
label_less-compare a b = less_of (compare_string a.label b.label) (compare_string a.value b.value)

-- `operator<=` is the negation of `operator<` with its sides exchanged.
pub label_less_equal-not_less : (a b : Label) → label_less_equal a b ≡ not (label_less b a)
unfolding label_less_equal compare_label
label_less_equal-not_less a b =
    less_equal_of (compare_string a.label b.label) (compare_string a.value b.value)
    ∙ sym (ap (λ (o : Ordering). not (is_less o)) (compare_label-IsComparison.swap a b))
    ∙ ap not (sym (label_less-compare b a))

is_less-lt : (o : Ordering) → is_less o ≡ true → o ≡ Ordering.lt
is_less-lt Ordering.lt e = refl
is_less-lt Ordering.eq e = absurd (cc e)
is_less-lt Ordering.gt e = absurd (cc e)

-- A comparison gives an order in the sense of sorting.
module _ {ℓ} {A : Type ℓ} (cmp : A → A → Ordering) (c : IsComparison cmp) where
  less-equal :
      (a b : A) (o : Ordering)
      → cmp a b ≡ o
      → is_less (cmp a b) ≡ false
      → is_less (cmp b a) ≡ false
      → a ≡ b
  less-equal a b Ordering.lt e p q = absurd (cc (p, ap is_less e))
  less-equal a b Ordering.eq e p q = c.equal a b e
  less-equal a b Ordering.gt e p q = absurd (cc (q, ap is_less (c.swap a b ∙ ap flip e)))

  less-asym : (a b : A) → is_less (cmp a b) ≡ true → is_less (cmp b a) ≡ false
  less-asym a b p = ap is_less (c.swap a b ∙ ap flip (is_less-lt (cmp a b) p))

  -- `z < x` and `x ≤ y` would give `z < y`.
  less_trans :
      (x y z : A) (o o' : Ordering)
      → cmp x y ≡ o
      → cmp z x ≡ o'
      → is_less (cmp y x) ≡ false
      → is_less (cmp z y) ≡ false
      → is_less (cmp z x) ≡ false
  less_trans x y z o Ordering.eq e e' p q = ap is_less e'
  less_trans x y z o Ordering.gt e e' p q = ap is_less e'
  less_trans x y z Ordering.lt Ordering.lt e e' p q =
      absurd (cc (q, ap is_less (c.trans z x y e' e)))
  less_trans x y z Ordering.eq Ordering.lt e e' p q = rw (c.equal x y e) q
  less_trans x y z Ordering.gt Ordering.lt e e' p q =
      absurd (cc (p, ap is_less (c.swap x y ∙ ap flip e)))

  less-IsOrder : IsOrder (λ a b. is_less (cmp a b))
  less-IsOrder = record {
    self = λ x. ap is_less (c.self x);
    equal = λ x y. less-equal x y (cmp x y) refl;
    asym = less-asym;
    trans = λ x y z. less_trans x y z (cmp x y) (cmp z x) refl refl;
  }

pub label_less-IsOrder : IsOrder label_less
label_less-IsOrder =
    subst IsOrder (λ i a b. sym (label_less-compare a b) i)
      (less-IsOrder compare_label compare_label-IsComparison)

pub sort_labels-IsSorted : (xs : List Label) → IsSorted label_less (sort_labels xs)
unfolding sort_labels
sort_labels-IsSorted = sort-IsSorted label_less label_less-IsOrder

-- Some label has the name.
abbrev pub IsNamed : List ℕ → List Label → Type 0
IsNamed name [] = ⊥
IsNamed name (l ∷ lset) = (l.label ≡ name) ⊎ IsNamed name lset

string_equal-true : (s s2 : List ℕ) → string_equal s s2 ≡ true → s ≡ s2
unfolding string_equal
string_equal-true s s2 e = compare_string-IsComparison.equal s s2 (is_eq (compare_string s s2) e)
  where
    is_eq : (o : Ordering) → (elim o [ Ordering.eq ↦ true | _ ↦ false ]) ≡ true → o ≡ Ordering.eq
    is_eq Ordering.lt e = absurd (cc e)
    is_eq Ordering.eq e = refl
    is_eq Ordering.gt e = absurd (cc e)

string_equal_self : (s : List ℕ) → string_equal s s ≡ true
unfolding string_equal
string_equal_self s = rw (string_equal, compare_string-IsComparison.self s) refl

has_name-true : (lset : List Label) (name : List ℕ) → has_name lset name ≡ true → IsNamed name lset
unfolding has_name
has_name-true [] name = λ e. absurd (cc e)
has_name-true (l ∷ lset) name = elim (Bool-cases (string_equal l.label name)) [
  | inl t ↦ rw t (λ e. inl (string_equal-true l.label name t))
  | inr f ↦ rw f (λ e. inr (has_name-true lset name e))
]

has_name-IsNamed :
    (lset : List Label) (name : List ℕ) → IsNamed name lset → has_name lset name ≡ true
unfolding has_name
has_name-IsNamed [] name h = elim h [ ]
has_name-IsNamed (l ∷ lset) name (inl e) = rw (e, string_equal_self name) refl
has_name-IsNamed (l ∷ lset) name (inr h) = elim (Bool-cases (string_equal l.label name)) [
  | inl t ↦ rw t refl
  | inr f ↦ rw f (has_name-IsNamed lset name h)
]

-- The labels `added` are those of `lset` with `l`, if there is none of its name yet, in order.
pub record IsAdded (lset : List Label) (l : Label) (added : List Label) : Type 0 where
  pub in_order : IsSorted label_less added
  pub kept : IsNamed l.label lset → added ≡ lset
  pub grown : ¬ IsNamed l.label lset → Perm (l ∷ lset) added

-- If labels are in order, `lbs_add` gives them as they are where one has the name of the new label;
-- otherwise it gives the new label and all of them, each as often as before, in order.
pub lbs_add-IsAdded :
    (lset : List Label) (l : Label) → IsSorted label_less lset → IsAdded lset l (lbs_add lset l)
unfolding lbs_add sort_labels
lbs_add-IsAdded lset l s = elim (Bool-cases (has_name lset l.label)) [
  | inl t ↦ rw t (record {
    in_order = s;
    kept = λ h. refl;
    grown = λ h. absurd (h (has_name-true lset l.label t));
  })
  | inr f ↦ rw f (record {
    in_order = sort_labels-IsSorted (lset ++ l ∷ []);
    kept = λ h. absurd (cc (f, has_name-IsNamed lset l.label h));
    grown = λ h.
        Perm.trans (Perm.symm (perm_append_singleton l lset))
          (sort-Perm label_less (lset ++ l ∷ []));
  })
]
