-- ===== src/Label.antt =====
-- label/Label.hpp and label/Label.cpp. A string is the list of its bytes. `std::sort` is an insertion sort.
pub mod Order
pub mod Hash
use prom_tcs.Prelude.{ℕ, Bool, true, false, not, ◌&&◌, List, [], ◌∷◌, ◌++◌, if◌then◌else◌}
use prom_tcs.Prelude.Comparison.{lexicographic, is_less, then_by}
use prom_tcs.Prelude.Sorting.{sort}
use Prim.Native.Nat.{compare, Ordering}

pub record Label : Type 0 where
  pub label : List ℕ
  pub value : List ℕ

-- `std::string::compare`, by its sign.
unfoldable pub compare_string : List ℕ → List ℕ → Ordering
unfolding lexicographic
compare_string = lexicographic compare

-- `operator<`
unfoldable pub label_less : Label → Label → Bool
unfolding compare_string
label_less l l2 = elim (compare_string l.label l2.label) [
  | Ordering.gt ↦ false
  | Ordering.lt ↦ true
  | Ordering.eq ↦ elim (compare_string l.value l2.value) [ Ordering.lt ↦ true | _ ↦ false ]
]

-- `operator<=`
unfoldable pub label_less_equal : Label → Label → Bool
unfolding compare_string
label_less_equal l l2 = elim (compare_string l.label l2.label) [
  | Ordering.gt ↦ false
  | Ordering.lt ↦ true
  | Ordering.eq ↦ elim (compare_string l.value l2.value) [ Ordering.gt ↦ false | _ ↦ true ]
]

unfoldable pub string_equal : List ℕ → List ℕ → Bool
unfolding compare_string
string_equal s s2 = elim (compare_string s s2) [ Ordering.eq ↦ true | _ ↦ false ]

-- `operator==`
unfoldable pub label_equal : Label → Label → Bool
unfolding string_equal
label_equal l l2 = string_equal l.label l2.label && string_equal l.value l2.value

unfoldable pub sort_labels : List Label → List Label
unfolding sort label_less
sort_labels = sort label_less

-- The loop of `lbs_add`: is there a label of the name?
unfoldable pub has_name : List Label → List ℕ → Bool
unfolding string_equal
has_name [] name = false
has_name (l ∷ lset) name =
    let more = has_name lset name in if string_equal l.label name then true else more

unfoldable pub lbs_add : List Label → Label → List Label
unfolding has_name sort_labels
lbs_add lset l = if has_name lset l.label then lset else sort_labels (lset ++ l ∷ [])

unfoldable pub lbs_del : List Label → List ℕ → List Label
unfolding string_equal
lbs_del [] name = []
lbs_del (l ∷ lset) name =
    let rest = lbs_del lset name in if not (string_equal l.label name) then l ∷ rest else rest

-- The comparison in a round of `lbs_compare`: the names first, then the values.
unfoldable pub compare_label : Label → Label → Ordering
unfolding compare_string
compare_label l l2 = then_by (compare_string l.label l2.label) (compare_string l.value l2.value)

-- The sign of the result; behind the common length the numbers of labels decide.
unfoldable pub lbs_compare : List Label → List Label → Ordering
unfolding lexicographic compare_label
lbs_compare = lexicographic compare_label

-- `std::sort` of the labels that a list of strings gives in pairs; a last odd one gives none at all.
unfoldable pub paired : List (List ℕ) → List Label
paired [] = []
paired (name ∷ []) = []
paired (name ∷ value ∷ list) = record { label = name; value = value } ∷ paired list

unfoldable pub is_even : List (List ℕ) → Bool
is_even [] = true
is_even (s ∷ []) = false
is_even (s ∷ s' ∷ list) = is_even list

unfoldable pub lbs_from_string : List (List ℕ) → List Label
unfolding paired is_even sort_labels
lbs_from_string list = if is_even list then sort_labels (paired list) else []

-- "__name__"
abbrev pub metric_name : List ℕ
metric_name = 95 ∷ 95 ∷ 110 ∷ 97 ∷ 109 ∷ 101 ∷ 95 ∷ 95 ∷ []

-- The empty string if there is no such label.
unfoldable pub label_metric : List Label → List ℕ
unfolding string_equal
label_metric [] = []
label_metric (l ∷ lbs) =
    let more = label_metric lbs in if string_equal l.label metric_name then l.value else more

-- The text between the braces of `label_source_group`, with `+` in each pair and nothing between pairs.
unfoldable pub source_pairs : List Label → List ℕ
unfolding string_equal
source_pairs [] = []
source_pairs (l ∷ lbs) =
    let more = source_pairs lbs in
    if string_equal l.label metric_name then more else l.label ++ (43 ∷ l.value ++ more)

unfoldable pub label_source_group : List Label → List ℕ
unfolding source_pairs
label_source_group lbs = 123 ∷ source_pairs lbs ++ 125 ∷ []

-- The text behind the opening brace of `lbs_string`, from a label that is not the first on.
unfoldable pub lbs_string_pairs : List Label → List ℕ
lbs_string_pairs [] = []
lbs_string_pairs (l ∷ lbs) = 44 ∷ l.label ++ (61 ∷ l.value ++ lbs_string_pairs lbs)

unfoldable pub lbs_string : List Label → List ℕ
unfolding lbs_string_pairs
lbs_string [] = 123 ∷ 125 ∷ []
lbs_string (l ∷ lbs) = 123 ∷ l.label ++ (61 ∷ l.value ++ (lbs_string_pairs lbs ++ 125 ∷ []))
