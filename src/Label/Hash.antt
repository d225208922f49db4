-- ===== src/Label/Hash.antt =====
-- The hashes of label sets in label/Label.cpp. XXH64 of third_party/ is a parameter.
use prom_tcs.Prelude.{
  ℕ, ◌≡◌, refl, ap, Bool, true, false, List, [], ◌∷◌, ◌++◌, if◌then◌else◌, Bool-cases, inl, inr,
}
use prom_tcs.Label.{Label, string_equal, lbs_del, metric_name}

-- SEP
abbrev pub sep : ℕ
sep = 0xff

-- What the input of a hash gets for a label.
abbrev pub hashed_label : Label → List ℕ
hashed_label l = l.label ++ (sep ∷ l.value ++ sep ∷ [])

unfoldable pub hash_input : List Label → List ℕ
hash_input [] = []
hash_input (l ∷ lbs) = hashed_label l ++ hash_input lbs

unfoldable pub metric_input : List Label → List ℕ
unfolding string_equal
metric_input [] = []
metric_input (l ∷ lbs) =
    let more = metric_input lbs in if string_equal l.label metric_name then l.value else more

unfoldable pub source_input : List Label → List ℕ
unfolding string_equal
source_input [] = []
source_input (l ∷ lbs) =
    let more = source_input lbs in
    if string_equal l.label metric_name then more else hashed_label l ++ more

-- The inner loops: is the name one of the names?
unfoldable pub is_one_of : List ℕ → List (List ℕ) → Bool
unfolding string_equal
is_one_of name [] = false
is_one_of name (n ∷ names) =
    let more = is_one_of name names in if string_equal name n then true else more

unfoldable pub input_for_labels : List Label → List (List ℕ) → List ℕ
unfolding is_one_of
input_for_labels [] names = []
input_for_labels (l ∷ lbs) names =
    let more = input_for_labels lbs names in
    if is_one_of l.label names then hashed_label l ++ more else more

unfoldable pub input_without_labels : List Label → List (List ℕ) → List ℕ
unfolding is_one_of string_equal
input_without_labels [] names = []
input_without_labels (l ∷ lbs) names =
    let more = input_without_labels lbs names in
    if string_equal l.label metric_name
    then more
    else if is_one_of l.label names
    then more
    else hashed_label l ++ more

unfoldable pub group_input : List (List Label) → List ℕ
unfolding hash_input
group_input [] = []
group_input (lbs ∷ labels) = hash_input lbs ++ group_input labels

module _ (xxh64 : List ℕ → ℕ → ℕ) where
  unfoldable pub lb_name_label_hash : Label → ℕ → ℕ
  lb_name_label_hash lb seed = xxh64 lb.label seed

  unfoldable pub lb_value_label_hash : Label → ℕ → ℕ
  lb_value_label_hash lb seed = xxh64 lb.value seed

  unfoldable pub lbs_hash : List Label → ℕ → ℕ
  unfolding hash_input
  lbs_hash lbs seed = xxh64 (hash_input lbs) seed

  unfoldable pub lbs_metric_hash : List Label → ℕ → ℕ
  unfolding metric_input
  lbs_metric_hash lbs seed = xxh64 (metric_input lbs) seed

  unfoldable pub lbs_source_hash : List Label → ℕ → ℕ
  unfolding source_input
  lbs_source_hash lbs seed = xxh64 (source_input lbs) seed

  unfoldable pub lbs_hash_group : List (List Label) → ℕ
  unfolding group_input
  lbs_hash_group labels = xxh64 (group_input labels) 0

  unfoldable pub lbs_hash_for_labels : List Label → List (List ℕ) → ℕ
  unfolding input_for_labels
  lbs_hash_for_labels lbs names = xxh64 (input_for_labels lbs names) 0

  unfoldable pub lbs_hash_without_labels : List Label → List (List ℕ) → ℕ
  unfolding input_without_labels
  lbs_hash_without_labels lbs names = xxh64 (input_without_labels lbs names) 0

-- The labels that are left when each of some names has been deleted.
unfoldable pub delete_names : List Label → List (List ℕ) → List Label
unfolding lbs_del
delete_names lbs [] = lbs
delete_names lbs (n ∷ names) = delete_names (lbs_del lbs n) names

delete_names-nil : (names : List (List ℕ)) → delete_names [] names ≡ []
unfolding delete_names lbs_del
delete_names-nil [] = refl
delete_names-nil (n ∷ names) = delete_names-nil names

delete_names-cons :
    (l : Label) (lbs : List Label) (names : List (List ℕ))
    → delete_names (l ∷ lbs) names
      ≡ (if is_one_of l.label names then delete_names lbs names else l ∷ delete_names lbs names)
unfolding delete_names lbs_del is_one_of
delete_names-cons l lbs [] = refl
delete_names-cons l lbs (n ∷ names) = elim (Bool-cases (string_equal l.label n)) [
  | inl t ↦ rw t refl
  | inr f ↦ rw f (delete_names-cons l (lbs_del lbs n) names)
]

source_input-lbs_del : (lbs : List Label) → source_input lbs ≡ hash_input (lbs_del lbs metric_name)
unfolding source_input hash_input lbs_del
source_input-lbs_del [] = refl
source_input-lbs_del (l ∷ lbs) = elim (Bool-cases (string_equal l.label metric_name)) [
  | inl t ↦ rw t (source_input-lbs_del lbs)
  | inr f ↦ rw f (ap (λ (s : List ℕ). hashed_label l ++ s) (source_input-lbs_del lbs))
]

input_without-delete :
    (lbs : List Label) (names : List (List ℕ))
    → input_without_labels lbs names ≡ hash_input (lbs_del (delete_names lbs names) metric_name)
unfolding input_without_labels hash_input lbs_del
input_without-delete [] names = rw (delete_names-nil names) refl
input_without-delete (l ∷ lbs) names =
    let ih = input_without-delete lbs names in
    elim (Bool-cases (is_one_of l.label names)) [
      | inl t ↦ elim (Bool-cases (string_equal l.label metric_name)) [
        | inl t' ↦ rw (delete_names-cons l lbs names, t, t') ih
        | inr f' ↦ rw (delete_names-cons l lbs names, t, f') ih
      ]
      | inr f ↦ elim (Bool-cases (string_equal l.label metric_name)) [
        | inl t' ↦ rw (delete_names-cons l lbs names, f, t') ih
        | inr f' ↦
            rw (delete_names-cons l lbs names, f, f') (ap (λ (s : List ℕ). hashed_label l ++ s) ih)
      ]
    ]

-- Whatever the hash function is, the hash without some labels is the hash of all labels that are
-- left when the labels of those names and the metric's name have been deleted, and the source's
-- hash that of the labels without the metric's name.
pub lbs_hash_without_labels-delete :
    (xxh64 : List ℕ → ℕ → ℕ) (lbs : List Label) (names : List (List ℕ)) (seed : ℕ)
    → (lbs_hash_without_labels xxh64 lbs names
        ≡ lbs_hash xxh64 (lbs_del (delete_names lbs names) metric_name) 0)
      × (lbs_source_hash xxh64 lbs seed ≡ lbs_hash xxh64 (lbs_del lbs metric_name) seed)
unfolding lbs_hash_without_labels lbs_hash lbs_source_hash
lbs_hash_without_labels-delete xxh64 lbs names seed = (
  ap (λ (input : List ℕ). xxh64 input 0) (input_without-delete lbs names),
  ap (λ (input : List ℕ). xxh64 input seed) (source_input-lbs_del lbs),
)
