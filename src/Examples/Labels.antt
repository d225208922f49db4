-- ===== src/Examples/Labels.antt =====
-- The theorems on the labels of label/ at concrete inputs.
use prom_tcs.Prelude.{ℕ, ◌+◌, ◌≡◌, not, List, [], ◌∷◌, length}
use prom_tcs.Label.{Label, label_less, label_less_equal, lbs_add, lbs_del, metric_name}
use prom_tcs.Label.Order.{IsAdded, lbs_add-IsAdded, label_less_equal-not_less}
use prom_tcs.Label.Hash.{
  lbs_hash, lbs_source_hash, lbs_hash_without_labels, delete_names, lbs_hash_without_labels-delete,
}

abbrev label_a : Label
label_a = record { label = 97 ∷ []; value = 50 ∷ [] }

abbrev label_b : Label
label_b = record { label = 98 ∷ []; value = 49 ∷ [] }

lbs_add-IsAdded_example : IsAdded (label_b ∷ []) label_a (lbs_add (label_b ∷ []) label_a)
lbs_add-IsAdded_example = lbs_add-IsAdded (label_b ∷ []) label_a (tt, tt)

label_less_equal-not_less_example :
    label_less_equal label_a label_b ≡ not (label_less label_b label_a)
label_less_equal-not_less_example = label_less_equal-not_less label_a label_b

-- Some hash function.
abbrev length_hash : List ℕ → ℕ → ℕ
length_hash input seed = length input + seed

lbs_hash_without_labels-delete_example :
    (lbs_hash_without_labels length_hash (label_a ∷ label_b ∷ []) ((98 ∷ []) ∷ [])
      ≡ lbs_hash length_hash
          (lbs_del (delete_names (label_a ∷ label_b ∷ []) ((98 ∷ []) ∷ [])) metric_name)
          0)
    × (lbs_source_hash length_hash (label_a ∷ label_b ∷ []) 5
        ≡ lbs_hash length_hash (lbs_del (label_a ∷ label_b ∷ []) metric_name) 5)
lbs_hash_without_labels-delete_example =
    lbs_hash_without_labels-delete length_hash (label_a ∷ label_b ∷ []) ((98 ∷ []) ∷ []) 5
