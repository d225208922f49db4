-- ===== src/Index/Postings/Lists.antt =====
-- Increasing lists as sets of numbers.
use prom_tcs.Prelude.{
  ℕ, ◌+◌, ◌≤◌, ◌<◌, ◌≡◌, ◌⊎◌, ◌↔◌, inl, inr, refl, subst, List, [], ◌∷◌, arith, ltb, if◌then◌else◌,
  Bool-cases, All,
}
use prom_tcs.Index.Postings.{drop_less, IsIncreasing}

abbrev pub Member : ℕ → List ℕ → Type 0
Member x [] = ⊥
Member x (y ∷ l) = (x ≡ y) ⊎ Member x l

-- A number of each of the lists.
abbrev pub InAll : ℕ → List (List ℕ) → Type 0
InAll x ls = All (Member x) ls

pub Member-above : (x y : ℕ) (l : List ℕ) → All (λ z. x < z) l → Member y l → x < y
Member-above x y [] above m = absurd m
Member-above x y (z ∷ l) above (inl e) = omega (arith, e, above.0)
Member-above x y (z ∷ l) above (inr m) = Member-above x y l above.1 m

pub Member-head : (x y : ℕ) (l : List ℕ) → IsIncreasing (x ∷ l) → Member y (x ∷ l) → x ≤ y
Member-head x y l inc (inl e) = omega (arith, e)
Member-head x y l inc (inr m) = omega (arith, Member-above x y l inc.0 m)

-- Whether the first number is dropped.
pub drop_less-cases :
    (v y : ℕ) (l : List ℕ)
    → ((y < v) × (drop_less v (y ∷ l) ≡ drop_less v l)) ⊎ ((v ≤ y) × (drop_less v (y ∷ l) ≡ y ∷ l))
drop_less-cases v y l = elim (Bool-cases (ltb y v)) [
  | inl t ↦ inl (ground arith, rw t refl)
  | inr f ↦ inr (ground arith, rw f refl)
]

-- What is dropped is less.
pub Member-drop_less : (v x : ℕ) (l : List ℕ) → Member x l → v ≤ x → Member x (drop_less v l)
Member-drop_less v x [] m le = m
Member-drop_less v x (y ∷ l) m le = elim (drop_less-cases v y l) [
  | inr (p, e) ↦ rw e m
  | inl (p, e) ↦ rw e (elim m [
    | inl same ↦ absurd (omega (arith, le, same))
    | inr m' ↦ Member-drop_less v x l m' le
  ])
]

pub drop_less-Member : (v x : ℕ) (l : List ℕ) → Member x (drop_less v l) → Member x l
drop_less-Member v x [] m = m
drop_less-Member v x (y ∷ l) m = elim (drop_less-cases v y l) [
  | inr (p, e) ↦ subst (Member x) e m
  | inl (p, e) ↦ inr (drop_less-Member v x l (subst (Member x) e m))
]

pub drop_less-ge : (v x : ℕ) (l : List ℕ) → IsIncreasing l → Member x (drop_less v l) → v ≤ x
drop_less-ge v x [] inc m = absurd m
drop_less-ge v x (y ∷ l) inc m = elim (drop_less-cases v y l) [
  | inr (p, e) ↦ omega (arith, Member-head y x l inc (subst (Member x) e m))
  | inl (p, e) ↦ drop_less-ge v x l inc.1 (subst (Member x) e m)
]

-- The members behind `drop_less`.
pub Member-drop_less_iff :
    (v x : ℕ) (l : List ℕ) → IsIncreasing l → Member x (drop_less v l) ↔ ((v ≤ x) × Member x l)
Member-drop_less_iff v x l inc =
    (λ m. (drop_less-ge v x l inc m, drop_less-Member v x l m), λ h. Member-drop_less v x l h.1 h.0)

pub drop_less-IsIncreasing : (v : ℕ) (l : List ℕ) → IsIncreasing l → IsIncreasing (drop_less v l)
drop_less-IsIncreasing v [] inc = tt
drop_less-IsIncreasing v (y ∷ l) inc = elim (drop_less-cases v y l) [
  | inr (p, e) ↦ rw e inc
  | inl (p, e) ↦ rw e (drop_less-IsIncreasing v l inc.1)
]

-- How many numbers are more than `v`.
abbrev pub count_above : ℕ → List ℕ → ℕ
count_above v [] = 0
count_above v (x ∷ l) = (if ltb v x then 1 else 0) + count_above v l

pub count_above_mono : (v w : ℕ) (l : List ℕ) → v ≤ w → count_above w l ≤ count_above v l
count_above_mono v w [] h = omega arith
count_above_mono v w (x ∷ l) h = ground (arith, h, count_above_mono v w l h)

pub count_above-drop_less : (v u : ℕ) (l : List ℕ) → count_above u (drop_less v l) ≤ count_above u l
count_above-drop_less v u [] = omega arith
count_above-drop_less v u (y ∷ l) = elim (drop_less-cases v y l) [
  | inr (p, e) ↦ rw e (omega arith)
  | inl (p, e) ↦ rw e (omega (arith, count_above-drop_less v u l))
]

pub count_above-less :
    (v h : ℕ) (l : List ℕ) → Member h l → v < h → count_above h l < count_above v l
count_above-less v h [] m le = absurd m
count_above-less v h (x ∷ l) (inl e) le = ground (arith, e, count_above_mono v h l)
count_above-less v h (x ∷ l) (inr m) le = ground (arith, count_above-less v h l m le)

-- Over some lists.
abbrev pub count_all : ℕ → List (List ℕ) → ℕ
count_all v [] = 0
count_all v (l ∷ ls) = count_above v l + count_all v ls

pub count_all_mono : (v w : ℕ) (ls : List (List ℕ)) → v ≤ w → count_all w ls ≤ count_all v ls
count_all_mono v w [] h = omega arith
count_all_mono v w (l ∷ ls) h = omega (arith, count_above_mono v w l h, count_all_mono v w ls h)

pub All-less : (x y : ℕ) (d : List ℕ) → x < y → All (λ z. y < z) d → All (λ z. x < z) d
All-less x y [] h above = tt
All-less x y (z ∷ d) h above = (omega (arith, h, above.0), All-less x y d h above.1)
