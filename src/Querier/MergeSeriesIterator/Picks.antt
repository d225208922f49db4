-- ===== src/Querier/MergeSeriesIterator/Picks.antt =====
-- The loop over the iterators in the class MergeSeriesIterator of querier/SeriesIteratorInterface.hpp
-- finds the least time, all the indices that have it, and the last value that it has.
use prom_tcs.Prelude.{
  ℕ, ◌+◌, ◌≤◌, ◌≡◌, refl, ap, sym, ◌∙◌, Bool, true, List, [], ◌∷◌, ◌++◌, append-nil, append_assoc,
  arith, ltb, ◌==◌, if◌then◌else◌, Bool-cases, inl, inr,
}
use prom_tcs.Querier.{SeriesIterator}
use prom_tcs.Querier.MergeSeriesIterator.{Pick, Merge, pick_step, pick_loop, pick, heads}
use prom_tcs.Querier.MergeSeriesIterator.Marks.{positions}

unfoldable pub least : ℕ → List (ℕ × ℕ) → ℕ
least t [] = t
least t (x ∷ heads) = least (if ltb x.0 t then x.0 else t) heads

-- The value of the last head of time `t`, or `v`.
unfoldable pub last_value : ℕ → ℕ → List (ℕ × ℕ) → ℕ
last_value t v [] = v
last_value t v (x ∷ heads) = last_value t (if x.0 == t then x.1 else v) heads

abbrev pub marks : ℕ → List (ℕ × ℕ) → List Bool
marks t [] = []
marks t (x ∷ heads) = (x.0 == t) ∷ marks t heads

pub least-le : (t : ℕ) (heads : List (ℕ × ℕ)) → least t heads ≤ t
unfolding least
least-le t [] = omega arith
least-le t (x ∷ heads) = ground (arith, least-le (if ltb x.0 t then x.0 else t) heads)

abbrev kept_ids : ℕ → Pick → List ℕ
kept_ids t k = if k.t == t then k.id else []

positions_step :
    (i t : ℕ) (x : ℕ × ℕ) (ms : List Bool)
    → positions i ((x.0 == t) ∷ ms) ≡ (if x.0 == t then i ∷ [] else []) ++ positions (i + 1) ms
unfolding positions
positions_step i t x ms = elim (Bool-cases (x.0 == t)) [ inl e ↦ rw e refl | inr e ↦ rw e refl ]

module _ (i : ℕ) (k : Pick) (x : ℕ × ℕ) where
  step_time : (pick_step i k x).t ≡ (if ltb x.0 k.t then x.0 else k.t)
  unfolding pick_step
  step_time = elim (Bool-cases (ltb x.0 k.t)) [
    | inl t ↦ rw t refl
    | inr f ↦ elim (Bool-cases (x.0 == k.t)) [ inl e ↦ rw (f, e) refl | inr e ↦ rw (f, e) refl ]
  ]

  step_ids :
      (t : ℕ)
      → t ≤ (pick_step i k x).t
      → kept_ids t (pick_step i k x) ≡ kept_ids t k ++ (if x.0 == t then i ∷ [] else [])
  unfolding pick_step
  step_ids t le = ground (arith, le, append-nil k.id)

  step_value :
      (t w : ℕ)
      → (k.t ≡ t → w ≡ k.v)
      → (pick_step i k x).t ≡ t
      → (if x.0 == t then x.1 else w) ≡ (pick_step i k x).v
  unfolding pick_step
  step_value t w h e = ground (arith, e, h)

record IsPick (i : ℕ) (k : Pick) (heads : List (ℕ × ℕ)) (t w : ℕ) (r : Pick) : Type 0 where
  time : r.t ≡ t
  ids : r.id ≡ kept_ids t k ++ positions i (marks t heads)
  value : r.v ≡ last_value t w heads

pick_loop-IsPick :
    (i : ℕ) (k : Pick) (heads : List (ℕ × ℕ)) (t w : ℕ)
    → t ≡ least k.t heads
    → (k.t ≡ t → w ≡ k.v)
    → IsPick i k heads t w (pick_loop i k heads)
unfolding pick_loop least last_value positions
pick_loop-IsPick i k [] t w e h =
    let same : k.t == t ≡ true = ground (arith, e) in
    record { time = sym e; ids = rw same (sym (append-nil k.id)); value = sym (h (sym e)) }
pick_loop-IsPick i k (x ∷ heads) t w e h =
    let k' = pick_step i k x in
    let e' : t ≡ least k'.t heads = e ∙ ap (λ (n : ℕ). least n heads) (sym (step_time i k x)) in
    let r =
      pick_loop-IsPick (i + 1) k' heads t (if x.0 == t then x.1 else w) e'
        (step_value i k x t w h) in
    let below : t ≤ k'.t = omega (arith, e', least-le k'.t heads) in
    let ms = marks t heads in
    record {
      time = r.time;
      ids =
          r.ids
          ∙ ap (λ (l : List ℕ). l ++ positions (i + 1) ms) (step_ids i k x t below)
          ∙ append_assoc (kept_ids t k) (if x.0 == t then i ∷ [] else []) (positions (i + 1) ms)
          ∙ ap (◌++◌ (kept_ids t k)) (sym (positions_step i t x ms));
      value = r.value;
    }

-- What `next` and `seek` note of the heads: the least time, who has it, and the last value at it.
pub record IsPicked (heads : List (ℕ × ℕ)) (t v : ℕ) (id : List ℕ) : Type 0 where
  pub ids : id ≡ positions 0 (marks t heads)
  pub value : v ≡ last_value t 0 heads

module _ {ℓ} {S : Type ℓ} (p : SeriesIterator S) where
  pub pick-IsPicked :
      (m : Merge S) (it : S) (iters : List S)
      → let r = pick p m (it ∷ iters) in
        (r.0 ≡ true)
        × (r.1.iters ≡ it ∷ iters)
        × (r.1.init ≡ true)
        × (r.1.t ≡ least (p.samples.at it).0 (heads p iters))
        × IsPicked (heads p (it ∷ iters)) r.1.t r.1.v r.1.id
  unfolding pick
  pick-IsPicked m it iters =
      let x = p.samples.at it in
      let t = least x.0 (heads p iters) in
      let k : Pick = record { id = 0 ∷ []; t = x.0; v = x.1 } in
      let w = if x.0 == t then x.1 else 0 in
      let r = pick_loop-IsPick 1 k (heads p iters) t w refl (λ e. ground (arith, e)) in
      (
        refl,
        refl,
        refl,
        r.time,
        rw (r.time) (record {
          ids = r.ids ∙ sym (positions_step 0 t x (marks t (heads p iters)));
          value = unfold last_value in r.value;
        }),
      )
