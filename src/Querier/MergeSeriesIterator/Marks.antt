-- ===== src/Querier/MergeSeriesIterator/Marks.antt =====
-- `_next` of the class MergeSeriesIterator of querier/SeriesIteratorInterface.hpp: the indices, with
-- those that are erased taken off, are those of the marked iterators.
use prom_tcs.Prelude.{
  ℕ, ◌+◌, ◌-◌, ◌≡◌, refl, ap, sym, ◌∙◌, Bool, true, false, some, List, [], ◌∷◌, ◌++◌, append_assoc,
  arith, length, length-append, set, if◌then◌else◌, Bool-cases, inl, inr,
}
use prom_tcs.Querier.{SeriesIterator}
use prom_tcs.Querier.ChainSeriesIterator.{nth}
use prom_tcs.Querier.MergeSeriesIterator.{erase, advance}

-- The indices of the marks, counted from `k`.
unfoldable pub positions : ℕ → List Bool → List ℕ
positions k [] = []
positions k (true ∷ marks) = k ∷ positions (k + 1) marks
positions k (false ∷ marks) = positions (k + 1) marks

module _ {ℓ} {S : Type ℓ} where
  nth-middle :
      (front : List S) (it : S) (iters : List S)
      → nth (front ++ (it ∷ iters)) (length front) ≡ some it
  nth-middle [] it iters = refl
  nth-middle (x ∷ front) it iters = nth-middle front it iters

  erase-middle :
      (front : List S) (it : S) (iters : List S)
      → erase (front ++ (it ∷ iters)) (length front) ≡ front ++ iters
  erase-middle [] it iters = refl
  erase-middle (x ∷ front) it iters = ap (◌∷◌ x) (erase-middle front it iters)

  set-middle :
      (front : List S) (it it' : S) (iters : List S)
      → set (front ++ (it ∷ iters)) (length front) it' ≡ front ++ (it' ∷ iters)
  set-middle [] it it' iters = refl
  set-middle (x ∷ front) it it' iters = ap (◌∷◌ x) (set-middle front it it' iters)

module _ {ℓ} {S : Type ℓ} (p : SeriesIterator S) where
  -- The marked iterators go on, and those that end are left out.
  unfoldable pub advance_marked : List Bool → List S → List S
  advance_marked [] iters = iters
  advance_marked (m ∷ marks) [] = []
  advance_marked (false ∷ marks) (it ∷ iters) = it ∷ advance_marked marks iters
  advance_marked (true ∷ marks) (it ∷ iters) =
      let (found, it') = p.samples.next it in
      let rest = advance_marked marks iters in if found then it' ∷ rest else rest

  advance-positions :
      (marks : List Bool) (iters front : List S) (k d : ℕ)
      → length marks ≡ length iters
      → k ≡ d + length front
      → advance p (positions k marks) d (front ++ iters) ≡ front ++ advance_marked marks iters
  unfolding advance advance_marked positions
  advance-positions [] [] front k d same e = refl
  advance-positions [] (it ∷ iters) front k d same e = absurd (omega arith)
  advance-positions (m ∷ marks) [] front k d same e = absurd (omega arith)
  advance-positions (false ∷ marks) (it ∷ iters) front k d same e =
      ap (advance p (positions (k + 1) marks) d) (sym (append_assoc front (it ∷ []) iters))
      ∙ advance-positions marks iters (front ++ (it ∷ [])) (k + 1) d (omega arith)
          (omega (arith, e, length-append front (it ∷ [])))
      ∙ append_assoc front (it ∷ []) (advance_marked marks iters)
  advance-positions (true ∷ marks) (it ∷ iters) front k d same e =
      let it' = (p.samples.next it).1 in
      let here : k - d ≡ length front = omega (arith, e) in
      let there : nth (front ++ (it ∷ iters)) (k - d) ≡ some it =
        ap (nth (front ++ (it ∷ iters))) here ∙ nth-middle front it iters in
      elim (Bool-cases (p.samples.next it).0) [
        | inl found ↦
            rw (advance, there, found)
              (ap (advance p (positions (k + 1) marks) d) (
                  ap (λ (n : ℕ). set (front ++ (it ∷ iters)) n it') here
                  ∙ set-middle front it it' iters
                  ∙ sym (append_assoc front (it' ∷ []) iters))
                ∙ advance-positions marks iters (front ++ (it' ∷ [])) (k + 1) d (omega arith)
                    (omega (arith, e, length-append front (it' ∷ [])))
                ∙ append_assoc front (it' ∷ []) (advance_marked marks iters))
        | inr ended ↦
            rw (advance, there, ended)
              (ap (advance p (positions (k + 1) marks) (d + 1))
                  (ap (erase (front ++ (it ∷ iters))) here ∙ erase-middle front it iters)
                ∙ advance-positions marks iters front (k + 1) (d + 1) (omega arith)
                    (omega (arith, e)))
      ]

  -- All of it, from the first index on.
  pub advance-marked :
      (marks : List Bool) (iters : List S)
      → length marks ≡ length iters
      → advance p (positions 0 marks) 0 iters ≡ advance_marked marks iters
  advance-marked marks iters same = advance-positions marks iters [] 0 0 same (omega arith)
