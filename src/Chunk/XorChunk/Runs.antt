-- ===== src/Chunk/XorChunk/Runs.antt =====
-- Rounds of a loop over an iterator.
use prom_tcs.Prelude.{
  ℕ, zero, suc, ◌<◌, ◌≡◌, refl, ap, subst, ◌∙◌, true, false, List, [], ◌∷◌, ◌++◌, arith, length,
}
use prom_tcs.Chunk.XorIterator.{XorIterator, at, next, collect}

-- Rounds of `while (it->next())`, with the samples that `at` gives.
pub data Runs : XorIterator → List (ℕ × ℕ) → XorIterator → Type 0 where
  done : (it : XorIterator) → Runs it [] it
  round :
      (it it' it'' : XorIterator) {samples : List (ℕ × ℕ)}
      → next it ≡ (true, it')
      → Runs it' samples it''
      → Runs it (at it' ∷ samples) it''

Runs-snoc :
    {it it' it'' : XorIterator} {samples : List (ℕ × ℕ)}
    → Runs it samples it'
    → next it' ≡ (true, it'')
    → Runs it (samples ++ at it'' ∷ []) it''
Runs-snoc {it'' = it''} (done it) e = round it it'' it'' e (done it'')
Runs-snoc {it'' = it''} (round it it1 it' d r) e = round it it1 it'' d (Runs-snoc r e)

pub Runs-add :
    {it it' it'' : XorIterator} {samples : List (ℕ × ℕ)} {x : ℕ × ℕ}
    → Runs it samples it'
    → next it' ≡ (true, it'')
    → at it'' ≡ x
    → Runs it (samples ++ x ∷ []) it''
Runs-add {it} {it'' = it''} {samples} r e there =
    subst (λ (x : ℕ × ℕ). Runs it (samples ++ x ∷ []) it'') there (Runs-snoc r e)

collect_step :
    (fuel : ℕ) (it it' : XorIterator)
    → next it ≡ (true, it')
    → collect (suc fuel) it ≡ (at it' ∷ (collect fuel it').0, (collect fuel it').1)
unfolding collect
collect_step fuel it it' e = rw e refl

collect_stop :
    (fuel : ℕ) (it it' : XorIterator) → next it ≡ (false, it') → collect (suc fuel) it ≡ ([], it')
unfolding collect
collect_stop fuel it it' e = rw e refl

pub collect-Runs :
    (fuel : ℕ) {it it' : XorIterator} {samples : List (ℕ × ℕ)}
    → Runs it samples it'
    → next it' ≡ (false, it')
    → length samples < fuel
    → collect fuel it ≡ (samples, it')
collect-Runs zero r e lt = absurd (omega arith)
collect-Runs (suc fuel) (done it) e lt = collect_stop fuel it it e
collect-Runs (suc fuel) (round it it1 it2 d r) e lt =
    collect_step fuel it it1 d
    ∙ ap (λ (p : List (ℕ × ℕ) × XorIterator). (at it1 ∷ p.0, p.1))
        (collect-Runs fuel r e (omega arith))
