-- ===== src/Index/SubtractionPostings/Branches.antt =====
-- The branches of a round of `next` in index/SubtractionPostings.cpp.
use prom_tcs.Prelude.{◌≡◌, refl, Bool, true, false, if◌then◌else◌}
use prom_tcs.Index.SubtractionPostings.{branch}

pub if_false {ℓ} : {A : Type ℓ} (b : Bool) (x y : A) → b ≡ false → (if b then x else y) ≡ y
if_false b x y e = rw e refl

module _ {ℓ} {A : Type ℓ} (full_ok drop_ok less more : Bool) (ended taken passed skipped : A) where
  pub branch-ended :
      full_ok ≡ false → branch full_ok drop_ok less more ended taken passed skipped ≡ ended
  unfolding branch
  branch-ended e = rw e refl

  pub branch_alone :
      full_ok ≡ true
      → drop_ok ≡ false
      → branch full_ok drop_ok less more ended taken passed skipped ≡ taken
  unfolding branch
  branch_alone e e' = rw (e, e') refl

  pub branch_less :
      full_ok ≡ true
      → drop_ok ≡ true
      → less ≡ true
      → branch full_ok drop_ok less more ended taken passed skipped ≡ taken
  unfolding branch
  branch_less e e' h = rw (e, e', h) refl

  pub branch_more :
      full_ok ≡ true
      → drop_ok ≡ true
      → less ≡ false
      → more ≡ true
      → branch full_ok drop_ok less more ended taken passed skipped ≡ passed
  unfolding branch
  branch_more e e' h h' = rw (e, e', h, h') refl

  pub branch_same :
      full_ok ≡ true
      → drop_ok ≡ true
      → less ≡ false
      → more ≡ false
      → branch full_ok drop_ok less more ended taken passed skipped ≡ skipped
  unfolding branch
  branch_same e e' h h' = rw (e, e', h, h') refl
