-- ===== src/Index/SubtractionPostings.antt =====
-- index/SubtractionPostings.hpp and index/SubtractionPostings.cpp: the numbers of some postings that
-- others do not have, over any two kinds of postings.
pub mod Lists
pub mod Branches
pub mod Refines
pub mod OfLists
use prom_tcs.Prelude.{
  ℕ, zero, suc, Bool, true, false, not, List, Option, none, some, ltb, leb, if◌then◌else◌,
}
use prom_tcs.Index.Postings.{Postings}

pub record Subtraction {ℓ κ} (S : Type ℓ) (T : Type κ) : Type (ℓ ⊔ κ) where
  pub full : S
  pub drop : T
  pub full_ok : Bool
  pub drop_ok : Bool
  pub cur : ℕ
  pub initialized : Bool

-- The ways of a round of `next`: the end, a number to return, and the two that go on.
unfoldable pub branch {ℓ} : {A : Type ℓ} → Bool → Bool → Bool → Bool → A → A → A → A → A
branch full_ok drop_ok less more ended taken passed skipped =
    if not full_ok
    then ended
    else if not drop_ok
    then taken
    else if less
    then taken
    else if more
    then passed
    else skipped

module _ {ℓ κ} {S : Type ℓ} {T : Type κ} (p : Postings S) (q : Postings T) where
  -- The constructor leaves three members without a value; `indeterminate` has what they are.
  unfoldable pub subtraction : S → T → Bool × Bool × ℕ → Subtraction S T
  subtraction full drop (full_ok, drop_ok, cur) = record {
    full = full;
    drop = drop;
    full_ok = full_ok;
    drop_ok = drop_ok;
    cur = cur;
    initialized = false;
  }

  -- `full_ok = full->next()`
  unfoldable pub full_next : Subtraction S T → Subtraction S T
  full_next s = let (ok, full) = p.next s.full in record s { full = full; full_ok = ok }

  -- `cur = full->at()`, and on to the next one.
  unfoldable pub take_full : Subtraction S T → Subtraction S T
  unfolding full_next
  take_full s = full_next (record s { cur = p.at s.full })

  -- `drop_ok = drop->seek(...)`
  unfoldable pub drop_seek : Subtraction S T → ℕ → Subtraction S T
  drop_seek s v = let (ok, drop) = q.seek s.drop v in record s { drop = drop; drop_ok = ok }

  -- The `while (true)` loop of `next`; without fuel there is no result.
  unfoldable pub subtract_loop : ℕ → Subtraction S T → Option (Bool × Subtraction S T)
  unfolding branch take_full full_next drop_seek
  subtract_loop zero s = none
  subtract_loop (suc fuel) s =
      branch s.full_ok s.drop_ok (ltb (p.at s.full) (q.at s.drop)) (ltb (q.at s.drop) (p.at s.full))
        (some (false, s)) (some (true, take_full s))
        (subtract_loop fuel (drop_seek s (p.at s.full))) (subtract_loop fuel (full_next s))

  unfoldable pub initialize : Subtraction S T → Subtraction S T
  unfolding full_next
  initialize s =
      let s' = full_next s in
      let (ok, drop) = q.next s.drop in
      if not s.initialized then record s' { drop = drop; drop_ok = ok; initialized = true } else s

  unfoldable pub subtract_next : ℕ → Subtraction S T → Option (Bool × Subtraction S T)
  unfolding initialize subtract_loop
  subtract_next fuel s = subtract_loop fuel (initialize s)

  unfoldable pub subtract_seek : ℕ → Subtraction S T → ℕ → Option (Bool × Subtraction S T)
  unfolding drop_seek subtract_next
  subtract_seek fuel s v =
      let (ok, full) = p.seek s.full v in
      let s' = drop_seek (record s { full = full; full_ok = ok }) v in
      if leb v s.cur then some (true, s) else subtract_next fuel (record s' { initialized = true })

  unfoldable pub subtract_at : Subtraction S T → ℕ
  subtract_at s = s.cur
