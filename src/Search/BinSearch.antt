-- ===== src/Search/BinSearch.antt =====
-- hegel-c/src/native/shrinker/search.rs, `BinSearchDown` and `BinSearchDownBig`: the smallest accepted value
-- of a range. The two differ in the successor of `lo` alone, which is checked in `i128`: `successor` is
-- that operation. `hi - lo` overflows an `i128` for ends 2 ^ 127 or more apart: `middle` is that of
-- `BinSearchDown` for closer ends.
pub mod Converges
use hegel_rust.Base.{
  ℕ, zero, suc, ◌+◌, ◌-◌, ◌/◌, ◌^◌, Bool, true, false, if◌then◌else◌, Option, none, some,
}
use hegel_rust.Base.Int.{ℤ, pos, negsuc, ◌+ℤ◌, ◌-ℤ◌, ltb_ℤ, eqb_ℤ}
use hegel_rust.Search.Step.{SearchStep, probe, finished}

pub data BinSearchState : Type 0 where
  check_lo : ℤ → ℤ → BinSearchState
  narrow : ℤ → ℤ → BinSearchState
  done : ℤ → BinSearchState

-- `x / 2`, towards zero.
unfoldable pub half : ℤ → ℤ
half (pos n) = pos (n / 2)
half (negsuc n) = pos 0 -ℤ pos ((n + 1) / 2)

unfoldable pub middle : ℤ → ℤ → ℤ
middle lo hi = lo +ℤ half (hi -ℤ lo)

abbrev pub i128_max : ℤ
i128_max = pos (2 ^ 127 - 1)

-- `lo.checked_add(1)`
abbrev pub checked_successor : ℤ → Option ℤ
checked_successor lo = if eqb_ℤ lo i128_max then none else some (lo +ℤ pos 1)

-- `&lo + 1`
abbrev pub big_successor : ℤ → Option ℤ
big_successor lo = some (lo +ℤ pos 1)

unfoldable pub new : ℤ → ℤ → BinSearchState
new lo hi = check_lo lo hi

unfoldable pub step : BinSearchState → SearchStep ℤ
step (check_lo lo hi) = probe lo
step (narrow lo hi) = probe (middle lo hi)
step (done v) = finished v

module _ (successor : ℤ → Option ℤ) where
  unfoldable pub narrow_or_done : ℤ → ℤ → BinSearchState
  narrow_or_done lo hi = elim (successor lo) [
    | some n ↦ if ltb_ℤ n hi then narrow lo hi else done hi
    | none ↦ done hi
  ]

  unfoldable pub record_verdict : BinSearchState → Bool → BinSearchState
  record_verdict (check_lo lo hi) is_ok = if is_ok then done lo else narrow_or_done lo hi
  record_verdict (narrow lo hi) is_ok =
      if is_ok then narrow_or_done lo (middle lo hi) else narrow_or_done (middle lo hi) hi
  record_verdict (done v) is_ok = done v

  -- The loop that the passes drive: the answer, or `none` where the rounds run out.
  unfoldable pub drive : (ℤ → Bool) → ℕ → BinSearchState → Option ℤ
  unfolding step record_verdict
  drive f zero state = none
  drive f (suc rounds) state = elim (step state) [
    | probe k ↦ drive f rounds (record_verdict state (f k))
    | finished v ↦ some v
  ]
