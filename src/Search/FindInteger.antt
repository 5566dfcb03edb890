-- ===== src/Search/FindInteger.antt =====
-- hegel-c/src/native/shrinker/search.rs, `FindInteger`: a large `n` with f(n) and not f(n + 1). `usize` has
-- 64 bits. The `Probe` and `Done` of a step are `probe` and `finished`.
pub mod Converges
use hegel_rust.Base.{
  ℕ, zero, suc, ◌+◌, ◌-◌, ◌*◌, ◌/◌, ◌^◌, Bool, true, false, ltb, not, if◌then◌else◌, Option, none,
  some,
}
use hegel_rust.Search.Step.{SearchStep, probe, finished}

pub data FindIntegerState : Type 0 where
  linear : ℕ → FindIntegerState
  grow : ℕ → ℕ → FindIntegerState
  narrow : ℕ → ℕ → FindIntegerState
  done : ℕ → FindIntegerState

unfoldable pub new : FindIntegerState
new = linear 1

unfoldable pub step : FindIntegerState → SearchStep ℕ
step (linear i) = probe i
step (grow lo hi) = probe hi
step (narrow lo hi) = probe (lo + (hi - lo) / 2)
step (done v) = finished v

unfoldable pub narrow_or_done : ℕ → ℕ → FindIntegerState
narrow_or_done lo hi = if ltb (lo + 1) hi then narrow lo hi else done lo

-- `hi.checked_mul(2)`
abbrev pub checked_double : ℕ → Option ℕ
checked_double hi = if ltb (hi * 2) (2 ^ 64) then some (hi * 2) else none

unfoldable pub record_verdict : FindIntegerState → Bool → FindIntegerState
unfolding narrow_or_done
record_verdict (linear i) is_ok =
    if not is_ok then done (i - 1) else if ltb i 4 then linear (i + 1) else grow 4 5
record_verdict (grow lo hi) true = elim (checked_double hi) [
  | some next ↦ grow hi next
  | none ↦ done hi
]
record_verdict (grow lo hi) false = narrow_or_done lo hi
record_verdict (narrow lo hi) is_ok =
    let mid = lo + (hi - lo) / 2 in if is_ok then narrow_or_done mid hi else narrow_or_done lo mid
record_verdict (done v) is_ok = done v

-- The loop that the passes drive: the answer, or `none` where the rounds run out.
unfoldable pub drive : (ℕ → Bool) → ℕ → FindIntegerState → Option ℕ
unfolding step record_verdict
drive f zero state = none
drive f (suc rounds) state = elim (step state) [
  | probe k ↦ drive f rounds (record_verdict state (f k))
  | finished v ↦ some v
]
