-- ===== src/Choices/Integer.antt =====
-- hegel-c/src/native/core/choices.rs, `IntegerChoice`. A `BigInt` is an integer, a `BigUint` a
-- natural number (hegel-c/src/native/bignum.rs wraps an arbitrary-precision library).
pub mod Rank
pub mod Index
pub mod Order
use hegel_rust.Base.{
  ℕ, ◌+◌, ◌-◌, ◌*◌, ◌/◌, ◌%◌, ◌<◌, ◌≡◌, min, Bool, not, ◌&&◌, ◌==◌, ltb, leb, if◌then◌else◌, Option,
  none, some,
}
use hegel_rust.Base.Int.{ℤ, pos, ◌+ℤ◌, ◌-ℤ◌, magnitude, eqb_ℤ, leb_ℤ, ltb_ℤ, clamp_ℤ}

pub record IntegerChoice : Type 0 where
  pub min_value : ℤ
  pub max_value : ℤ
  pub shrink_towards : ℤ

unfoldable pub clamped_shrink_towards : IntegerChoice → ℤ
clamped_shrink_towards c = clamp_ℤ c.shrink_towards c.min_value c.max_value

unfoldable pub simplest : IntegerChoice → ℤ
unfolding clamped_shrink_towards
simplest c = clamped_shrink_towards c

unfoldable pub validate : IntegerChoice → ℤ → Bool
validate c v = leb_ℤ c.min_value v && leb_ℤ v c.max_value

unfoldable pub unit : IntegerChoice → ℤ
unit c =
    let s = simplest c in
    if validate c (s +ℤ pos 1)
    then s +ℤ pos 1
    else if validate c (s -ℤ pos 1)
    then s -ℤ pos 1
    else s

-- The distance from the target, and whether the value lies below it.
unfoldable pub sort_key : IntegerChoice → ℤ → ℕ × Bool
unfolding clamped_shrink_towards
sort_key c v = let target = clamped_shrink_towards c in (magnitude (v -ℤ target), ltb_ℤ v target)

unfoldable pub max_index : IntegerChoice → ℕ
max_index c = magnitude (c.max_value -ℤ c.min_value)

-- The room above the simplest value and the room below it.
unfoldable pub above : IntegerChoice → ℕ
unfolding simplest
above c = magnitude (c.max_value -ℤ simplest c)

unfoldable pub below : IntegerChoice → ℕ
unfolding simplest
below c = magnitude (simplest c -ℤ c.min_value)

-- The end of `to_index`: the index of the value at distance `d_abs`, 0 < d_abs, above the simplest
-- value or below it.
unfoldable pub rank : ℕ → ℕ → ℕ → Bool → ℕ
rank above below d_abs is_above =
    let count = min (d_abs - 1) above + min (d_abs - 1) below in
    if is_above then count + 1 else (if leb d_abs above then count + 1 else count) + 1

unfoldable pub to_index : IntegerChoice → ℤ → ℕ
unfolding simplest above below rank
to_index c v =
    let s = simplest c in
    if eqb_ℤ v s then 0 else rank (above c) (below c) (magnitude (v -ℤ s)) (ltb_ℤ s v)

-- The end of `from_index`: the distance and the side of a positive index.
unfoldable pub unrank : ℕ → ℕ → ℕ → ℕ × Bool
unrank above below index =
    if leb index (min above below * 2)
    then ((index + 1) / 2, not (index % 2 == 0))
    else (index - min above below, ltb below above)

unfoldable pub from_index : IntegerChoice → ℕ → Option ℤ
unfolding simplest above below unrank
from_index c index =
    let s = simplest c in
    if index == 0
    then some s
    else if ltb (above c + below c) index
    then none
    else (let (d, up) = unrank (above c) (below c) index in
        some (if up then s +ℤ pos d else s -ℤ pos d))

unfoldable pub value_from_bigint : IntegerChoice → ℤ → Option ℤ
unfolding validate
value_from_bigint c v = if validate c v then some v else none
