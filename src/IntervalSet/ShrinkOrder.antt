-- ===== src/IntervalSet/ShrinkOrder.antt =====
-- hegel-c/src/native/intervalsets.rs: the order in which the shrinker prefers characters, '0' to 'Z',
-- then what lies below '0' downwards, then what lies above 'Z'. `none` is a panic.
pub mod Bijection
use hegel_rust.Base.{ℕ, ◌-◌, ◌^◌, Bool, leb, ltb, not, ◌&&◌, if◌then◌else◌, Option, none, some}
use hegel_rust.Base.Int.{ℤ, pos, negsuc, ◌+ℤ◌, ◌-ℤ◌, leb_ℤ, as_usize}
use hegel_rust.IntervalSet.{IntervalSet, get, index}

-- `char::from_u32` accepts every scalar value.
abbrev pub is_char : ℕ → Bool
is_char cp = leb cp 0x10ffff && not (leb 0xd800 cp && leb cp 0xdfff)

-- The position in the set of a place in the shrink order, for the pivots `first` and `z`.
unfoldable pub unturn : ℕ → ℤ → ℤ → ℤ
unturn first z i =
    let n = z -ℤ pos first in
    if leb_ℤ i z then (if leb_ℤ i n then i +ℤ pos first else pos first -ℤ (i -ℤ n)) else i

-- The place in the shrink order of a position in the set.
unfoldable pub turn : ℕ → ℤ → ℤ → ℤ
turn first z i =
    let n = z -ℤ pos first in
    if leb_ℤ i z
    then (if leb_ℤ (pos first) i && leb_ℤ i z then i -ℤ pos first else pos first -ℤ i +ℤ n)
    else i

unfoldable pub char_in_shrink_order : IntervalSet → ℕ → Option ℕ
char_in_shrink_order set i = elim (get set (unturn set.idx_of_zero set.idx_of_z (pos i))) [
  | some cp ↦ if is_char cp then some cp else none
  | none ↦ none
]

unfoldable pub index_from_codepoint_in_shrink_order : IntervalSet → ℕ → Option ℕ
index_from_codepoint_in_shrink_order set cp = elim (index set cp) [
  | some i ↦ some (as_usize (turn set.idx_of_zero set.idx_of_z (pos i)))
  | none ↦ none
]
