-- ===== src/Choices/Shortlex.antt =====
-- hegel-c/src/native/core/choices.rs: the shortlex index of a sequence, which `BytesChoice` and
-- `StringChoice` both write out, over the size `base` of an alphabet. `rank` is the place of an
-- element in the alphabet and `at_rank` the element at a place.
pub mod Positional
pub mod Buckets
pub mod RoundTrip
pub mod Order
use hegel_rust.Base.{
  ℕ, zero, suc, ◌+◌, ◌-◌, ◌*◌, ◌/◌, ◌%◌, ◌^◌, ltb, if◌then◌else◌, length, Option, none, some, List,
  [], ◌∷◌,
}
use hegel_rust.Base.Results.{Result, ok, ◌>>=◌}
use mathlib.Core.List.{reverse}

-- `base.pow(length as u32)`: the cast keeps the low 32 bits of the length.
unfoldable pub power : ℕ → ℕ → ℕ
power base length = base ^ (length % 2 ^ 32)

-- `for length in min_size..value.len()`: `rounds` lengths are left.
unfoldable pub offset_loop : ℕ → ℕ → ℕ → ℕ → ℕ
unfolding power
offset_loop base length zero offset = offset
offset_loop base length (suc rounds) offset =
    offset_loop base (suc length) rounds (offset + power base length)

module _ {A : Type 0} (base : ℕ) (rank : A → ℕ) where
  -- `for &b in value`
  unfoldable pub position_loop : List A → ℕ → ℕ
  position_loop [] position = position
  position_loop (b ∷ value) position = position_loop value (position * base + rank b)

  unfoldable pub to_index : ℕ → List A → ℕ
  unfolding offset_loop position_loop
  to_index min_size value =
      offset_loop base min_size (length value - min_size) 0 + position_loop value 0

module _ {A : Type 0} (base : ℕ) (at_rank : ℕ → Result A) where
  -- `for _ in 0..length`: the elements in the order in which they are pushed.
  unfoldable pub digits_loop : ℕ → ℕ → Result (List A)
  digits_loop zero remaining = ok []
  digits_loop (suc n) remaining = do
    b ← at_rank (remaining % base)
    rest ← digits_loop n (remaining / base)
    ok (b ∷ rest)

  -- `for length in self.min_size..=self.max_size`: `rounds` lengths are left.
  unfoldable pub bucket_loop : ℕ → ℕ → ℕ → Result (Option (List A))
  unfolding digits_loop power
  bucket_loop zero length remaining = ok none
  bucket_loop (suc rounds) length remaining =
      let next = bucket_loop rounds (suc length) (remaining - power base length) in
      let found = (do pushed ← digits_loop length remaining; ok (some (reverse pushed))) in
      if ltb remaining (power base length) then found else next

  unfoldable pub from_index : ℕ → ℕ → ℕ → Result (Option (List A))
  unfolding bucket_loop
  from_index min_size max_size index = bucket_loop (max_size + 1 - min_size) min_size index
