-- ===== src/Choices/Strings.antt =====
-- hegel-c/src/native/core/choices.rs, `StringChoice`: sequences of codepoints over an alphabet. A panic
-- (`unwrap` of `None`) ends the run as an internal error does, and is `internal_error` here.
pub mod Alphabet
pub mod Index
pub mod Fallbacks
use hegel_rust.Base.{
  ℕ, zero, suc, ◌+◌, ◌-◌, ◌%◌, ◌^◌, Bool, true, false, not, leb, ltb, ◌==◌, ◌&&◌, ◌||◌,
  if◌then◌else◌, List, [], ◌∷◌, length, replicate, Option, none, some,
}
use hegel_rust.Base.Results.{Result, ok, internal_error, ◌>>=◌, ◌>>◌, assert}
use hegel_rust.IntervalSet.{IntervalSet, contains}
use hegel_rust.IntervalSet.ShrinkOrder.{char_in_shrink_order, index_from_codepoint_in_shrink_order}
use hegel_rust.Choices.Shortlex
use hegel_rust.Choices.Bytes.{set_last}

pub record StringChoice : Type 0 where
  pub intervals : IntervalSet
  pub min_size : ℕ
  pub max_size : ℕ

abbrev pub unwrap : {A : Type 0} → Option A → Result A
unwrap (some a) = ok a
unwrap none = internal_error

unfoldable pub codepoint_key : StringChoice → ℕ → Result ℕ
codepoint_key c codepoint = do
  i ← unwrap (index_from_codepoint_in_shrink_order c.intervals codepoint)
  ok (i % 2 ^ 32)

unfoldable pub key_to_codepoint : StringChoice → ℕ → Result (Option ℕ)
key_to_codepoint c key =
    if leb c.intervals.size key
    then ok none
    else (do cp ← unwrap (char_in_shrink_order c.intervals key); ok (some cp))

unfoldable pub simplest_codepoint : StringChoice → Result ℕ
simplest_codepoint c = do
  assert (not (c.intervals.size == 0))
  unwrap (char_in_shrink_order c.intervals 0)

unfoldable pub simplest : StringChoice → Result (List ℕ)
simplest c =
    if c.min_size == 0 then ok [] else (do cp ← simplest_codepoint c; ok (replicate c.min_size cp))

-- The `match` of `unit` on the second codepoint.
unfoldable pub unit_from : StringChoice → ℕ → Option ℕ → Result (List ℕ)
unit_from c simplest_cp none =
    if ltb c.min_size c.max_size then ok (replicate (c.min_size + 1) simplest_cp) else simplest c
unit_from c simplest_cp (some cp) =
    if cp == simplest_cp
    then (if ltb c.min_size c.max_size
        then ok (replicate (c.min_size + 1) simplest_cp)
        else simplest c)
    else if ltb 0 c.min_size
    then (do v ← simplest c; ok (set_last v cp))
    else if ltb 0 c.max_size
    then ok (cp ∷ [])
    else simplest c

unfoldable pub unit : StringChoice → Result (List ℕ)
unit c = if c.intervals.size == 0 then simplest c else (do
  simplest_cp ← simplest_codepoint c
  second_cp ← key_to_codepoint c 1
  unit_from c simplest_cp second_cp)

unfoldable pub all_contained : IntervalSet → List ℕ → Bool
all_contained set [] = true
all_contained set (cp ∷ value) = contains set cp && all_contained set value

unfoldable pub validate : StringChoice → List ℕ → Bool
validate c value =
    if not (leb c.min_size (length value) && leb (length value) c.max_size)
    then false
    else all_contained c.intervals value

abbrev pub alpha_size : StringChoice → ℕ
alpha_size c = c.intervals.size

unfoldable pub codepoint_rank : StringChoice → ℕ → Result ℕ
unfolding codepoint_key
codepoint_rank c codepoint = codepoint_key c codepoint

unfoldable pub codepoint_at_rank : StringChoice → ℕ → Result ℕ
codepoint_at_rank c rank = do codepoint ← key_to_codepoint c (rank % 2 ^ 32); unwrap codepoint

-- The sizes of the buckets for `length in min_size..=max_size`, less one.
unfoldable pub max_index : StringChoice → ℕ
max_index c = Shortlex.offset_loop (alpha_size c) c.min_size (c.max_size + 1 - c.min_size) 0 - 1

-- The ranks that the loop of `to_index` reads.
unfoldable pub ranks : StringChoice → List ℕ → Result (List ℕ)
ranks c [] = ok []
ranks c (cp ∷ value) = do r ← codepoint_rank c cp; rest ← ranks c value; ok (r ∷ rest)

unfoldable pub to_index : StringChoice → List ℕ → Result ℕ
to_index c value = do
  digits ← ranks c value
  ok (Shortlex.to_index (alpha_size c) (λ r. r) c.min_size digits)

unfoldable pub from_index : StringChoice → ℕ → Result (Option (List ℕ))
from_index c index = do
  assert (not (alpha_size c == 0) || c.max_size == 0)
  Shortlex.from_index (alpha_size c) (codepoint_at_rank c) c.min_size c.max_size index
