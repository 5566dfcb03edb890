-- ===== src/Tests/Choices.antt =====
-- The indices of choices (hegel-c/src/native/core/choices.rs) at concrete constraints.
use hegel_rust.Base.{
  ℕ, ◌<◌, ◌≡◌, refl, inl, inr, arith, true, ltb, if◌then◌else◌, List, [], ◌∷◌, none, some, All,
}
use hegel_rust.Base.Int.{ℤ, pos, negsuc, ◌+ℤ◌, ◌-ℤ◌}
use hegel_rust.Base.Results.{ok}
use hegel_rust.Choices.Integer
use hegel_rust.Choices.Integer.{IntegerChoice}
use hegel_rust.Choices.Integer.Index.{from_index-to_index_integer, to_index-from_index_integer}
use hegel_rust.Choices.Integer.Order.{to_index-sort_key_mono}
use hegel_rust.IntervalSet.{contains}
use hegel_rust.Choices.Bytes
use hegel_rust.Choices.Bytes.{BytesChoice, IsByte, byte_rank}
use hegel_rust.Choices.Bytes.Index.{
  from_index-to_index_bytes, to_index-from_index_bytes, to_index-ShortlexLt, to_index-unit_bytes,
}
use hegel_rust.Choices.Strings
use hegel_rust.Choices.Strings.{StringChoice}
use hegel_rust.Choices.Strings.Index.{
  from_index-to_index_string, to_index-from_index_string, from_index_past_string,
}
use hegel_rust.Tests.Intervals.{letters, letters-IsWellFormed}

-- -2 to 5, towards 1.
abbrev small : IntegerChoice
small = record { min_value = negsuc 1; max_value = pos 5; shrink_towards = pos 1 }

from_index-to_index_integer_example :
    Integer.from_index small (Integer.to_index small (negsuc 1)) ≡ some (negsuc 1)
unfolding Integer.validate
from_index-to_index_integer_example =
    from_index-to_index_integer small (omega arith) (negsuc 1) refl

to_index-from_index_integer_example :
    (v : ℤ) × (Integer.from_index small 7 ≡ some v)
    × (Integer.validate small v ≡ true)
    × (Integer.to_index small v ≡ 7)
unfolding Integer.max_index ◌-ℤ◌
to_index-from_index_integer_example =
    to_index-from_index_integer small (omega arith) 7 (omega arith)

to_index-sort_key_mono_example : Integer.to_index small (pos 3) < Integer.to_index small (negsuc 0)
unfolding Integer.validate Integer.sort_key Integer.clamped_shrink_towards ◌-ℤ◌
to_index-sort_key_mono_example =
    to_index-sort_key_mono small (omega arith) (pos 3) (negsuc 0) refl refl (inr (refl, refl, refl))

integer_runs :
    (Integer.to_index small (negsuc 1) ≡ 6)
    × (Integer.to_index small (pos 5) ≡ 7)
    × (Integer.from_index small 3 ≡ some (pos 3))
unfolding Integer.to_index Integer.from_index ◌-ℤ◌ ◌+ℤ◌
integer_runs = (refl, refl, refl)

abbrev pair : BytesChoice
pair = record { min_size = 1; max_size = 2 }

from_index-to_index_bytes_example :
    Bytes.from_index pair (Bytes.to_index pair (7 ∷ 255 ∷ [])) ≡ ok (some (7 ∷ 255 ∷ []))
unfolding Bytes.validate
from_index-to_index_bytes_example =
    from_index-to_index_bytes pair (7 ∷ 255 ∷ []) (omega arith) refl (omega arith)

to_index-from_index_bytes_example :
    (v : List ℕ) × (Bytes.from_index pair 300 ≡ ok (some v))
    × All IsByte v
    × (Bytes.validate pair v ≡ true)
    × (Bytes.to_index pair v ≡ 300)
unfolding Bytes.max_index
to_index-from_index_bytes_example =
    to_index-from_index_bytes pair (omega arith) (omega arith) 300 (omega arith)

to_index-ShortlexLt_example : Bytes.to_index pair (255 ∷ []) < Bytes.to_index pair (0 ∷ 0 ∷ [])
unfolding Bytes.validate
to_index-ShortlexLt_example =
    to_index-ShortlexLt pair (255 ∷ []) (0 ∷ 0 ∷ []) (omega arith) refl (inl (omega arith))
      (omega arith)

to_index-unit_bytes_example :
    (Bytes.to_index pair (Bytes.simplest pair) ≡ 0)
    × (Bytes.to_index pair (Bytes.unit pair) ≡ (if ltb 0 1 then 1 else if ltb 0 2 then 2 else 0))
to_index-unit_bytes_example = to_index-unit_bytes pair (omega arith)

abbrev word_choice : StringChoice
word_choice = record { intervals = letters; min_size = 0; max_size = 3 }

from_index-to_index_string_example :
    (i : ℕ) × (Strings.to_index word_choice (65 ∷ 48 ∷ []) ≡ ok i)
    × (Strings.from_index word_choice i ≡ ok (some (65 ∷ 48 ∷ [])))
unfolding Strings.validate Strings.all_contained contains
from_index-to_index_string_example =
    from_index-to_index_string word_choice letters-IsWellFormed refl (65 ∷ 48 ∷ []) refl
      (omega arith)

to_index-from_index_string_example :
    (v : List ℕ) × (Strings.from_index word_choice 100 ≡ ok (some v))
    × (Strings.validate word_choice v ≡ true)
    × (Strings.to_index word_choice v ≡ ok 100)
to_index-from_index_string_example =
    to_index-from_index_string word_choice letters-IsWellFormed refl 100 (omega arith) (omega arith)

from_index_past_string_example : Strings.from_index word_choice 9000 ≡ ok none
from_index_past_string_example =
    from_index_past_string word_choice letters-IsWellFormed refl 9000 (omega arith) (omega arith)
      (omega arith)
