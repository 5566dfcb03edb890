-- ===== src/Tests/Intervals.antt =====
-- Interval sets (hegel-c/src/native/intervalsets.rs) at concrete intervals.
use hegel_rust.Base.{ℕ, ◌<◌, ◌≡◌, refl, arith, true, not, ◌&&◌, ◌||◌, List, [], ◌∷◌, some}
use hegel_rust.Base.Int.{pos, negsuc}
use hegel_rust.Base.Results.{ok}
use hegel_rust.IntervalSet.{
  Interval, IntervalSet, new, contains, get, union, difference, intersection,
}
use hegel_rust.IntervalSet.Spec.{mem, IsValid}
use hegel_rust.IntervalSet.Get.{get-nth, python_nth}
use hegel_rust.IntervalSet.New.{HasPivots, new-IsValid}
use hegel_rust.IntervalSet.Union.{Yields, union-contains}
use hegel_rust.IntervalSet.Difference.{difference-contains, intersection-contains}
use hegel_rust.IntervalSet.ShrinkOrder.{char_in_shrink_order, index_from_codepoint_in_shrink_order}
use hegel_rust.IntervalSet.ShrinkOrder.Bijection.{
  HasChars, index-char_in_shrink_order, char-index_in_shrink_order,
}
use hegel_rust.Choices.Strings.Alphabet.{IsWellFormed}

-- '+' to '.', '0' to '9' and 'A' to 'F'.
abbrev listed : List Interval
listed = (43, 46) ∷ (48, 57) ∷ (65, 70) ∷ []

abbrev pub letters : IntervalSet
letters = record {
  intervals = listed;
  offsets = 0 ∷ 4 ∷ 14 ∷ [];
  size = 20;
  idx_of_zero = 4;
  idx_of_z = pos 19;
}

letters-IsValid : IsValid letters
letters-IsValid = record { sorted = omega arith; narrow = omega arith; offsets = refl; size = refl }

letters-HasPivots : HasPivots letters
letters-HasPivots = record { zero_pivot = refl; z_pivot = refl }

letters-HasChars : HasChars letters
letters-HasChars e m = ground arith

pub letters-IsWellFormed : IsWellFormed letters
letters-IsWellFormed = record {
  valid = letters-IsValid;
  pivots = letters-HasPivots;
  chars = letters-HasChars;
}

abbrev digits : IntervalSet
digits = record {
  intervals = (48, 57) ∷ [];
  offsets = 0 ∷ [];
  size = 10;
  idx_of_zero = 0;
  idx_of_z = pos 9;
}

digits-IsValid : IsValid digits
digits-IsValid = record { sorted = omega arith; narrow = omega arith; offsets = refl; size = refl }

new_run : new listed ≡ ok letters
unfolding new
new_run = refl

new-IsValid_example :
    (set : IntervalSet) × (new listed ≡ ok set)
    × IsValid set
    × HasPivots set
    × (set.intervals ≡ listed)
new-IsValid_example = new-IsValid listed (omega arith) (omega arith)

get-nth_example : get letters (negsuc 2) ≡ python_nth listed (negsuc 2)
get-nth_example = get-nth letters letters-IsValid (negsuc 2)

union-contains_example :
    Yields (union letters digits) (λ e. contains letters e || contains digits e)
union-contains_example =
    union-contains letters digits letters-IsValid digits-IsValid (omega arith) (omega arith)

difference-contains_example :
    Yields (difference letters digits) (λ e. contains letters e && not (contains digits e))
difference-contains_example = difference-contains letters digits letters-IsValid digits-IsValid

intersection-contains_example :
    Yields (intersection letters digits) (λ e. contains letters e && contains digits e)
intersection-contains_example = intersection-contains letters digits letters-IsValid digits-IsValid

index-char_in_shrink_order_example :
    (cp : ℕ) × (char_in_shrink_order letters 17 ≡ some cp)
    × (mem listed cp ≡ true)
    × (index_from_codepoint_in_shrink_order letters cp ≡ some 17)
index-char_in_shrink_order_example =
    index-char_in_shrink_order letters letters-IsValid letters-HasPivots letters-HasChars 17
      (omega arith)

char-index_in_shrink_order_example :
    (i : ℕ) × (index_from_codepoint_in_shrink_order letters 44 ≡ some i)
    × (i < 20)
    × (char_in_shrink_order letters i ≡ some 44)
char-index_in_shrink_order_example =
    char-index_in_shrink_order letters letters-IsValid letters-HasPivots letters-HasChars 44 refl
