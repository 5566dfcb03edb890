-- ===== src/Tests/Searches.antt =====
-- The searches (hegel-c/src/native/shrinker/search.rs) with concrete predicates.
use hegel_rust.Base.{ℕ, ◌≡◌, refl, arith, Bool, leb, some}
use hegel_rust.Base.Int.{ℤ, pos, negsuc, leb_ℤ}
use hegel_rust.Search.FindInteger
use hegel_rust.Search.FindInteger.Converges.{Answers, drive-IsAnswer}
use hegel_rust.Search.BinSearch
use hegel_rust.Search.BinSearch.{big_successor, checked_successor}
use hegel_rust.Search.BinSearch.Converges.{IsLeast, drive_big-IsLeast}

abbrev up_to_37 : ℕ → Bool
up_to_37 n = leb n 37

abbrev from_minus_two : ℤ → Bool
from_minus_two z = leb_ℤ (negsuc 1) z

find_run : FindInteger.drive up_to_37 20 FindInteger.new ≡ some 37
unfolding FindInteger.drive FindInteger.new
find_run = refl

drive-IsAnswer_example : Answers up_to_37 140 FindInteger.new
drive-IsAnswer_example = drive-IsAnswer up_to_37 140 (omega arith)

drive_big-IsLeast_example :
    (v : ℤ) × (BinSearch.drive big_successor from_minus_two 8 (BinSearch.new (negsuc 9) (pos 6))
      ≡ some v)
    × IsLeast from_minus_two (negsuc 9) (pos 6) v
drive_big-IsLeast_example =
    drive_big-IsLeast from_minus_two (negsuc 9) (pos 6) 5 8 (omega arith) (omega arith)
      (omega arith) refl
