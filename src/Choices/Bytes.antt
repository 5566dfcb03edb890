-- ===== src/Choices/Bytes.antt =====
-- hegel-c/src/native/core/choices.rs, `BytesChoice`. A byte is a number below 256.
pub mod Index
use hegel_rust.Base.{
  ℕ, zero, suc, ◌<◌, ◌≤◌, Bool, ltb, leb, ◌&&◌, if◌then◌else◌, List, [], ◌∷◌, length, replicate,
  Option,
}
use hegel_rust.Base.Results.{Result, ok, internal_error}
use hegel_rust.Choices.Shortlex

abbrev pub IsByte : ℕ → Type 0
IsByte b = b < 256

pub record BytesChoice : Type 0 where
  pub min_size : ℕ
  pub max_size : ℕ

unfoldable pub simplest : BytesChoice → List ℕ
simplest c = replicate c.min_size 0

-- `*v.last_mut().unwrap() = b`
abbrev pub set_last : {A : Type 0} → List A → A → List A
set_last [] b = []
set_last (x ∷ []) b = b ∷ []
set_last (x ∷ y ∷ v) b = x ∷ set_last (y ∷ v) b

unfoldable pub unit : BytesChoice → List ℕ
unfolding simplest
unit c =
    if ltb 0 c.min_size
    then set_last (replicate c.min_size 0) 1
    else if ltb 0 c.max_size
    then 1 ∷ []
    else simplest c

unfoldable pub validate : BytesChoice → List ℕ → Bool
validate c value = leb c.min_size (length value) && leb (length value) c.max_size

abbrev pub byte_rank : ℕ → ℕ
byte_rank b = b

-- `(&remaining % &base).try_into()`: a digit above 255 is an internal error.
unfoldable pub byte_at_rank : ℕ → Result ℕ
byte_at_rank digit = if ltb digit 256 then ok digit else internal_error

unfoldable pub to_index : BytesChoice → List ℕ → ℕ
unfolding Shortlex.to_index
to_index c value = Shortlex.to_index 256 byte_rank c.min_size value

unfoldable pub from_index : BytesChoice → ℕ → Result (Option (List ℕ))
unfolding Shortlex.from_index byte_at_rank
from_index c index = Shortlex.from_index 256 byte_at_rank c.min_size c.max_size index

unfoldable pub max_index : BytesChoice → ℕ
unfolding to_index
max_index c = to_index c (replicate c.max_size 255)
