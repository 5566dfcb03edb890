-- ===== src/Database.antt =====
-- hegel-c/src/native/database.rs: the binary form of a choice sequence. A byte is a number below 256, a float
-- its bit pattern. A position in the input is the list of the bytes from there on.
pub mod Numbers
pub mod RoundTrip
use hegel_rust.Base.{
  ℕ, zero, suc, ◌+◌, ◌-◌, ◌*◌, ◌/◌, ◌%◌, ◌^◌, Bool, true, false, not, leb, ltb, ◌==◌, ◌&&◌,
  if◌then◌else◌, List, [], ◌∷◌, ◌++◌, length, take, drop, Option, none, some,
}
use hegel_rust.BigInts.{UbigBytes, to_signed_bytes_le, from_signed_bytes_le}
use hegel_rust.Base.Int.{ℤ, pos, ◌-ℤ◌}
use hegel_rust.Base.Options.{◌>>=◌}

mutual
  pub data ChoiceValue : Type 0 where
    integer : ℤ → ChoiceValue
    boolean : Bool → ChoiceValue
    float : ℕ → ChoiceValue
    bytes : List ℕ → ChoiceValue
    string : List ℕ → ChoiceValue
    clone : ChoiceValues → ChoiceValue

  pub data ChoiceValues : Type 0 where
    nil : ChoiceValues
    cons : ChoiceValue → ChoiceValues → ChoiceValues

unfoldable pub count : ChoiceValues → ℕ
count nil = 0
count (cons _ vs) = suc (count vs)

-- `to_le_bytes` of an unsigned number of `width` bytes, and `from_le_bytes`.
unfoldable pub to_le_bytes : ℕ → ℕ → List ℕ
to_le_bytes zero n = []
to_le_bytes (suc width) n = n % 256 ∷ to_le_bytes width (n / 256)

unfoldable pub from_le_bytes : List ℕ → ℕ
from_le_bytes [] = 0
from_le_bytes (b ∷ l) = b + 256 * from_le_bytes l

-- `bytes.get(pos..pos + n)?`, and what follows.
unfoldable pub take_bytes : ℕ → List ℕ → Option (List ℕ × List ℕ)
take_bytes n s = if ltb (length s) n then none else some (take n s, drop n s)

unfoldable pub read_u32 : List ℕ → Option (ℕ × List ℕ)
unfolding take_bytes from_le_bytes
read_u32 s = do r ← take_bytes 4 s; some (from_le_bytes r.0, r.1)

unfoldable pub native_integer : Bool → ℕ → List ℕ → Option (ℤ × List ℕ)
unfolding take_bytes from_le_bytes
native_integer is_signed n s = do
  r ← take_bytes n s
  let v = from_le_bytes r.0
  let value = if is_signed && leb (2 ^ (8 * n - 1)) v then pos v -ℤ pos (2 ^ (8 * n)) else pos v
  some (value, r.1)

unfoldable pub string_bytes : List ℕ → List ℕ
unfolding to_le_bytes
string_bytes [] = []
string_bytes (cp ∷ v) = to_le_bytes 4 cp ++ string_bytes v

unfoldable pub codepoints : ℕ → List ℕ → List ℕ
codepoints zero s = []
codepoints (suc n) s = from_le_bytes (take 4 s) ∷ codepoints n (drop 4 s)

module _ (big : UbigBytes) where
  unfoldable pub serialize_any_integer : ℤ → List ℕ
  unfolding to_le_bytes to_signed_bytes_le
  serialize_any_integer v =
      let mag = to_signed_bytes_le big v in 10 ∷ to_le_bytes 4 (length mag) ++ mag

  unfoldable mutual
    unfolding string_bytes

    pub serialize_one_choice : ChoiceValue → List ℕ
    serialize_one_choice (integer v) = 0 ∷ serialize_any_integer v
    serialize_one_choice (boolean b) = 1 ∷ (if b then 1 else 0) ∷ []
    serialize_one_choice (float bits) = 2 ∷ to_le_bytes 8 bits
    serialize_one_choice (bytes v) = 3 ∷ to_le_bytes 4 (length v) ++ v
    serialize_one_choice (string v) = 4 ∷ to_le_bytes 4 (length v) ++ string_bytes v
    serialize_one_choice (clone children) =
        5 ∷ to_le_bytes 4 (count children) ++ serialize_each children

    pub serialize_each : ChoiceValues → List ℕ
    serialize_each nil = []
    serialize_each (cons v vs) = serialize_one_choice v ++ serialize_each vs

  unfoldable pub serialize_choices : ChoiceValues → List ℕ
  serialize_choices choices = to_le_bytes 4 (count choices) ++ serialize_each choices

  unfoldable pub deserialize_any_integer : List ℕ → Option (ℤ × List ℕ)
  unfolding native_integer read_u32 from_signed_bytes_le
  deserialize_any_integer [] = none
  deserialize_any_integer (sub ∷ s) =
      if sub == 10
      then (do
        len ← read_u32 s
        mag ← take_bytes len.0 len.1
        some (from_signed_bytes_le big mag.0, mag.1))
      else if sub == 0
      then native_integer true 1 s
      else if sub == 1
      then native_integer true 2 s
      else if sub == 2
      then native_integer true 4 s
      else if sub == 3
      then native_integer true 8 s
      else if sub == 4
      then native_integer true 16 s
      else if sub == 5
      then native_integer false 1 s
      else if sub == 6
      then native_integer false 2 s
      else if sub == 7
      then native_integer false 4 s
      else if sub == 8
      then native_integer false 8 s
      else if sub == 9
      then native_integer false 16 s
      else none

  -- The body of the loop; `read_list` reads the children of a clone.
  unfoldable pub deserialize_one :
      (List ℕ → Option (ChoiceValues × List ℕ)) → List ℕ → Option (ChoiceValue × List ℕ)
  unfolding deserialize_any_integer codepoints
  deserialize_one read_list [] = none
  deserialize_one read_list (tag ∷ s) =
      if tag == 0
      then (do r ← deserialize_any_integer s; some (integer r.0, r.1))
      else if tag == 1
      then (do r ← take_bytes 1 s; some (boolean (not (from_le_bytes r.0 == 0)), r.1))
      else if tag == 2
      then (do r ← take_bytes 8 s; some (float (from_le_bytes r.0), r.1))
      else if tag == 3
      then (do len ← read_u32 s; r ← take_bytes len.0 len.1; some (bytes r.0, r.1))
      else if tag == 4
      then (do
        len ← read_u32 s
        r ← take_bytes (len.0 * 4) len.1
        some (string (codepoints len.0 r.0), r.1))
      else if tag == 5
      then (do r ← read_list s; some (clone r.0, r.1))
      else none

  unfoldable pub choices_loop :
      (List ℕ → Option (ChoiceValues × List ℕ)) → ℕ → List ℕ → Option (ChoiceValues × List ℕ)
  unfolding deserialize_one
  choices_loop read_list zero s = some (nil, s)
  choices_loop read_list (suc n) s = do
    c ← deserialize_one read_list s
    r ← choices_loop read_list n c.1
    some (cons c.0 r.0, r.1)

  -- The depths that are left, MAX_CLONE_DEPTH + 1 = 101 at the start.
  unfoldable pub deserialize_choice_list : ℕ → List ℕ → Option (ChoiceValues × List ℕ)
  unfolding choices_loop
  deserialize_choice_list zero s = none
  deserialize_choice_list (suc depths) s = do
    n ← read_u32 s
    choices_loop (deserialize_choice_list depths) n.0 n.1

  unfoldable pub deserialize_choices : List ℕ → Option ChoiceValues
  unfolding deserialize_choice_list
  deserialize_choices s = do r ← deserialize_choice_list 101 s; some r.0
