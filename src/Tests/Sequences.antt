-- ===== src/Tests/Sequences.antt =====
-- Choice sequences (hegel-c/src/native/database.rs) in their binary form.
use hegel_rust.Base.{
  ℕ, zero, suc, ◌^◌, ◌/◌, ◌%◌, ◌<◌, ◌≤◌, ◌==◌, if◌then◌else◌, ◌≡◌, refl, arith, List, [], ◌∷◌, some,
  true,
}
use hegel_rust.Base.Int.{pos, negsuc, ◌-ℤ◌}
use hegel_rust.BigInts.{UbigBytes, to_signed_bytes_le, from_signed_bytes_le}
use hegel_rust.BigInts.Complement.{le_value, AreBytes}
use hegel_rust.BigInts.Signed.{IsUbigBytes, from-to_signed_bytes_le}
use hegel_rust.Database.{
  ChoiceValues, integer, boolean, float, bytes, string, clone, nil, cons, serialize_choices,
  deserialize_choices, count, string_bytes, to_le_bytes, serialize_one_choice,
  serialize_any_integer, serialize_each,
}
use hegel_rust.Database.RoundTrip.{Fits, FitEach, deserialize-serialize_choices}

-- The digits of a number in base 256: `rounds` digits are enough for a number up to `rounds`.
abbrev digits : ℕ → ℕ → List ℕ
digits zero n = []
digits (suc rounds) n = let rest = digits rounds (n / 256) in if n == 0 then [] else n % 256 ∷ rest

abbrev base_256 : UbigBytes
base_256 = record { ubig_to_le_bytes = λ n. digits n n; ubig_from_le_bytes = le_value }

le_value-digits : (rounds n : ℕ) → n ≤ rounds → le_value (digits rounds n) ≡ n
le_value-digits zero n h = omega arith
le_value-digits (suc rounds) n h =
    ground (arith, λ (p : 0 < n). le_value-digits rounds (n / 256) (omega arith))

AreBytes-digits : (rounds n : ℕ) → AreBytes (digits rounds n)
AreBytes-digits zero n = tt
AreBytes-digits (suc rounds) n = ground (arith, AreBytes-digits rounds (n / 256))

base_256-IsUbigBytes : IsUbigBytes base_256
base_256-IsUbigBytes = record {
  are_bytes = λ n. AreBytes-digits n n;
  to_value = λ n. le_value-digits n n (omega arith);
  from_value = λ l h. refl;
}

signed_runs :
    (to_signed_bytes_le base_256 (negsuc 127) ≡ 128 ∷ [])
    × (to_signed_bytes_le base_256 (pos 128) ≡ 128 ∷ 0 ∷ [])
    × (from_signed_bytes_le base_256 (127 ∷ 255 ∷ []) ≡ negsuc 128)
unfolding to_signed_bytes_le from_signed_bytes_le ◌-ℤ◌
signed_runs = (refl, refl, refl)

abbrev sequence : ChoiceValues
sequence = cons (integer (negsuc 4)) (
    cons (boolean true) (
      cons (float (2 ^ 63))
        (cons (string (0x10ffff ∷ [])) (cons (clone (cons (bytes (1 ∷ 2 ∷ [])) nil)) nil))))

serialize_run :
    serialize_choices base_256
      (cons (integer (negsuc 4)) (cons (clone (cons (bytes (1 ∷ 2 ∷ [])) nil)) nil))
    ≡ 2 ∷ 0 ∷ 0 ∷ 0 ∷ 0 ∷ 10 ∷ 1 ∷ 0 ∷ 0 ∷ 0 ∷ 251 ∷ 5 ∷ 1 ∷ 0 ∷ 0 ∷ 0 ∷ 3 ∷ 2 ∷ 0 ∷ 0 ∷ 0 ∷ 1 ∷ 2
      ∷ []
unfolding serialize_choices count serialize_one_choice serialize_any_integer serialize_each
    to_le_bytes string_bytes to_signed_bytes_le
serialize_run = refl

sequence-FitEach : FitEach base_256 100 sequence
unfolding Fits FitEach count to_signed_bytes_le
sequence-FitEach = (
  omega arith,
  (tt, (omega arith, ((omega arith, (omega arith, tt)), ((omega arith, (omega arith, tt)), tt)))),
)

sequence-count : count sequence ≡ 5
unfolding count
sequence-count = refl

deserialize-serialize_choices_example :
    deserialize_choices base_256 (serialize_choices base_256 sequence) ≡ some sequence
deserialize-serialize_choices_example =
    deserialize-serialize_choices base_256 base_256-IsUbigBytes sequence
      (omega (arith, sequence-count)) sequence-FitEach

from-to_signed_bytes_le_example :
    from_signed_bytes_le base_256 (to_signed_bytes_le base_256 (negsuc 255)) ≡ negsuc 255
from-to_signed_bytes_le_example = from-to_signed_bytes_le base_256 base_256-IsUbigBytes (negsuc 255)
