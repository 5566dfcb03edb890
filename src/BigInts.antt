-- ===== src/BigInts.antt =====
-- hegel-c/src/native/bignum.rs: the signed bytes of a `BigInt`, least significant first. The bytes of a magnitude
-- come from the library dashu_int: they are a parameter. A byte is a number below 256.
pub mod Complement
pub mod Signed
use hegel_rust.Base.{
  ℕ, zero, suc, ◌+◌, ◌-◌, Bool, true, false, leb, ◌==◌, ◌&&◌, if◌then◌else◌, List, [], ◌∷◌, ◌++◌,
  length,
}
use hegel_rust.Base.Int.{ℤ, pos, negsuc, ◌-ℤ◌}

-- `UBig::to_le_bytes` and `UBig::from_le_bytes`.
pub record UbigBytes : Type 0 where
  pub ubig_to_le_bytes : ℕ → List ℕ
  pub ubig_from_le_bytes : List ℕ → ℕ

-- `last & 0x80 != 0`; no byte is there to look at in the empty list.
unfoldable pub top_bit : List ℕ → Bool
top_bit [] = false
top_bit (b ∷ []) = leb 128 b
top_bit (b ∷ c ∷ l) = top_bit (c ∷ l)

-- `(!*b).overflowing_add(carry as u8)`, from the first byte on.
unfoldable pub twos_complement_loop : Bool → List ℕ → List ℕ
twos_complement_loop carry [] = []
twos_complement_loop false (b ∷ l) = (255 - b) ∷ twos_complement_loop false l
twos_complement_loop true (b ∷ l) =
    let overflow = twos_complement_loop true l in
    let next = twos_complement_loop false l in if b == 0 then 0 ∷ overflow else (256 - b) ∷ next

unfoldable pub twos_complement_le : List ℕ → List ℕ
unfolding twos_complement_loop
twos_complement_le l = twos_complement_loop true l

-- The test of the `while` of `to_signed_bytes_le`, and its `pop`.
unfoldable pub has_spare_byte : List ℕ → Bool
has_spare_byte [] = false
has_spare_byte (b ∷ []) = false
has_spare_byte (b ∷ c ∷ []) = c == 255 && leb 128 b
has_spare_byte (b ∷ c ∷ d ∷ l) = has_spare_byte (c ∷ d ∷ l)

unfoldable pub pop_byte : List ℕ → List ℕ
pop_byte [] = []
pop_byte (b ∷ []) = []
pop_byte (b ∷ c ∷ l) = b ∷ pop_byte (c ∷ l)

-- The `while`: each round takes a byte, so that `length` rounds are enough.
unfoldable pub pop_loop : ℕ → List ℕ → List ℕ
unfolding has_spare_byte pop_byte
pop_loop zero l = l
pop_loop (suc rounds) l =
    let rest = pop_loop rounds (pop_byte l) in if has_spare_byte l then rest else l

module _ (big : UbigBytes) where
  -- The bytes of a magnitude, with room for the sign.
  unfoldable pub padded : ℕ → List ℕ
  unfolding top_bit
  padded mag =
      let bytes = big.ubig_to_le_bytes mag in if top_bit bytes then bytes ++ 0 ∷ [] else bytes

  unfoldable pub to_signed_bytes_le : ℤ → List ℕ
  unfolding padded twos_complement_le pop_loop
  to_signed_bytes_le (pos zero) = 0 ∷ []
  to_signed_bytes_le (pos (suc n)) = padded (suc n)
  to_signed_bytes_le (negsuc n) =
      let bytes = twos_complement_le (padded (suc n)) in pop_loop (length bytes) bytes

  unfoldable pub from_signed_bytes_le : List ℕ → ℤ
  unfolding top_bit twos_complement_le
  from_signed_bytes_le [] = pos 0
  from_signed_bytes_le (b ∷ l) =
      if top_bit (b ∷ l)
      then pos 0 -ℤ pos (big.ubig_from_le_bytes (twos_complement_le (b ∷ l)))
      else pos (big.ubig_from_le_bytes (b ∷ l))
