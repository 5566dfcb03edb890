-- ===== src/BigInts/Signed.antt =====
-- hegel-c/src/native/bignum.rs: `from_signed_bytes_le` reads what `to_signed_bytes_le` writes.
use hegel_rust.Base.{
  ℕ, zero, suc, ◌+◌, ◌*◌, ◌^◌, ◌<◌, ◌≡◌, refl, arith, true, false, Bool-cases, inl, inr, List, [],
  ◌∷◌, ◌++◌, length,
}
use hegel_rust.Base.Int.{ℤ, pos, negsuc, ◌-ℤ◌}
use hegel_rust.BigInts.{
  UbigBytes, top_bit, twos_complement_loop, has_spare_byte, pop_byte, pop_loop, padded,
  to_signed_bytes_le, from_signed_bytes_le,
}
use hegel_rust.BigInts.Complement.{
  le_value, AreBytes, top_bit-le_value, AreBytes-complement, length-complement, complement_lem,
  pop_byte_lem,
}
use native.Mathlib.Nat.{pow-suc, pow-zero}

-- What dashu_int documents of the bytes of a magnitude.
pub record IsUbigBytes (big : UbigBytes) : Type 0 where
  pub are_bytes : (n : ℕ) → AreBytes (big.ubig_to_le_bytes n)
  pub to_value : (n : ℕ) → le_value (big.ubig_to_le_bytes n) ≡ n
  pub from_value : (l : List ℕ) → AreBytes l → big.ubig_from_le_bytes l ≡ le_value l

-- Bytes with the top bit set that lie `mag` below the next power: those of `-mag`.
abbrev IsNegative : ℕ → List ℕ → Type 0
IsNegative mag l = AreBytes l × (top_bit l ≡ true) × (le_value l + mag ≡ 256 ^ length l)

pop_loop-IsNegative :
    (mag rounds : ℕ) (l : List ℕ) → IsNegative mag l → IsNegative mag (pop_loop rounds l)
unfolding pop_loop
pop_loop-IsNegative mag zero l h = h
pop_loop-IsNegative mag (suc rounds) l (bytes, top, val) = elim (Bool-cases (has_spare_byte l)) [
  | inl e ↦
      let (bytes', top', len, val') = pop_byte_lem l bytes e in
      let power : 256 ^ length l ≡ 256 * 256 ^ length (pop_byte l) =
        rw len (omega (arith, pow-suc 256 (length (pop_byte l)))) in
      rw e (pop_loop-IsNegative mag rounds (pop_byte l) (bytes', top', omega arith))
  | inr e ↦ rw e (bytes, top, val)
]

AreBytes-append : (l : List ℕ) → AreBytes l → AreBytes (l ++ 0 ∷ [])
AreBytes-append [] h = (omega arith, tt)
AreBytes-append (b ∷ l) (h, hs) = (h, AreBytes-append l hs)

le_value-append : (l : List ℕ) → le_value (l ++ 0 ∷ []) ≡ le_value l
le_value-append [] = refl
le_value-append (b ∷ l) = omega (arith, le_value-append l)

top_bit-append : (l : List ℕ) → top_bit (l ++ 0 ∷ []) ≡ false
unfolding top_bit
top_bit-append [] = refl
top_bit-append (b ∷ []) = refl
top_bit-append (b ∷ c ∷ l) = top_bit-append (c ∷ l)

module _ (big : UbigBytes) (lawful : IsUbigBytes big) where
  padded_lem :
      (n : ℕ)
      → AreBytes (padded big n) × (top_bit (padded big n) ≡ false) × (le_value (padded big n) ≡ n)
  unfolding padded
  padded_lem n =
      let l = big.ubig_to_le_bytes n in
      elim (Bool-cases (top_bit l)) [
        | inl e ↦ rw e (
          AreBytes-append l (lawful.are_bytes n),
          top_bit-append l,
          omega (arith, le_value-append l, lawful.to_value n),
        )
        | inr e ↦ rw e (lawful.are_bytes n, e, lawful.to_value n)
      ]

  -- The complement of a value with the top bit clear has it set.
  complement-IsNegative :
      (mag : ℕ) (l : List ℕ)
      → 0 < mag
      → AreBytes l
      → top_bit l ≡ false
      → le_value l ≡ mag
      → IsNegative mag (twos_complement_loop true l)
  complement-IsNegative mag [] p bytes top val = absurd (omega arith)
  complement-IsNegative mag (b ∷ l) p bytes top val =
      negative (twos_complement_loop true (b ∷ l)) (AreBytes-complement true (b ∷ l) bytes)
        (length-complement true (b ∷ l)) (complement_lem (b ∷ l) bytes (omega arith))
    where
      negative :
          (m : List ℕ)
          → AreBytes m
          → length m ≡ length (b ∷ l)
          → le_value m + le_value (b ∷ l) ≡ 256 ^ length (b ∷ l)
          → IsNegative mag m
      negative [] hm len e = absurd (omega arith)
      negative (c ∷ m) hm len e =
          let same : length m ≡ length l = omega arith in
          let total = pow-suc 256 (length l) in
          (
            hm,
            rw (top_bit-le_value c m hm, same)
                (ground (arith, top, top_bit-le_value b l bytes, total)),
            rw same (omega arith),
          )

  read_negative :
      (n : ℕ) (l : List ℕ) → IsNegative (suc n) l → from_signed_bytes_le big l ≡ negsuc n
  unfolding from_signed_bytes_le ◌-ℤ◌
  read_negative n [] (bytes, top, val) = absurd (cc top)
  read_negative n (b ∷ l) (bytes, top, val) =
      let positive : 0 < le_value (b ∷ l) =
        ground (arith, top, top_bit-le_value b l bytes, pow_positive (length l)) in
      let read : big.ubig_from_le_bytes (twos_complement_loop true (b ∷ l)) ≡ suc n = omega (
        arith,
        lawful.from_value _ (AreBytes-complement true (b ∷ l) bytes),
        complement_lem (b ∷ l) bytes positive,
      ) in
      rw (top, read) (ground arith)
    where
      pow_positive : (k : ℕ) → 0 < 256 ^ k
      pow_positive zero = omega (arith, pow-zero 256)
      pow_positive (suc k) = omega (arith, pow-suc 256 k, pow_positive k)

  read_positive :
      (n : ℕ) (l : List ℕ)
      → AreBytes l
      → top_bit l ≡ false
      → le_value l ≡ n
      → from_signed_bytes_le big l ≡ pos n
  unfolding from_signed_bytes_le
  read_positive n [] bytes top val = rw (← val) refl
  read_positive n (b ∷ l) bytes top val = rw (top, lawful.from_value (b ∷ l) bytes, val) refl

  -- Every integer is read back from its signed bytes, where the library's bytes of a magnitude are bytes and stand
  -- for it, least significant first, and the library reads bytes as the number they stand for.
  pub from-to_signed_bytes_le : (v : ℤ) → from_signed_bytes_le big (to_signed_bytes_le big v) ≡ v
  unfolding to_signed_bytes_le
  from-to_signed_bytes_le (pos zero) = read_positive 0 (0 ∷ []) (omega arith) refl refl
  from-to_signed_bytes_le (pos (suc n)) =
      let (bytes, top, val) = padded_lem (suc n) in read_positive (suc n) _ bytes top val
  from-to_signed_bytes_le (negsuc n) =
      let (bytes, top, val) = padded_lem (suc n) in
      read_negative n _ (
        pop_loop-IsNegative (suc n) _ _
          (complement-IsNegative (suc n) (padded big (suc n)) (omega arith) bytes top val))
