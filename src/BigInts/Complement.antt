-- ===== src/BigInts/Complement.antt =====
-- The two's complement and the top bit of hegel-c/src/native/bignum.rs, on the number that bytes stand for.
use hegel_rust.Base.{
  ℕ, suc, ◌+◌, ◌*◌, ◌^◌, ◌<◌, ◌≡◌, refl, arith, Bool, true, false, leb, ◌==◌, Bool-cases, inl, inr,
  List, [], ◌∷◌, length, All,
}
use hegel_rust.BigInts.{top_bit, twos_complement_loop, has_spare_byte, pop_byte}
use native.Mathlib.Nat.{pow-suc, pow-zero}

-- The number of bytes, least significant first.
abbrev pub le_value : List ℕ → ℕ
le_value [] = 0
le_value (b ∷ l) = b + 256 * le_value l

abbrev pub AreBytes : List ℕ → Type 0
AreBytes l = All (λ b. b < 256) l

pub le_value-lt : (l : List ℕ) → AreBytes l → le_value l < 256 ^ length l
le_value-lt [] h = omega (arith, pow-zero 256)
le_value-lt (b ∷ l) (h, hs) = omega (arith, pow-suc 256 (length l), le_value-lt l hs)

-- The top bit says that the value is in the upper half.
pub top_bit-le_value :
    (b : ℕ) (l : List ℕ)
    → AreBytes (b ∷ l)
    → top_bit (b ∷ l) ≡ leb (128 * 256 ^ length l) (le_value (b ∷ l))
unfolding top_bit
top_bit-le_value b [] (h, hs) = ground arith
top_bit-le_value b (c ∷ l) (h, hs) =
    rw (pow-suc 256 (length l), top_bit-le_value c l hs) (ground arith)

pub AreBytes-complement :
    (carry : Bool) (l : List ℕ) → AreBytes l → AreBytes (twos_complement_loop carry l)
unfolding twos_complement_loop
AreBytes-complement carry [] h = tt
AreBytes-complement false (b ∷ l) (h, hs) = (omega arith, AreBytes-complement false l hs)
AreBytes-complement true (b ∷ l) (h, hs) =
    ground (arith, AreBytes-complement false l hs, AreBytes-complement true l hs)

pub length-complement :
    (carry : Bool) (l : List ℕ) → length (twos_complement_loop carry l) ≡ length l
unfolding twos_complement_loop
length-complement carry [] = refl
length-complement false (b ∷ l) = omega (arith, length-complement false l)
length-complement true (b ∷ l) = ground (arith, length-complement false l, length-complement true l)

complement_false :
    (l : List ℕ)
    → AreBytes l
    → le_value (twos_complement_loop false l) + le_value l + 1 ≡ 256 ^ length l
unfolding twos_complement_loop
complement_false [] h = omega (arith, pow-zero 256)
complement_false (b ∷ l) (h, hs) = omega (arith, pow-suc 256 (length l), complement_false l hs)

-- The complement of a value above zero is its distance from the next power.
pub complement_lem :
    (l : List ℕ)
    → AreBytes l
    → 0 < le_value l
    → le_value (twos_complement_loop true l) + le_value l ≡ 256 ^ length l
unfolding twos_complement_loop
complement_lem [] h p = absurd (omega arith)
complement_lem (b ∷ l) (h, hs) p = elim (Bool-cases (b == 0)) [
  | inl e ↦ rw e (
      let zero_byte : b ≡ 0 = ground (arith, e) in
      omega (arith, pow-suc 256 (length l), complement_lem l hs (omega arith)))
  | inr e ↦ rw e (
      let some_byte : 0 < b = ground (arith, e) in
      omega (arith, pow-suc 256 (length l), complement_false l hs))
]

-- A byte 255 behind a set top bit can go.
pub pop_byte_lem :
    (l : List ℕ)
    → AreBytes l
    → has_spare_byte l ≡ true
    → AreBytes (pop_byte l)
      × (top_bit (pop_byte l) ≡ true)
      × (length l ≡ suc (length (pop_byte l)))
      × (le_value l ≡ le_value (pop_byte l) + 255 * 256 ^ length (pop_byte l))
unfolding has_spare_byte pop_byte top_bit
pop_byte_lem [] h k = absurd (cc k)
pop_byte_lem (b ∷ []) h k = absurd (cc k)
pop_byte_lem (b ∷ c ∷ []) (h, hs) k = ((h, tt), ground arith, refl, ground arith)
pop_byte_lem (b ∷ c ∷ d ∷ l) (h, hs) k =
    let (bytes, top, len, val) = pop_byte_lem (c ∷ d ∷ l) hs k in
    ((h, bytes), top, omega arith, omega (arith, pow-suc 256 (length (pop_byte (c ∷ d ∷ l))), val))
