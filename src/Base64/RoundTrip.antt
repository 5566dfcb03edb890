-- ===== src/Base64/RoundTrip.antt =====
-- Decoding an encoding gives the bytes back.
use hegel_rust.Base.{
  ℕ, zero, suc, ◌+◌, ◌*◌, ◌/◌, ◌%◌, ◌^◌, ◌<◌, ◌≡◌, refl, arith, Bool, true, false, not, ◌==◌, ◌&&◌,
  List, [], ◌∷◌, length, All, none, some,
}
use hegel_rust.Base64.{
  pad, digit, word, base64_encode, base64_value, is_nil, decode_chunk, decode_loop, base64_decode,
}

abbrev pub IsByte : ℕ → Type 0
IsByte b = b < 256

-- Over a small range, check every value by evaluation.
all_below : ℕ → (ℕ → Bool) → Bool
all_below zero p = true
all_below (suc n) p = p n && all_below n p

all_below-all : (n : ℕ) (p : ℕ → Bool) (x : ℕ) → all_below n p ≡ true → x < n → p x ≡ true
unfolding all_below
all_below-all zero p x h lt = absurd (omega arith)
all_below-all (suc n) p x h lt = ground (arith, all_below-all n p x)

-- A digit is no padding, and its value is its place.
abbrev reads_back : ℕ → Bool
reads_back i = elim (base64_value (digit i)) [
  | some v ↦ v == i && not (digit i == pad)
  | none ↦ false
]

digits_table : all_below 64 reads_back ≡ true
unfolding all_below digit base64_value
digits_table = refl

value-digit_below :
    (i : ℕ) → i < 64 → (base64_value (digit i) ≡ some i) × ((digit i == pad) ≡ false)
value-digit_below i h = ground (arith, all_below-all 64 reads_back i digits_table h)

digit-mod : (i : ℕ) → digit i ≡ digit (i % 64)
unfolding digit
digit-mod i = let e : i % 64 % 64 ≡ i % 64 = omega arith in rw e

value-digit : (i : ℕ) → (base64_value (digit i) ≡ some (i % 64)) × ((digit i == pad) ≡ false)
value-digit i = rw digit-mod (value-digit_below (i % 64) (omega arith))

-- The four groups of six bits make the word again, and the word its three bytes.
regroup :
    (n : ℕ)
    → n < 2 ^ 24
    → n / 2 ^ 18 % 64 * 2 ^ 18 + n / 2 ^ 12 % 64 * 2 ^ 12 + n / 2 ^ 6 % 64 * 2 ^ 6 + n % 64 ≡ n
regroup n h = omega arith

word_bytes :
    (b0 b1 b2 : ℕ)
    → IsByte b0
    → IsByte b1
    → IsByte b2
    → (word b0 b1 b2 < 2 ^ 24)
      × (word b0 b1 b2 / 2 ^ 16 % 256 ≡ b0)
      × (word b0 b1 b2 / 2 ^ 8 % 256 ≡ b1)
      × (word b0 b1 b2 % 256 ≡ b2)
word_bytes b0 b1 b2 h0 h1 h2 = omega arith

chunk_three :
    (last : Bool) (b0 b1 b2 : ℕ)
    → IsByte b0
    → IsByte b1
    → IsByte b2
    → decode_chunk last
        (digit (word b0 b1 b2 / 2 ^ 18))
        (digit (word b0 b1 b2 / 2 ^ 12))
        (digit (word b0 b1 b2 / 2 ^ 6))
        (digit (word b0 b1 b2))
      ≡ some (b0 ∷ b1 ∷ b2 ∷ [])
unfolding decode_chunk
chunk_three last b0 b1 b2 h0 h1 h2 =
    let n = word b0 b1 b2 in
    let (v0, _) = value-digit (n / 2 ^ 18) in
    let (v1, _) = value-digit (n / 2 ^ 12) in
    let (v2, p2) = value-digit (n / 2 ^ 6) in
    let (v3, p3) = value-digit n in
    let (fits, e0, e1, e2) = word_bytes b0 b1 b2 h0 h1 h2 in
    rw (v0, v1, p2, p3, v2, v3, regroup n fits, e0, e1, e2)

chunk_two :
    (b0 b1 : ℕ)
    → IsByte b0
    → IsByte b1
    → decode_chunk true
        (digit (word b0 b1 0 / 2 ^ 18))
        (digit (word b0 b1 0 / 2 ^ 12))
        (digit (word b0 b1 0 / 2 ^ 6))
        pad
      ≡ some (b0 ∷ b1 ∷ [])
unfolding decode_chunk
chunk_two b0 b1 h0 h1 =
    let n = word b0 b1 0 in
    let (v0, _) = value-digit (n / 2 ^ 18) in
    let (v1, _) = value-digit (n / 2 ^ 12) in
    let (v2, p2) = value-digit (n / 2 ^ 6) in
    let (fits, e0, e1, e2) = word_bytes b0 b1 0 h0 h1 (omega arith) in
    let low : n % 64 ≡ 0 = omega arith in
    let same : n / 2 ^ 18 % 64 * 2 ^ 18 + n / 2 ^ 12 % 64 * 2 ^ 12 + n / 2 ^ 6 % 64 * 2 ^ 6 + 0
        ≡ n =
      omega arith in
    rw (v0, v1, p2, v2, same, e0, e1)

chunk_one :
    (b0 : ℕ)
    → IsByte b0
    → decode_chunk true (digit (word b0 0 0 / 2 ^ 18)) (digit (word b0 0 0 / 2 ^ 12)) pad pad
      ≡ some (b0 ∷ [])
unfolding decode_chunk
chunk_one b0 h0 =
    let n = word b0 0 0 in
    let (v0, _) = value-digit (n / 2 ^ 18) in
    let (v1, _) = value-digit (n / 2 ^ 12) in
    let (fits, e0, e1, e2) = word_bytes b0 0 0 h0 (omega arith) (omega arith) in
    let same : n / 2 ^ 18 % 64 * 2 ^ 18 + n / 2 ^ 12 % 64 * 2 ^ 12 + 0 + 0 ≡ n = omega arith in
    rw (v0, v1, same, e0)

decode_loop-encode :
    (data' : List ℕ) → All IsByte data' → decode_loop (base64_encode data') ≡ some data'
unfolding decode_loop base64_encode
decode_loop-encode [] h = refl
decode_loop-encode (b0 ∷ []) (h0, h) = rw (chunk_one b0 h0)
decode_loop-encode (b0 ∷ b1 ∷ []) (h0, (h1, h)) = rw (chunk_two b0 b1 h0 h1)
decode_loop-encode (b0 ∷ b1 ∷ b2 ∷ rest) (h0, (h1, (h2, h))) =
    rw (chunk_three (is_nil (base64_encode rest)) b0 b1 b2 h0 h1 h2, decode_loop-encode rest h)

-- Four characters for every three bytes, the last group filled up.
pub length-encode : (data' : List ℕ) → length (base64_encode data') ≡ (length data' + 2) / 3 * 4
unfolding base64_encode
length-encode [] = refl
length-encode (b0 ∷ []) = refl
length-encode (b0 ∷ b1 ∷ []) = refl
length-encode (b0 ∷ b1 ∷ b2 ∷ rest) = omega (arith, length-encode rest)

-- `base64_decode` gives back every byte string that `base64_encode` was given.
pub base64_decode-encode :
    (data' : List ℕ) → All IsByte data' → base64_decode (base64_encode data') ≡ some data'
unfolding base64_decode
base64_decode-encode data' h =
    let whole : (length (base64_encode data') % 4 == 0) ≡ true =
      ground (arith, length-encode data') in
    rw whole (decode_loop-encode data' h)
