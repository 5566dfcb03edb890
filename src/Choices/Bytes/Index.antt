-- ===== src/Choices/Bytes/Index.antt =====
-- The dense index of byte strings: a bijection onto 0..=max_index, in shortlex order.
use hegel_rust.Base.{
  ℕ, zero, suc, ◌<◌, ◌≤◌, ◌≡◌, ◌+◌, ◌*◌, ◌^◌, ◌-◌, refl, true, arith, length-replicate, ap,
  Bool-cases, inl, inr, length, if◌then◌else◌, ltb, List, [], ◌∷◌, replicate, some, none, All,
}
use native.Mathlib.Nat.{pow-zero, pow-suc}
use hegel_rust.Base.Results.{ok}
use hegel_rust.Choices.Shortlex.{position_loop, offset_loop}
use hegel_rust.Choices.Shortlex.Positional.{IsAlphabet}
use hegel_rust.Choices.Shortlex.Buckets.{buckets-suc, offset_loop-buckets}
use hegel_rust.Choices.Shortlex.RoundTrip
use hegel_rust.Choices.Shortlex.RoundTrip.{HasSize, cardinality}
use hegel_rust.Choices.Shortlex.Order.{ShortlexLt, to_index_shortlex}
use hegel_rust.Choices.Bytes.{
  IsByte, BytesChoice, simplest, unit, set_last, validate, byte_rank, byte_at_rank, to_index,
  from_index, max_index,
}

bytes : IsAlphabet 256 byte_rank byte_at_rank IsByte
unfolding byte_at_rank
bytes = record {
  rank-lt = λ b h. h;
  at_rank-rank = λ b h. ground arith;
  element = λ r. r;
  element-IsMember = λ r h. h;
  at_rank-element = λ r h. ground arith;
  rank-element = λ r h. refl;
}

pub validate-HasSize :
    (c : BytesChoice) (v : List ℕ) → validate c v ≡ true → HasSize c.min_size c.max_size v
unfolding validate
validate-HasSize c v h = ground arith

pub HasSize-validate :
    (c : BytesChoice) (v : List ℕ) → HasSize c.min_size c.max_size v → validate c v ≡ true
unfolding validate
HasSize-validate c v h = ground arith

position_of_255 :
    (n p : ℕ) → position_loop 256 byte_rank (replicate n 255) p + 1 ≡ (p + 1) * 256 ^ n
unfolding position_loop
position_of_255 zero p = rw (pow-zero 256) (omega arith)
position_of_255 (suc n) p = rw (pow-suc 256 n) (omega (arith, position_of_255 n (p * 256 + 255)))

-- `max_index` is the last index.
pub max_index_lem :
    (c : BytesChoice)
    → c.min_size ≤ c.max_size
    → c.max_size < 2 ^ 32
    → max_index c + 1 ≡ cardinality 256 c.min_size c.max_size
unfolding max_index
max_index_lem c h fits =
    let k = c.max_size - c.min_size in
    let rounds : c.max_size + 1 - c.min_size ≡ suc k = omega arith in
    let last : c.min_size + k ≡ c.max_size = omega arith in
    rw (length-replicate, rounds)
      (omega (
        arith,
        offset_loop-buckets 256 c.min_size k 0 (omega arith),
        buckets-suc 256 c.min_size k,
        position_of_255 c.max_size 0,
        ap (λ (e : ℕ). 256 ^ e) last,
      ))

-- Where sizes are below 2 ^ 32, every byte string that the choice allows comes back from its index.
pub from_index-to_index_bytes :
    (c : BytesChoice) (v : List ℕ)
    → All IsByte v
    → validate c v ≡ true
    → c.max_size < 2 ^ 32
    → from_index c (to_index c v) ≡ ok (some v)
unfolding to_index from_index
from_index-to_index_bytes c v h k fits =
    RoundTrip.from_index-to_index bytes c.min_size c.max_size v h (validate-HasSize c v k) fits

-- Where the sizes are a range below 2 ^ 32, every index up to `max_index` gives an allowed byte string with that index.
pub to_index-from_index_bytes :
    (c : BytesChoice)
    → c.min_size ≤ c.max_size
    → c.max_size < 2 ^ 32
    → (i : ℕ) → i ≤ max_index c
    → (v : List ℕ) × (from_index c i ≡ ok (some v))
      × All IsByte v
      × (validate c v ≡ true)
      × (to_index c v ≡ i)
unfolding to_index from_index
to_index-from_index_bytes c h fits i k =
    let (v, e, members, size, ix) =
      RoundTrip.to_index-from_index bytes c.min_size c.max_size i fits
        (omega (arith, max_index_lem c h fits)) in
    (v, e, members, HasSize-validate c v size, ix)

-- No index past `max_index` gives a byte string.
pub from_index_past_bytes :
    (c : BytesChoice)
    → c.min_size ≤ c.max_size
    → c.max_size < 2 ^ 32
    → (i : ℕ) → max_index c < i
    → from_index c i ≡ ok none
unfolding from_index
from_index_past_bytes c h fits i k =
    RoundTrip.from_index_past bytes c.min_size c.max_size i h fits
      (omega (arith, max_index_lem c h fits))

-- An allowed byte string has a smaller index than every byte string that comes after it in shortlex order and is
-- shorter than 2 ^ 32.
pub to_index-ShortlexLt :
    (c : BytesChoice) (v w : List ℕ)
    → All IsByte v
    → validate c v ≡ true
    → ShortlexLt byte_rank v w
    → length w < 2 ^ 32
    → to_index c v < to_index c w
unfolding to_index
to_index-ShortlexLt c v w h k lt fits =
    to_index_shortlex bytes c.min_size v w h (validate-HasSize c v k).0 lt fits

position_of_zeros : (n : ℕ) → position_loop 256 byte_rank (replicate n 0) 0 ≡ 0
unfolding position_loop
position_of_zeros zero = refl
position_of_zeros (suc n) = position_of_zeros n

position_of_one : (n : ℕ) → 0 < n → position_loop 256 byte_rank (set_last (replicate n 0) 1) 0 ≡ 1
unfolding position_loop
position_of_one zero h = absurd (omega arith)
position_of_one (suc zero) h = refl
position_of_one (suc (suc n)) h = position_of_one (suc n) (omega arith)

pub length-set_last : (v : List ℕ) (b : ℕ) → length (set_last v b) ≡ length v
length-set_last [] b = refl
length-set_last (x ∷ []) b = refl
length-set_last (x ∷ y ∷ v) b = omega (arith, length-set_last (y ∷ v) b)

offset_none : (n : ℕ) → offset_loop 256 n (n - n) 0 ≡ 0
unfolding offset_loop
offset_none n = let e : n - n ≡ 0 = omega arith in rw e

-- Where the empty string is allowed.
unit_from_zero :
    (c : BytesChoice)
    → c.min_size ≡ 0
    → to_index c (unit c) ≡ (if ltb 0 c.min_size then 1 else if ltb 0 c.max_size then 2 else 0)
unfolding to_index unit simplest offset_loop position_loop
unit_from_zero c h = elim (Bool-cases (ltb 0 c.max_size)) [
  | inl e ↦ simp (h, e)
  | inr e ↦ simp (h, e)
]

-- The index of `unit` is 1 where strings have a first byte, 2 (after the empty string and the byte
-- 0) where the empty string is allowed, and 0 where it is the only one.
pub to_index-unit_bytes :
    (c : BytesChoice)
    → c.min_size ≤ c.max_size
    → (to_index c (simplest c) ≡ 0)
      × (to_index c (unit c) ≡ (if ltb 0 c.min_size then 1 else if ltb 0 c.max_size then 2 else 0))
unfolding to_index simplest unit
to_index-unit_bytes c h = (
  rw (length-replicate, position_of_zeros) (omega (arith, offset_none c.min_size)),
  elim (Bool-cases (ltb 0 c.min_size)) [
    | inl e ↦
        rw (e, length-set_last, length-replicate, position_of_one c.min_size (ground arith))
          (omega (arith, offset_none c.min_size))
    | inr e ↦ unit_from_zero c (ground arith)
  ],
)
