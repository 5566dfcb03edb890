-- ===== src/Choices/Shortlex/RoundTrip.antt =====
-- `to_index` and `from_index` over any alphabet: inverse to each other, and in shortlex order.
use hegel_rust.Base.{
  ℕ, suc, ◌+◌, ◌-◌, ◌^◌, ◌≤◌, ◌<◌, ◌≡◌, refl, ◌∙◌, arith, ap, subst, none, some, List, [], ◌∷◌,
  length, length-append, All,
}
use hegel_rust.Base.Results.{Result, ok}
use hegel_rust.Choices.Shortlex.{to_index, from_index, digits_loop}
use hegel_rust.Choices.Shortlex.Positional.{
  IsAlphabet, number, position_loop-number, number-lt, digits_loop-number, digits_loop_total,
}
use hegel_rust.Choices.Shortlex.Buckets.{
  buckets, offset_loop-buckets, buckets_mono, buckets-suc, bucket_of, bucket_loop_found,
  bucket_loop_past,
}
use mathlib.Core.List.{reverse, reverse-reverse, reverse-append, ◌++◌}

module _ {A : Type 0} where
  length-reverse : (l : List A) → length (reverse l) ≡ length l
  length-reverse [] = refl
  length-reverse (x ∷ l) =
      rw (reverse-append (x ∷ []) l)
        (omega (arith, length-append (reverse l) (x ∷ []), length-reverse l))

  All-append : (P : A → Type 0) (l m : List A) → All P l → All P m → All P (l ++ m)
  All-append P [] m h k = k
  All-append P (x ∷ l) m (h, hs) k = (h, All-append P l m hs k)

  All-reverse : (P : A → Type 0) (l : List A) → All P l → All P (reverse l)
  All-reverse P [] h = tt
  All-reverse P (x ∷ l) (h, hs) =
      rw (reverse-append (x ∷ []) l)
        (All-append P (reverse l) (x ∷ []) (All-reverse P l hs) (h, tt))

  -- The lengths that a choice allows.
  abbrev pub HasSize : ℕ → ℕ → List A → Type 0
  HasSize min_size max_size value = (min_size ≤ length value) × (length value ≤ max_size)

-- The number of values of a choice.
abbrev pub cardinality : ℕ → ℕ → ℕ → ℕ
cardinality base min_size max_size = buckets base min_size (max_size + 1 - min_size)

module _ {A : Type 0} {base : ℕ} {rank : A → ℕ} {at_rank : ℕ → Result A} {IsMember : A → Type 0}
    (alphabet : IsAlphabet base rank at_rank IsMember) (min_size max_size : ℕ) where
  to_index-buckets :
      (v : List A)
      → (min_size ≤ length v) × (length v < 2 ^ 32)
      → to_index base rank min_size v
        ≡ buckets base min_size (length v - min_size) + number base rank (reverse v)
  unfolding to_index
  to_index-buckets v (lo, hi) = omega (
    arith,
    offset_loop-buckets base min_size (length v - min_size) 0 (omega arith),
    position_loop-number base rank v,
  )

  number-reverse-lt : (v : List A) → All IsMember v → number base rank (reverse v) < base ^ length v
  number-reverse-lt v h =
      rw length-reverse at (number-lt alphabet (reverse v) (All-reverse IsMember v h))

  pub from_index-to_index :
      (v : List A)
      → All IsMember v
      → HasSize min_size max_size v
      → max_size < 2 ^ 32
      → from_index base at_rank min_size max_size (to_index base rank min_size v) ≡ ok (some v)
  unfolding from_index
  from_index-to_index v h (lo, hi) fits =
      let k = length v - min_size in
      let size : min_size + k ≡ length v = omega arith in
      let p = number base rank (reverse v) in
      let digits : digits_loop base at_rank (length v) p ≡ ok (reverse v) =
        subst (λ n. digits_loop base at_rank n p ≡ ok (reverse v)) (length-reverse v)
          (digits_loop-number alphabet (reverse v) (All-reverse IsMember v h)) in
      rw (
        to_index-buckets v (lo, omega arith),
        bucket_loop_found base at_rank min_size (max_size + 1 - min_size) k p (omega arith)
            (omega arith) (rw size (number-reverse-lt v h)),
        size,
        digits,
        reverse-reverse v,
      )

  pub to_index-from_index :
      (i : ℕ)
      → max_size < 2 ^ 32
      → i < cardinality base min_size max_size
      → (v : List A) × (from_index base at_rank min_size max_size i ≡ ok (some v))
        × All IsMember v
        × HasSize min_size max_size v
        × (to_index base rank min_size v ≡ i)
  unfolding from_index
  to_index-from_index i fits h =
      let (k, p, lt, plt, eq) = bucket_of base min_size (max_size + 1 - min_size) i h in
      let (l, digits, members, len, num) = digits_loop_total alphabet (min_size + k) p plt in
      let size : length (reverse l) ≡ min_size + k = length-reverse l ∙ len in
      let diff : length (reverse l) - min_size ≡ k = omega arith in
      (
        reverse l,
        rw (
          ← eq,
          bucket_loop_found base at_rank min_size (max_size + 1 - min_size) k p (omega arith) lt
              plt,
          digits,
        ),
        All-reverse IsMember l members,
        omega arith,
        rw (to_index-buckets (reverse l) (omega arith, omega arith), diff, reverse-reverse, num) eq,
      )

  pub from_index_past :
      (i : ℕ)
      → min_size ≤ max_size
      → max_size < 2 ^ 32
      → cardinality base min_size max_size ≤ i
      → from_index base at_rank min_size max_size i ≡ ok none
  unfolding from_index
  from_index_past i range fits h =
      bucket_loop_past base at_rank min_size (max_size + 1 - min_size) i (omega arith) h

  pub to_index-lt :
      (v : List A)
      → All IsMember v
      → HasSize min_size max_size v
      → max_size < 2 ^ 32
      → to_index base rank min_size v < cardinality base min_size max_size
  to_index-lt v h (lo, hi) fits =
      let k = length v - min_size in
      let size : min_size + k ≡ length v = omega arith in
      omega (
        arith,
        to_index-buckets v (lo, omega arith),
        number-reverse-lt v h,
        buckets-suc base min_size k,
        ap (λ (e : ℕ). base ^ e) size,
        buckets_mono base min_size (suc k) (max_size + 1 - min_size),
      )

  -- Shorter sequences come first.
  pub to_index_shorter :
      (v w : List A)
      → All IsMember v
      → min_size ≤ length v
      → length v < length w
      → length w < 2 ^ 32
      → to_index base rank min_size v < to_index base rank min_size w
  to_index_shorter v w h lo lt fits =
      let k = length v - min_size in
      let size : min_size + k ≡ length v = omega arith in
      omega (
        arith,
        to_index-buckets v (lo, omega arith),
        to_index-buckets w (omega arith, fits),
        number-reverse-lt v h,
        buckets-suc base min_size k,
        ap (λ (e : ℕ). base ^ e) size,
        buckets_mono base min_size (suc k) (length w - min_size),
      )
