-- ===== src/Choices/Shortlex/Buckets.antt =====
-- The lengths as consecutive buckets of indices: the loops of `to_index` and `from_index` over them.
use hegel_rust.Base.{
  ap, lt→ltb, false, ℕ, zero, suc, ◌+◌, ◌-◌, ◌^◌, ◌≤◌, ◌<◌, ◌≡◌, refl, inl, inr, arith, ltb,
  Bool-cases, Option, none, some, List,
}
use hegel_rust.Base.Results.{Result, ok, ◌>>=◌}
use hegel_rust.Choices.Shortlex.{power, offset_loop, digits_loop, bucket_loop}
use mathlib.Core.List.{reverse}
use native.Mathlib.Nat.{add-zero, zero-add, add-suc, suc-add, mod-eq_of_lt}

-- The cast keeps a length below 2 ^ 32.
pub power_lem : (base length : ℕ) → length < 2 ^ 32 → power base length ≡ base ^ length
unfolding power
power_lem base length h = ap (λ (e : ℕ). base ^ e) (mod-eq_of_lt h)

-- The number of indices that `rounds` lengths from `length` on take.
abbrev pub buckets : ℕ → ℕ → ℕ → ℕ
buckets base length zero = 0
buckets base length (suc rounds) = base ^ length + buckets base (suc length) rounds

pub offset_loop-buckets :
    (base length rounds offset : ℕ)
    → length + rounds ≤ 2 ^ 32
    → offset_loop base length rounds offset ≡ offset + buckets base length rounds
unfolding offset_loop
offset_loop-buckets base length zero offset h = omega arith
offset_loop-buckets base length (suc rounds) offset h = rw (power_lem base length (omega arith)) (
    omega
      (arith, offset_loop-buckets base (suc length) rounds (offset + base ^ length) (omega arith)))

pub buckets_mono : (base length k n : ℕ) → k ≤ n → buckets base length k ≤ buckets base length n
buckets_mono base length zero n h = omega arith
buckets_mono base length (suc k) zero h = absurd (omega arith)
buckets_mono base length (suc k) (suc n) h = omega (arith, buckets_mono base (suc length) k n)

pub buckets-suc :
    (base length k : ℕ) → buckets base length (suc k) ≡ buckets base length k + base ^ (length + k)
buckets-suc base length zero = omega (arith, ap (λ (e : ℕ). base ^ e) (add-zero length))
buckets-suc base length (suc k) =
    rw add-suc
      (omega (arith, buckets-suc base (suc length) k, ap (λ (e : ℕ). base ^ e) (suc-add length k)))

-- The position of an index: its bucket, and its place there.
pub bucket_of :
    (base length rounds index : ℕ)
    → index < buckets base length rounds
    → (k : ℕ) × (p : ℕ) × (k < rounds)
      × (p < base ^ (length + k))
      × (buckets base length k + p ≡ index)
bucket_of base length zero index h = absurd (omega arith)
bucket_of base length (suc rounds) index h = elim (Bool-cases (ltb index (base ^ length))) [
  | inl e ↦ (0, index, omega arith, rw add-zero (ground arith), omega arith)
  | inr e ↦
      let (k, p, lt, plt, eq) =
        bucket_of base (suc length) rounds (index - base ^ length) (ground arith) in
      (suc k, p, omega arith, rw (add-suc, ← suc-add) plt, ground arith)
]

module _ {A : Type 0} (base : ℕ) (at_rank : ℕ → Result A) where
  -- What the loop returns for a place in the bucket of a length.
  abbrev pub decode : ℕ → ℕ → Result (Option (List A))
  decode length p = do pushed ← digits_loop base at_rank length p; ok (some (reverse pushed))

  pub bucket_loop_found :
      (length rounds k p : ℕ)
      → length + rounds ≤ 2 ^ 32
      → k < rounds
      → p < base ^ (length + k)
      → bucket_loop base at_rank rounds length (buckets base length k + p) ≡ decode (length + k) p
  unfolding bucket_loop
  bucket_loop_found length zero k p fits h lt = absurd (omega arith)
  bucket_loop_found length (suc rounds) zero p fits h lt = rw (
    power_lem base length (omega arith),
    zero-add,
    lt→ltb p (base ^ length) (rw add-zero at lt),
    add-zero,
  )
  bucket_loop_found length (suc rounds) (suc k) p fits h lt =
      let i = buckets base length (suc k) + p in
      let e : i - base ^ length ≡ buckets base (suc length) k + p = omega arith in
      let later : ltb i (base ^ length) ≡ false = ground arith in
      rw (
        power_lem base length (omega arith),
        later,
        e,
        bucket_loop_found (suc length) rounds k p (omega arith) (omega arith)
            (rw (suc-add, ← add-suc) lt),
        add-suc,
        suc-add,
      )

  pub bucket_loop_past :
      (length rounds index : ℕ)
      → length + rounds ≤ 2 ^ 32
      → buckets base length rounds ≤ index
      → bucket_loop base at_rank rounds length index ≡ ok none
  unfolding bucket_loop
  bucket_loop_past length zero index fits h = refl
  bucket_loop_past length (suc rounds) index fits h =
      let later : ltb index (base ^ length) ≡ false = ground arith in
      rw (power_lem base length (omega arith), later)
        (bucket_loop_past (suc length) rounds (index - base ^ length) (omega arith) (omega arith))
