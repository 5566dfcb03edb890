-- ===== src/Search/FindInteger/Converges.antt =====
-- The search ends, at a value that the predicate accepts and whose successor it refuses.
use hegel_rust.Base.{
  ℕ, zero, suc, ◌+◌, ◌-◌, ◌*◌, ◌/◌, ◌^◌, ◌≤◌, ◌<◌, ◌≡◌, refl, ◌⊎◌, inl, inr, arith, Bool, true,
  false, ltb, if◌then◌else◌, Bool-cases, some,
}
use hegel_rust.Search.FindInteger.{
  FindIntegerState, linear, grow, done, new, narrow_or_done, record_verdict, drive,
}
use native.Mathlib.Nat.{pow-suc, pow-zero}

record-grow :
    (lo hi : ℕ)
    → record_verdict (grow lo hi) true
      ≡ (if ltb (hi * 2) (2 ^ 64) then grow hi (hi * 2) else done hi)
unfolding record_verdict
record-grow lo hi = ground arith

-- The answer: accepted, or 0, which is taken for accepted; and its successor is refused, or the
-- answer is so large that its double is no `usize`.
abbrev pub IsAnswer : (ℕ → Bool) → ℕ → Type 0
IsAnswer f v = ((v ≡ 0) ⊎ (f v ≡ true)) × ((f (v + 1) ≡ false) ⊎ (2 ^ 64 ≤ v * 2))

abbrev pub Answers : (ℕ → Bool) → ℕ → FindIntegerState → Type 0
Answers f rounds state = (v : ℕ) × (drive f rounds state ≡ some v) × IsAnswer f v

module _ (f : ℕ → Bool) where
  done-Answers : (rounds v : ℕ) → 0 < rounds → IsAnswer f v → Answers f rounds (done v)
  unfolding drive
  done-Answers zero v h a = absurd (omega arith)
  done-Answers (suc rounds) v h a = (v, refl, a)

  refused : (i : ℕ) → 0 < i → f i ≡ false → (i ≡ 1) ⊎ (f (i - 1) ≡ true) → IsAnswer f (i - 1)
  refused i h bad (inl one) =
      (inl (omega arith), inl (let e : i - 1 + 1 ≡ i = omega arith in rw e bad))
  refused i h bad (inr good) = (inr good, inl (let e : i - 1 + 1 ≡ i = omega arith in rw e bad))

  -- Between an accepted and a refused value the gap is halved: `2 ^ k` bounds it.
  narrow-Answers :
      (k rounds lo hi : ℕ)
      → k < rounds
      → hi ≤ lo + 2 ^ k
      → lo < hi
      → f lo ≡ true
      → f hi ≡ false
      → Answers f rounds (narrow_or_done lo hi)
  unfolding drive narrow_or_done
  narrow-Answers k zero lo hi h fits lt good bad = absurd (omega arith)
  narrow-Answers zero (suc rounds) lo hi h fits lt good bad =
      let next : hi ≡ lo + 1 = omega (arith, pow-zero 2) in
      let adjacent : ltb (lo + 1) hi ≡ false = ground arith in
      rw adjacent (lo, refl, (inr good, inl (rw next at bad)))
  narrow-Answers (suc k) (suc rounds) lo hi h fits lt good bad =
      elim (Bool-cases (ltb (lo + 1) hi)) [
        | inr adjacent ↦
            let next : hi ≡ lo + 1 = ground arith in
            rw adjacent (lo, refl, (inr good, inl (rw next at bad)))
        | inl apart ↦
            let mid = lo + (hi - lo) / 2 in
            let half : hi ≤ lo + 2 ^ k * 2 = rw (pow-suc 2 k) at fits in
            elim (Bool-cases (f mid)) [
              | inl up ↦
                  rw (apart, up)
                    (narrow-Answers k rounds mid hi (omega arith) (omega arith) (ground arith) up
                      bad)
              | inr down ↦
                  rw (apart, down)
                    (narrow-Answers k rounds lo mid (omega arith) (omega arith) (ground arith) good
                      down)
            ]
      ]

  -- Doubling a refused or accepted bound: after `k` more doublings it is no `usize`.
  grow-Answers :
      (k rounds lo hi : ℕ)
      → k + 65 < rounds
      → 2 ^ 64 ≤ hi * 2 ^ k
      → lo < hi
      → hi < 2 ^ 64
      → f lo ≡ true
      → Answers f rounds (grow lo hi)
  unfolding drive
  grow-Answers k zero lo hi h big lt fits good = absurd (omega arith)
  grow-Answers zero (suc rounds) lo hi h big lt fits good =
      absurd (omega (arith, rw (pow-zero 2) at big))
  grow-Answers (suc k) (suc rounds) lo hi h big lt fits good = elim (Bool-cases (f hi)) [
    | inr bad ↦ rw bad (narrow-Answers 64 rounds lo hi (omega arith) (omega arith) lt good bad)
    | inl up ↦ elim (Bool-cases (ltb (hi * 2) (2 ^ 64))) [
      | inl more ↦
          rw (up, record-grow lo hi, more)
            (grow-Answers k rounds hi (hi * 2) (omega arith)
              (omega (arith, rw (pow-suc 2 k) at big)) (omega arith) (ground arith) up)
      | inr full ↦
          rw (up, record-grow lo hi, full)
            (done-Answers rounds hi (omega arith) (inr up, inr (ground arith)))
    ]
  ]

  linear-Answers :
      (k rounds i : ℕ)
      → i + k ≡ 4
      → 0 < i
      → k + 130 < rounds
      → (i ≡ 1) ⊎ (f (i - 1) ≡ true)
      → Answers f rounds (linear i)
  unfolding drive
  linear-Answers k zero i e positive h prev = absurd (omega arith)
  linear-Answers zero (suc rounds) i e positive h prev =
      let four : i ≡ 4 = omega arith in
      elim (Bool-cases (f i)) [
        | inr bad ↦ rw bad (done-Answers rounds (i - 1) (omega arith) (refused i positive bad prev))
        | inl up ↦
            rw (up, four)
              (grow-Answers 62 rounds 4 5 (omega arith) (omega arith) (omega arith) (omega arith)
                (rw four at up))
      ]
  linear-Answers (suc k) (suc rounds) i e positive h prev =
      let small : ltb i 4 ≡ true = ground arith in
      let before : i + 1 - 1 ≡ i = omega arith in
      elim (Bool-cases (f i)) [
        | inr bad ↦ rw bad (done-Answers rounds (i - 1) (omega arith) (refused i positive bad prev))
        | inl up ↦
            rw (up, small)
              (linear-Answers k rounds (i + 1) (omega arith) (omega arith) (omega arith)
                (inr (rw before up)))
      ]

-- From the start, 140 rounds always reach an answer. It is a value that the predicate accepts, or 0,
-- and the predicate refuses the next value, unless twice the answer is no `usize`.
pub drive-IsAnswer : (f : ℕ → Bool) (rounds : ℕ) → 140 ≤ rounds → Answers f rounds new
unfolding new
drive-IsAnswer f rounds h = linear-Answers f 3 rounds 1 refl (omega arith) (omega arith) (inl refl)
