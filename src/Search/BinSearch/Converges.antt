-- ===== src/Search/BinSearch/Converges.antt =====
-- The search ends at an accepted value of the range, before which the predicate refuses.
use hegel_rust.Base.{
  ℕ, zero, suc, ◌+◌, ◌-◌, ◌*◌, ◌/◌, ◌^◌, ◌≤◌, ◌<◌, ◌≡◌, refl, ◌⊎◌, inl, inr, arith, Bool, true,
  false, ltb, if◌then◌else◌, Bool-cases, Option, some,
}
use hegel_rust.Base.Int.{
  ℤ, pos, negsuc, ◌+ℤ◌, ◌-ℤ◌, ◌≤ℤ◌, pos_part, neg_part, int_laws, +ℤ_parts, eq_of_parts,
}
use hegel_rust.Search.BinSearch.{
  BinSearchState, check_lo, narrow, done, half, middle, new, narrow_or_done, drive, record_verdict,
  checked_successor, big_successor, i128_max,
}
use native.Mathlib.Nat.{pow-suc, pow-zero}

infix 50 ◌<ℤ◌
abbrev pub ◌<ℤ◌ : ℤ → ℤ → Type 0
◌<ℤ◌ a b = pos_part a + neg_part b < pos_part b + neg_part a

-- The gap between two integers in order.
abbrev pub gap : ℤ → ℤ → ℕ
gap lo hi = pos_part hi + neg_part lo - (pos_part lo + neg_part hi)

sub-gap : (lo hi : ℤ) → lo ≤ℤ hi → hi -ℤ lo ≡ pos (gap lo hi)
sub-gap lo hi h = omega int_laws

middle-gap : (lo hi : ℤ) → lo ≤ℤ hi → middle lo hi ≡ lo +ℤ pos (gap lo hi / 2)
unfolding middle half
middle-gap lo hi h = rw (sub-gap lo hi h)

-- The middle splits the gap.
gap_lower : (lo hi : ℤ) → lo ≤ℤ hi → gap lo (middle lo hi) ≡ gap lo hi / 2
gap_lower lo hi h = rw (middle-gap lo hi h) (omega int_laws)

gap_upper : (lo hi : ℤ) → lo ≤ℤ hi → gap (middle lo hi) hi ≡ gap lo hi - gap lo hi / 2
gap_upper lo hi h = rw (middle-gap lo hi h) (omega int_laws)

middle_bounds : (lo hi : ℤ) → lo ≤ℤ hi → (lo ≤ℤ middle lo hi) × (middle lo hi ≤ℤ hi)
middle_bounds lo hi h = rw (middle-gap lo hi h) (omega int_laws)

-- An accepted value of the range, which is its least or whose predecessor is refused.
abbrev pub IsLeast : (ℤ → Bool) → ℤ → ℤ → ℤ → Type 0
IsLeast f lo hi v = (lo ≤ℤ v) × (v ≤ℤ hi) × (f v ≡ true) × ((v ≡ lo) ⊎ (f (v -ℤ pos 1) ≡ false))

-- The successor is that of the integers below `top`.
abbrev pub Counts : (ℤ → Option ℤ) → ℤ → Type 0
Counts successor top = (z : ℤ) → z <ℤ top → successor z ≡ some (z +ℤ pos 1)

module _ (successor : ℤ → Option ℤ) (top : ℤ) (counts : Counts successor top) (f : ℤ → Bool)
    (least : ℤ) where
  abbrev pub Answers : ℤ → ℕ → BinSearchState → Type 0
  Answers greatest rounds state =
      (v : ℤ) × (drive successor f rounds state ≡ some v) × IsLeast f least greatest v

  narrow_or_done_lem :
      (lo hi : ℤ)
      → lo <ℤ hi
      → hi ≤ℤ top
      → narrow_or_done successor lo hi ≡ (if ltb 1 (gap lo hi) then narrow lo hi else done hi)
  unfolding narrow_or_done
  narrow_or_done_lem lo hi lt h = ground (arith, counts lo (omega arith), +ℤ_parts lo (pos 1))

  adjacent-Answers :
      (greatest lo hi : ℤ) (rounds : ℕ)
      → 0 < rounds
      → least ≤ℤ lo
      → lo <ℤ hi
      → hi ≤ℤ greatest
      → f lo ≡ false
      → f hi ≡ true
      → ltb 1 (gap lo hi) ≡ false
      → Answers greatest rounds (done hi)
  unfolding drive
  adjacent-Answers greatest lo hi zero r h lt h' bad good e = absurd (omega arith)
  adjacent-Answers greatest lo hi (suc rounds) r h lt h' bad good e =
      let one : gap lo hi ≡ 1 = ground arith in
      let before : hi -ℤ pos 1 ≡ lo = omega int_laws in
      (hi, refl, (omega arith, h', good, inr (rw before bad)))

  narrow-Answers :
      (k rounds : ℕ) (greatest lo hi : ℤ)
      → k < rounds
      → gap lo hi ≤ 2 ^ k
      → least ≤ℤ lo
      → lo <ℤ hi
      → hi ≤ℤ greatest
      → hi ≤ℤ top
      → f lo ≡ false
      → f hi ≡ true
      → Answers greatest rounds (narrow_or_done successor lo hi)
  unfolding drive record_verdict
  narrow-Answers k zero greatest lo hi r fits h lt h' t bad good = absurd (omega arith)
  narrow-Answers zero (suc rounds) greatest lo hi r fits h lt h' t bad good =
      let e : ltb 1 (gap lo hi) ≡ false = ground (arith, pow-zero 2) in
      rw (narrow_or_done_lem lo hi lt t, e)
        (adjacent-Answers greatest lo hi (suc rounds) (omega arith) h lt h' bad good e)
  narrow-Answers (suc k) (suc rounds) greatest lo hi r fits h lt h' t bad good =
      elim (Bool-cases (ltb 1 (gap lo hi))) [
        | inr e ↦
            rw (narrow_or_done_lem lo hi lt t, e)
              (adjacent-Answers greatest lo hi (suc rounds) (omega arith) h lt h' bad good e)
        | inl e ↦
            let mid = middle lo hi in
            let g = gap lo hi in
            let le : lo ≤ℤ hi = omega arith in
            let (low, high) = middle_bounds lo hi le in
            let lower = gap_lower lo hi le in
            let upper = gap_upper lo hi le in
            let half_fits : g ≤ 2 ^ k * 2 = rw (pow-suc 2 k) at fits in
            let wide : 1 < g = ground arith in
            elim (Bool-cases (f mid)) [
              | inl up ↦
                  rw (narrow_or_done_lem lo hi lt t, e, up)
                    (narrow-Answers k rounds greatest lo mid (omega arith) (omega arith) h
                      (omega arith) (omega arith) (omega arith) bad up)
              | inr down ↦
                  rw (narrow_or_done_lem lo hi lt t, e, down)
                    (narrow-Answers k rounds greatest mid hi (omega arith) (omega arith)
                      (omega arith) (omega arith) h' t down good)
            ]
      ]

  drive-check_lo :
      (hi : ℤ) (rounds : ℕ)
      → drive successor f (suc rounds) (check_lo least hi)
        ≡ drive successor f rounds
            (if f least then done least else narrow_or_done successor least hi)
  unfolding drive record_verdict
  drive-check_lo hi rounds = refl

  -- With 2 ^ k covering the range and the predicate true at its end, k + 3 rounds reach an answer.
  search-Answers :
      (k rounds : ℕ) (hi : ℤ)
      → k + 3 ≤ rounds
      → gap least hi ≤ 2 ^ k
      → least ≤ℤ hi
      → hi ≤ℤ top
      → f hi ≡ true
      → Answers hi rounds (check_lo least hi)
  unfolding drive record_verdict
  search-Answers k zero hi r fits h t good = absurd (omega arith)
  search-Answers k (suc zero) hi r fits h t good = absurd (omega arith)
  search-Answers k (suc (suc rounds)) hi r fits h t good = elim (Bool-cases (f least)) [
    | inl first ↦
        rw (drive-check_lo hi (suc rounds), first) (least, refl, (omega arith, h, first, inl refl))
    | inr bad ↦ elim (Bool-cases (ltb 0 (gap least hi))) [
      | inl wide ↦
          rw (drive-check_lo hi (suc rounds), bad)
            (narrow-Answers k (suc rounds) hi least hi (omega arith) fits (omega arith)
              (ground arith) (omega arith) t bad good)
      | inr none' ↦ let same : hi ≡ least = eq_of_parts hi least (ground arith) in cc
    ]
  ]

big-Counts : (top : ℤ) → Counts big_successor top
big-Counts top z h = refl

checked-Counts : Counts checked_successor i128_max
checked-Counts z h = ground arith

-- `BinSearchDownBig` ends: on a range whose ends are at most 2 ^ k apart, with a predicate that accepts the upper
-- end, k + 3 rounds reach a value of the range that the predicate accepts, and it is the least of the range or the
-- predicate refuses its predecessor.
pub drive_big-IsLeast :
    (f : ℤ → Bool) (lo hi : ℤ) (k rounds : ℕ)
    → lo ≤ℤ hi
    → gap lo hi ≤ 2 ^ k
    → k + 3 ≤ rounds
    → f hi ≡ true
    → (v : ℤ) × (drive big_successor f rounds (new lo hi) ≡ some v) × IsLeast f lo hi v
unfolding new
drive_big-IsLeast f lo hi k rounds h fits r good =
    search-Answers big_successor hi (big-Counts hi) f lo k rounds hi r fits h (omega arith) good

-- `BinSearchDown` ends, likewise, on the integers of an `i128` with ends less than 2 ^ 127 apart: 130 rounds do.
pub drive_i128-IsLeast :
    (f : ℤ → Bool) (lo hi : ℤ) (rounds : ℕ)
    → negsuc (2 ^ 127 - 1) ≤ℤ lo
    → lo ≤ℤ hi
    → hi ≤ℤ i128_max
    → gap lo hi < 2 ^ 127
    → 130 ≤ rounds
    → f hi ≡ true
    → (v : ℤ) × (drive checked_successor f rounds (new lo hi) ≡ some v) × IsLeast f lo hi v
unfolding new
drive_i128-IsLeast f lo hi rounds low h high near r good =
    search-Answers checked_successor i128_max checked-Counts f lo 127 rounds hi (omega arith)
      (omega arith) h high good
