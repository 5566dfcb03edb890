-- ===== src/Choices/Strings/Alphabet.antt =====
-- The codepoints of a `StringChoice` in the shrink order, as an alphabet for the shortlex index.
use hegel_rust.Base.{ℕ, suc, ◌+◌, ◌≤◌, ◌<◌, ◌^◌, ◌≡◌, arith, true, List, [], ◌∷◌, none, some}
use hegel_rust.Base.Results.{ok}
use hegel_rust.IntervalSet.{Interval, IntervalSet}
use hegel_rust.IntervalSet.Spec.{IsSorted, mem, total, IsValid}
use hegel_rust.IntervalSet.New.{HasPivots}
use hegel_rust.IntervalSet.ShrinkOrder.{char_in_shrink_order, index_from_codepoint_in_shrink_order}
use hegel_rust.IntervalSet.ShrinkOrder.Bijection.{
  HasChars, index-char_in_shrink_order, char-index_in_shrink_order,
}
use hegel_rust.Choices.Strings.{
  StringChoice, key_to_codepoint, codepoint_rank, codepoint_at_rank, alpha_size,
}
use native.Mathlib.Nat.{mod-eq_of_lt}

-- What the constructors of alphabets establish.
pub record IsWellFormed (set : IntervalSet) : Type 0 where
  pub valid : IsValid set
  pub pivots : HasPivots set
  pub chars : HasChars set

total-le :
    (low bound : ℕ) (l : List Interval)
    → IsSorted low l
    → ((e : ℕ) → mem l e ≡ true → e ≤ bound)
    → low ≤ suc bound
    → low + total l ≤ suc bound
total-le low bound [] s h k = omega arith
total-le low bound ((u, v) ∷ l) (a, b, s) h k = omega (
  arith,
  h v (ground arith),
  total-le (suc v) bound l s (λ e m. h e (ground arith)) (omega (arith, h v (ground arith))),
)

-- An alphabet of characters is small enough for the casts to `u32`.
size-lt : (set : IntervalSet) → IsWellFormed set → set.size < 2 ^ 32
size-lt set w = omega (
  arith,
  w.valid.size,
  total-le 0 0x10ffff set.intervals w.valid.sorted (λ e m. ground (arith, w.chars e m))
      (omega arith),
)

abbrev pub IsMember : StringChoice → ℕ → Type 0
IsMember c cp = mem c.intervals.intervals cp ≡ true

-- The place of a codepoint, 0 outside the alphabet.
abbrev pub place : StringChoice → ℕ → ℕ
place c cp = elim (index_from_codepoint_in_shrink_order c.intervals cp) [ some i ↦ i | none ↦ 0 ]

abbrev pub codepoint_at : StringChoice → ℕ → ℕ
codepoint_at c i = elim (char_in_shrink_order c.intervals i) [ some cp ↦ cp | none ↦ 0 ]

module _ (c : StringChoice) (w : IsWellFormed c.intervals) where
  pub codepoint_rank-place :
      (cp : ℕ)
      → IsMember c cp
      → (codepoint_rank c cp ≡ ok (place c cp))
        × (place c cp < alpha_size c)
        × (codepoint_at c (place c cp) ≡ cp)
  unfolding codepoint_rank
  codepoint_rank-place cp m =
      let (i, found, lt, back) =
        char-index_in_shrink_order c.intervals w.valid w.pivots w.chars cp m in
      ground (
        arith,
        found,
        back,
        mod-eq_of_lt {n = i} {m = 2 ^ 32} (omega (arith, lt, size-lt c.intervals w)),
      )

  pub codepoint_at_rank-codepoint_at :
      (i : ℕ)
      → i < alpha_size c
      → (codepoint_at_rank c i ≡ ok (codepoint_at c i))
        × IsMember c (codepoint_at c i)
        × (place c (codepoint_at c i) ≡ i)
  unfolding codepoint_at_rank key_to_codepoint
  codepoint_at_rank-codepoint_at i lt =
      let (cp, found, m, back) =
        index-char_in_shrink_order c.intervals w.valid w.pivots w.chars i lt in
      ground (
        arith,
        found,
        m,
        back,
        mod-eq_of_lt {n = i} {m = 2 ^ 32} (omega (arith, lt, size-lt c.intervals w)),
      )
