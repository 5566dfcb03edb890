-- ===== src/Choices/Integer/Rank.antt =====
-- The enumeration of the distances on both sides of the simplest value: +1, -1, +2, -2, ... and then
-- the longer side alone.
use hegel_rust.Base.{ℕ, ◌+◌, ◌≤◌, ◌<◌, ◌≡◌, Bool, true, false, if◌then◌else◌, arith}
use hegel_rust.Choices.Integer.{rank, unrank}

-- A distance that the range has on the given side.
abbrev pub Fits : ℕ → ℕ → ℕ → Bool → Type 0
Fits above below d up = (0 < d) × (d ≤ (if up then above else below))

module _ (above below : ℕ) where
  pub rank_bounds :
      (d : ℕ) (up : Bool)
      → Fits above below d up
      → (0 < rank above below d up) × (rank above below d up ≤ above + below)
  unfolding rank
  rank_bounds d up (h, k) = ground arith

  pub unrank-rank :
      (d : ℕ) (up : Bool)
      → Fits above below d up
      → unrank above below (rank above below d up) ≡ (d, up)
  unfolding rank unrank
  unrank-rank d true (h, k) = ground arith
  unrank-rank d false (h, k) = ground arith

  pub rank-unrank :
      (i : ℕ)
      → 0 < i
      → i ≤ above + below
      → Fits above below (unrank above below i).0 (unrank above below i).1
        × (rank above below (unrank above below i).0 (unrank above below i).1 ≡ i)
  unfolding rank unrank
  rank-unrank i h k = ground arith

  -- Nearer values come first, and of two values at one distance the one above.
  pub rank_mono :
      (d e : ℕ) (up down : Bool)
      → Fits above below d up
      → Fits above below e down
      → d < e
      → rank above below d up < rank above below e down
  unfolding rank
  rank_mono d e up down (h, k) (h', k') lt = ground arith

  pub rank_sides :
      (d : ℕ)
      → Fits above below d true
      → Fits above below d false
      → rank above below d true < rank above below d false
  unfolding rank
  rank_sides d (h, k) (h', k') = ground arith
