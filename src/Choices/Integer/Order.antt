-- ===== src/Choices/Integer/Order.antt =====
-- The order of the indices, against the shrinker's `sort_key`, and the place of `unit`.
use hegel_rust.Base.{
  ℕ, ◌≤◌, ◌<◌, ◌≡◌, ◌⊎◌, inl, inr, Bool, true, false, if◌then◌else◌, arith, ◌↔◌, min, Bool-cases,
}
use hegel_rust.Base.Int.{ℤ, pos, ◌+ℤ◌, ◌-ℤ◌, int_laws, -ℤ_parts, parts_cases}
use hegel_rust.Choices.Integer.{
  IntegerChoice, clamped_shrink_towards, simplest, validate, above, below, rank, to_index,
  max_index, sort_key, unit,
}
use hegel_rust.Choices.Integer.Rank.{Fits, rank_bounds, rank_mono, rank_sides}
use hegel_rust.Choices.Integer.Index.{
  IsRange, value_at, value_cases, up_key, down_key, to_index-value_at, to_index-simplest,
  value_at-validate, rooms-add, simplest_bounds, validate_intro, above_parts, below_parts,
  validate_iff,
}

-- The order of two keys `(distance, below)`: by distance, then the value above first.
abbrev pub KeyLt : ℕ × Bool → ℕ × Bool → Type 0
KeyLt (d, down) (e, down') = (d < e) ⊎ ((d ≡ e) × (down ≡ false) × (down' ≡ true))

sort_key-simplest : (c : IntegerChoice) → sort_key c (simplest c) ≡ (0, false)
unfolding sort_key simplest
sort_key-simplest c =
    let s = clamped_shrink_towards c in ground (arith, -ℤ_parts s s, parts_cases (s -ℤ s))

sort_key-value_at :
    (c : IntegerChoice) (d : ℕ) (up : Bool)
    → 0 < d
    → sort_key c (value_at c d up) ≡ (d, if up then false else true)
unfolding sort_key simplest
sort_key-value_at c d true k = let (_, b, _, e) = up_key (clamped_shrink_towards c) d k in rw (b, e)
sort_key-value_at c d false k =
    let (_, b, _, e) = down_key (clamped_shrink_towards c) d k in rw (b, e)

module _ (c : IntegerChoice) (h : IsRange c) where
  value_at-lt :
      (d e : ℕ) (up down : Bool)
      → Fits (above c) (below c) d up
      → Fits (above c) (below c) e down
      → KeyLt (d, if up then false else true) (e, if down then false else true)
      → rank (above c) (below c) d up < rank (above c) (below c) e down
  value_at-lt d e up down f g (inl lt) = rank_mono (above c) (below c) d e up down f g lt
  value_at-lt d e true false f g (inr (p, a, b)) = ground (arith, rank_sides (above c) (below c) d)
  value_at-lt d e true true f g (inr (p, a, b)) = ground arith
  value_at-lt d e false down f g (inr (p, a, b)) = ground arith

  -- Of two values of the range, the one with the smaller sort key has the smaller index.
  pub to_index-sort_key_mono :
      (v w : ℤ)
      → validate c v ≡ true
      → validate c w ≡ true
      → KeyLt (sort_key c v) (sort_key c w)
      → to_index c v < to_index c w
  to_index-sort_key_mono v w hv hw lt = elim (value_cases c h v hv) [
    | inl p ↦ elim (value_cases c h w hw) [
      | inl q ↦ absurd (ground (arith, sort_key-simplest c))
      | inr (e, up, g, q) ↦
          rw (p, q, to_index-simplest, to_index-value_at c e up g.0)
            (rank_bounds (above c) (below c) e up g).0
    ]
    | inr (d, up, f, p) ↦ elim (value_cases c h w hw) [
      | inl q ↦ absurd (ground (arith, sort_key-simplest c, sort_key-value_at c d up f.0))
      | inr (e, down, g, q) ↦
          let lt' = rw (p, q, sort_key-value_at c d up f.0, sort_key-value_at c e down g.0) at lt in
          rw (p, q, to_index-value_at c d up f.0, to_index-value_at c e down g.0)
            (value_at-lt d e up down f g lt')
    ]
  ]

-- A value of the range other than the simplest needs room on its side.
step_up :
    (c : IntegerChoice) → IsRange c → (validate c (simplest c +ℤ pos 1) ≡ true) ↔ (1 ≤ above c)
step_up c h = (
  λ k. omega (int_laws, validate_iff c (simplest c +ℤ pos 1) k, above_parts c h),
  λ k. value_at-validate c h 1 true k,
)

step_down :
    (c : IntegerChoice) → IsRange c → (validate c (simplest c -ℤ pos 1) ≡ true) ↔ (1 ≤ below c)
step_down c h = (
  λ k. omega (int_laws, validate_iff c (simplest c -ℤ pos 1) k, below_parts c h),
  λ k. value_at-validate c h 1 false k,
)

-- The second-simplest value: `unit` lies in the range, and its index is 1 unless the range has one value.
pub to_index-unit :
    (c : IntegerChoice)
    → IsRange c
    → (validate c (unit c) ≡ true) × (to_index c (unit c) ≡ min 1 (max_index c))
unfolding unit rank
to_index-unit c h = elim (Bool-cases (validate c (simplest c +ℤ pos 1))) [
  | inl up ↦
      rw up (up, ground (arith, to_index-value_at c 1 true, rooms-add c h, (step_up c h).0 up))
  | inr up ↦ elim (Bool-cases (validate c (simplest c -ℤ pos 1))) [
    | inl down ↦
        rw (up, down)
          (
            down,
            ground (
              arith,
              to_index-value_at c 1 false,
              rooms-add c h,
              (step_up c h).1,
              (step_down c h).0 down,
            ),
          )
    | inr down ↦
        rw (up, down)
          (
            validate_intro c _ (simplest_bounds c h).0 (simplest_bounds c h).1,
            ground (arith, to_index-simplest c, rooms-add c h, (step_up c h).1, (step_down c h).1),
          )
  ]
]
