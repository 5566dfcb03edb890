-- ===== src/Choices/Integer/Index.antt =====
-- `to_index` and `from_index` are inverse to each other.
use hegel_rust.Base.{
  ℕ, ◌+◌, ◌≤◌, ◌<◌, ◌≡◌, ◌⊎◌, inl, inr, Bool, true, false, if◌then◌else◌, none, some, arith, refl,
  Bool-cases, ◌==◌, subst, ◌∙◌,
}
use hegel_rust.Base.Int.{
  ℤ, pos, ◌+ℤ◌, ◌-ℤ◌, ◌≤ℤ◌, int_laws, +ℤ_parts, -ℤ_parts, parts_cases, magnitude, ltb_ℤ, eqb_ℤ,
  pos_part, neg_part, eq_of_parts,
}
use hegel_rust.Choices.Integer.{
  IntegerChoice, simplest, validate, above, below, rank, unrank, to_index, from_index, max_index,
}
use hegel_rust.Choices.Integer.Rank.{Fits, rank_bounds, unrank-rank, rank-unrank}

abbrev pub IsRange : IntegerChoice → Type 0
IsRange c = c.min_value ≤ℤ c.max_value

pub validate_iff :
    (c : IntegerChoice) (v : ℤ) → validate c v ≡ true → (c.min_value ≤ℤ v) × (v ≤ℤ c.max_value)
unfolding validate
validate_iff c v h = ground arith

pub validate_intro :
    (c : IntegerChoice) (v : ℤ) → c.min_value ≤ℤ v → v ≤ℤ c.max_value → validate c v ≡ true
unfolding validate
validate_intro c v h k = ground arith

pub simplest_bounds :
    (c : IntegerChoice) → IsRange c → (c.min_value ≤ℤ simplest c) × (simplest c ≤ℤ c.max_value)
unfolding simplest
simplest_bounds c h = ground arith

-- The rooms add up to the width of the range.
pub rooms-add : (c : IntegerChoice) → IsRange c → above c + below c ≡ max_index c
unfolding above below max_index
rooms-add c h = omega (int_laws, +ℤ_parts, -ℤ_parts, parts_cases, simplest_bounds c h)

pub above_parts :
    (c : IntegerChoice)
    → IsRange c
    → pos_part c.max_value + neg_part (simplest c)
      ≡ above c + pos_part (simplest c) + neg_part c.max_value
unfolding above
above_parts c h = omega (int_laws, +ℤ_parts, -ℤ_parts, parts_cases, simplest_bounds c h)

pub below_parts :
    (c : IntegerChoice)
    → IsRange c
    → pos_part (simplest c) + neg_part c.min_value
      ≡ below c + pos_part c.min_value + neg_part (simplest c)
unfolding below
below_parts c h = omega (int_laws, +ℤ_parts, -ℤ_parts, parts_cases, simplest_bounds c h)

-- The value at distance `d` on one side of the simplest.
abbrev pub value_at : IntegerChoice → ℕ → Bool → ℤ
value_at c d up = if up then simplest c +ℤ pos d else simplest c -ℤ pos d

pub up_key :
    (s : ℤ) (d : ℕ)
    → 0 < d
    → (eqb_ℤ (s +ℤ pos d) s ≡ false)
      × (magnitude (s +ℤ pos d -ℤ s) ≡ d)
      × (ltb_ℤ s (s +ℤ pos d) ≡ true)
      × (ltb_ℤ (s +ℤ pos d) s ≡ false)
up_key s d h =
    ground (arith, +ℤ_parts s (pos d), -ℤ_parts (s +ℤ pos d) s, parts_cases (s +ℤ pos d -ℤ s))

pub down_key :
    (s : ℤ) (d : ℕ)
    → 0 < d
    → (eqb_ℤ (s -ℤ pos d) s ≡ false)
      × (magnitude (s -ℤ pos d -ℤ s) ≡ d)
      × (ltb_ℤ s (s -ℤ pos d) ≡ false)
      × (ltb_ℤ (s -ℤ pos d) s ≡ true)
down_key s d h =
    ground (arith, -ℤ_parts s (pos d), -ℤ_parts (s -ℤ pos d) s, parts_cases (s -ℤ pos d -ℤ s))

pub value_at-validate :
    (c : IntegerChoice)
    → IsRange c
    → (d : ℕ) (up : Bool) → d ≤ (if up then above c else below c)
    → validate c (value_at c d up) ≡ true
unfolding validate
value_at-validate c h d true k =
    ground
      (arith, +ℤ_parts (simplest c) (pos d), above_parts c h, below_parts c h, simplest_bounds c h)
value_at-validate c h d false k =
    ground
      (arith, -ℤ_parts (simplest c) (pos d), above_parts c h, below_parts c h, simplest_bounds c h)

pub to_index-value_at :
    (c : IntegerChoice) (d : ℕ) (up : Bool)
    → 0 < d
    → to_index c (value_at c d up) ≡ rank (above c) (below c) d up
unfolding to_index
to_index-value_at c d true k =
    let (a, b, e, _) = up_key (simplest c) d k in unfold to_index in rw (a, b, e)
to_index-value_at c d false k = let (a, b, e, _) = down_key (simplest c) d k in rw (a, b, e)

-- A value in range is the simplest one, or stands at a distance that fits.
pub value_cases :
    (c : IntegerChoice)
    → IsRange c
    → (v : ℤ) → validate c v ≡ true
    → (v ≡ simplest c)
      ⊎ ((d : ℕ) × (up : Bool) × Fits (above c) (below c) d up × (v ≡ value_at c d up))
value_cases c h v k =
    let s = simplest c in
    elim (Bool-cases (eqb_ℤ v s)) [
      | inl e ↦ inl (ground arith)
      | inr ne ↦ elim (Bool-cases (ltb_ℤ s v)) [
        | inl up ↦ inr (
          magnitude (v -ℤ s),
          true,
          (
            ground (arith, -ℤ_parts v s),
            ground (arith, -ℤ_parts v s, parts_cases (v -ℤ s), above_parts c h, validate_iff c v k),
          ),
          eq_of_parts _ _ (
              ground
                (arith, +ℤ_parts s (pos (magnitude (v -ℤ s))), -ℤ_parts v s, parts_cases (v -ℤ s))),
        )
        | inr down ↦ inr (
          magnitude (v -ℤ s),
          false,
          (
            ground (arith, -ℤ_parts v s),
            ground (arith, -ℤ_parts v s, parts_cases (v -ℤ s), below_parts c h, validate_iff c v k),
          ),
          eq_of_parts _ _ (
              ground
                (arith, -ℤ_parts s (pos (magnitude (v -ℤ s))), -ℤ_parts v s, parts_cases (v -ℤ s))),
        )
      ]
    ]

pub to_index-simplest : (c : IntegerChoice) → to_index c (simplest c) ≡ 0
unfolding to_index
to_index-simplest c = let s = simplest c in ground arith

pub from_index-rank :
    (c : IntegerChoice) (d : ℕ) (up : Bool)
    → Fits (above c) (below c) d up
    → from_index c (rank (above c) (below c) d up) ≡ some (value_at c d up)
unfolding from_index
from_index-rank c d up f =
    ground (arith, rank_bounds (above c) (below c) d up f, unrank-rank (above c) (below c) d up f)

-- Every value of the range comes back from its index.
pub from_index-to_index_integer :
    (c : IntegerChoice)
    → IsRange c
    → (v : ℤ) → validate c v ≡ true
    → from_index c (to_index c v) ≡ some v
from_index-to_index_integer c h v k = elim (value_cases c h v k) [
  | inl e ↦ rw (e, to_index-simplest) (unfold from_index in refl)
  | inr (d, up, f, e) ↦ rw (e, to_index-value_at c d up f.0) (from_index-rank c d up f)
]

-- Every index up to `max_index` of a range gives back a value of the range whose index it is.
pub to_index-from_index_integer :
    (c : IntegerChoice)
    → IsRange c
    → (i : ℕ) → i ≤ max_index c
    → (v : ℤ) × (from_index c i ≡ some v) × (validate c v ≡ true) × (to_index c v ≡ i)
to_index-from_index_integer c h i k = elim (Bool-cases (i == 0)) [
  | inl e ↦ (
    simplest c,
    unfold from_index in ground arith,
    ground (arith, validate_intro c (simplest c), simplest_bounds c h),
    ground (arith, to_index-simplest c),
  )
  | inr e ↦
      let a = above c in
      let b = below c in
      let d = (unrank a b i).0 in
      let up = (unrank a b i).1 in
      let (f, r) = rank-unrank a b i (ground arith) (ground (arith, rooms-add c h)) in
      (
        value_at c d up,
        subst (λ j. from_index c j ≡ some (value_at c d up)) r (from_index-rank c d up f),
        value_at-validate c h d up f.1,
        to_index-value_at c d up f.0 ∙ r,
      )
]

-- No index past `max_index` gives a value.
pub from_index-none :
    (c : IntegerChoice) → IsRange c → (i : ℕ) → max_index c < i → from_index c i ≡ none
unfolding from_index
from_index-none c h i k = ground (arith, rooms-add c h)
