-- ===== src/Choices/Strings/Index.antt =====
-- The dense index of strings over an alphabet of characters: a bijection onto 0..=max_index.
use hegel_rust.Base.{
  ℕ, suc, ◌+◌, ◌-◌, ◌*◌, ◌^◌, ◌≤◌, ◌<◌, ◌≡◌, refl, ◌∙◌, arith, ap, true, not, ◌==◌, ◌||◌, List, [],
  ◌∷◌, length, map, All, none, some,
}
use hegel_rust.Base.Results.{ok}
use hegel_rust.IntervalSet.Lookup.{contains-mem}
use hegel_rust.Choices.Shortlex
use hegel_rust.Choices.Shortlex.{position_loop}
use hegel_rust.Choices.Shortlex.Positional.{IsAlphabet}
use hegel_rust.Choices.Shortlex.Buckets.{offset_loop-buckets}
use hegel_rust.Choices.Shortlex.RoundTrip
use hegel_rust.Choices.Shortlex.RoundTrip.{HasSize, cardinality}
use hegel_rust.Choices.Strings.{
  StringChoice, all_contained, validate, alpha_size, codepoint_at_rank, ranks, to_index, from_index,
  max_index,
}
use hegel_rust.Choices.Strings.Alphabet.{
  IsWellFormed, IsMember, place, codepoint_at, codepoint_rank-place, codepoint_at_rank-codepoint_at,
}

all_contained-All :
    (c : StringChoice)
    → IsWellFormed c.intervals
    → (v : List ℕ) → all_contained c.intervals v ≡ true
    → All (IsMember c) v
unfolding all_contained
all_contained-All c w [] h = tt
all_contained-All c w (cp ∷ v) h =
    (ground (arith, contains-mem c.intervals w.valid cp), all_contained-All c w v (ground arith))

All-all_contained :
    (c : StringChoice)
    → IsWellFormed c.intervals
    → (v : List ℕ) → All (IsMember c) v
    → all_contained c.intervals v ≡ true
unfolding all_contained
All-all_contained c w [] h = refl
All-all_contained c w (cp ∷ v) (h, hs) =
    ground (arith, contains-mem c.intervals w.valid cp, All-all_contained c w v hs)

position_loop-map :
    (base : ℕ) (rank : ℕ → ℕ) (v : List ℕ) (p : ℕ)
    → position_loop base (λ r. r) (map rank v) p ≡ position_loop base rank v p
unfolding position_loop
position_loop-map base rank [] p = refl
position_loop-map base rank (x ∷ v) p = position_loop-map base rank v (p * base + rank x)

length-map : (rank : ℕ → ℕ) (v : List ℕ) → length (map rank v) ≡ length v
length-map rank [] = refl
length-map rank (x ∷ v) = ap suc (length-map rank v)

module _ (c : StringChoice) (w : IsWellFormed c.intervals) where
  alphabet : IsAlphabet (alpha_size c) (place c) (codepoint_at_rank c) (IsMember c)
  alphabet = record {
    rank-lt = λ cp m. (codepoint_rank-place c w cp m).1;
    at_rank-rank = λ cp m.
        let (_, lt, back) = codepoint_rank-place c w cp m in
        (codepoint_at_rank-codepoint_at c w (place c cp) lt).0 ∙ ap ok back;
    element = codepoint_at c;
    element-IsMember = λ r h. (codepoint_at_rank-codepoint_at c w r h).1;
    at_rank-element = λ r h. (codepoint_at_rank-codepoint_at c w r h).0;
    rank-element = λ r h. (codepoint_at_rank-codepoint_at c w r h).2;
  }

  ranks-map : (v : List ℕ) → All (IsMember c) v → ranks c v ≡ ok (map (place c) v)
  unfolding ranks
  ranks-map [] h = refl
  ranks-map (cp ∷ v) (h, hs) = rw ((codepoint_rank-place c w cp h).0, ranks-map v hs)

  -- On strings of the alphabet `to_index` is the shortlex index over the places.
  pub to_index-place :
      (v : List ℕ)
      → All (IsMember c) v
      → to_index c v ≡ ok (Shortlex.to_index (alpha_size c) (place c) c.min_size v)
  unfolding to_index
  to_index-place v h = rw (ranks-map v h) (
      unfold Shortlex.to_index in
      rw (length-map (place c) v, position_loop-map (alpha_size c) (place c) v 0))

  validate-parts :
      (v : List ℕ) → validate c v ≡ true → All (IsMember c) v × HasSize c.min_size c.max_size v
  unfolding validate
  validate-parts v h = (all_contained-All c w v (ground arith), (ground arith, ground arith))

  pub parts-validate :
      (v : List ℕ) → All (IsMember c) v → HasSize c.min_size c.max_size v → validate c v ≡ true
  unfolding validate
  parts-validate v m (lo, hi) = ground (arith, All-all_contained c w v m)

-- An empty alphabet goes with the empty string only, as the draws layer makes sure.
abbrev pub IsDrawable : StringChoice → Type 0
IsDrawable c = (not (alpha_size c == 0) || c.max_size == 0) ≡ true

module _ (c : StringChoice) (w : IsWellFormed c.intervals) (d : IsDrawable c) where
  -- Over a well-formed alphabet of characters (no surrogates), which is empty only where the largest size is 0, and
  -- with sizes below 2 ^ 32, every string that the choice allows has an index, and comes back from it.
  pub from_index-to_index_string :
      (v : List ℕ)
      → validate c v ≡ true
      → c.max_size < 2 ^ 32
      → (i : ℕ) × (to_index c v ≡ ok i) × (from_index c i ≡ ok (some v))
  unfolding from_index
  from_index-to_index_string v h fits =
      let (m, size) = validate-parts c w v h in
      (
        Shortlex.to_index (alpha_size c) (place c) c.min_size v,
        to_index-place c w v m,
        rw d (RoundTrip.from_index-to_index (alphabet c w) c.min_size c.max_size v m size fits),
      )

  max_index_lem :
      c.min_size ≤ c.max_size
      → c.max_size < 2 ^ 32
      → max_index c ≡ cardinality (alpha_size c) c.min_size c.max_size - 1
  unfolding max_index
  max_index_lem h fits = omega (
    arith,
    offset_loop-buckets (alpha_size c) c.min_size (c.max_size + 1 - c.min_size) 0 (omega arith),
  )

  -- Over a well-formed alphabet of characters (no surrogates), which is empty only where the largest size is 0, and
  -- with sizes below 2 ^ 32, every index below the number of strings gives an allowed string with that index.
  pub to_index-from_index_string :
      (i : ℕ)
      → c.max_size < 2 ^ 32
      → i < cardinality (alpha_size c) c.min_size c.max_size
      → (v : List ℕ) × (from_index c i ≡ ok (some v))
        × (validate c v ≡ true)
        × (to_index c v ≡ ok i)
  unfolding from_index
  to_index-from_index_string i fits h =
      let (v, e, m, size, ix) =
        RoundTrip.to_index-from_index (alphabet c w) c.min_size c.max_size i fits h in
      (v, rw d e, parts-validate c w v m size, to_index-place c w v m ∙ ap ok ix)

  pub from_index_past_string :
      (i : ℕ)
      → c.min_size ≤ c.max_size
      → c.max_size < 2 ^ 32
      → cardinality (alpha_size c) c.min_size c.max_size ≤ i
      → from_index c i ≡ ok none
  unfolding from_index
  from_index_past_string i range fits h =
      rw d (RoundTrip.from_index_past (alphabet c w) c.min_size c.max_size i range fits h)
