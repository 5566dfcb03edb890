-- ===== src/IntervalSet/ShrinkOrder/Bijection.antt =====
-- The shrink order is a bijection between the positions and the codepoints of a set.
use hegel_rust.Base.{
  ℕ, ◌+◌, ◌-◌, ◌≤◌, ◌<◌, ◌≡◌, refl, sym, subst, ◌∙◌, arith, min, true, false, leb, ◌==◌,
  if◌then◌else◌, some,
}
use hegel_rust.Base.Int.{pos, ◌+ℤ◌, ◌-ℤ◌}
use hegel_rust.IntervalSet.{IntervalSet, get, index, ascii_zero, ascii_z}
use hegel_rust.IntervalSet.Spec.{mem, nth, total, count_below, IsValid}
use hegel_rust.IntervalSet.Lookup.{
  index-count, count_below-le, count_below_mono, count_below-nth, nth-count_below, nth-total,
  count_below-lt,
}
use hegel_rust.IntervalSet.Get.{get-nth}
use hegel_rust.IntervalSet.New.{HasPivots}
use hegel_rust.IntervalSet.ShrinkOrder.{
  is_char, unturn, turn, char_in_shrink_order, index_from_codepoint_in_shrink_order,
}

-- The pivot arithmetic over `size` positions, where the pivots are in range.
turn-unturn :
    (o z size i : ℕ)
    → o ≤ z + 1
    → z < size
    → i < size
    → (k : ℕ) × (unturn o (pos z) (pos i) ≡ pos k) × (k < size) × (turn o (pos z) (pos k) ≡ pos i)
unfolding turn unturn ◌+ℤ◌ ◌-ℤ◌
turn-unturn o z size i a b c = (
  if leb i z then (if leb (i + o) z then i + o else z - i) else i,
  ground arith,
  ground arith,
  ground arith,
)

unturn-turn :
    (o z size i : ℕ)
    → o ≤ z + 1
    → z < size
    → i < size
    → (k : ℕ) × (turn o (pos z) (pos i) ≡ pos k) × (k < size) × (unturn o (pos z) (pos k) ≡ pos i)
unfolding turn unturn ◌+ℤ◌ ◌-ℤ◌
unturn-turn o z size i a b c = (
  if leb i z then (if leb o i then i - o else z - i) else i,
  ground arith,
  ground arith,
  ground arith,
)

pivots :
    (set : IntervalSet)
    → IsValid set
    → HasPivots set
    → 0 < set.size
    → (z : ℕ) × (set.idx_of_z ≡ pos z) × (set.idx_of_zero ≤ z + 1) × (z < set.size)
pivots set h p positive =
    let nonempty : (set.size == 0) ≡ false = ground arith in
    (
      min (count_below set.intervals ascii_z) (set.size - 1),
      p.z_pivot ∙ rw nonempty,
      omega (
        arith,
        p.zero_pivot,
        count_below_mono 0 ascii_zero ascii_z set.intervals h.sorted (omega arith),
        count_below-le 0 ascii_zero set.intervals h.sorted,
        h.size,
      ),
      omega arith,
    )

-- The two turns on the positions of a set.
set_turn-unturn :
    (set : IntervalSet)
    → IsValid set
    → HasPivots set
    → (i : ℕ) → i < set.size
    → (k : ℕ) × (unturn set.idx_of_zero set.idx_of_z (pos i) ≡ pos k)
      × (k < set.size)
      × (turn set.idx_of_zero set.idx_of_z (pos k) ≡ pos i)
set_turn-unturn set h p i lt =
    let (z, ez, low, high) = pivots set h p (omega arith) in
    subst
      (λ zz.
        (k : ℕ) × (unturn set.idx_of_zero zz (pos i) ≡ pos k)
        × (k < set.size)
        × (turn set.idx_of_zero zz (pos k) ≡ pos i))
      (sym ez) (turn-unturn set.idx_of_zero z set.size i low high lt)

set_unturn-turn :
    (set : IntervalSet)
    → IsValid set
    → HasPivots set
    → (i : ℕ) → i < set.size
    → (k : ℕ) × (turn set.idx_of_zero set.idx_of_z (pos i) ≡ pos k)
      × (k < set.size)
      × (unturn set.idx_of_zero set.idx_of_z (pos k) ≡ pos i)
set_unturn-turn set h p i lt =
    let (z, ez, low, high) = pivots set h p (omega arith) in
    subst
      (λ zz.
        (k : ℕ) × (turn set.idx_of_zero zz (pos i) ≡ pos k)
        × (k < set.size)
        × (unturn set.idx_of_zero zz (pos k) ≡ pos i))
      (sym ez) (unturn-turn set.idx_of_zero z set.size i low high lt)

unturn-zero : (o z : ℕ) → o ≤ z → unturn o (pos z) (pos 0) ≡ pos o
unfolding unturn ◌+ℤ◌ ◌-ℤ◌
unturn-zero o z h = ground arith

-- With '0' in the set the pivots are in order.
exact_pivot :
    (set : IntervalSet)
    → IsValid set
    → HasPivots set
    → count_below set.intervals ascii_zero < total set.intervals
    → (z : ℕ) × (set.idx_of_z ≡ pos z) × (set.idx_of_zero ≤ z) × (z < set.size)
exact_pivot set h p lt =
    let nonempty : (set.size == 0) ≡ false = ground (arith, h.size) in
    (
      min (count_below set.intervals ascii_z) (set.size - 1),
      p.z_pivot ∙ rw nonempty,
      omega (
        arith,
        p.zero_pivot,
        count_below_mono 0 ascii_zero ascii_z set.intervals h.sorted (omega arith),
        h.size,
      ),
      omega (arith, h.size),
    )

char_at :
    (set : IntervalSet) (i k cp : ℕ)
    → unturn set.idx_of_zero set.idx_of_z (pos i) ≡ pos k
    → get set (pos k) ≡ some cp
    → is_char cp ≡ true
    → char_in_shrink_order set i ≡ some cp
unfolding char_in_shrink_order
char_at set i k cp turned got char = ground arith

index_at :
    (set : IntervalSet) (i k cp : ℕ)
    → index set cp ≡ some k
    → turn set.idx_of_zero set.idx_of_z (pos k) ≡ pos i
    → index_from_codepoint_in_shrink_order set cp ≡ some i
unfolding index_from_codepoint_in_shrink_order
index_at set i k cp indexed turned = ground arith

-- Every codepoint of the set is a `char`.
abbrev pub HasChars : IntervalSet → Type 0
HasChars set = (e : ℕ) → mem set.intervals e ≡ true → is_char e ≡ true

module _ (set : IntervalSet) (h : IsValid set) (p : HasPivots set) (chars : HasChars set) where
  -- In a valid set with its pivots, all of whose codepoints are characters (no surrogates), every place below the
  -- size holds a codepoint of the set, whose place it is.
  pub index-char_in_shrink_order :
      (i : ℕ)
      → i < set.size
      → (cp : ℕ) × (char_in_shrink_order set i ≡ some cp)
        × (mem set.intervals cp ≡ true)
        × (index_from_codepoint_in_shrink_order set cp ≡ some i)
  index-char_in_shrink_order i lt =
      let (k, placed, below, back) = set_turn-unturn set h p i lt in
      let (cp, found) = nth-total k set.intervals (omega (arith, h.size)) in
      let (counted, member, _) = count_below-nth 0 k cp set.intervals h.sorted found in
      let got : get set (pos k) ≡ some cp = get-nth set h (pos k) ∙ found in
      let indexed : index set cp ≡ some k = index-count set h cp ∙ rw (member, counted) in
      (
        cp,
        char_at set i k cp placed got (chars cp member),
        member,
        index_at set i k cp indexed back,
      )

  -- In a valid set with its pivots, all of whose codepoints are characters (no surrogates), every codepoint of the
  -- set has a place below the size, and is found there.
  pub char-index_in_shrink_order :
      (cp : ℕ)
      → mem set.intervals cp ≡ true
      → (i : ℕ) × (index_from_codepoint_in_shrink_order set cp ≡ some i)
        × (i < set.size)
        × (char_in_shrink_order set i ≡ some cp)
  char-index_in_shrink_order cp member =
      let k = count_below set.intervals cp in
      let lt : k < set.size =
        omega (arith, h.size, count_below-lt 0 cp set.intervals h.sorted member) in
      let (i, placed, below, back) = set_unturn-turn set h p k lt in
      let indexed : index set cp ≡ some k = index-count set h cp ∙ rw member in
      let got : get set (pos k) ≡ some cp =
        get-nth set h (pos k) ∙ nth-count_below 0 cp set.intervals h.sorted member in
      (i, index_at set i k cp indexed placed, below, char_at set i k cp back got (chars cp member))

  -- '0' comes first wherever the set contains it.
  pub char_in_shrink_order-zero :
      mem set.intervals ascii_zero ≡ true → char_in_shrink_order set 0 ≡ some ascii_zero
  char_in_shrink_order-zero member =
      let lt = count_below-lt 0 ascii_zero set.intervals h.sorted member in
      let (z, ez, low, high) = exact_pivot set h p lt in
      let found : nth set.intervals set.idx_of_zero ≡ some ascii_zero =
        subst (λ k. nth set.intervals k ≡ some ascii_zero) (sym p.zero_pivot)
          (nth-count_below 0 ascii_zero set.intervals h.sorted member) in
      char_at set 0 set.idx_of_zero ascii_zero
        (subst (λ zz. unturn set.idx_of_zero zz (pos 0) ≡ pos set.idx_of_zero) (sym ez)
          (unturn-zero set.idx_of_zero z low))
        (get-nth set h (pos set.idx_of_zero) ∙ found) refl
