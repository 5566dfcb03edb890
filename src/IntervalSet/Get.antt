-- ===== src/IntervalSet/Get.antt =====
-- hegel-c/src/native/intervalsets.rs: `get`, whose binary search finds the interval of a position.
use hegel_rust.Base.{
  ℕ, zero, suc, ◌+◌, ◌-◌, ◌/◌, ◌≤◌, ◌<◌, ◌≡◌, sym, subst, inl, inr, arith, false, ltb, leb,
  if◌then◌else◌, Bool-cases, List, [], ◌∷◌, length, get_or, Option, none, some,
}
use hegel_rust.Base.Int.{ℤ, pos, negsuc, ◌+ℤ◌}
use hegel_rust.IntervalSet.{Interval, IntervalSet, get_loop, get_at, get}
use hegel_rust.IntervalSet.Spec.{total, nth, offsets_from, IsValid}
use hegel_rust.IntervalSet.Lookup.{nth_past}
use native.Mathlib.Nat.{zero-add}

-- The search ends at `j` with offsets[j] <= i < offsets[j + 1].
get_loop_finds :
    (fuel : ℕ) (offsets : List ℕ) (i lo hi : ℕ)
    → hi ≤ lo + fuel
    → lo < hi
    → get_or offsets lo 0 ≤ i
    → i < get_or offsets hi 0
    → (get_or offsets (get_loop fuel offsets i lo hi) 0 ≤ i)
      × (i < get_or offsets (suc (get_loop fuel offsets i lo hi)) 0)
      × (get_loop fuel offsets i lo hi < hi)
unfolding get_loop
get_loop_finds zero offsets i lo hi f h a b = absurd (omega arith)
get_loop_finds (suc fuel) offsets i lo hi f h a b = elim (Bool-cases (ltb (lo + 1) hi)) [
  | inl more ↦
      let mid = lo + (hi - lo) / 2 in
      elim (Bool-cases (leb (get_or offsets mid 0) i)) [
        | inl up ↦
            rw (more, up)
              (get_loop_finds fuel offsets i mid hi (ground arith) (ground arith) (ground arith) b)
        | inr down ↦
            rw (more, down)
              (let (x, y, z) =
                  get_loop_finds fuel offsets i lo mid (ground arith) (ground arith) a
                    (ground arith) in
                (x, y, omega arith))
      ]
  | inr done ↦ let e : hi ≡ suc lo = ground arith in rw done (a, rw e at b, h)
]

offsets_from-le :
    (l : List Interval) (last j : ℕ) → j < length l → last ≤ get_or (offsets_from l last) j 0
offsets_from-le [] last j h = absurd (omega arith)
offsets_from-le ((u, v) ∷ l) last zero h = omega arith
offsets_from-le ((u, v) ∷ l) last (suc j) h =
    omega (arith, offsets_from-le l (last + (v - u + 1)) j (omega arith))

-- The offset of an interval, and what lies behind it.
nth_at :
    (l : List Interval) (last i j : ℕ)
    → j < length l
    → get_or (offsets_from l last) j 0 ≤ last + i
    → ((suc j < length l) → last + i < get_or (offsets_from l last) (suc j) 0)
    → i < total l
    → nth l i ≡ some ((get_or l j (0, 0)).0 + (last + i - get_or (offsets_from l last) j 0))
nth_at [] last i j h a b c = absurd (omega arith)
nth_at ((u, v) ∷ []) last i zero h a b c = ground arith
nth_at ((u, v) ∷ (x ∷ l)) last i zero h a b c = ground (arith, b (omega arith))
nth_at ((u, v) ∷ l) last i (suc j) h a b c =
    let w = v - u + 1 in
    let low = offsets_from-le l (last + w) j (omega arith) in
    let later : leb i (v - u) ≡ false = ground arith in
    let e : last + w + (i - w) ≡ last + i = ground arith in
    rw later (
      rw e at (
        nth_at l (last + w) (i - w) j (omega arith) (rw e a) (λ k. rw e (b (omega arith)))
          (ground arith)))

nth_from :
    (l : List Interval) (i j : ℕ)
    → j < length l
    → get_or (offsets_from l 0) j 0 ≤ i
    → ((suc j < length l) → i < get_or (offsets_from l 0) (suc j) 0)
    → i < total l
    → nth l i ≡ some ((get_or l j (0, 0)).0 + (i - get_or (offsets_from l 0) j 0))
nth_from l i j h a b c =
    rw zero-add at (nth_at l 0 i j h (rw zero-add a) (λ k. rw zero-add (b k)) c)

abbrev at_with : List Interval → List ℕ → ℕ → ℕ
at_with l offsets i =
    let last = length l - 1 in
    let j = if ltb i (get_or offsets last 0) then get_loop last offsets i 0 last else last in
    (get_or l j (0, 0)).0 + (i - get_or offsets j 0)

at_with-nth :
    (l : List Interval) (i : ℕ) → i < total l → nth l i ≡ some (at_with l (offsets_from l 0) i)
at_with-nth [] i lt = absurd (omega arith)
at_with-nth (x ∷ l) i lt =
    let offsets = offsets_from (x ∷ l) 0 in
    let last = length l in
    let e : length (x ∷ l) - 1 ≡ last = omega arith in
    elim (Bool-cases (ltb i (get_or offsets last 0))) [
      | inl found ↦
          let apart : 0 < last = ground arith in
          let (lo, hi, lt') =
            get_loop_finds last offsets i 0 last (omega arith) apart (omega arith) (ground arith) in
          rw (e, found)
            (nth_from (x ∷ l) i (get_loop last offsets i 0 last) (omega arith) lo (λ k. hi) lt)
      | inr end ↦
          rw (e, end)
            (nth_from (x ∷ l) i last (omega arith) (ground arith) (λ k. absurd (omega arith)) lt)
    ]

get_at-nth :
    (set : IntervalSet)
    → IsValid set
    → (i : ℕ) → i < set.size
    → nth set.intervals i ≡ some (get_at set i)
unfolding get_at
get_at-nth set h i lt =
    subst (λ o. nth set.intervals i ≡ some (at_with set.intervals o i)) (sym h.offsets)
      (at_with-nth set.intervals i (omega (arith, h.size)))

-- A position of Python's indexing: from the end where it is negative.
abbrev pub python_nth : List Interval → ℤ → Option ℕ
python_nth l (pos i) = nth l i
python_nth l (negsuc i) = if ltb i (total l) then nth l (total l - 1 - i) else none

-- `get` answers the codepoint at the position, counted from the end where the position is negative,
-- and `none` out of range.
pub get-nth : (set : IntervalSet) → IsValid set → (i : ℤ) → get set i ≡ python_nth set.intervals i
unfolding get
get-nth set h (pos i) = elim (Bool-cases (ltb i set.size)) [
  | inl e ↦ ground (arith, get_at-nth set h i)
  | inr e ↦ ground (arith, nth_past i set.intervals)
]
get-nth set h (negsuc i) = elim (Bool-cases (ltb i set.size)) [
  | inl e ↦ unfold ◌+ℤ◌ in ground (arith, get_at-nth set h (set.size - 1 - i))
  | inr e ↦ unfold ◌+ℤ◌ in ground arith
]
