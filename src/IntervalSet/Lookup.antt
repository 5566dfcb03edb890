-- ===== src/IntervalSet/Lookup.antt =====
-- hegel-c/src/native/intervalsets.rs: `contains`, `index` and `index_above` against the sequence.
use hegel_rust.Base.{
  ℕ, zero, suc, ◌+◌, ◌-◌, ◌≤◌, ◌<◌, ◌≡◌, refl, ◌⊎◌, subst, sym, inl, inr, arith, Bool, true, false,
  ltb, leb, if◌then◌else◌, Bool-cases, List, [], ◌∷◌, length, get_or, Option, none, some,
}
use hegel_rust.IntervalSet.Spec.{
  IsSorted, mem, total, nth, count_below, offsets_from, IsValid, mem_below, partition_below,
}
use native.Mathlib.Nat.{zero-add}
use hegel_rust.IntervalSet.{
  Interval, IntervalSet, partition_point, checked_pred, contains, index, index_above,
}

ℕ-cases : (n : ℕ) → (n ≡ 0) ⊎ ((m : ℕ) × (n ≡ suc m))
ℕ-cases zero = inl refl
ℕ-cases (suc n) = inr (n, refl)

-- The three lookups on a list of intervals, whose offsets count from `last`.
abbrev contains_in : List Interval → ℕ → Bool
contains_in l e = elim (checked_pred (partition_point l e)) [
  | some j ↦ leb e (get_or l j (0, 0)).1
  | none ↦ false
]

contains_in-mem : (low e : ℕ) (l : List Interval) → IsSorted low l → contains_in l e ≡ mem l e
unfolding partition_point checked_pred
contains_in-mem low e [] s = refl
contains_in-mem low e ((u, v) ∷ l) (a, b, s) = elim (ℕ-cases (partition_point l e)) [
  | inl p ↦ ground (arith, contains_in-mem (suc v) e l s, mem_below (suc v) e l s)
  | inr (j, p) ↦
      ground (
        arith,
        contains_in-mem (suc v) e l s,
        partition_below (suc v) e l s,
        mem_below (suc v) e l s,
      )
]

-- `contains` is membership in one of the intervals.
pub contains-mem :
    (set : IntervalSet) → IsValid set → (e : ℕ) → contains set e ≡ mem set.intervals e
unfolding contains
contains-mem set h e = contains_in-mem 0 e set.intervals h.sorted

abbrev index_with : List Interval → List ℕ → ℕ → Option ℕ
index_with l offsets e = elim (checked_pred (partition_point l e)) [
  | some j ↦
      let (u, v) = get_or l j (0, 0) in
      if leb e v then some (get_or offsets j 0 + (e - u)) else none
  | none ↦ none
]

index_with-count :
    (low last e : ℕ) (l : List Interval)
    → IsSorted low l
    → index_with l (offsets_from l last) e
      ≡ (if mem l e then some (last + count_below l e) else none)
unfolding partition_point checked_pred
index_with-count low last e [] s = refl
index_with-count low last e ((u, v) ∷ l) (a, b, s) = elim (ℕ-cases (partition_point l e)) [
  | inl p ↦
      ground (arith, index_with-count (suc v) (last + (v - u + 1)) e l s, mem_below (suc v) e l s)
  | inr (j, p) ↦ ground (
    arith,
    index_with-count (suc v) (last + (v - u + 1)) e l s,
    partition_below (suc v) e l s,
    mem_below (suc v) e l s,
  )
]

-- `index` answers the number of smaller codepoints, on the members only.
pub index-count :
    (set : IntervalSet)
    → IsValid set
    → (e : ℕ)
    → index set e ≡ (if mem set.intervals e then some (count_below set.intervals e) else none)
unfolding index
index-count set h e =
    subst
      (λ o.
        index_with set.intervals o e
        ≡ (if mem set.intervals e then some (count_below set.intervals e) else none))
      (sym h.offsets) (rw zero-add at (index_with-count 0 0 e set.intervals h.sorted))

abbrev above_with : List Interval → List ℕ → ℕ → ℕ → ℕ
above_with l offsets size e = elim (checked_pred (partition_point l e)) [
  | some j ↦
      let (u, v) = get_or l j (0, 0) in
      if leb e v
      then get_or offsets j 0 + (e - u)
      else if ltb (j + 1) (length l)
      then get_or offsets (j + 1) 0
      else size
  | none ↦ 0
]

count_below_low : (low e : ℕ) (l : List Interval) → IsSorted low l → e ≤ low → count_below l e ≡ 0
count_below_low low e [] s h = refl
count_below_low low e ((u, v) ∷ l) (a, b, s) h = ground arith

above_with-count :
    (low last e : ℕ) (l : List Interval)
    → IsSorted low l
    → (0 < partition_point l e)
    → above_with l (offsets_from l last) (last + total l) e ≡ last + count_below l e
unfolding partition_point checked_pred
above_with-count low last e [] s h = absurd (omega arith)
above_with-count low last e ((u, v) ∷ []) (a, b, s) h = ground (arith)
above_with-count low last e ((u, v) ∷ (u', v') ∷ l) (a, b, s) h =
    elim (ℕ-cases (partition_point ((u', v') ∷ l) e)) [
      | inl p ↦ ground (arith, count_below_low (suc v) e ((u', v') ∷ l) s)
      | inr (j, p) ↦ ground (
        arith,
        above_with-count (suc v) (last + (v - u + 1)) e ((u', v') ∷ l) s,
        partition_below (suc v) e ((u', v') ∷ l) s,
      )
    ]

count_below_none : (e : ℕ) (l : List Interval) → partition_point l e ≡ 0 → count_below l e ≡ 0
unfolding partition_point
count_below_none e [] h = refl
count_below_none e ((u, v) ∷ l) h = ground arith

above_in-count :
    (e : ℕ) (l : List Interval)
    → IsSorted 0 l
    → above_with l (offsets_from l 0) (total l) e ≡ count_below l e
unfolding checked_pred
above_in-count e l s = elim (ℕ-cases (partition_point l e)) [
  | inl p ↦ ground (arith, count_below_none e l)
  | inr (j, p) ↦ rw (zero-add, zero-add) at (above_with-count 0 0 e l s (omega arith))
]

-- `index_above` answers the number of smaller codepoints, for every codepoint.
pub index_above-count :
    (set : IntervalSet) → IsValid set → (e : ℕ) → index_above set e ≡ count_below set.intervals e
unfolding index_above
index_above-count set h e =
    subst (λ o. above_with set.intervals o set.size e ≡ count_below set.intervals e) (sym h.offsets)
      (subst
        (λ n.
          above_with set.intervals (offsets_from set.intervals 0) n e ≡ count_below set.intervals e)
        (sym h.size) (above_in-count e set.intervals h.sorted))

pub count_below-le : (low e : ℕ) (l : List Interval) → IsSorted low l → count_below l e ≤ total l
count_below-le low e [] s = omega arith
count_below-le low e ((u, v) ∷ l) (a, b, s) = ground (arith, count_below-le (suc v) e l s)

pub count_below_mono :
    (low d e : ℕ) (l : List Interval) → IsSorted low l → d ≤ e → count_below l d ≤ count_below l e
count_below_mono low d e [] s h = omega arith
count_below_mono low d e ((u, v) ∷ l) (a, b, s) h = ground (arith, count_below_mono (suc v) d e l s)

-- The sequence and the counts are inverse to each other.
pub count_below-nth :
    (low i e : ℕ) (l : List Interval)
    → IsSorted low l
    → nth l i ≡ some e
    → (count_below l e ≡ i) × (mem l e ≡ true) × (low ≤ e)
count_below-nth low i e [] s h = cc
count_below-nth low i e ((u, v) ∷ l) (a, b, s) h =
    ground (arith, count_below-nth (suc v) (i - (v - u + 1)) e l s)

pub nth-count_below :
    (low e : ℕ) (l : List Interval)
    → IsSorted low l
    → mem l e ≡ true
    → nth l (count_below l e) ≡ some e
nth-count_below low e [] s h = cc
nth-count_below low e ((u, v) ∷ l) (a, b, s) h =
    ground (arith, nth-count_below (suc v) e l s, mem_below (suc v) e l s)

pub nth-total : (i : ℕ) (l : List Interval) → i < total l → (e : ℕ) × (nth l i ≡ some e)
nth-total i [] h = absurd (omega arith)
nth-total i ((u, v) ∷ l) h = elim (Bool-cases (leb i (v - u))) [
  | inl p ↦ (u + i, rw p)
  | inr p ↦ let (e, q) = nth-total (i - (v - u + 1)) l (ground arith) in (e, rw p q)
]

pub nth_past : (i : ℕ) (l : List Interval) → total l ≤ i → nth l i ≡ none
nth_past i [] h = refl
nth_past i ((u, v) ∷ l) h = ground (arith, nth_past (i - (v - u + 1)) l)

pub count_below-lt :
    (low e : ℕ) (l : List Interval) → IsSorted low l → mem l e ≡ true → count_below l e < total l
count_below-lt low e [] s h = cc
count_below-lt low e ((u, v) ∷ l) (a, b, s) h =
    ground (arith, count_below-lt (suc v) e l s, mem_below (suc v) e l s)
