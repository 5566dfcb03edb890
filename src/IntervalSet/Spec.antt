-- ===== src/IntervalSet/Spec.antt =====
-- hegel-c/src/native/intervalsets.rs: what an interval set stands for, the increasing sequence of the
-- codepoints that its intervals cover.
use hegel_rust.Base.{
  ℕ, suc, ◌+◌, ◌-◌, ◌^◌, ◌≤◌, ◌<◌, ◌≡◌, refl, arith, Bool, false, leb, ◌&&◌, ◌||◌, if◌then◌else◌,
  List, [], ◌∷◌, length, Option, none, some,
}
use hegel_rust.IntervalSet.{Interval, IntervalSet, partition_point, checked_pred, interval_for}

-- In order, disjoint, not empty, and from `low` on.
abbrev pub IsSorted : ℕ → List Interval → Type 0
IsSorted low [] = Unit
IsSorted low ((u, v) ∷ l) = (low ≤ u) × (u ≤ v) × IsSorted (suc v) l

-- No interval covers all of `u32`.
abbrev pub IsNarrow : List Interval → Type 0
IsNarrow [] = Unit
IsNarrow ((u, v) ∷ l) = (v - u + 1 < 2 ^ 32) × IsNarrow l

abbrev pub mem : List Interval → ℕ → Bool
mem [] e = false
mem ((u, v) ∷ l) e = (leb u e && leb e v) || mem l e

-- The number of codepoints.
abbrev pub total : List Interval → ℕ
total [] = 0
total ((u, v) ∷ l) = (v - u + 1) + total l

-- The codepoint at a position.
abbrev pub nth : List Interval → ℕ → Option ℕ
nth [] i = none
nth ((u, v) ∷ l) i = if leb i (v - u) then some (u + i) else nth l (i - (v - u + 1))

-- The number of codepoints below `e`.
abbrev pub count_below : List Interval → ℕ → ℕ
count_below [] e = 0
count_below ((u, v) ∷ l) e =
    if leb e u then 0 else if leb e v then e - u else (v - u + 1) + count_below l e

-- The offsets of the intervals, counted from `last`.
abbrev pub offsets_from : List Interval → ℕ → List ℕ
offsets_from [] last = []
offsets_from ((u, v) ∷ l) last = last ∷ offsets_from l (last + (v - u + 1))

-- What every operation of a set relies on.
pub record IsValid (set : IntervalSet) : Type 0 where
  pub sorted : IsSorted 0 set.intervals
  pub narrow : IsNarrow set.intervals
  pub offsets : set.offsets ≡ offsets_from set.intervals 0
  pub size : set.size ≡ total set.intervals

pub mem_below : (low e : ℕ) (l : List Interval) → IsSorted low l → e < low → mem l e ≡ false
mem_below low e [] s h = refl
mem_below low e ((u, v) ∷ l) (a, b, s) h = ground (arith, mem_below (suc v) e l s)

pub partition_below :
    (low e : ℕ) (l : List Interval) → IsSorted low l → e < low → partition_point l e ≡ 0
unfolding partition_point
partition_below low e [] s h = refl
partition_below low e ((u, v) ∷ l) (a, b, s) h = ground arith

pub partition-le : (l : List Interval) (e : ℕ) → partition_point l e ≤ length l
unfolding partition_point
partition-le [] e = omega arith
partition-le ((u, v) ∷ l) e = ground (arith, partition-le l e)

-- `interval_for` never names an interval out of bounds.
pub interval_for-lt :
    (set : IntervalSet) (e j : ℕ) → interval_for set e ≡ some j → j < length set.intervals
unfolding interval_for checked_pred
interval_for-lt set e j h = ground (arith, partition-le set.intervals e)

pub IsSorted-weaken :
    (low low' : ℕ) (l : List Interval) → low ≤ low' → IsSorted low' l → IsSorted low l
IsSorted-weaken low low' [] h s = tt
IsSorted-weaken low low' ((u, v) ∷ l) h (a, b, s) = (omega arith, b, s)
