-- ===== src/IntervalSet/New.antt =====
-- hegel-c/src/native/intervalsets.rs: `new` builds a valid set from sorted intervals of which none
-- covers all of `u32`, and reports an inverted one.
use hegel_rust.Base.{
  ℕ, suc, ◌+◌, ◌-◌, ◌%◌, ◌^◌, ◌<◌, ◌≡◌, refl, ◌⊎◌, inl, inr, arith, min, ◌==◌, if◌then◌else◌, List,
  [], ◌∷◌, ◌++◌,
}
use hegel_rust.Base.Int.{pos, negsuc}
use hegel_rust.Base.Results.{ok, internal_error}
use hegel_rust.IntervalSet.{
  Interval, IntervalSet, offsets_loop, pop, new, index_above, ascii_zero, ascii_z,
}
use hegel_rust.IntervalSet.Spec.{IsSorted, IsNarrow, total, count_below, offsets_from, IsValid}
use hegel_rust.IntervalSet.Lookup.{index_above-count}
use native.Mathlib.Nat.{zero-add, mod-eq_of_lt}

offsets_loop_ok :
    (low last : ℕ) (l : List Interval)
    → IsSorted low l
    → IsNarrow l
    → offsets_loop l last ≡ ok (offsets_from l last ++ (last + total l) ∷ [])
unfolding offsets_loop
offsets_loop_ok low last [] s n = ground arith
offsets_loop_ok low last ((u, v) ∷ l) (a, b, s) (n, ns) =
    rw (mod-eq_of_lt n) (ground (arith, offsets_loop_ok (suc v) (last + (v - u + 1)) l s ns))

pop-append : (l : List ℕ) (x : ℕ) → pop (l ++ x ∷ []) ≡ (x, l)
unfolding pop
pop-append [] x = refl
pop-append (y ∷ []) x = refl
pop-append (y ∷ z ∷ l) x = rw (pop-append (z ∷ l) x)

-- The positions that the shrink order turns around.
pub record HasPivots (set : IntervalSet) : Type 0 where
  pub zero_pivot : set.idx_of_zero ≡ count_below set.intervals ascii_zero
  pub z_pivot : set.idx_of_z ≡ (
      if set.size == 0
      then negsuc 0
      else pos (min (count_below set.intervals ascii_z) (set.size - 1)))

-- `new` accepts sorted, disjoint intervals, each with fewer than 2 ^ 32 codepoints, and returns a set that keeps
-- them, with the offsets, the size and the two pivots of the sequence.
pub new-IsValid :
    (l : List Interval)
    → IsSorted 0 l
    → IsNarrow l
    → (set : IntervalSet) × (new l ≡ ok set) × IsValid set × HasPivots set × (set.intervals ≡ l)
unfolding new
new-IsValid l s n =
    let set : IntervalSet = record {
      intervals = l;
      offsets = offsets_from l 0;
      size = total l;
      idx_of_zero = 0;
      idx_of_z = negsuc 0;
    } in
    let valid : IsValid set = record { sorted = s; narrow = n; offsets = refl; size = refl } in
    (
      record set {
        idx_of_zero = index_above set ascii_zero;
        idx_of_z =
            if set.size == 0 then negsuc 0 else pos (min (index_above set ascii_z) (set.size - 1));
      },
      rw (offsets_loop_ok 0 0 l s n, pop-append, zero-add) refl,
      record { sorted = s; narrow = n; offsets = refl; size = refl },
      record {
        zero_pivot = index_above-count set valid ascii_zero;
        z_pivot = rw (index_above-count set valid ascii_z) refl;
      },
      refl,
    )

-- An interval whose end lies before its start.
abbrev pub HasInverted : List Interval → Type 0
HasInverted [] = ⊥
HasInverted ((u, v) ∷ l) = (v < u) ⊎ HasInverted l

offsets_loop_error :
    (last : ℕ) (l : List Interval) → HasInverted l → offsets_loop l last ≡ internal_error
unfolding offsets_loop
offsets_loop_error last [] h = absurd h
offsets_loop_error last ((u, v) ∷ l) (inl h) = ground arith
offsets_loop_error last ((u, v) ∷ l) (inr h) =
    ground (arith, offsets_loop_error (last + (v - u + 1) % 2 ^ 32) l h)

-- `new` reports an internal error on any list with an inverted interval.
pub new_error : (l : List Interval) → HasInverted l → new l ≡ internal_error
unfolding new
new_error l h = rw (offsets_loop_error 0 l h)
