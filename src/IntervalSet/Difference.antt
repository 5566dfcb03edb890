-- ===== src/IntervalSet/Difference.antt =====
-- hegel-c/src/native/intervalsets.rs: `difference` and `intersection`.
use hegel_rust.Base.{
  ℕ, suc, ◌+◌, ◌≤◌, ◌≡◌, refl, arith, min, not, ltb, ◌⊎◌, inl, inr, Bool-cases, ◌&&◌, List, [], ◌∷◌,
}
use hegel_rust.IntervalSet.{
  Interval, IntervalSet, difference_loop, difference, intersection_loop, intersection, contains,
}
use hegel_rust.IntervalSet.Spec.{IsSorted, IsNarrow, mem, IsValid, mem_below, IsSorted-weaken}
use hegel_rust.IntervalSet.Lookup.{contains-mem}
use hegel_rust.IntervalSet.Union.{Yields, new-Yields}

difference_loop-mem :
    (low low' e : ℕ) (x y : List Interval)
    → IsSorted low x
    → IsSorted low' y
    → mem (difference_loop x y) e ≡ (mem x e && not (mem y e))
unfolding difference_loop
difference_loop-mem low low' e x [] s t = ground arith
difference_loop-mem low low' e [] (y ∷ ys) s t = refl
difference_loop-mem low low' e ((xl, xr) ∷ xs) ((yl, yr) ∷ ys) (a, b, s) (c, d, t) = ground (
  arith,
  mem_below (suc xr) e xs s,
  mem_below (suc yr) e ys t,
  difference_loop-mem low (suc yr) e ((xl, xr) ∷ xs) ys (a, b, s) t,
  difference_loop-mem (suc xr) low' e xs ((yl, yr) ∷ ys) s (c, d, t),
  λ (h : yr + 1 ≤ xr).
      difference_loop-mem (yr + 1) (suc yr) e ((yr + 1, xr) ∷ xs) ys (omega arith, h, s) t,
)

difference_loop-IsSorted :
    (low low' : ℕ) (x y : List Interval)
    → IsSorted low x
    → IsSorted low' y
    → IsSorted low (difference_loop x y)
unfolding difference_loop
difference_loop-IsSorted low low' x [] s t = s
difference_loop-IsSorted low low' [] (y ∷ ys) s t = tt
difference_loop-IsSorted low low' ((xl, xr) ∷ xs) ((yl, yr) ∷ ys) (a, b, s) (c, d, t) =
    let next =
      IsSorted-weaken low (suc xr) (difference_loop xs ((yl, yr) ∷ ys)) (omega arith)
        (difference_loop-IsSorted (suc xr) low' xs ((yl, yr) ∷ ys) s (c, d, t)) in
    ground (
      arith,
      next,
      difference_loop-IsSorted low (suc yr) ((xl, xr) ∷ xs) ys (a, b, s) t,
      difference_loop-IsSorted (suc xr) low' xs ((yl, yr) ∷ ys) s (c, d, t),
      IsSorted-weaken yl (suc xr) (difference_loop xs ((yl, yr) ∷ ys)),
      IsSorted-weaken low (yr + 1) (difference_loop ((yr + 1, xr) ∷ xs) ys),
      IsSorted-weaken yl (yr + 1) (difference_loop ((yr + 1, xr) ∷ xs) ys),
      λ (h : yr + 1 ≤ xr).
          difference_loop-IsSorted (yr + 1) (suc yr) ((yr + 1, xr) ∷ xs) ys (omega arith, h, s) t,
    )

difference_loop-IsNarrow :
    (low low' : ℕ) (x y : List Interval)
    → IsSorted low x
    → IsSorted low' y
    → IsNarrow x
    → IsNarrow (difference_loop x y)
unfolding difference_loop
difference_loop-IsNarrow low low' x [] s t n = n
difference_loop-IsNarrow low low' [] (y ∷ ys) s t n = tt
difference_loop-IsNarrow low low' ((xl, xr) ∷ xs) ((yl, yr) ∷ ys) (a, b, s) (c, d, t) (n, ns) =
    ground (
      arith,
      difference_loop-IsNarrow low (suc yr) ((xl, xr) ∷ xs) ys (a, b, s) t (n, ns),
      difference_loop-IsNarrow (suc xr) low' xs ((yl, yr) ∷ ys) s (c, d, t) ns,
      λ (h : yr + 1 ≤ xr) (k : xl ≤ yr + 1).
          difference_loop-IsNarrow (yr + 1) (suc yr) ((yr + 1, xr) ∷ xs) ys (omega arith, h, s) t
            (omega arith, ns),
    )

-- On valid sets, whose intervals are sorted and disjoint and none of which covers all of `u32`, `difference` succeeds,
-- and contains what the first set contains and the second does not.
pub difference-contains :
    (a b : IntervalSet)
    → IsValid a
    → IsValid b
    → Yields (difference a b) (λ e. contains a e && not (contains b e))
unfolding difference
difference-contains a b ha hb =
    new-Yields _ _ (difference_loop-IsSorted 0 0 a.intervals b.intervals ha.sorted hb.sorted)
      (difference_loop-IsNarrow 0 0 a.intervals b.intervals ha.sorted hb.sorted ha.narrow)
      (λ e.
        rw (contains-mem a ha e, contains-mem b hb e)
          (difference_loop-mem 0 0 e a.intervals b.intervals ha.sorted hb.sorted))

intersection_loop-mem :
    (low low' e : ℕ) (x y : List Interval)
    → IsSorted low x
    → IsSorted low' y
    → mem (intersection_loop x y) e ≡ (mem x e && mem y e)
unfolding intersection_loop
intersection_loop-mem low low' e x [] s t = ground arith
intersection_loop-mem low low' e [] (y ∷ ys) s t = refl
intersection_loop-mem low low' e ((u, v) ∷ xs) ((uu, vv) ∷ ys) (a, b, s) (c, d, t) =
    let above_x = mem_below (suc v) e xs s in
    let above_y = mem_below (suc vv) e ys t in
    let skip_y = intersection_loop-mem low (suc vv) e ((u, v) ∷ xs) ys (a, b, s) t in
    let skip_x = intersection_loop-mem (suc v) low' e xs ((uu, vv) ∷ ys) s (c, d, t) in
    elim (Bool-cases (ltb vv u)) [
      | inl p ↦ rw (p, skip_y) (ground arith)
      | inr p ↦ elim (Bool-cases (ltb v uu)) [
        | inl q ↦ rw (p, q, skip_x) (ground arith)
        | inr q ↦ elim (Bool-cases (ltb v vv)) [
          | inl r ↦ rw (p, q, r, skip_x) (ground arith)
          | inr r ↦ rw (p, q, r, skip_y) (ground arith)
        ]
      ]
    ]

intersection_loop-IsNarrow : (x y : List Interval) → IsNarrow x → IsNarrow (intersection_loop x y)
unfolding intersection_loop
intersection_loop-IsNarrow x [] n = tt
intersection_loop-IsNarrow [] (y ∷ ys) n = tt
intersection_loop-IsNarrow ((u, v) ∷ xs) ((uu, vv) ∷ ys) (n, ns) = ground (
  arith,
  intersection_loop-IsNarrow ((u, v) ∷ xs) ys (n, ns),
  intersection_loop-IsNarrow xs ((uu, vv) ∷ ys) ns,
)

intersection_loop-IsSorted :
    (low x_low y_low : ℕ) (x y : List Interval)
    → (low ≤ x_low) ⊎ (low ≤ y_low)
    → IsSorted x_low x
    → IsSorted y_low y
    → IsSorted low (intersection_loop x y)
unfolding intersection_loop
intersection_loop-IsSorted low x_low y_low x [] l s t = tt
intersection_loop-IsSorted low x_low y_low [] (y ∷ ys) l s t = tt
intersection_loop-IsSorted low x_low y_low ((u, v) ∷ xs) ((uu, vv) ∷ ys) l (a, b, s) (c, d, t) =
    elim (Bool-cases (ltb vv u)) [
      | inl p ↦
          rw p (
            intersection_loop-IsSorted low x_low (suc vv) ((u, v) ∷ xs) ys (omega arith) (a, b, s)
              t)
      | inr p ↦ elim (Bool-cases (ltb v uu)) [
        | inl q ↦
            rw (p, q)
              (intersection_loop-IsSorted low (suc v) y_low xs ((uu, vv) ∷ ys) (omega arith) s
                (c, d, t))
        | inr q ↦
            rw (p, q)
              (
                omega arith,
                ground arith,
                elim (Bool-cases (ltb v vv)) [
                  | inl r ↦ rw r (
                      intersection_loop-IsSorted (suc (min v vv)) (suc v) y_low xs ((uu, vv) ∷ ys)
                        (inl (ground arith)) s (c, d, t))
                  | inr r ↦ rw r (
                      intersection_loop-IsSorted (suc (min v vv)) x_low (suc vv) ((u, v) ∷ xs) ys
                        (inr (ground arith)) (a, b, s) t)
                ],
              )
      ]
    ]

-- On valid sets, whose intervals are sorted and disjoint and none of which covers all of `u32`, `intersection`
-- succeeds, and contains what both sets contain.
pub intersection-contains :
    (a b : IntervalSet)
    → IsValid a
    → IsValid b
    → Yields (intersection a b) (λ e. contains a e && contains b e)
unfolding intersection
intersection-contains a b ha hb =
    new-Yields _ _
      (intersection_loop-IsSorted 0 0 0 a.intervals b.intervals (inl (omega arith)) ha.sorted
        hb.sorted)
      (intersection_loop-IsNarrow a.intervals b.intervals ha.narrow)
      (λ e.
        rw (contains-mem a ha e, contains-mem b hb e)
          (intersection_loop-mem 0 0 e a.intervals b.intervals ha.sorted hb.sorted))
