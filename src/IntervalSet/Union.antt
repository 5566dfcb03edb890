-- ===== src/IntervalSet/Union.antt =====
-- hegel-c/src/native/intervalsets.rs: `union`.
use hegel_rust.Base.{
  ℕ, suc, ◌+◌, ◌<◌, ◌≤◌, ◌≡◌, refl, inl, inr, arith, min, max, Bool, true, false, leb, Bool-cases,
  ap, ◌∙◌, ◌&&◌, ◌||◌, List, [], ◌∷◌, ◌++◌,
}
use hegel_rust.Base.Results.{Result, ok}
use hegel_rust.IntervalSet.{
  Interval, IntervalSet, insert_by_start, sort_by_start, merge_loop, merge, is_nil, union, u32_max,
  new, contains,
}
use hegel_rust.IntervalSet.Spec.{IsSorted, IsNarrow, mem, IsValid}
use hegel_rust.IntervalSet.Lookup.{contains-mem}
use hegel_rust.IntervalSet.New.{new-IsValid}

-- Intervals in the order of their starts, which may overlap, with ends below `u32::MAX`.
abbrev pub IsAscending : ℕ → List Interval → Type 0
IsAscending low [] = Unit
IsAscending low ((u, v) ∷ l) = (low ≤ u) × (u ≤ v) × (v < u32_max) × IsAscending u l

-- The ends are below `u32::MAX`, as those of characters are.
abbrev pub EndsBelowMax : List Interval → Type 0
EndsBelowMax [] = Unit
EndsBelowMax ((u, v) ∷ l) = (v < u32_max) × EndsBelowMax l

insert-IsAscending :
    (low u v : ℕ) (l : List Interval)
    → low ≤ u
    → u ≤ v
    → v < u32_max
    → IsAscending low l
    → IsAscending low (insert_by_start (u, v) l)
unfolding insert_by_start
insert-IsAscending low u v [] a b c s = ground arith
insert-IsAscending low u v ((x, y) ∷ l) a b c (h, i, j, s) =
    ground (arith, insert-IsAscending x u v l)

mem-insert :
    (x : Interval) (l : List Interval) (e : ℕ) → mem (insert_by_start x l) e ≡ mem (x ∷ l) e
unfolding insert_by_start
mem-insert x [] e = refl
mem-insert x (y ∷ l) e = ground (arith, mem-insert x l e)

mem-sort : (l : List Interval) (e : ℕ) → mem (sort_by_start l) e ≡ mem l e
unfolding sort_by_start
mem-sort [] e = refl
mem-sort (x ∷ l) e = ground (arith, mem-insert x (sort_by_start l) e, mem-sort l e)

mem-append : (l m : List Interval) (e : ℕ) → mem (l ++ m) e ≡ (mem l e || mem m e)
mem-append [] m e = refl
mem-append (x ∷ l) m e = ground (arith, mem-append l m e)

-- Each interval is in order and ends below `u32::MAX`, in any sequence.
abbrev IsProper : List Interval → Type 0
IsProper [] = Unit
IsProper ((u, v) ∷ l) = (u ≤ v) × (v < u32_max) × IsProper l

sort-IsAscending : (l : List Interval) → IsProper l → IsAscending 0 (sort_by_start l)
unfolding sort_by_start
sort-IsAscending [] h = tt
sort-IsAscending ((u, v) ∷ l) (a, b, h) =
    insert-IsAscending 0 u v (sort_by_start l) (omega arith) a b (sort-IsAscending l h)

append-IsProper :
    (low low' : ℕ) (l m : List Interval)
    → IsSorted low l
    → EndsBelowMax l
    → IsSorted low' m
    → EndsBelowMax m
    → IsProper (l ++ m)
append-IsProper low low' [] [] s b t c = tt
append-IsProper low low' [] ((u, v) ∷ m) s b (i, j, t) (c, cs) =
    (j, c, append-IsProper low (suc v) [] m s b t cs)
append-IsProper low low' ((u, v) ∷ l) m (i, j, s) (b, bs) t c =
    (j, b, append-IsProper (suc v) low' l m s bs t c)

IsAscending-weaken : (low u : ℕ) (l : List Interval) → low ≤ u → IsAscending u l → IsAscending low l
IsAscending-weaken low u [] h s = tt
IsAscending-weaken low u ((x, y) ∷ l) h (a, b, c, s) = (omega arith, b, c, s)

merge_loop-IsSorted :
    (low a b : ℕ) (l : List Interval)
    → low ≤ a
    → a ≤ b
    → b < u32_max
    → IsAscending a l
    → IsSorted low (merge_loop a b l)
unfolding merge_loop
merge_loop-IsSorted low a b [] h i j s = ground arith
merge_loop-IsSorted low a b ((u, v) ∷ l) h i j (x, y, z, s) =
    elim (Bool-cases (leb u (min (b + 1) u32_max))) [
      | inl joined ↦ rw joined (
          merge_loop-IsSorted low a (max b v) l h (omega arith) (omega arith)
            (IsAscending-weaken a u l x s))
      | inr apart ↦ rw apart (h, i, merge_loop-IsSorted (suc b) u v l (ground arith) y z s)
    ]

merge_loop-IsNarrow :
    (a b : ℕ) (l : List Interval)
    → a ≤ b
    → b < u32_max
    → IsAscending a l
    → IsNarrow (merge_loop a b l)
unfolding merge_loop
merge_loop-IsNarrow a b [] i j s = ground arith
merge_loop-IsNarrow a b ((u, v) ∷ l) i j (x, y, z, s) =
    elim (Bool-cases (leb u (min (b + 1) u32_max))) [
      | inl joined ↦ rw joined (
          merge_loop-IsNarrow a (max b v) l (omega arith) (omega arith)
            (IsAscending-weaken a u l x s))
      | inr apart ↦ rw apart (omega arith, merge_loop-IsNarrow u v l y z s)
    ]

merge_loop-mem :
    (a b : ℕ) (l : List Interval) (e : ℕ)
    → a ≤ b
    → IsAscending a l
    → mem (merge_loop a b l) e ≡ ((leb a e && leb e b) || mem l e)
unfolding merge_loop
merge_loop-mem a b [] e h s = refl
merge_loop-mem a b ((u, v) ∷ l) e h (x, y, z, s) = elim (Bool-cases (leb u (min (b + 1) u32_max))) [
  | inl joined ↦
      rw (joined, merge_loop-mem a (max b v) l e (omega arith) (IsAscending-weaken a u l x s))
        (ground arith)
  | inr apart ↦ rw (apart, merge_loop-mem u v l e y s)
]

merge-mem : (l : List Interval) (e : ℕ) → IsAscending 0 l → mem (merge l) e ≡ mem l e
unfolding merge
merge-mem [] e s = refl
merge-mem ((u, v) ∷ l) e (x, y, z, s) = merge_loop-mem u v l e y s

merge-IsSorted : (l : List Interval) → IsAscending 0 l → IsSorted 0 (merge l)
unfolding merge
merge-IsSorted [] s = tt
merge-IsSorted ((u, v) ∷ l) (x, y, z, s) = merge_loop-IsSorted 0 u v l (omega arith) y z s

merge-IsNarrow : (l : List Interval) → IsAscending 0 l → IsNarrow (merge l)
unfolding merge
merge-IsNarrow [] s = tt
merge-IsNarrow ((u, v) ∷ l) (x, y, z, s) = merge_loop-IsNarrow u v l y z s

is_nil-mem : (l : List Interval) (e : ℕ) → is_nil l ≡ true → mem l e ≡ false
unfolding is_nil
is_nil-mem [] e h = refl
is_nil-mem (x ∷ l) e h = cc

-- What the operations on two sets promise: a valid set, in which exactly the codepoints of `keep` lie.
abbrev pub Yields : Result IntervalSet → (ℕ → Bool) → Type 0
Yields result keep =
    (set : IntervalSet) × (result ≡ ok set) × IsValid set × ((e : ℕ) → contains set e ≡ keep e)

pub new-Yields :
    (l : List Interval) (keep : ℕ → Bool)
    → IsSorted 0 l
    → IsNarrow l
    → ((e : ℕ) → mem l e ≡ keep e)
    → Yields (new l) keep
new-Yields l keep s n h =
    let (set, made, valid, _, same) = new-IsValid l s n in
    (set, made, valid, λ e. contains-mem set valid e ∙ ap (λ l'. mem l' e) same ∙ h e)

-- On valid sets whose intervals end below `u32::MAX`, `union` succeeds, and contains what one of the sets contains.
pub union-contains :
    (a b : IntervalSet)
    → IsValid a
    → IsValid b
    → EndsBelowMax a.intervals
    → EndsBelowMax b.intervals
    → Yields (union a b) (λ e. contains a e || contains b e)
unfolding union
union-contains a b ha hb ua ub = elim (Bool-cases (is_nil a.intervals)) [
  | inl na ↦ rw na (
      new-Yields b.intervals _ hb.sorted hb.narrow (λ e.
        ground (arith, is_nil-mem a.intervals e na, contains-mem a ha e, contains-mem b hb e)))
  | inr sa ↦ elim (Bool-cases (is_nil b.intervals)) [
    | inl nb ↦
        rw (sa, nb)
          (new-Yields a.intervals _ ha.sorted ha.narrow (λ e.
            ground (arith, is_nil-mem b.intervals e nb, contains-mem a ha e, contains-mem b hb e)))
    | inr sb ↦
        let both = a.intervals ++ b.intervals in
        let ascending : IsAscending 0 (sort_by_start both) =
          sort-IsAscending both
            (append-IsProper 0 0 a.intervals b.intervals ha.sorted ua hb.sorted ub) in
        rw (sa, sb)
          (new-Yields (merge (sort_by_start both)) _ (merge-IsSorted (sort_by_start both) ascending)
            (merge-IsNarrow (sort_by_start both) ascending)
            (λ e. ground (
              arith,
              merge-mem (sort_by_start both) e ascending,
              mem-sort both e,
              mem-append a.intervals b.intervals e,
              contains-mem a ha e,
              contains-mem b hb e,
            )))
  ]
]
