-- ===== src/IntervalSet.antt =====
-- hegel-c/src/native/intervalsets.rs: a set of codepoints as sorted, disjoint, inclusive intervals. A
-- `u32` or `usize` is a natural number, an `isize` an integer; the width of an interval wraps, as in
-- a build without overflow checks. The memo slot
-- `string_constants_mask`, which the set only carries, is left out.
pub mod Spec
pub mod Lookup
pub mod Get
pub mod New
pub mod Union
pub mod Difference
pub mod ShrinkOrder
use hegel_rust.Base.{
  ℕ, zero, suc, ◌+◌, ◌-◌, ◌/◌, ◌%◌, ◌^◌, min, max, Bool, true, false, ltb, leb, ◌==◌, ◌&&◌, ◌||◌,
  if◌then◌else◌, List, [], ◌∷◌, ◌++◌, length, get_or, Option, none, some,
}
use hegel_rust.Base.Int.{ℤ, pos, negsuc, ◌+ℤ◌, ◌-ℤ◌, ltb_ℤ, leb_ℤ, pos_part}
use hegel_rust.Base.Results.{Result, ok, internal_error, ◌>>=◌, ◌>>◌, assert}

abbrev pub Interval : Type 0
Interval = ℕ × ℕ

pub record IntervalSet : Type 0 where
  pub intervals : List Interval
  pub offsets : List ℕ
  pub size : ℕ
  pub idx_of_zero : ℕ
  pub idx_of_z : ℤ

abbrev pub ascii_zero : ℕ
ascii_zero = b'0'

abbrev pub ascii_z : ℕ
ascii_z = b'Z'

-- The loop of `new`: the offsets from `last` on, the total behind them. `v - u + 1` is a `u32`: the
-- interval of all `u32` numbers overflows.
unfoldable pub offsets_loop : List Interval → ℕ → Result (List ℕ)
offsets_loop [] last = ok (last ∷ [])
offsets_loop ((u, v) ∷ intervals) last = do
  assert (leb u v)
  offsets ← offsets_loop intervals (last + (v - u + 1) % 2 ^ 32)
  ok (last ∷ offsets)

-- `offsets.pop().unwrap()`: the last offset, and the others.
unfoldable pub pop : List ℕ → ℕ × List ℕ
pop [] = (0, [])
pop (x ∷ []) = (x, [])
pop (x ∷ y ∷ l) = let (last, rest) = pop (y ∷ l) in (last, x ∷ rest)

-- `partition_point(|&(s, _)| s <= elem)`, on intervals in order.
unfoldable pub partition_point : List Interval → ℕ → ℕ
partition_point [] elem = 0
partition_point ((s, _) ∷ intervals) elem =
    if leb s elem then suc (partition_point intervals elem) else 0

unfoldable pub checked_pred : ℕ → Option ℕ
checked_pred zero = none
checked_pred (suc n) = some n

unfoldable pub interval_for : IntervalSet → ℕ → Option ℕ
unfolding partition_point checked_pred
interval_for set elem = checked_pred (partition_point set.intervals elem)

unfoldable pub contains : IntervalSet → ℕ → Bool
unfolding interval_for
contains set elem = elim (interval_for set elem) [
  | some j ↦ leb elem (get_or set.intervals j (0, 0)).1
  | none ↦ false
]

unfoldable pub index : IntervalSet → ℕ → Option ℕ
unfolding interval_for
index set value = elim (interval_for set value) [
  | some j ↦
      let (u, v) = get_or set.intervals j (0, 0) in
      if leb value v then some (get_or set.offsets j 0 + (value - u)) else none
  | none ↦ none
]

unfoldable pub index_above : IntervalSet → ℕ → ℕ
unfolding interval_for
index_above set value = elim (interval_for set value) [
  | some j ↦
      let (u, v) = get_or set.intervals j (0, 0) in
      if leb value v
      then get_or set.offsets j 0 + (value - u)
      else if ltb (j + 1) (length set.intervals)
      then get_or set.offsets (j + 1) 0
      else set.size
  | none ↦ 0
]

unfoldable pub new : List Interval → Result IntervalSet
unfolding offsets_loop pop index_above
new intervals = do
  all_offsets ← offsets_loop intervals 0
  let (size, offsets) = pop all_offsets
  let set : IntervalSet = record {
    intervals = intervals;
    offsets = offsets;
    size = size;
    idx_of_zero = 0;
    idx_of_z = negsuc 0;
  }
  ok (record set {
    idx_of_zero = index_above set ascii_zero;
    idx_of_z = if size == 0 then negsuc 0 else pos (min (index_above set ascii_z) (size - 1));
  })

-- The `while` of `get`: `offsets[lo] <= i` and `i < offsets[hi]`. Each round shortens `hi - lo`, so
-- `hi - lo` rounds are enough.
unfoldable pub get_loop : ℕ → List ℕ → ℕ → ℕ → ℕ → ℕ
get_loop zero offsets i lo hi = lo
get_loop (suc fuel) offsets i lo hi =
    let mid = lo + (hi - lo) / 2 in
    let upper = get_loop fuel offsets i mid hi in
    let lower = get_loop fuel offsets i lo mid in
    if ltb (lo + 1) hi then (if leb (get_or offsets mid 0) i then upper else lower) else lo

-- The part of `get` behind the range check.
unfoldable pub get_at : IntervalSet → ℕ → ℕ
unfolding get_loop
get_at set i =
    let last = length set.intervals - 1 in
    let j =
      if ltb i (get_or set.offsets last 0) then get_loop last set.offsets i 0 last else last in
    (get_or set.intervals j (0, 0)).0 + (i - get_or set.offsets j 0)

unfoldable pub get : IntervalSet → ℤ → Option ℕ
unfolding get_at
get set i =
    let resolved = if ltb_ℤ i (pos 0) then pos set.size +ℤ i else i in
    if ltb_ℤ resolved (pos 0) || leb_ℤ (pos set.size) resolved
    then none
    else some (get_at set (pos_part resolved))

-- `merged.sort_unstable_by_key(|(u, _)| *u)`
unfoldable pub insert_by_start : Interval → List Interval → List Interval
insert_by_start x [] = x ∷ []
insert_by_start x (y ∷ l) = if leb x.0 y.0 then x ∷ y ∷ l else y ∷ insert_by_start x l

unfoldable pub sort_by_start : List Interval → List Interval
unfolding insert_by_start
sort_by_start [] = []
sort_by_start (x ∷ l) = insert_by_start x (sort_by_start l)

abbrev pub u32_max : ℕ
u32_max = 2 ^ 32 - 1

-- The loop of `union` once `result` has a last interval.
unfoldable pub merge_loop : ℕ → ℕ → List Interval → List Interval
merge_loop a b [] = (a, b) ∷ []
merge_loop a b ((u, v) ∷ merged) =
    let joined = merge_loop a (max b v) merged in
    let apart = (a, b) ∷ merge_loop u v merged in
    if leb u (min (b + 1) u32_max) then joined else apart

unfoldable pub merge : List Interval → List Interval
unfolding merge_loop
merge [] = []
merge ((u, v) ∷ merged) = merge_loop u v merged

unfoldable pub is_nil : List Interval → Bool
is_nil [] = true
is_nil (_ ∷ _) = false

unfoldable pub union : IntervalSet → IntervalSet → Result IntervalSet
unfolding is_nil merge sort_by_start
union self other =
    if is_nil self.intervals
    then new other.intervals
    else if is_nil other.intervals
    then new self.intervals
    else new (merge (sort_by_start (self.intervals ++ other.intervals)))

-- The loop of `difference`, and what it leaves of `x`: the lists are x[i..] and y[j..].
unfoldable pub difference_loop : List Interval → List Interval → List Interval
difference_loop x [] = x
difference_loop [] (y ∷ ys) = []
difference_loop ((xl, xr) ∷ xs) ((yl, yr) ∷ ys) =
    let skip_y = difference_loop ((xl, xr) ∷ xs) ys in
    let skip_x = difference_loop xs ((yl, yr) ∷ ys) in
    let cut_x = difference_loop ((yr + 1, xr) ∷ xs) ys in
    if ltb yr xl
    then skip_y
    else if ltb xr yl
    then (xl, xr) ∷ skip_x
    else if leb yl xl
    then (if leb xr yr then skip_x else cut_x)
    else (xl, yl - 1) ∷ (if ltb yr xr then cut_x else skip_x)

unfoldable pub difference : IntervalSet → IntervalSet → Result IntervalSet
unfolding difference_loop
difference self other = new (difference_loop self.intervals other.intervals)

-- The loop of `intersection`: the lists are self.intervals[i..] and other.intervals[j..].
unfoldable pub intersection_loop : List Interval → List Interval → List Interval
intersection_loop x [] = []
intersection_loop [] (y ∷ ys) = []
intersection_loop ((u, v) ∷ xs) ((uu, vv) ∷ ys) =
    let skip_y = intersection_loop ((u, v) ∷ xs) ys in
    let skip_x = intersection_loop xs ((uu, vv) ∷ ys) in
    if ltb vv u
    then skip_y
    else if ltb v uu
    then skip_x
    else (max u uu, min v vv) ∷ (if ltb v vv then skip_x else skip_y)

unfoldable pub intersection : IntervalSet → IntervalSet → Result IntervalSet
unfolding intersection_loop
intersection self other = new (intersection_loop self.intervals other.intervals)
