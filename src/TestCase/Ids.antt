-- ===== src/TestCase/Ids.antt =====
-- hegel-c/src/native/core/state.rs: `smallest_unused_id`, and the sets of identifiers that `draw_fresh_id`
-- and `draw_from_set` read. A set is the list of its elements in ascending order. Identifiers are not
-- negative.
pub mod Laws
pub mod Members
use hegel_rust.Base.{
  ℕ, ◌+◌, ◌==◌, Bool, true, false, ltb, leb, ◌||◌, if◌then◌else◌, List, [], ◌∷◌, Option, none, some,
}

unfoldable pub smallest_from : ℕ → List ℕ → ℕ
smallest_from candidate [] = candidate
smallest_from candidate (id ∷ used) =
    let rest = smallest_from (if id == candidate then candidate + 1 else candidate) used in
    if ltb candidate id then candidate else rest

unfoldable pub smallest_unused_id : List ℕ → ℕ
unfolding smallest_from
smallest_unused_id used = smallest_from 0 used

-- `iter().next_back()`
unfoldable pub largest : List ℕ → Option ℕ
largest [] = none
largest (id ∷ []) = some id
largest (_ ∷ id ∷ used) = largest (id ∷ used)

unfoldable pub contains_id : ℕ → List ℕ → Bool
contains_id id [] = false
contains_id id (x ∷ used) = id == x || contains_id id used

unfoldable pub insert_id : ℕ → List ℕ → List ℕ
insert_id id [] = id ∷ []
insert_id id (x ∷ used) =
    let rest = insert_id id used in
    if ltb id x then id ∷ x ∷ used else if id == x then x ∷ used else x ∷ rest

-- `sort_unstable` and `dedup`
unfoldable pub sorted_ids : List ℕ → List ℕ
unfolding insert_id
sorted_ids [] = []
sorted_ids (id ∷ members) = insert_id id (sorted_ids members)

-- `sorted[0]`
unfoldable pub smallest_member : List ℕ → ℕ
smallest_member [] = 0
smallest_member (id ∷ _) = id

-- The element that the source finds by `binary_search`: `raw` itself, or the last one below it, or the
-- first one, `best`.
unfoldable pub floor_member : ℕ → ℕ → List ℕ → ℕ
floor_member best raw [] = best
floor_member best raw (id ∷ sorted) =
    let rest = floor_member id raw sorted in if leb id raw then rest else best
