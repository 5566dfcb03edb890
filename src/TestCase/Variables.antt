-- ===== src/TestCase/Variables.antt =====
-- hegel-c/src/native/core/state.rs, `NativeVariables`: a pool of identifiers. The head of `variables` is the last
-- element of the source's vector; the set `removed` is a list.
pub mod Refines
use hegel_rust.Base.{ℕ, ◌==◌, Bool, true, false, not, if◌then◌else◌, List, [], ◌∷◌, ◌++◌}
use hegel_rust.TestCase.Ids.{contains_id}

pub record NativeVariables : Type 0 where
  pub variables : List ℕ
  pub removed : List ℕ

abbrev pub new : NativeVariables
new = record { variables = []; removed = [] }

-- `removed.remove(&id)`
unfoldable pub remove_id : ℕ → List ℕ → List ℕ
remove_id id [] = []
remove_id id (x ∷ l) = let rest = remove_id id l in if id == x then rest else x ∷ rest

unfoldable pub add : ℕ → NativeVariables → NativeVariables
add id pool = record pool { variables = id ∷ pool.variables }

-- The variables that are not removed, the first one last in the list that is read.
unfoldable pub kept : List ℕ → List ℕ → List ℕ
unfolding contains_id
kept removed [] = []
kept removed (x ∷ l) =
    let rest = kept removed l in if contains_id x removed then rest else rest ++ x ∷ []

unfoldable pub active : NativeVariables → List ℕ
unfolding kept
active pool = kept pool.removed pool.variables

-- The loop of `consume`.
unfoldable pub trim : List ℕ → List ℕ → NativeVariables
unfolding contains_id remove_id
trim [] removed = record { variables = []; removed = removed }
trim (x ∷ l) removed =
    let rest = trim l (remove_id x removed) in
    if contains_id x removed then rest else record { variables = x ∷ l; removed = removed }

unfoldable pub consume : ℕ → NativeVariables → NativeVariables
unfolding trim
consume id pool = trim pool.variables (id ∷ pool.removed)
