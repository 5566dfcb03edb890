-- ===== src/Tests/Kinds.antt =====
-- Choices of several kinds (hegel-c/src/native/core/choices.rs) and a pool of identifiers
-- (hegel-c/src/native/core/state.rs).
use hegel_rust.Base.{◌≡◌, ◌==◌, refl, false, List, [], ◌∷◌, some}
use hegel_rust.Base.Results
use hegel_rust.Base.Results.{◌>>=◌}
use hegel_rust.Choices.Kinds.{
  FloatChoices, ChoiceData, nil, cons, value_eq, value, simplest_value, is_simplest,
}
use hegel_rust.Choices.Kinds.Laws.{is_simplest-value}
use hegel_rust.TestCase.Ids.{contains_id}
use hegel_rust.TestCase.Variables.{active, new, remove_id}
use hegel_rust.TestCase.Variables.Refines.{
  Operation, adds, consumes, perform_all, specify_all, AllAllowed, active-perform_all,
}

abbrev one_float : FloatChoices
one_float = record {
  simplest = λ c. Results.ok 0;
  unit = λ c. Results.ok 0;
  validate = λ c v. v == 0;
  max_index = λ c. 0;
  to_index = λ c v. Results.ok 0;
  from_index = λ c i. Results.ok (some 0);
}

-- A clone that drew one byte string.
abbrev two_bytes : ChoiceData
two_bytes = ChoiceData.bytes (record { min_size = 1; max_size = 3 }) (7 ∷ 9 ∷ [])

abbrev cloned : ChoiceData
cloned = ChoiceData.clone (cons two_bytes false nil) []

is_simplest-value_example :
    is_simplest one_float cloned
    ≡ (do w ← simplest_value one_float cloned; Results.ok (value_eq (value cloned) w))
is_simplest-value_example = is_simplest-value one_float cloned

abbrev script : List Operation
script = adds 3 ∷ adds 5 ∷ adds 4 ∷ consumes 5 ∷ consumes 4 ∷ adds 6 ∷ []

script-AllAllowed : AllAllowed script (record { live = []; ever = [] })
unfolding contains_id remove_id
script-AllAllowed = (refl, (refl, (refl, (refl, (refl, (refl, tt))))))

active-perform_all_example :
    active (perform_all script new) ≡ (specify_all script (record { live = []; ever = [] })).live
active-perform_all_example = active-perform_all script script-AllAllowed
