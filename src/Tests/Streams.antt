-- ===== src/Tests/Streams.antt =====
-- Streams of a test case (hegel-c/src/native/core/state.rs) with samplers that give the simplest value that fits.
use hegel_rust.Base.{
  ℕ, ◌+◌, ◌≡◌, ◌==◌, ◌||◌, refl, subst, arith, Bool, true, false, if◌then◌else◌, if-cases, inl, inr,
  [], ◌∷◌, length, map, All, none, some,
}
use hegel_rust.Base.Int.{ℤ, pos}
use hegel_rust.Base.Results
use hegel_rust.Base.Results.{Result}
use hegel_rust.Choices.Bytes
use hegel_rust.Choices.Bytes.{BytesChoice}
use hegel_rust.Choices.Integer
use hegel_rust.Choices.Integer.{IntegerChoice}
use hegel_rust.Choices.Kinds.{FloatChoices, resolve, kind, value}
use hegel_rust.Choices.Strings
use hegel_rust.Choices.Strings.{StringChoice}
use hegel_rust.ExecCache.{invalid}
use hegel_rust.Database.{ChoiceValue}
use hegel_rust.TestCase.Body.{Body, Command, done, draw, enter, leave, run}
use hegel_rust.TestCase.Draw.{
  draw_integer, integer_from_prefix, draw_fresh_id, draw_from_set, set_window, id_from_prefix,
  fresh_window, member_from_prefix,
}
use hegel_rust.TestCase.Drawn.{draw_fresh_id_lem, draw_from_set_lem}
use hegel_rust.TestCase.Ids.{largest, sorted_ids, smallest_unused_id, contains_id, floor_member}
use hegel_rust.TestCase.Ids.Laws.{IsAscending}
use hegel_rust.TestCase.Limits.Budget.{HasRoom}
use hegel_rust.TestCase.Limits.Concluded.{Stands, run_concluded}
use hegel_rust.TestCase.Limits.Spent.{run-HasRoom}
use hegel_rust.TestCase.Limits.{left}
use hegel_rust.TestCase.Replay.{as_replay}
use hegel_rust.TestCase.Replay.ForChoices.{started, run-for_choices}
use hegel_rust.TestCase.Replay.Runs.{node_value}
use hegel_rust.TestCase.Replay.Steps.{Fits}
use hegel_rust.TestCase.Reply.{returns}
use hegel_rust.TestCase.Sampling.{Sampling}
use hegel_rust.TestCase.Resolve.{resolve_choice}
use hegel_rust.TestCase.Stream.{
  NativeTestCase, conclude, for_choices, for_choices_and_template, with_random_and_params,
}

-- Floats whose only value is the one with no bits set.
abbrev zeros : FloatChoices
zeros = record {
  simplest = λ c. Results.ok 0;
  unit = λ c. Results.ok 0;
  validate = λ c v. v == 0;
  max_index = λ c. 0;
  to_index = λ c v. Results.ok 0;
  from_index = λ c i. Results.ok (some 0);
}

abbrev checked : {A : Type 0} → (A → Bool) → Result A → Result A
checked test (Results.ok a) = if test a then Results.ok a else Results.internal_error
checked test Results.internal_error = Results.internal_error

checked_lem :
    {A : Type 0} (test : A → Bool) (r : Result A) (v : A)
    → checked test r ≡ Results.ok v
    → test v ≡ true
checked_lem test (Results.ok a) v h = elim (if-cases (test a) _ _ _ h) [
  | inl (e, q) ↦ let same : a ≡ v = cc q in subst (λ x. test x ≡ true) same e
  | inr (e, q) ↦ absurd (cc q)
]
checked_lem test Results.internal_error v h = absurd (cc h)

-- The generator counts its samples.
abbrev simplest_values : Sampling (Unit {0}) ℕ
simplest_values = record {
  default_parameters = tt;
  biased_integer_sample =
      λ c g r. (checked (Integer.validate c) (Results.ok (Integer.simplest c)), r + 1);
  biased_float_sample = λ c r. (Results.ok 0, r + 1);
  biased_bytes_sample = λ c r. (checked (Bytes.validate c) (Results.ok (Bytes.simplest c)), r + 1);
  biased_string_sample = λ c r. (checked (Strings.validate c) (Strings.simplest c), r + 1);
  weighted_boolean_sample = λ p r. (true, r + 1);
  weighted_boolean_sample_precise = λ p r. (true, r + 1);
  random_between = λ lo hi r. (lo, r + 1);
  random_below = λ n r. (0, r + 1);
}

abbrev fresh : NativeTestCase (Unit {0}) ℕ
fresh = started (some (0, tt)) (ChoiceValue.integer (pos 4) ∷ []) none none 8

-- A draw that the prefix serves, and three within a span that the generator serves.
abbrev body : Body ℤ
body = draw (Command.integer (pos 0) (pos 9)) λ v. enter 7 (
    draw Command.fresh_id λ a.
      draw Command.fresh_id λ b. draw (Command.member (1 ∷ 0 ∷ [])) λ c. leave false (done (pos 5)))

abbrev ended : NativeTestCase (Unit {0}) ℕ
ended = left (run zeros simplest_values body fresh)

ran : run zeros simplest_values body fresh ≡ returns (pos 5) ended
unfolding run draw_integer resolve_choice with_random_and_params for_choices_and_template
    integer_from_prefix Integer.validate draw_fresh_id draw_from_set largest sorted_ids set_window
    smallest_unused_id
ran = refl

ended_nodes : length ended.nodes ≡ 4
unfolding run draw_integer resolve_choice with_random_and_params for_choices_and_template
    integer_from_prefix Integer.validate draw_fresh_id draw_from_set largest sorted_ids set_window
    smallest_unused_id
ended_nodes = refl

ended-Fits : All (Fits zeros) ended.nodes
unfolding run draw_integer resolve_choice with_random_and_params for_choices_and_template
    integer_from_prefix Integer.validate draw_fresh_id draw_from_set largest sorted_ids set_window
    smallest_unused_id resolve kind value fresh_window floor_member
ended-Fits = (refl, (refl, (refl, (refl, tt))))

run-for_choices_example :
    run zeros simplest_values body (for_choices (map node_value ended.nodes) none)
    ≡ returns (pos 5) (as_replay (map node_value ended.nodes) ended)
run-for_choices_example =
    run-for_choices zeros simplest_values body (some (0, tt)) (ChoiceValue.integer (pos 4) ∷ [])
      none none 8 (omega arith) (omega arith) (pos 5) ended ran ended-Fits

fresh-HasRoom : HasRoom 0 fresh
unfolding with_random_and_params for_choices_and_template
fresh-HasRoom = record {
  fits = record { machine = omega arith; size = omega arith; budget = omega arith };
  counted = λ q. omega arith;
  total = λ q. omega arith;
}

run-HasRoom_example : HasRoom 0 (left (run zeros simplest_values body fresh))
run-HasRoom_example = run-HasRoom zeros simplest_values body fresh fresh-HasRoom

abbrev rejected : NativeTestCase (Unit {0}) ℕ
rejected = conclude invalid none fresh

rejected-Stands : Stands (invalid, none) [] 0 rejected
unfolding conclude with_random_and_params for_choices_and_template
rejected-Stands = (refl, refl, refl)

run_concluded_example : Stands (invalid, none) [] 0 (left (run zeros simplest_values body rejected))
run_concluded_example =
    run_concluded (invalid, none) zeros simplest_values body [] 0 rejected rejected-Stands

-- The prefix holds an identifier of the first window, and then a number between two members.
abbrev replayed : NativeTestCase (Unit {0}) ℕ
replayed = for_choices (ChoiceValue.integer (pos 1) ∷ []) none

abbrev with_ids : NativeTestCase (Unit {0}) ℕ
with_ids =
    let s : NativeTestCase (Unit {0}) ℕ = for_choices (ChoiceValue.integer (pos 4) ∷ []) none in
    record s { family = record s.family { fresh_ids = 3 ∷ 5 ∷ [] } }

abbrev drawn_id : NativeTestCase (Unit {0}) ℕ
drawn_id = left (draw_fresh_id zeros simplest_values replayed)

abbrev drawn_member : NativeTestCase (Unit {0}) ℕ
drawn_member = left (draw_from_set zeros simplest_values (5 ∷ 3 ∷ []) with_ids)

ids_in_order : IsAscending replayed.family.fresh_ids
unfolding for_choices
ids_in_order = tt

got_id : draw_fresh_id zeros simplest_values replayed ≡ returns 1 drawn_id
unfolding draw_fresh_id resolve_choice for_choices id_from_prefix fresh_window largest contains_id
got_id = refl

got_member : draw_from_set zeros simplest_values (5 ∷ 3 ∷ []) with_ids ≡ returns 3 drawn_member
unfolding draw_from_set largest sorted_ids set_window resolve_choice for_choices member_from_prefix
    floor_member
got_member = refl

draw_fresh_id_lem_example :
    (contains_id 1 replayed.family.fresh_ids ≡ false)
    × IsAscending drawn_id.family.fresh_ids
    × ((x : ℕ)
        → contains_id x drawn_id.family.fresh_ids
          ≡ (x == 1 || contains_id x replayed.family.fresh_ids))
draw_fresh_id_lem_example =
    draw_fresh_id_lem zeros simplest_values replayed 1 drawn_id ids_in_order got_id

draw_from_set_lem_example : contains_id 3 (5 ∷ 3 ∷ []) ≡ true
draw_from_set_lem_example =
    draw_from_set_lem zeros simplest_values with_ids 3 drawn_member (5 ∷ 3 ∷ []) got_member
