-- ===== src/TestCase/Replay/ForChoices.antt =====
-- The replay of a whole run: `for_choices` of hegel-c/src/native/core/state.rs on the values of the nodes that
-- any constructor's stream has recorded.
use hegel_rust.Base.{
  ℕ, ◌≤◌, ◌≡◌, ◌∙◌, ap, max, refl, subst, arith, List, [], ◌++◌, length, map, All, Option, none,
  some,
}
use hegel_rust.Choices.Kinds.{ChoiceNode, FloatChoices}
use hegel_rust.Database.{ChoiceValue}
use hegel_rust.TestCase.Body.{Body, run}
use hegel_rust.TestCase.Replay.{as_replay}
use hegel_rust.TestCase.Replay.Runs.{node_value, run-Replayed}
use hegel_rust.TestCase.Replay.Steps.{Fits, IsReplayable}
use hegel_rust.TestCase.Reply.{returns}
use hegel_rust.TestCase.Sampling.{Sampling}
use hegel_rust.TestCase.Stream.{
  ChoiceTemplate, NativeTestCase, for_choices, for_choices_and_template, with_random_and_params,
  usize_max,
}

module _ {G R : Type 0} where
  -- A stream at its start, as the constructors make it: a prefix, the nodes it was recorded with, a template for
  -- what follows, a size, and perhaps a random generator with its parameters.
  abbrev pub started :
      Option (R × G)
      → List ChoiceValue
      → Option (List ChoiceNode)
      → Option ChoiceTemplate
      → ℕ
      → NativeTestCase G R
  started none choices nodes trailing size = for_choices_and_template choices nodes trailing size
  started (some (rng, params)) choices nodes trailing size =
      with_random_and_params rng params (for_choices_and_template choices nodes trailing size)

  same_size :
      (vs : List ChoiceValue)
      → ◌≡◌ {A = NativeTestCase G R}
          (record (for_choices_and_template vs none none 0) { max_size = length vs })
          (for_choices vs none)
  unfolding for_choices for_choices_and_template
  same_size vs =
      let f : ℕ → NativeTestCase G R =
        λ m. record (for_choices_and_template vs none none 0) { max_size = m } in
      let e : length vs ≡ max (length vs) (length vs) = omega arith in ap f e

  as_replay-started :
      (vs : List ChoiceValue) (source : Option (R × G)) (choices : List ChoiceValue)
      (nodes : Option (List ChoiceNode)) (trailing : Option ChoiceTemplate) (size : ℕ)
      → as_replay vs (started source choices nodes trailing size) ≡ for_choices vs none
  unfolding for_choices for_choices_and_template with_random_and_params
  as_replay-started vs none choices nodes trailing size = same_size vs
  as_replay-started vs (some (r, g)) choices nodes trailing size = same_size vs

  started-IsReplayable :
      (source : Option (R × G)) (choices : List ChoiceValue) (nodes : Option (List ChoiceNode))
      (trailing : Option ChoiceTemplate) (size : ℕ)
      → size ≤ usize_max
      → length choices ≤ usize_max
      → IsReplayable (started source choices nodes trailing size).family
  unfolding for_choices_and_template with_random_and_params
  started-IsReplayable none choices nodes none size h k = (omega arith, tt)
  started-IsReplayable none choices nodes (some t) size h k = (omega arith, tt)
  started-IsReplayable (some (r, g)) choices nodes trailing size h k = (omega arith, tt)

  started-nodes :
      (source : Option (R × G)) (choices : List ChoiceValue) (nodes : Option (List ChoiceNode))
      (trailing : Option ChoiceTemplate) (size : ℕ)
      → (started source choices nodes trailing size).nodes ≡ []
  unfolding for_choices_and_template with_random_and_params
  started-nodes none choices nodes trailing size = refl
  started-nodes (some (r, g)) choices nodes trailing size = refl

module _ {G R : Type 0} (floats : FloatChoices) (sampling : Sampling G R) {A : Type 0} (b : Body A)
    (source : Option (R × G)) (choices : List ChoiceValue) (nodes : Option (List ChoiceNode))
    (trailing : Option ChoiceTemplate) (size : ℕ) (small : size ≤ usize_max)
    (short : length choices ≤ usize_max) (a : A) (s' : NativeTestCase G R)
    (ran : run floats sampling b (started source choices nodes trailing size) ≡ returns a s') where
  -- A body that has returned from a run on a stream of any constructor (a prefix that may not fit, a template, a
  -- random generator), of a size and a prefix that fit the machine, and has recorded only nodes whose values fit
  -- their constraints, does the same on the replay of the values of its nodes: it returns the same value, and
  -- leaves the stream that it left, with the same nodes and spans, but for the sources of its choices, its size
  -- and the budget.
  pub run-for_choices :
      All (Fits floats) s'.nodes
      → run floats sampling b (for_choices (map node_value s'.nodes) none)
        ≡ returns a (as_replay (map node_value s'.nodes) s')
  run-for_choices fits =
      let vs = map node_value s'.nodes in
      let (more, em, again) =
        run-Replayed floats sampling b (started source choices nodes trailing size) a s'
          (started-IsReplayable source choices nodes trailing size small short) ran in
      let e : s'.nodes ≡ more =
        em ∙ ap (λ l. l ++ more) (started-nodes source choices nodes trailing size) in
      subst (λ t. run floats sampling b t ≡ returns a (as_replay vs s'))
        (as_replay-started vs source choices nodes trailing size)
        (again (subst (All (Fits floats)) e fits))
