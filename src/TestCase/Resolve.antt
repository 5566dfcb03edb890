-- ===== src/TestCase/Resolve.antt =====
-- hegel-c/src/native/core/state.rs: `try_take_draw`, `pre_choice` and `resolve_choice`, which every draw
-- goes through. The count of draws wraps around.
use hegel_rust.Base.{
  ℕ, zero, suc, ◌+◌, ◌%◌, ◌^◌, Bool, false, ltb, leb, if◌then◌else◌, List, length, get_elem?,
  Option, none, some,
}
use hegel_rust.Base.Results
use hegel_rust.Base.Results.{Result}
use hegel_rust.Choices.Kinds.{FloatChoices, ChoiceNode, value_eq, simplest_value}
use hegel_rust.Database.{ChoiceValue}
use hegel_rust.ExecCache.{Status, early_stop, invalid, valid, interesting}
use hegel_rust.StateMachine.Draws.{EngineError, overrun, invalid_test_case, internal}
use hegel_rust.TestCase.Reply.{Reply, returns, fails, ◌>>=◌, ◌>>◌, lift}
use hegel_rust.TestCase.Stream.{ChoiceTemplate, NativeTestCase, conclude, status}

-- The error of a draw after the family has concluded.
unfoldable pub verdict_error : Status → EngineError
verdict_error early_stop = overrun
verdict_error invalid = invalid_test_case
verdict_error valid = overrun
verdict_error interesting = overrun

-- `prefix_nodes.as_ref().and_then(|pn| pn.get(idx))`
abbrev pub node_at : Option (List ChoiceNode) → ℕ → Option ChoiceNode
node_at none i = none
node_at (some nodes) i = get_elem? nodes i

-- Whether the prefix value is the simplest one of the choice that it was recorded under.
unfoldable pub was_simplest : FloatChoices → Option ChoiceNode → ChoiceValue → Result Bool
was_simplest floats none v = Results.ok false
was_simplest floats (some node) v =
    Results.◌>>=◌ (simplest_value floats node.choice) (λ w. Results.ok (value_eq v w))

module _ {G R : Type 0} where
  -- `try_take_draw`: the draw is counted in any case.
  unfoldable pub count_draw : NativeTestCase G R → NativeTestCase G R
  count_draw s = record s {
    family = record s.family { total_draws = (s.family.total_draws + 1) % 2 ^ 64 };
  }

  unfoldable pub has_budget : NativeTestCase G R → Bool
  has_budget s = ltb s.family.total_draws s.family.budget

  unfoldable pub pre_choice : NativeTestCase G R → Reply (NativeTestCase G R) (Unit {0})
  unfolding verdict_error count_draw has_budget conclude status
  pre_choice s = elim (status s) [
    | some verdict ↦ fails (verdict_error verdict) s
    | none ↦
        if leb s.max_size (length s.nodes)
        then fails overrun (conclude early_stop none s)
        else if has_budget s
        then returns tt (count_draw s)
        else fails overrun (conclude early_stop none (count_draw s))
  ]

  -- A draw past the prefix with a trailing template.
  unfoldable pub templated :
      {V : Type 0} → Result V → ChoiceTemplate → NativeTestCase G R → Reply (NativeTestCase G R) V
  unfolding conclude
  templated simplest template s = elim template.count [
    | none ↦ lift simplest s
    | some zero ↦ fails overrun (conclude early_stop none s)
    | some (suc c) ↦
        (lift simplest >>= λ v t.
        returns v (record t { trailing_template = some (record template { count = some c }) }))
          s
  ]

  -- A draw past the prefix by the random generator.
  unfoldable pub sampled :
      {V : Type 0} → (R → Result V × R) → NativeTestCase G R → Reply (NativeTestCase G R) V
  sampled random s = elim s.rng [
    | none ↦ fails internal s
    | some r ↦ lift (random r).0 (record s { rng = some (random r).1 })
  ]

  unfoldable pub past_prefix :
      {V : Type 0}
      → Result V
      → (R → Result V × R)
      → NativeTestCase G R
      → Reply (NativeTestCase G R) V
  unfolding templated sampled
  past_prefix simplest random s = elim s.trailing_template [
    | some template ↦ templated simplest template s
    | none ↦ sampled random s
  ]

  module _ (floats : FloatChoices) where
    -- A prefix value that does not fit.
    unfoldable pub punned :
        {V : Type 0}
        → Result V
        → Result V
        → ChoiceValue
        → NativeTestCase G R
        → Reply (NativeTestCase G R) V
    unfolding was_simplest
    punned simplest unit v s =
        (lift (was_simplest floats (node_at s.prefix_nodes (length s.nodes)) v) >>= λ b.
        lift (if b then simplest else unit))
          s

    -- `resolve_choice` after `pre_choice`.
    unfoldable pub settle :
        {V : Type 0}
        → Result V
        → Result V
        → (ChoiceValue → Option V)
        → (R → Result V × R)
        → NativeTestCase G R
        → Reply (NativeTestCase G R) V
    unfolding punned past_prefix
    settle simplest unit from_prefix random s = elim (get_elem? s.prefix (length s.nodes)) [
      | some w ↦ elim (from_prefix w) [ some v ↦ returns v s | none ↦ punned simplest unit w s ]
      | none ↦ past_prefix simplest random s
    ]

    -- The second part of the source's result, whether the draw was forced, is always false.
    unfoldable pub resolve_choice :
        {V : Type 0}
        → Result V
        → Result V
        → (ChoiceValue → Option V)
        → (R → Result V × R)
        → NativeTestCase G R
        → Reply (NativeTestCase G R) (V × Bool)
    unfolding pre_choice settle
    resolve_choice simplest unit from_prefix random =
        pre_choice >> (settle simplest unit from_prefix random >>= λ v s. returns (v, false) s)
