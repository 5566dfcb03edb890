-- ===== src/Tests/Machines.antt =====
-- The state machine (hegel-c/src/native/core/state_machine.rs) over a test case that counts its draws.
use hegel_rust.Base.{
  ℕ, ◌+◌, ◌≡◌, ◌⊎◌, refl, arith, Bool, true, if◌then◌else◌, if-cases, inl, inr, Option, none, some,
  [], ◌∷◌,
}
use hegel_rust.Base.Int.{ℤ, pos, leb_ℤ, ◌≤ℤ◌, ◌-ℤ◌}
use hegel_rust.StateMachine.Draws.{
  Outcome, ok, err, panic, overrun, invalid_argument, Probability, TestCase, IsTestCase,
}
use hegel_rust.StateMachine.Flags.{FeatureFlags}
use hegel_rust.StateMachine.Flags
use hegel_rust.StateMachine.Rules.{
  draw_index, tries_loop, enabled_loop, fallback, draw_allowed, select_rule,
}
use hegel_rust.StateMachine.Machine.{
  NativeStateMachine, next_group, next_rule, new, group_loop, position, draw_concurrency,
  new_workers, forced_continue, rule_rejected, checked_worker, continues,
}
use hegel_rust.StateMachine.Budget.{IsBudgeted}
use hegel_rust.StateMachine.Rejection.{rule_rejected_twice}
use hegel_rust.StateMachine.HandOut.{HandsOut, next_rule-HandsOut}
use hegel_rust.StateMachine.Reachable.{
  next_group_step, next_rule_step, start, more, Reachable-IsBudgeted,
}

-- A draw that is free answers `true`, or the least integer.
abbrev eager_boolean : Probability → Option Bool → ℕ → Outcome (Bool × ℕ)
eager_boolean p none s = ok (true, s + 1)
eager_boolean p (some b) s = ok (b, s + 1)

abbrev eager : TestCase ℕ
eager = record {
  weighted = eager_boolean;
  weighted_precise = eager_boolean;
  draw_integer = λ lo hi s. if leb_ℤ lo hi then ok (lo, s + 1) else err overrun;
  draw_integer_forced = λ _ _ _ s. ok (s + 1);
  start_span = λ _ s. s;
  stop_span = λ _ s. s;
}

least :
    (lo hi : ℤ) (s : ℕ) (r : ℤ × ℕ)
    → leb_ℤ lo hi ≡ true
    → ok (lo, s + 1) ≡ ok r
    → (lo ≤ℤ r.0) × (r.0 ≤ℤ hi)
least lo hi s r e h = ground arith

eager-IsTestCase : IsTestCase eager
eager-IsTestCase = record {
  weighted_forced = λ p b s r h. cc h;
  weighted_precise_forced = λ p b s r h. cc h;
  draw_integer_bounds = λ lo hi s r h. elim (if-cases (leb_ℤ lo hi) _ _ _ h) [
    | inl (e, h1) ↦ least lo hi s r e h1
    | inr (_, h1) ↦ absurd (cc h1)
  ];
}

abbrev value_or : {A : Type 0} → Outcome A → A → A
value_or (ok a) d = a
value_or (err _) d = d
value_or panic d = d

abbrev nothing : NativeStateMachine
nothing = record {
  groups = [];
  group_ids = [];
  concurrency = 0;
  current_group = 0;
  rounds_started = 0;
  rounds_rejected = 0;
  invariant_always_check = [];
  workers = [];
}

-- Rules 0 and 2 in group 7, rule 1 in group 9; one worker.
abbrev begun : Outcome (NativeStateMachine × ℕ)
begun = new eager (pos 7 ∷ pos 9 ∷ pos 7 ∷ []) [] 1 1 0

abbrev first : NativeStateMachine × ℕ
first = value_or begun (nothing, 0)

abbrev grouped : Option ℤ × NativeStateMachine × ℕ
grouped = value_or (next_group eager 50 first.0 first.1) (none, nothing, 0)

abbrev handed : Option ℕ × NativeStateMachine × ℕ
handed = value_or (next_rule eager grouped.1 (pos 0) grouped.2) (none, nothing, 0)

begun_run : begun ≡ ok first
unfolding new group_loop position draw_concurrency new_workers Flags.new
begun_run = refl

grouped_run : next_group eager 50 first.0 first.1 ≡ ok grouped
unfolding next_group new group_loop position draw_concurrency new_workers Flags.new forced_continue
    draw_index ◌-ℤ◌
grouped_run = refl

handed_run : next_rule eager grouped.1 (pos 0) grouped.2 ≡ ok handed
unfolding new next_group next_rule group_loop position draw_concurrency new_workers Flags.new
    forced_continue draw_index checked_worker continues select_rule tries_loop fallback enabled_loop
    draw_allowed Flags.is_enabled Flags.remove ◌-ℤ◌
handed_run = refl

-- Rule 0 is tried first and disabled, so rule 2, the last candidate of its group, has to be enabled.
handed_rule : handed.0 ≡ some 2
unfolding new next_group next_rule group_loop position draw_concurrency new_workers Flags.new
    forced_continue draw_index checked_worker continues select_rule tries_loop fallback enabled_loop
    draw_allowed Flags.is_enabled Flags.remove ◌-ℤ◌
handed_rule = refl

next_rule-HandsOut_example :
    ((handed.0 ≡ none) × (handed.1 ≡ grouped.1))
    ⊎ ((rule : ℕ) × (handed.0 ≡ some rule) × HandsOut eager grouped.1 rule handed.1)
next_rule-HandsOut_example = next_rule-HandsOut eager grouped.1 (pos 0) grouped.2 handed handed_run

Reachable-IsBudgeted_example : IsBudgeted 50 handed.1
Reachable-IsBudgeted_example = Reachable-IsBudgeted eager 50 eager-IsTestCase handed.1 (
    more
      (more (start (pos 7 ∷ pos 9 ∷ pos 7 ∷ []) [] 1 1 0 first begun_run)
        (next_group_step first.1 grouped grouped_run))
      (next_rule_step (pos 0) grouped.2 handed handed_run))

abbrev once : NativeStateMachine
once = value_or (rule_rejected handed.1 (pos 0)) nothing

once_run : rule_rejected handed.1 (pos 0) ≡ ok once
unfolding new next_group next_rule group_loop position draw_concurrency new_workers Flags.new
    forced_continue draw_index checked_worker continues select_rule tries_loop fallback enabled_loop
    draw_allowed Flags.is_enabled Flags.remove ◌-ℤ◌ rule_rejected
once_run = refl

rule_rejected_twice_example : rule_rejected once (pos 0) ≡ err invalid_argument
rule_rejected_twice_example = rule_rejected_twice handed.1 (pos 0) once once_run
