-- ===== src/StateMachine/Machine.antt =====
-- hegel-c/src/native/core/state_machine.rs, `NativeStateMachine`: rounds and the rules that workers run in
-- them. A count in an `i64`, never negative, is a natural number; `step_count` is the test case family's
-- `stateful_step_count`.
use hegel_rust.Base.{
  ℕ, zero, suc, ◌+◌, ◌-◌, ◌*◌, ◌^◌, min, max, Bool, true, false, not, ltb, leb, ◌==◌, ◌&&◌, ◌||◌,
  if◌then◌else◌, List, [], ◌∷◌, ◌++◌, length, map, Option, none, some,
}
use hegel_rust.Base.Int.{ℤ, pos, negsuc, as_usize, eqb_ℤ}
use hegel_rust.StateMachine.Draws.{
  Outcome, ok, err, invalid_argument, ◌>>=◌, ◌>>◌, assert, at, write, ratio, Probability, TestCase,
}
use hegel_rust.StateMachine.Flags
use hegel_rust.StateMachine.Flags.{FeatureFlags}
use hegel_rust.StateMachine.Rules.{draw_index, select_rule}

pub record WorkerState : Type 0 where
  pub flags : FeatureFlags
  pub steps_drawn : ℕ
  pub steps_rejected : ℕ
  pub rule_outstanding : Bool
  pub retry_pending : Bool

pub record NativeStateMachine : Type 0 where
  pub groups : List (List ℕ)
  pub group_ids : List ℤ
  pub concurrency : ℕ
  pub current_group : ℕ
  pub rounds_started : ℕ
  pub rounds_rejected : ℕ
  pub invariant_always_check : List Bool
  pub workers : List WorkerState

abbrev pub p_continue : Probability
p_continue = ratio (2 ^ 32 - 1) (2 ^ 32)

abbrev pub attempt_multiplier : ℕ
attempt_multiplier = 10

abbrev pub min_attempts_without_success : ℕ
min_attempts_without_success = 1000

abbrev pub max_round_rules : ℕ
max_round_rules = 5

abbrev pub p_max_concurrency : Probability
p_max_concurrency = ratio 3 4

abbrev pub label_concurrency : ℕ
label_concurrency = 34

-- `n.saturating_mul(ATTEMPT_MULTIPLIER)`
abbrev pub attempts : ℕ → ℕ
attempts n = min (n * attempt_multiplier) (2 ^ 63 - 1)

unfoldable pub position : List ℤ → ℤ → Option ℕ
position [] id = none
position (g ∷ ids) id =
    if eqb_ℤ g id then some 0 else elim (position ids id) [ some i ↦ some (suc i) | none ↦ none ]

abbrev pub push_at : List (List ℕ) → ℕ → ℕ → List (List ℕ)
push_at [] i rule = []
push_at (g ∷ groups) zero rule = (g ++ (rule ∷ [])) ∷ groups
push_at (g ∷ groups) (suc i) rule = g ∷ push_at groups i rule

-- The loop of `new` over the rules from number `rule` on.
unfoldable pub group_loop : List ℤ → ℕ → List ℤ → List (List ℕ) → List ℤ × List (List ℕ)
unfolding position
group_loop [] rule ids groups = (ids, groups)
group_loop (id ∷ rule_groups) rule ids groups = elim (position ids id) [
  | some g ↦ group_loop rule_groups (rule + 1) ids (push_at groups g rule)
  | none ↦ group_loop rule_groups (rule + 1) (ids ++ (id ∷ [])) (groups ++ ((rule ∷ []) ∷ []))
]

unfoldable pub checked_worker : NativeStateMachine → ℤ → Outcome ℕ
checked_worker self (pos w) = if ltb w (length self.workers) then ok w else err invalid_argument
checked_worker self (negsuc _) = err invalid_argument

abbrev pub refresh : WorkerState → WorkerState
refresh worker = record worker {
  steps_drawn = 0;
  steps_rejected = 0;
  rule_outstanding = false;
  retry_pending = false;
}

unfoldable pub rule_rejected : NativeStateMachine → ℤ → Outcome NativeStateMachine
unfolding checked_worker
rule_rejected self worker_index = do
  w ← checked_worker self worker_index
  worker ← at self.workers w
  if not worker.rule_outstanding then err invalid_argument else (do
    workers ← write self.workers w (record worker {
      rule_outstanding = false;
      steps_rejected = worker.steps_rejected + 1;
      retry_pending = true;
    })
    ok (record self {
      workers = workers;
      rounds_rejected =
          if self.concurrency == 1 then self.rounds_rejected + 1 else self.rounds_rejected;
    }))

-- `forced` of `next_group`.
unfoldable pub forced_continue : ℕ → NativeStateMachine → Option Bool
forced_continue step_count self =
    let counted_rounds = self.rounds_started - self.rounds_rejected in
    let attempt_cap =
      if counted_rounds == 0
      then max (attempts step_count) min_attempts_without_success
      else attempts step_count in
    if leb step_count counted_rounds || leb attempt_cap self.rounds_started
    then some false
    else if self.rounds_started == 0
    then some true
    else none

module _ {S : Type 0} (test_case : TestCase S) where
  unfoldable pub draw_concurrency : ℕ → ℕ → S → Outcome (ℕ × S)
  draw_concurrency min_value max_value s = if min_value == max_value then ok (max_value, s) else (do
    r ← test_case.weighted p_max_concurrency none (test_case.start_span label_concurrency s)
    if r.0 then ok (max_value, test_case.stop_span false r.1) else (do
      v ← test_case.draw_integer (pos min_value) (pos max_value) r.1
      ok (as_usize v.0, test_case.stop_span false v.1)))

  unfoldable pub new_workers : ℕ → List (List ℕ) → ℕ → S → Outcome (List WorkerState × S)
  new_workers zero groups num_rules s = ok ([], s)
  new_workers (suc n) groups num_rules s = do
    flags ← Flags.new test_case groups num_rules s
    rest ← new_workers n groups num_rules flags.1
    let worker : WorkerState = record {
      flags = flags.0;
      steps_drawn = 0;
      steps_rejected = 0;
      rule_outstanding = false;
      retry_pending = false;
    }
    ok (worker ∷ rest.0, rest.1)

  unfoldable pub new : List ℤ → List Bool → ℕ → ℕ → S → Outcome (NativeStateMachine × S)
  unfolding group_loop draw_concurrency new_workers
  new rule_groups invariant_always_check min_concurrency max_concurrency s = do
    assert (not (length rule_groups == 0))
    assert (leb 1 min_concurrency && leb min_concurrency max_concurrency)
    let (group_ids, groups) = group_loop rule_groups 0 [] []
    c ← draw_concurrency min_concurrency max_concurrency s
    workers ← new_workers c.0 groups (length rule_groups) c.1
    ok (
      record {
        groups = groups;
        group_ids = group_ids;
        concurrency = c.0;
        current_group = 0;
        rounds_started = 0;
        rounds_rejected = 0;
        invariant_always_check = invariant_always_check;
        workers = workers.0;
      },
      workers.1,
    )

  unfoldable pub next_group :
      ℕ → NativeStateMachine → S → Outcome (Option ℤ × NativeStateMachine × S)
  unfolding forced_continue
  next_group step_count self s = do
    r ← test_case.weighted_precise p_continue (forced_continue step_count self) s
    if not r.0 then ok (none, self, r.1) else (do
      g ←
          if length self.groups == 1
          then ok (0, r.1)
          else draw_index test_case (length self.groups) r.1
      id ← at self.group_ids g.0
      ok (
        some id,
        record self {
          workers = map refresh self.workers;
          current_group = g.0;
          rounds_started = self.rounds_started + 1;
        },
        g.1,
      ))

  -- Whether the worker runs another rule in this round.
  unfoldable pub continues : ℕ → WorkerState → S → Outcome (Bool × S)
  continues concurrency worker s =
      let completed = worker.steps_drawn - worker.steps_rejected in
      let p =
        if leb (attempts max_round_rules) worker.steps_drawn || leb max_round_rules completed
        then ratio 0 1
        else if worker.retry_pending
        then ratio 1 1
        else ratio (max_round_rules - completed) (max_round_rules - completed + 1) in
      if concurrency == 1
      then ok (not (leb 1 worker.steps_drawn), s)
      else test_case.weighted p none s

  unfoldable pub next_rule :
      NativeStateMachine → ℤ → S → Outcome (Option ℕ × NativeStateMachine × S)
  unfolding checked_worker continues
  next_rule self worker_index s = do
    w ← checked_worker self worker_index
    if self.rounds_started == 0 then err invalid_argument else (do
      worker ← at self.workers w
      c ← continues self.concurrency worker s
      if not c.0 then ok (none, self, c.1) else (do
        members ← at self.groups self.current_group
        r ← select_rule test_case self.current_group members worker.flags c.1
        workers ← write self.workers w (record worker {
          flags = r.1;
          steps_drawn = worker.steps_drawn + 1;
          rule_outstanding = true;
          retry_pending = false;
        })
        ok (some r.0, record self { workers = workers }, r.2)))

  unfoldable pub should_check_invariant : ℕ → NativeStateMachine → ℤ → S → Outcome (Bool × S)
  should_check_invariant step_count self (negsuc _) s = err invalid_argument
  should_check_invariant step_count self (pos i) s =
      if not (ltb i (length self.invariant_always_check)) then err invalid_argument else (do
        always ← at self.invariant_always_check i
        if always then ok (true, s) else test_case.weighted_precise (ratio 1 step_count) none s)
