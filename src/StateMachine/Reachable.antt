-- ===== src/StateMachine/Reachable.antt =====
-- Every state of a state machine (hegel-c/src/native/core/state_machine.rs) that its operations reach.
use hegel_rust.Base.{
  ℕ, zero, suc, ◌≡◌, refl, sym, subst, inl, inr, arith, Bool, true, false, not, leb, ◌==◌, ◌&&◌,
  if-cases, List, [], length, Option,
}
use hegel_rust.Base.Int.{ℤ}
use hegel_rust.StateMachine.Draws.{ok, ok->>=, ok_injective, assert, TestCase, IsTestCase}
use hegel_rust.StateMachine.Flags
use hegel_rust.StateMachine.Flags.{FeatureFlags, contains}
use hegel_rust.StateMachine.Machine.{
  WorkerState, NativeStateMachine, rule_rejected, next_group, continues, next_rule, group_loop,
  draw_concurrency, new_workers, new,
}
use hegel_rust.StateMachine.Budget.{
  HasSlot, IsBudgeted, slot-write, slot_undrawn, rule_rejected-IsBudgeted, next_group-IsBudgeted,
}
use hegel_rust.StateMachine.HandOut.{HandsOut, next_rule-HandsOut}

module _ {S : Type 0} (test_case : TestCase S) where
  -- A sequential machine hands out one rule in a round.
  continues-sequential :
      (concurrency : ℕ) (worker : WorkerState) (s s' : S)
      → concurrency ≡ 1
      → continues test_case concurrency worker s ≡ ok (true, s')
      → worker.steps_drawn ≡ 0
  unfolding continues
  continues-sequential concurrency worker s s' one h = elim (if-cases (concurrency == 1) _ _ _ h) [
    | inl (_, h1) ↦ ground arith
    | inr (more, _) ↦ absurd (ground arith)
  ]

  HandsOut-IsBudgeted :
      (step_count : ℕ) (self : NativeStateMachine) (rule : ℕ) (self' : NativeStateMachine)
      → HandsOut test_case self rule self'
      → IsBudgeted step_count self
      → IsBudgeted step_count self'
  HandsOut-IsBudgeted step_count self rule self' out v =
      subst (IsBudgeted step_count) (sym out.is_result) (record {
        counted = v.counted;
        total = v.total;
        rejected = v.rejected;
        slot = λ one.
            let fresh =
              continues-sequential self.concurrency out.worker out.before out.after one
                out.is_continued in
            let less = slot_undrawn out.index out.worker (v.slot one) out.is_worker fresh in
            slot-write out.index _ out.workers (v.slot one) out.is_written
              (λ _. (ground (arith, less, out.is_started), omega arith))
              (λ e. absurd (omega (arith, e)));
      })

  -- One operation of the machine that ends well, with any arguments and in any state of the test case.
  pub data Step (step_count : ℕ) : NativeStateMachine → NativeStateMachine → Type 0 where
    next_group_step :
        {self : NativeStateMachine} (s : S) (r : Option ℤ × NativeStateMachine × S)
        → next_group test_case step_count self s ≡ ok r
        → Step step_count self r.1
    next_rule_step :
        {self : NativeStateMachine} (worker_index : ℤ) (s : S)
        (r : Option ℕ × NativeStateMachine × S)
        → next_rule test_case self worker_index s ≡ ok r
        → Step step_count self r.1
    rule_rejected_step :
        {self self' : NativeStateMachine} (worker_index : ℤ)
        → rule_rejected self worker_index ≡ ok self'
        → Step step_count self self'

  pub data Reachable (step_count : ℕ) : NativeStateMachine → Type 0 where
    start :
        (rule_groups : List ℤ) (invariant_always_check : List Bool)
        (min_concurrency max_concurrency : ℕ) (s : S) (r : NativeStateMachine × S)
        → new test_case rule_groups invariant_always_check min_concurrency max_concurrency s ≡ ok r
        → Reachable step_count r.0
    more :
        {self self' : NativeStateMachine}
        → Reachable step_count self
        → Step step_count self self'
        → Reachable step_count self'

  Step-IsBudgeted :
      {step_count : ℕ} {self self' : NativeStateMachine}
      → IsTestCase test_case
      → Step step_count self self'
      → IsBudgeted step_count self
      → IsBudgeted step_count self'
  Step-IsBudgeted {step_count} {self} lawful (next_group_step s r h) v =
      next_group-IsBudgeted test_case lawful step_count self s r h v
  Step-IsBudgeted {step_count} {self} {self'} lawful (rule_rejected_step index h) v =
      rule_rejected-IsBudgeted step_count self index self' h v
  Step-IsBudgeted {step_count} {self} lawful (next_rule_step index s r h) v =
      elim (next_rule-HandsOut test_case self index s r h) [
        | inl (_, e) ↦ subst (IsBudgeted step_count) (sym e) v
        | inr (rule, _, out) ↦ HandsOut-IsBudgeted step_count self rule r.1 out v
      ]

  -- The only worker of a new sequential machine is fresh.
  new_workers-HasSlot :
      (n : ℕ) (groups : List (List ℕ)) (num_rules : ℕ) (s : S) (r : List WorkerState × S)
      → n ≡ 1
      → new_workers test_case n groups num_rules s ≡ ok r
      → HasSlot 0 0 r.0
  unfolding new_workers
  new_workers-HasSlot zero groups num_rules s r one h = absurd (omega (arith, one))
  new_workers-HasSlot (suc (suc n)) groups num_rules s r one h = absurd (omega (arith, one))
  new_workers-HasSlot (suc zero) groups num_rules s r one h =
      let (flags, _, h1) = ok->>= (Flags.new test_case groups num_rules s) _ r h in
      record {
        worker = record {
          flags = flags.0;
          steps_drawn = 0;
          steps_rejected = 0;
          rule_outstanding = false;
          retry_pending = false;
        };
        is_only = cc h1;
        outstanding = λ o. absurd (cc o);
        undrawn = λ _. inl refl;
      }

  new-IsBudgeted :
      (step_count : ℕ) (rule_groups : List ℤ) (invariant_always_check : List Bool)
      (min_concurrency max_concurrency : ℕ) (s : S) (r : NativeStateMachine × S)
      → new test_case rule_groups invariant_always_check min_concurrency max_concurrency s ≡ ok r
      → IsBudgeted step_count r.0
  unfolding new
  new-IsBudgeted step_count rule_groups always min_concurrency max_concurrency s r h =
      let (_, _, h1) = ok->>= (assert (not (length rule_groups == 0))) _ r h in
      let (_, _, h2) =
        ok->>= (assert (leb 1 min_concurrency && leb min_concurrency max_concurrency)) _ r h1 in
      let (c, _, h3) =
        ok->>= (draw_concurrency test_case min_concurrency max_concurrency s) _ r h2 in
      let groups = (group_loop rule_groups 0 [] []).1 in
      let (workers, hw, h4) =
        ok->>= (new_workers test_case c.0 groups (length rule_groups) c.1) _ r h3 in
      subst (λ m. IsBudgeted step_count m.0) (ok_injective _ r h4)
        (record {
          counted = omega arith;
          total = omega arith;
          rejected = omega arith;
          slot = λ one. new_workers-HasSlot c.0 groups (length rule_groups) c.1 workers one hw;
        })

  -- In every state that a machine reaches from `new`, the rounds that count (started and not rejected) are
  -- at most `stateful_step_count`, all rounds are at most the greater of ten times that count (saturated)
  -- and 1000, and no more rounds are rejected than started. At concurrency 1 there is one worker, and
  -- while it has a rule outstanding, or has drawn none in a round that has begun, fewer rounds are
  -- rejected than started. A forced Boolean draw is assumed to come back as it is, and an integer to lie
  -- in the range it is drawn from.
  pub Reachable-IsBudgeted :
      (step_count : ℕ)
      → IsTestCase test_case
      → (self : NativeStateMachine) → Reachable step_count self
      → IsBudgeted step_count self
  Reachable-IsBudgeted step_count lawful _ (start rule_groups always lo hi s r h) =
      new-IsBudgeted step_count rule_groups always lo hi s r h
  Reachable-IsBudgeted step_count lawful _ (more {self} reached step) =
      Step-IsBudgeted lawful step (Reachable-IsBudgeted step_count lawful self reached)
