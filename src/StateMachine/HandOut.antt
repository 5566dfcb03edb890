-- ===== src/StateMachine/HandOut.antt =====
-- What one call of `next_rule` (hegel-c/src/native/core/state_machine.rs) does.
use hegel_rust.Base.{
  ℕ, ◌+◌, ◌≡◌, ◌≢◌, ◌⊎◌, inl, inr, arith, Bool, true, false, not, ◌==◌, if-cases, List, Option,
  none, some,
}
use hegel_rust.Base.Int.{ℤ}
use hegel_rust.StateMachine.Draws.{Outcome, ok, ok->>=, at, write, TestCase}
use hegel_rust.StateMachine.Flags.{FeatureFlags, contains}
use hegel_rust.StateMachine.Rules.{select_rule}
use hegel_rust.StateMachine.Rules.Selection.{select_rule-contains}
use hegel_rust.StateMachine.Machine.{
  WorkerState, NativeStateMachine, checked_worker, continues, next_rule,
}

module _ {S : Type 0} (test_case : TestCase S) where
  -- What `next_rule` has done when it hands out a rule: the worker that it has served, and the rest.
  pub record HandsOut (self : NativeStateMachine) (rule : ℕ) (self' : NativeStateMachine)
      : Type 0 where
    pub index : ℕ
    pub worker : WorkerState
    pub members : List ℕ
    pub flags : FeatureFlags
    pub workers : List WorkerState
    pub before : S
    pub after : S
    pub is_started : self.rounds_started ≢ 0
    pub is_worker : at self.workers index ≡ ok worker
    pub is_continued : continues test_case self.concurrency worker before ≡ ok (true, after)
    pub is_group : at self.groups self.current_group ≡ ok members
    pub is_member : contains members rule ≡ true
    pub is_written :
        write self.workers index (record worker {
          flags = flags;
          steps_drawn = worker.steps_drawn + 1;
          rule_outstanding = true;
          retry_pending = false;
        })
        ≡ ok workers
    pub is_result : self' ≡ record self { workers = workers }

  answer_yes :
      (m : Outcome (Bool × S)) (c : Bool × S) → m ≡ ok c → not c.0 ≡ false → m ≡ ok (true, c.1)
  answer_yes m (true, s) h e = h
  answer_yes m (false, s) h e = absurd (cc e)

  -- A call of `next_rule` that ends well either ends the worker's round, with the machine as it was, or hands out a
  -- rule, which is a member of the current group.
  pub next_rule-HandsOut :
      (self : NativeStateMachine) (worker_index : ℤ) (s : S) (r : Option ℕ × NativeStateMachine × S)
      → next_rule test_case self worker_index s ≡ ok r
      → ((r.0 ≡ none) × (r.1 ≡ self)) ⊎ ((rule : ℕ) × (r.0 ≡ some rule) × HandsOut self rule r.1)
  unfolding next_rule
  next_rule-HandsOut self worker_index s r h =
      let (i, _, h1) = ok->>= (checked_worker self worker_index) _ r h in
      elim (if-cases (self.rounds_started == 0) _ _ (ok r) h1) [
        | inl (_, h2) ↦ absurd (cc h2)
        | inr (started, h2) ↦
            let (worker, hw, h3) = ok->>= (at self.workers i) _ r h2 in
            let (c, hc, h4) = ok->>= (continues test_case self.concurrency worker s) _ r h3 in
            elim (if-cases (not c.0) _ _ (ok r) h4) [
              | inl (_, h5) ↦ inl (ground arith, ground arith)
              | inr (e, h5) ↦
                  let (members, hm, h6) = ok->>= (at self.groups self.current_group) _ r h5 in
                  let (a, ha, h7) =
                    ok->>= (select_rule test_case self.current_group members worker.flags c.1) _ r
                      h6 in
                  let (workers, hs, h8) = ok->>= (write self.workers i _) _ r h7 in
                  inr (
                    a.0,
                    ground arith,
                    record {
                      index = i;
                      worker = worker;
                      members = members;
                      flags = a.1;
                      workers = workers;
                      before = s;
                      after = c.1;
                      is_started = ground arith;
                      is_worker = hw;
                      is_continued = answer_yes _ c hc e;
                      is_group = hm;
                      is_member =
                          select_rule-contains test_case self.current_group members worker.flags c.1
                            a ha;
                      is_written = hs;
                      is_result = ground arith;
                    },
                  )
            ]
      ]
