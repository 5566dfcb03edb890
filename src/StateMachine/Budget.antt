-- ===== src/StateMachine/Budget.antt =====
-- The rounds of a state machine (hegel-c/src/native/core/state_machine.rs) stay within its budget, in every
-- state that its operations reach.
use hegel_rust.Base.{
  ℕ, zero, suc, ◌+◌, ◌-◌, ◌≤◌, ◌<◌, ◌≡◌, ◌≢◌, sym, ap, subst, ◌⊎◌, inl, inr, arith, max, Bool, true,
  false, not, ◌==◌, if◌then◌else◌, if-cases, Bool-cases, List, [], ◌∷◌, length, map, Option, some,
}
use hegel_rust.Base.Int.{ℤ}
use hegel_rust.StateMachine.Draws.{ok, ok->>=, at, write, TestCase, IsTestCase}
use hegel_rust.StateMachine.Machine.{
  WorkerState, NativeStateMachine, attempts, min_attempts_without_success, checked_worker, refresh,
  rule_rejected, forced_continue, p_continue, next_group,
}

-- The worker of a sequential machine has a rejection to report only in a round that is not rejected yet.
pub record HasSlot (started rejected : ℕ) (workers : List WorkerState) : Type 0 where
  pub worker : WorkerState
  pub is_only : workers ≡ worker ∷ []
  pub outstanding : worker.rule_outstanding ≡ true → (rejected < started) × (0 < worker.steps_drawn)
  pub undrawn : worker.steps_drawn ≡ 0 → (started ≡ 0) ⊎ (rejected < started)

pub record IsBudgeted (step_count : ℕ) (self : NativeStateMachine) : Type 0 where
  pub counted : self.rounds_started ≤ self.rounds_rejected + step_count
  pub total : self.rounds_started ≤ max (attempts step_count) min_attempts_without_success
  pub rejected : self.rounds_rejected ≤ self.rounds_started
  pub slot : self.concurrency ≡ 1 → HasSlot self.rounds_started self.rounds_rejected self.workers

at-single : (w x : WorkerState) (i : ℕ) → at (w ∷ []) i ≡ ok x → x ≡ w
at-single w x zero h = cc h
at-single w x (suc i) h = absurd (cc h)

write-single :
    (w v : WorkerState) (i : ℕ) (l : List WorkerState) → write (w ∷ []) i v ≡ ok l → l ≡ v ∷ []
write-single w v zero l h = cc h
write-single w v (suc i) l h = absurd (cc h)

-- The machine after a rejection is reported.
rule_rejected-ok :
    (self : NativeStateMachine) (index : ℤ) (self' : NativeStateMachine)
    → rule_rejected self index ≡ ok self'
    → (i : ℕ) × (worker : WorkerState) × (workers : List WorkerState) × (at self.workers i
        ≡ ok worker)
      × (worker.rule_outstanding ≡ true)
      × (write self.workers i (record worker {
        rule_outstanding = false;
        steps_rejected = worker.steps_rejected + 1;
        retry_pending = true;
      })
          ≡ ok workers)
      × (self' ≡ record self {
        workers = workers;
        rounds_rejected =
            if self.concurrency == 1 then self.rounds_rejected + 1 else self.rounds_rejected;
      })
unfolding rule_rejected
rule_rejected-ok self index self' h =
    let (i, _, h1) = ok->>= (checked_worker self index) _ self' h in
    let (worker, hw, h2) = ok->>= (at self.workers i) _ self' h1 in
    elim (if-cases (not worker.rule_outstanding) _ _ (ok self') h2) [
      | inl (_, h3) ↦ absurd (cc h3)
      | inr (e, h3) ↦
          let (workers, hs, h4) = ok->>= (write self.workers i _) _ self' h3 in
          (i, worker, workers, hw, ground arith, hs, cc h4)
    ]

forced_continue-bounds :
    (step_count : ℕ) (self : NativeStateMachine)
    → (forced_continue step_count self ≡ some false)
      ⊎ ((self.rounds_started - self.rounds_rejected < step_count)
          × (self.rounds_started < max (attempts step_count) min_attempts_without_success))
unfolding forced_continue
forced_continue-bounds step_count self = ground arith

-- What the slot says of a worker that is read, and the slot after a write.
slot_outstanding :
    {s r : ℕ} {workers : List WorkerState} (i : ℕ) (worker : WorkerState)
    → HasSlot s r workers
    → at workers i ≡ ok worker
    → worker.rule_outstanding ≡ true
    → (r < s) × (0 < worker.steps_drawn)
slot_outstanding {s} {r} i worker slot h e =
    let same = at-single slot.worker worker i (subst (λ l. at l i ≡ ok worker) slot.is_only h) in
    subst (λ w. (w.rule_outstanding ≡ true) → (r < s) × (0 < w.steps_drawn)) (sym same)
      slot.outstanding e

pub slot_undrawn :
    {s r : ℕ} {workers : List WorkerState} (i : ℕ) (worker : WorkerState)
    → HasSlot s r workers
    → at workers i ≡ ok worker
    → worker.steps_drawn ≡ 0
    → (s ≡ 0) ⊎ (r < s)
slot_undrawn {s} {r} i worker slot h =
    let same = at-single slot.worker worker i (subst (λ l. at l i ≡ ok worker) slot.is_only h) in
    subst (λ w. (w.steps_drawn ≡ 0) → (s ≡ 0) ⊎ (r < s)) (sym same) slot.undrawn

pub slot-write :
    {s r s' r' : ℕ} {workers : List WorkerState} (i : ℕ) (v : WorkerState)
    (workers' : List WorkerState)
    → HasSlot s r workers
    → write workers i v ≡ ok workers'
    → (v.rule_outstanding ≡ true → (r' < s') × (0 < v.steps_drawn))
    → (v.steps_drawn ≡ 0 → (s' ≡ 0) ⊎ (r' < s'))
    → HasSlot s' r' workers'
slot-write i v workers' slot h ho hu = record {
  worker = v;
  is_only =
      write-single slot.worker v i workers' (subst (λ l. write l i v ≡ ok workers') slot.is_only h);
  outstanding = ho;
  undrawn = hu;
}

pub rule_rejected-IsBudgeted :
    (step_count : ℕ) (self : NativeStateMachine) (index : ℤ) (self' : NativeStateMachine)
    → rule_rejected self index ≡ ok self'
    → IsBudgeted step_count self
    → IsBudgeted step_count self'
rule_rejected-IsBudgeted step_count self index self' h v =
    let (i, worker, workers, hw, e, hs, e') = rule_rejected-ok self index self' h in
    let less = λ (one : self.concurrency ≡ 1). slot_outstanding i worker (v.slot one) hw e in
    subst (IsBudgeted step_count) (sym e') (record {
      counted = ground (arith, v.counted);
      total = v.total;
      rejected = elim (Bool-cases (self.concurrency == 1)) [
        | inl one ↦ ground (arith, less (ground arith))
        | inr more ↦ ground (arith, v.rejected)
      ];
      slot = λ one.
          slot-write i _ workers (v.slot one) hs (λ o. absurd (cc o))
            (λ u. absurd (omega (arith, less one)));
    })

not_both : (b : Bool) → not b ≡ false → b ≢ false
not_both true h e = cc e
not_both false h e = cc h

-- The machine after a round is asked for: it is unchanged, or a round within the budget has begun.
next_group-ok :
    {S : Type 0} (test_case : TestCase S)
    → IsTestCase test_case
    → (step_count : ℕ) (self : NativeStateMachine) (s : S) (r : Option ℤ × NativeStateMachine × S)
    → next_group test_case step_count self s ≡ ok r
    → (r.1 ≡ self)
      ⊎ ((group : ℕ) × (r.1 ≡ record self {
        workers = map refresh self.workers;
        current_group = group;
        rounds_started = self.rounds_started + 1;
      })
          × (self.rounds_started - self.rounds_rejected < step_count)
          × (self.rounds_started < max (attempts step_count) min_attempts_without_success))
unfolding next_group
next_group-ok test_case lawful step_count self s r h =
    let (go, hg, h1) =
      ok->>= (test_case.weighted_precise p_continue (forced_continue step_count self) s) _ r h in
    elim (if-cases (not go.0) _ _ (ok r) h1) [
      | inl (_, h2) ↦ inl (sym (cc h2))
      | inr (e, h2) ↦
          let (g, _, h3) = ok->>= (if length self.groups == 1 then _ else _) _ r h2 in
          let (id, _, h4) = ok->>= (at self.group_ids g.0) _ r h3 in
          elim (forced_continue-bounds step_count self) [
            | inl stop ↦ absurd (
                not_both go.0 e (
                  lawful.weighted_precise_forced p_continue false s go
                    (subst (λ f. test_case.weighted_precise p_continue f s ≡ ok go) stop hg)))
            | inr (counted, total) ↦ inr (g.0, cc h4, counted, total)
          ]
    ]

pub next_group-IsBudgeted :
    {S : Type 0} (test_case : TestCase S)
    → IsTestCase test_case
    → (step_count : ℕ) (self : NativeStateMachine) (s : S) (r : Option ℤ × NativeStateMachine × S)
    → next_group test_case step_count self s ≡ ok r
    → IsBudgeted step_count self
    → IsBudgeted step_count r.1
next_group-IsBudgeted test_case lawful step_count self s r h v =
    elim (next_group-ok test_case lawful step_count self s r h) [
      | inl e ↦ subst (IsBudgeted step_count) (sym e) v
      | inr (group, e, counted, total) ↦ subst (IsBudgeted step_count) (sym e) (record {
        counted = omega (arith, v.rejected);
        total = ground arith;
        rejected = omega (arith, v.rejected);
        slot = λ one. record {
          worker = refresh (v.slot one).worker;
          is_only = ap (map refresh) (v.slot one).is_only;
          outstanding = λ o. absurd (cc o);
          undrawn = λ _. inr (omega (arith, v.rejected));
        };
      })
    ]
