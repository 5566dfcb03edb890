-- ===== src/StateMachine/Rejection.antt =====
-- Rejections reported to a state machine (hegel-c/src/native/core/state_machine.rs).
use hegel_rust.Base.{
  ℕ, zero, suc, ◌+◌, ◌≡◌, refl, sym, ap, subst, true, false, not, if-cases, inl, inr, List, [], ◌∷◌,
  length,
}
use hegel_rust.Base.Int.{ℤ, pos, negsuc}
use hegel_rust.StateMachine.Draws.{ok, err, invalid_argument, ok->>=, ok_injective, at, write}
use hegel_rust.StateMachine.Machine.{WorkerState, NativeStateMachine, checked_worker, rule_rejected}

at-write :
    {A : Type 0} (l : List A) (i : ℕ) (v : A) (l' : List A) → write l i v ≡ ok l' → at l' i ≡ ok v
at-write [] i v l' h = absurd (cc h)
at-write (x ∷ l) zero v l' h = rw (← ok_injective (v ∷ l) l' h)
at-write (x ∷ l) (suc i) v l' h =
    let (rest, hr, h1) = ok->>= (write l i v) _ l' h in
    subst (λ k. at k (suc i) ≡ ok v) (ok_injective (x ∷ rest) l' h1) (at-write l i v rest hr)

length-write :
    {A : Type 0} (l : List A) (i : ℕ) (v : A) (l' : List A)
    → write l i v ≡ ok l'
    → length l' ≡ length l
length-write [] i v l' h = absurd (cc h)
length-write (x ∷ l) zero v l' h = sym (ap length (ok_injective (v ∷ l) l' h))
length-write (x ∷ l) (suc i) v l' h =
    let (rest, hr, h1) = ok->>= (write l i v) _ l' h in
    subst (λ k. length k ≡ suc (length l)) (ok_injective (x ∷ rest) l' h1)
      (ap suc (length-write l i v rest hr))

checked_worker-length :
    (self self' : NativeStateMachine) (index : ℤ) (i : ℕ)
    → length self'.workers ≡ length self.workers
    → checked_worker self index ≡ ok i
    → checked_worker self' index ≡ ok i
unfolding checked_worker
checked_worker-length self self' (pos w) i e h = rw e h
checked_worker-length self self' (negsuc w) i e h = absurd (cc h)

-- A rejection that finds the worker with no rule outstanding is an invalid argument.
rule_rejected_idle :
    (self : NativeStateMachine) (index : ℤ) (i : ℕ) (worker : WorkerState)
    → checked_worker self index ≡ ok i
    → at self.workers i ≡ ok worker
    → worker.rule_outstanding ≡ false
    → rule_rejected self index ≡ err invalid_argument
unfolding rule_rejected
rule_rejected_idle self index i worker hi hw e = rw (hi, hw, e)

-- A report of a rejected rule that was accepted is an invalid argument when it is made again at once, on the state
-- that it left.
pub rule_rejected_twice :
    (self : NativeStateMachine) (index : ℤ) (self' : NativeStateMachine)
    → rule_rejected self index ≡ ok self'
    → rule_rejected self' index ≡ err invalid_argument
unfolding rule_rejected
rule_rejected_twice self index self' h =
    let (i, hi, h1) = ok->>= (checked_worker self index) _ self' h in
    let (worker, hw, h2) = ok->>= (at self.workers i) _ self' h1 in
    elim (if-cases (not worker.rule_outstanding) _ _ (ok self') h2) [
      | inl (_, h3) ↦ absurd (cc h3)
      | inr (_, h3) ↦
          let rejected = record worker {
            rule_outstanding = false;
            steps_rejected = worker.steps_rejected + 1;
            retry_pending = true;
          } in
          let (workers, hs, h4) = ok->>= (write self.workers i rejected) _ self' h3 in
          let same = ok_injective _ self' h4 in
          rule_rejected_idle self' index i rejected
            (checked_worker-length self self' index i
              (subst (λ m. length m.workers ≡ length self.workers) same
                (length-write self.workers i rejected workers hs))
              hi)
            (subst (λ m. at m.workers i ≡ ok rejected) same
              (at-write self.workers i rejected workers hs))
            refl
    ]
