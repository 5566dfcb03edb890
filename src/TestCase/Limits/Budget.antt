-- ===== src/TestCase/Limits/Budget.antt =====
-- The size of a stream and the budget of its family (hegel-c/src/native/core/state.rs, `pre_choice`).
use hegel_rust.Base.{
  ℕ, ◌+◌, ◌<◌, ◌≤◌, ◌≡◌, refl, arith, true, leb, ltb→lt, Bool-cases, Option-cases, inl, inr, List,
  length, Option, some, none,
}
use hegel_rust.ExecCache.{Status, early_stop}
use hegel_rust.StateMachine.Draws.{EngineError}
use hegel_rust.TestCase.Reply.{Reply, returns, fails, after}
use hegel_rust.TestCase.Resolve.{count_draw, has_budget, pre_choice}
use hegel_rust.TestCase.Stream.{
  NativeTestCase, conclude, conclude_family, status, family_status, usize_max,
}

module _ {G R : Type 0} where
  -- `extra` more nodes fit the stream and the budget.
  pub record IsWithin (extra : ℕ) (s : NativeTestCase G R) : Type 0 where
    pub machine : s.family.budget ≤ usize_max
    pub size : length s.nodes + extra ≤ s.max_size
    pub budget : length s.nodes + extra ≤ s.family.budget

  -- Until the verdict each node has been counted, and the count is within the budget.
  pub record HasRoom (extra : ℕ) (s : NativeTestCase G R) : Type 0 where
    pub fits : IsWithin extra s
    pub counted : s.family.conclusion ≡ none → length s.nodes + extra ≤ s.family.total_draws
    pub total : s.family.conclusion ≡ none → s.family.total_draws ≤ s.family.budget

  -- The state after a return has `P`, the state after an error is within bounds.
  pub data Leaves {A : Type 0} (P : NativeTestCase G R → Type 0)
      : Reply (NativeTestCase G R) A → Type 0 where
    returned : {a : A} {s : NativeTestCase G R} → P s → Leaves P (returns a s)
    failed : {e : EngineError} {s : NativeTestCase G R} → HasRoom 0 s → Leaves P (fails e s)

  pub Leaves-after :
      {A B : Type 0} {P Q : NativeTestCase G R → Type 0} {r : Reply (NativeTestCase G R) A}
      {f : A → NativeTestCase G R → Reply (NativeTestCase G R) B}
      → Leaves P r
      → ((a : A) (s : NativeTestCase G R) → P s → Leaves Q (f a s))
      → Leaves Q (after r f)
  Leaves-after (returned h) k = k _ _ h
  Leaves-after (failed h) k = failed h

  pub conclude-HasRoom :
      (v : Status) (o : Option (List ℕ)) (s : NativeTestCase G R)
      → IsWithin 0 s
      → HasRoom 0 (conclude v o s)
  unfolding conclude conclude_family
  conclude-HasRoom v o s h = elim (Option-cases s.family.conclusion) [
    | inl e ↦
        rw (e, conclude_family)
          (record {
            fits = record { machine = h.machine; size = h.size; budget = h.budget };
            counted = λ q. absurd (cc q);
            total = λ q. absurd (cc q);
          })
    | inr (c, e) ↦
        rw (e, conclude_family)
          (record {
            fits = record { machine = h.machine; size = h.size; budget = h.budget };
            counted = λ q. absurd (cc q);
            total = λ q. absurd (cc q);
          })
  ]

  pub HasRoom-weaken : (s : NativeTestCase G R) → HasRoom 1 s → HasRoom 0 s
  HasRoom-weaken s h = record {
    fits = record {
      machine = h.fits.machine;
      size = omega (arith, h.fits.size);
      budget = omega (arith, h.fits.budget);
    };
    counted = λ q. omega (arith, h.counted q);
    total = h.total;
  }

  status_some :
      (s : NativeTestCase G R) (c : Status × Option (List ℕ))
      → s.family.conclusion ≡ some c
      → status s ≡ some c.0
  unfolding status family_status
  status_some s c e = rw (e, family_status) refl

  status_none : (s : NativeTestCase G R) → s.family.conclusion ≡ none → status s ≡ none
  unfolding status family_status
  status_none s e = rw (e, family_status) refl

  count_draw-IsWithin : (s : NativeTestCase G R) → IsWithin 0 s → IsWithin 0 (count_draw s)
  unfolding count_draw
  count_draw-IsWithin s h = record { machine = h.machine; size = h.size; budget = h.budget }

  count_draw-HasRoom :
      (s : NativeTestCase G R)
      → HasRoom 0 s
      → s.family.conclusion ≡ none
      → length s.nodes < s.max_size
      → has_budget s ≡ true
      → HasRoom 1 (count_draw s)
  unfolding count_draw has_budget
  count_draw-HasRoom s h e m b =
      let lt = ltb→lt s.family.total_draws s.family.budget b in
      record {
        fits = record {
          machine = h.fits.machine;
          size = omega arith;
          budget = omega (arith, h.counted e, lt);
        };
        counted = λ q. omega (arith, h.counted e, lt, h.fits.machine);
        total = λ q. omega (arith, lt, h.fits.machine);
      }

  pub pre_choice-HasRoom :
      (s : NativeTestCase G R) → HasRoom 0 s → Leaves (HasRoom 1) (pre_choice s)
  unfolding pre_choice
  pre_choice-HasRoom s h = elim (Option-cases s.family.conclusion) [
    | inr (c, e) ↦ rw (status_some s c e, pre_choice) (failed h)
    | inl e ↦ elim (Bool-cases (leb s.max_size (length s.nodes))) [
      | inl m ↦
          rw (status_none s e, pre_choice, m) (failed (conclude-HasRoom early_stop none s h.fits))
      | inr m ↦ elim (Bool-cases (has_budget s)) [
        | inl b ↦
            rw (status_none s e, pre_choice, m, b)
              (returned (count_draw-HasRoom s h e (ground arith) b))
        | inr b ↦
            rw (status_none s e, pre_choice, m, b)
              (failed
                (conclude-HasRoom early_stop none (count_draw s) (count_draw-IsWithin s h.fits)))
      ]
    ]
  ]
