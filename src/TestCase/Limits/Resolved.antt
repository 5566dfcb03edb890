-- ===== src/TestCase/Limits/Resolved.antt =====
-- `resolve_choice` of hegel-c/src/native/core/state.rs stays within the size of the stream and the budget.
use hegel_rust.Base.{
  ℕ, zero, suc, ◌≡◌, refl, arith, Bool, Option-cases, inl, inr, [], ◌∷◌, length, length-append,
  get_elem?, Option, some, none, if◌then◌else◌,
}
use hegel_rust.Base.Results
use hegel_rust.Base.Results.{Result}
use hegel_rust.Choices.Kinds.{FloatChoices, ChoiceData, ChoiceNode}
use hegel_rust.Database.{ChoiceValue}
use hegel_rust.ExecCache.{early_stop}
use hegel_rust.TestCase.Draw.{push_node, register_id}
use hegel_rust.TestCase.Reply.{lift}
use hegel_rust.TestCase.Resolve.{
  templated, sampled, past_prefix, was_simplest, node_at, punned, settle, resolve_choice,
}
use hegel_rust.TestCase.Stream.{ChoiceTemplate, NativeTestCase}
use hegel_rust.TestCase.Limits.Budget.{
  HasRoom, Leaves, returned, failed, Leaves-after, conclude-HasRoom, HasRoom-weaken,
  pre_choice-HasRoom,
}

module _ {G R : Type 0} where
  resourced :
      (s : NativeTestCase G R) (r : Option R) (t : Option ChoiceTemplate)
      → HasRoom 1 s
      → HasRoom 1 (record s { rng = r; trailing_template = t })
  resourced s r t h = record {
    fits = record { machine = h.fits.machine; size = h.fits.size; budget = h.fits.budget };
    counted = h.counted;
    total = h.total;
  }

  pub push_node-HasRoom :
      (choice : ChoiceData) (f : Bool) (s : NativeTestCase G R)
      → HasRoom 1 s
      → HasRoom 0 (push_node choice f s)
  unfolding push_node
  push_node-HasRoom choice f s h =
      let n : ChoiceNode = record { choice = choice; was_forced = f } in
      let l = length-append {0} {A = ChoiceNode} s.nodes (n ∷ []) in
      record {
        fits = record {
          machine = h.fits.machine;
          size = omega (arith, l, h.fits.size);
          budget = omega (arith, l, h.fits.budget);
        };
        counted = λ q. omega (arith, l, h.counted q);
        total = h.total;
      }

  pub register_id-HasRoom :
      (id : ℕ) (s : NativeTestCase G R) → HasRoom 0 s → HasRoom 0 (register_id id s)
  unfolding register_id
  register_id-HasRoom id s h = record {
    fits = record { machine = h.fits.machine; size = h.fits.size; budget = h.fits.budget };
    counted = h.counted;
    total = h.total;
  }

  lift-HasRoom :
      {V : Type 0} (r : Result V) (s : NativeTestCase G R)
      → HasRoom 1 s
      → Leaves (HasRoom 1) (lift r s)
  lift-HasRoom (Results.ok v) s h = returned h
  lift-HasRoom Results.internal_error s h = failed (HasRoom-weaken s h)

  templated-HasRoom :
      {V : Type 0} (simplest : Result V) (t : ChoiceTemplate) (s : NativeTestCase G R)
      (o : Option ℕ)
      → t.count ≡ o
      → HasRoom 1 s
      → Leaves (HasRoom 1) (templated simplest t s)
  unfolding templated
  templated-HasRoom simplest t s none e h = rw (e, templated) (lift-HasRoom simplest s h)
  templated-HasRoom simplest t s (some zero) e h =
      rw (e, templated) (failed (conclude-HasRoom early_stop none s (HasRoom-weaken s h).fits))
  templated-HasRoom simplest t s (some (suc c)) e h =
      rw (e, templated)
        (Leaves-after (lift-HasRoom simplest s h) (λ v x k. returned (resourced x x.rng _ k)))

  past_prefix-HasRoom :
      {V : Type 0} (simplest : Result V) (random : R → Result V × R) (s : NativeTestCase G R)
      → HasRoom 1 s
      → Leaves (HasRoom 1) (past_prefix simplest random s)
  unfolding past_prefix sampled
  past_prefix-HasRoom simplest random s h = elim (Option-cases s.trailing_template) [
    | inr (t, e) ↦ rw (e, past_prefix) (templated-HasRoom simplest t s t.count refl h)
    | inl e ↦ elim (Option-cases s.rng) [
      | inl f ↦ rw (e, past_prefix, f, sampled) (failed (HasRoom-weaken s h))
      | inr (r, f) ↦
          rw (e, past_prefix, f, sampled)
            (lift-HasRoom (random r).0 (record s { rng = some (random r).1 })
              (resourced s (some (random r).1) s.trailing_template h))
    ]
  ]

module _ {G R : Type 0} (floats : FloatChoices) where
  punned-HasRoom :
      {V : Type 0} (simplest unit : Result V) (w : ChoiceValue) (s : NativeTestCase G R)
      → HasRoom 1 s
      → Leaves (HasRoom 1) (punned floats simplest unit w s)
  unfolding punned
  punned-HasRoom simplest unit w s h =
      Leaves-after
        (lift-HasRoom (was_simplest floats (node_at s.prefix_nodes (length s.nodes)) w) s h)
        (λ b t k. lift-HasRoom (if b then simplest else unit) t k)

  settle-HasRoom :
      {V : Type 0} (simplest unit : Result V) (from_prefix : ChoiceValue → Option V)
      (random : R → Result V × R) (s : NativeTestCase G R)
      → HasRoom 1 s
      → Leaves (HasRoom 1) (settle floats simplest unit from_prefix random s)
  unfolding settle
  settle-HasRoom simplest unit from_prefix random s h =
      elim (Option-cases (get_elem? s.prefix (length s.nodes))) [
        | inl e ↦ rw (e, settle) (past_prefix-HasRoom simplest random s h)
        | inr (w, e) ↦ elim (Option-cases (from_prefix w)) [
          | inr (v, f) ↦ rw (e, settle, f) (returned h)
          | inl f ↦ rw (e, settle, f) (punned-HasRoom simplest unit w s h)
        ]
      ]

  pub resolve_choice-HasRoom :
      {V : Type 0} (simplest unit : Result V) (from_prefix : ChoiceValue → Option V)
      (random : R → Result V × R) (s : NativeTestCase G R)
      → HasRoom 0 s
      → Leaves (HasRoom 1) (resolve_choice floats simplest unit from_prefix random s)
  unfolding resolve_choice
  resolve_choice-HasRoom simplest unit from_prefix random s h =
      Leaves-after (pre_choice-HasRoom s h) (λ u t k.
        Leaves-after (settle-HasRoom simplest unit from_prefix random t k) (λ v x j. returned j))
