-- ===== src/TestCase/Limits/Spent.antt =====
-- A run of a test body stays within the size of its stream and the budget of its family
-- (hegel-c/src/native/core/state.rs).
use hegel_rust.Base.{
  ℕ, ◌≡◌, refl, sym, ap, ◌∙◌, Bool, true, false, ltb, leb, ◌&&◌, ◌||◌, not, ◌==◌, List, length,
  Option, some, none,
}
use hegel_rust.Base.Int.{ℤ, leb_ℤ}
use hegel_rust.Choices.Integer.{IntegerChoice}
use hegel_rust.Base.Results
use hegel_rust.Base.Results.{Result}
use hegel_rust.Choices.Kinds.{FloatChoices, ChoiceData}
use hegel_rust.ExecCache.{valid, invalid}
use hegel_rust.StateMachine.Draws.{Probability}
use hegel_rust.TestCase.Body.{
  Body, done, raise, draw, enter, leave, Command, integer, uniform, forced, fresh_id, member, float,
  bytes, string, weigh, weigh_precise, execute, run,
}
use hegel_rust.TestCase.Draw.{
  forced_by, draw_integer_from, draw_integer, draw_integer_uniform, draw_integer_forced,
  draw_id_outside, draw_fresh_id, draw_member, draw_from_set, draw_float, draw_bytes, draw_string,
  weighted_with, weighted, weighted_precise, recorded, boolean_from_prefix, set_window,
}
use hegel_rust.TestCase.Ids.{largest, sorted_ids}
use hegel_rust.TestCase.Limits.{left}
use hegel_rust.TestCase.Reply.{Reply, returns, after, ◌>>◌, lift}
use hegel_rust.TestCase.Resolve.{pre_choice, resolve_choice}
use hegel_rust.TestCase.Sampling.{Sampling}
use hegel_rust.TestCase.Spans.{close_all, freeze, open_span, start_span, close_span, stop_span}
use hegel_rust.TestCase.Spans.Branches.{freeze-elim, start_span-elim, stop_span-elim}
use hegel_rust.TestCase.Stream.{NativeTestCase, conclude}
use hegel_rust.TestCase.Limits.Budget.{
  HasRoom, Leaves, returned, failed, Leaves-after, conclude-HasRoom, pre_choice-HasRoom,
}
use hegel_rust.TestCase.Limits.Resolved.{
  push_node-HasRoom, register_id-HasRoom, resolve_choice-HasRoom,
}

module _ {G R : Type 0} where
  Leaves-guard :
      {A : Type 0} {P : NativeTestCase G R → Type 0} (b : Bool) (s : NativeTestCase G R)
      (m : NativeTestCase G R → Reply (NativeTestCase G R) A)
      → HasRoom 0 s
      → Leaves P (m s)
      → Leaves P ((lift (Results.assert b) >> m) s)
  Leaves-guard true s m h k = k
  Leaves-guard false s m h k = failed h

  Leaves-map :
      {A B : Type 0} (f : A → B) {r : Reply (NativeTestCase G R) A}
      → Leaves (HasRoom 0) r
      → Leaves (HasRoom 0) (after r (λ a s. returns (f a) s))
  Leaves-map f h = Leaves-after h (λ a s k. returned k)

  recorded-HasRoom :
      {V : Type 0} (choice : V → ChoiceData) {r : Reply (NativeTestCase G R) (V × Bool)}
      → Leaves (HasRoom 1) r
      → Leaves (HasRoom 0) (after r (recorded choice))
  recorded-HasRoom choice h =
      Leaves-after h (λ v s k. returned (push_node-HasRoom (choice v.0) v.1 s k))

module _ {G R : Type 0} (floats : FloatChoices) (sampling : Sampling G R) (s : NativeTestCase G R)
    (h : HasRoom 0 s) where
  draw_member-HasRoom :
      (sorted : List ℕ) (window_hi : ℕ)
      → Leaves (HasRoom 0) (draw_member floats sampling sorted window_hi s)
  unfolding draw_member
  draw_member-HasRoom sorted window_hi =
      Leaves-guard (leb (elim (largest sorted) [ some m ↦ m | none ↦ 0 ]) window_hi) s _ h (
        Leaves-after (resolve_choice-HasRoom floats _ _ _ _ s h)
          (λ v t k. returned (push_node-HasRoom _ v.1 t k)))

  weighted_with-HasRoom :
      (p : Probability) (o : Option Bool) (sample : Probability → R → Bool × R)
      → Leaves (HasRoom 0) (weighted_with floats sampling p o sample s)
  unfolding weighted_with
  weighted_with-HasRoom p o sample =
      elim (forced_by p o)
        as (λ x. Leaves (HasRoom 0) (
          after
            ((elim x as (λ y. NativeTestCase G R → Reply (NativeTestCase G R) (Bool × Bool)) [
              | some f ↦ pre_choice >> λ s. returns (f, true) s
              | none ↦
                  resolve_choice floats (Results.ok false) (Results.ok true) boolean_from_prefix
                    (λ r. let (b, r') = sample p r in (Results.ok b, r'))
            ])
              s)
            (recorded (ChoiceData.boolean (record { p = p }))))) [
              | some f ↦
                  recorded-HasRoom (ChoiceData.boolean (record { p = p }))
                    (Leaves-after (pre_choice-HasRoom s h) (λ u t k. returned k))
              | none ↦
                  recorded-HasRoom (ChoiceData.boolean (record { p = p }))
                    (resolve_choice-HasRoom floats _ _ _ _ s h)
            ]

  draw_integer_from-HasRoom :
      (c : IntegerChoice) (sample : R → Result ℤ × R)
      → Leaves (HasRoom 0) (draw_integer_from floats sampling c sample s)
  unfolding draw_integer_from
  draw_integer_from-HasRoom c sample =
      recorded-HasRoom (ChoiceData.integer c) (resolve_choice-HasRoom floats _ _ _ _ s h)

  pub execute-HasRoom : (d : Command) → Leaves (HasRoom 0) (execute floats sampling d s)
  unfolding execute draw_integer draw_integer_uniform draw_integer_forced draw_fresh_id
      draw_id_outside draw_from_set draw_float draw_bytes draw_string weighted weighted_precise
  execute-HasRoom (integer lo hi) =
      Leaves-map _ (Leaves-guard (leb_ℤ lo hi) s _ h (draw_integer_from-HasRoom _ _))
  execute-HasRoom (uniform lo hi) =
      Leaves-map _ (Leaves-guard (leb lo hi) s _ h (draw_integer_from-HasRoom _ _))
  execute-HasRoom (forced lo hi v) = Leaves-map _ (
      Leaves-guard (leb_ℤ lo v && leb_ℤ v hi) s _ h
        (Leaves-after (pre_choice-HasRoom s h) (λ u t k. returned (push_node-HasRoom _ true t k))))
  execute-HasRoom fresh_id = Leaves-map _ (
      Leaves-after (resolve_choice-HasRoom floats _ _ _ _ s h)
        (λ v t k. returned (register_id-HasRoom v.0 _ (push_node-HasRoom _ v.1 t k))))
  execute-HasRoom (member l) = Leaves-map _ (
      Leaves-guard (ltb 0 (length l)) s _ h
        (draw_member-HasRoom (sorted_ids l) (set_window s.family.fresh_ids)))
  execute-HasRoom (float k) =
      Leaves-map _
        (recorded-HasRoom (ChoiceData.float k) (resolve_choice-HasRoom floats _ _ _ _ s h))
  execute-HasRoom (bytes k) = Leaves-map _ (
      Leaves-guard (leb k.min_size k.max_size) s _ h
        (recorded-HasRoom (ChoiceData.bytes k) (resolve_choice-HasRoom floats _ _ _ _ s h)))
  execute-HasRoom (string k) = Leaves-map _ (
      Leaves-guard (leb k.min_size k.max_size) s _ h (
        Leaves-guard (not (k.intervals.size == 0) || k.max_size == 0) s _ h (
          Leaves-map _
            (recorded-HasRoom (ChoiceData.string k) (resolve_choice-HasRoom floats _ _ _ _ s h)))))
  execute-HasRoom (weigh p f) =
      Leaves-map _ (weighted_with-HasRoom p f sampling.weighted_boolean_sample)
  execute-HasRoom (weigh_precise p f) =
      Leaves-map _ (weighted_with-HasRoom p f sampling.weighted_boolean_sample_precise)

module _ {G R : Type 0} where
  left-after :
      {A B : Type 0} {r : Reply (NativeTestCase G R) A}
      (f : A → NativeTestCase G R → Reply (NativeTestCase G R) B)
      → Leaves (HasRoom 0) r
      → ((a : A) (t : NativeTestCase G R) → HasRoom 0 t → HasRoom 0 (left (f a t)))
      → HasRoom 0 (left (after r f))
  left-after f (returned h) k = k _ _ h
  left-after f (failed h) k = h

  same_choices :
      (s t : NativeTestCase G R)
      → t.nodes ≡ s.nodes
      → t.family ≡ s.family
      → t.max_size ≡ s.max_size
      → HasRoom 0 s
      → HasRoom 0 t
  same_choices s t n f m h = record {
    fits = record {
      machine = rw f h.fits.machine;
      size = rw (n, m) h.fits.size;
      budget = rw (n, f) h.fits.budget;
    };
    counted = λ q.
        let q' : s.family.conclusion ≡ none = ap (λ x. x.conclusion) (sym f) ∙ q in
        rw (n, f) (h.counted q');
    total = λ q.
        let q' : s.family.conclusion ≡ none = ap (λ x. x.conclusion) (sym f) ∙ q in
        rw f (h.total q');
  }

  freeze-HasRoom : (s : NativeTestCase G R) → HasRoom 0 s → HasRoom 0 (freeze s)
  unfolding close_all
  freeze-HasRoom s h = freeze-elim (HasRoom 0) s h (
      conclude-HasRoom valid none (close_all s)
        (same_choices s (close_all s) refl refl refl h).fits)

  start_span-HasRoom :
      (label : ℕ) (s : NativeTestCase G R) → HasRoom 0 s → HasRoom 0 (start_span label s).1
  unfolding open_span
  start_span-HasRoom label s h =
      let k = same_choices s (open_span label s) refl refl refl h in
      start_span-elim (HasRoom 0) s label
        (freeze-HasRoom (conclude invalid none (open_span label s))
          (conclude-HasRoom invalid none (open_span label s) k.fits))
        k

  stop_span-HasRoom :
      (discard : Bool) (s : NativeTestCase G R) → HasRoom 0 s → HasRoom 0 (stop_span discard s)
  unfolding close_span
  stop_span-HasRoom discard s h =
      stop_span-elim (HasRoom 0) s discard h
        (λ i stack. same_choices s (close_span discard i stack s) refl refl refl h)

  -- A body leaves a stream that is within its bounds within them, whether it returns or fails: no more nodes than
  -- the size of the stream and the budget of the family allow, and until the verdict a count of draws that
  -- covers the nodes and is within the budget.
  pub run-HasRoom :
      {A : Type 0} (floats : FloatChoices) (sampling : Sampling G R) (b : Body A)
      (s : NativeTestCase G R)
      → HasRoom 0 s
      → HasRoom 0 (left (run floats sampling b s))
  unfolding run
  run-HasRoom floats sampling (done a) s h = h
  run-HasRoom floats sampling (raise e) s h = h
  run-HasRoom floats sampling (enter label b) s h =
      run-HasRoom floats sampling b (start_span label s).1 (start_span-HasRoom label s h)
  run-HasRoom floats sampling (leave discard b) s h =
      run-HasRoom floats sampling b (stop_span discard s) (stop_span-HasRoom discard s h)
  run-HasRoom floats sampling (draw d k) s h =
      left-after _ (execute-HasRoom floats sampling s h d)
        (λ v t j. run-HasRoom floats sampling (k v) t j)
