-- ===== src/TestCase/Limits/Concluded.antt =====
-- After the family's verdict (hegel-c/src/native/core/state.rs, `FamilyCore::conclude` and `pre_choice`) nothing
-- is drawn any more.
use hegel_rust.Base.{
  ℕ, ◌≡◌, refl, arith, Bool, true, false, ltb, leb, ◌&&◌, ◌||◌, not, ◌==◌, List, length, Option,
  some, none,
}
use hegel_rust.Base.Int.{leb_ℤ}
use hegel_rust.Base.Results
use hegel_rust.Base.Results.{Result}
use hegel_rust.Choices.Kinds.{FloatChoices, ChoiceData, ChoiceNode}
use hegel_rust.Database.{ChoiceValue}
use hegel_rust.ExecCache.{Status, valid, invalid}
use hegel_rust.StateMachine.Draws.{EngineError, Probability}
use hegel_rust.TestCase.Body.{
  Body, done, raise, draw, enter, leave, Command, integer, uniform, forced, fresh_id, member, float,
  bytes, string, weigh, weigh_precise, execute, run,
}
use hegel_rust.TestCase.Draw.{
  forced_by, draw_integer_from, draw_integer, draw_integer_uniform, draw_integer_forced,
  draw_id_outside, draw_fresh_id, draw_member, draw_from_set, draw_float, draw_bytes, draw_string,
  weighted_with, weighted, weighted_precise, recorded, set_window, boolean_from_prefix,
}
use hegel_rust.TestCase.Ids.{largest, sorted_ids}
use hegel_rust.TestCase.Limits.{left}
use hegel_rust.TestCase.Reply.{Reply, returns, fails, after, ◌>>◌, lift}
use hegel_rust.TestCase.Resolve.{verdict_error, pre_choice, resolve_choice}
use hegel_rust.TestCase.Sampling.{Sampling}
use hegel_rust.TestCase.Spans.{close_all, freeze, open_span, start_span, close_span, stop_span}
use hegel_rust.TestCase.Spans.Branches.{freeze-elim, start_span-elim, stop_span-elim}
use hegel_rust.TestCase.Stream.{NativeTestCase, conclude, conclude_family, status, family_status}

module _ {G R : Type 0} where
  -- A call that fails and leaves its stream as it was.
  abbrev pub Refuses : {A : Type 0} → NativeTestCase G R → Reply (NativeTestCase G R) A → Type 0
  Refuses {A} s r = (e : EngineError) × (r ≡ fails e s)

  Refuses-after :
      {A B : Type 0} (s : NativeTestCase G R) (r : Reply (NativeTestCase G R) A)
      (f : A → NativeTestCase G R → Reply (NativeTestCase G R) B)
      → Refuses s r
      → Refuses s (after r f)
  Refuses-after s r f (e, h) = (e, rw h refl)

  Refuses-guard :
      {A : Type 0} (s : NativeTestCase G R) (b : Bool)
      (m : NativeTestCase G R → Reply (NativeTestCase G R) A)
      → Refuses s (m s)
      → Refuses s ((lift (Results.assert b) >> m) s)
  Refuses-guard s true m h = h
  Refuses-guard s false m h = (EngineError.internal, refl)

module _ {G R : Type 0} (floats : FloatChoices) (sampling : Sampling G R) (s : NativeTestCase G R)
    (c : Status × Option (List ℕ)) (over : s.family.conclusion ≡ some c) where
  pre_choice-Refuses : Refuses s (pre_choice s)
  unfolding pre_choice status family_status
  pre_choice-Refuses = (verdict_error c.0, ground (arith, over))

  resolve_choice-Refuses :
      {V : Type 0} (simplest unit : Result V) (from_prefix : ChoiceValue → Option V)
      (random : R → Result V × R)
      → Refuses s (resolve_choice floats simplest unit from_prefix random s)
  unfolding resolve_choice
  resolve_choice-Refuses simplest unit from_prefix random =
      Refuses-after s (pre_choice s) _ pre_choice-Refuses

  weighted_with-Refuses :
      (p : Probability) (o : Option Bool) (sample : Probability → R → Bool × R)
      → Refuses s (weighted_with floats sampling p o sample s)
  unfolding weighted_with
  weighted_with-Refuses p o sample =
      elim (forced_by p o)
        as (λ x. Refuses s (
          after
            ((elim x as (λ y. NativeTestCase G R → Reply (NativeTestCase G R) (Bool × Bool)) [
              | some f ↦ pre_choice >> λ s. returns (f, true) s
              | none ↦
                  resolve_choice floats (Results.ok false) (Results.ok true) boolean_from_prefix
                    (λ r. let (b, r') = sample p r in (Results.ok b, r'))
            ])
              s)
            (recorded (ChoiceData.boolean (record { p = p }))))) [
              | some f ↦ Refuses-after s _ _ (Refuses-after s (pre_choice s) _ pre_choice-Refuses)
              | none ↦ Refuses-after s _ _ (resolve_choice-Refuses _ _ _ _)
            ]

  draw_member-Refuses :
      (sorted : List ℕ) (window_hi : ℕ) → Refuses s (draw_member floats sampling sorted window_hi s)
  unfolding draw_member
  draw_member-Refuses sorted window_hi =
      Refuses-guard s (leb (elim (largest sorted) [ some m ↦ m | none ↦ 0 ]) window_hi) _
        (Refuses-after s _ _ (resolve_choice-Refuses _ _ _ _))

  -- Every draw on a concluded family fails at once and changes nothing.
  pub execute-Refuses : (d : Command) → Refuses s (execute floats sampling d s)
  unfolding execute draw_integer draw_integer_from draw_integer_uniform draw_integer_forced
      draw_fresh_id draw_id_outside draw_from_set draw_float draw_bytes draw_string weighted
      weighted_precise
  execute-Refuses (integer lo hi) =
      Refuses-after s _ _
        (Refuses-guard s (leb_ℤ lo hi) _ (Refuses-after s _ _ (resolve_choice-Refuses _ _ _ _)))
  execute-Refuses (uniform lo hi) =
      Refuses-after s _ _
        (Refuses-guard s (leb lo hi) _ (Refuses-after s _ _ (resolve_choice-Refuses _ _ _ _)))
  execute-Refuses (forced lo hi v) =
      Refuses-after s _ _
        (Refuses-guard s (leb_ℤ lo v && leb_ℤ v hi) _ (Refuses-after s _ _ pre_choice-Refuses))
  execute-Refuses fresh_id =
      Refuses-after s _ _ (Refuses-after s _ _ (resolve_choice-Refuses _ _ _ _))
  execute-Refuses (member l) = Refuses-after s _ _ (
      Refuses-guard s (ltb 0 (length l)) _
        (draw_member-Refuses (sorted_ids l) (set_window s.family.fresh_ids)))
  execute-Refuses (float k) =
      Refuses-after s _ _ (Refuses-after s _ _ (resolve_choice-Refuses _ _ _ _))
  execute-Refuses (bytes k) = Refuses-after s _ _ (
      Refuses-guard s (leb k.min_size k.max_size) _
        (Refuses-after s _ _ (resolve_choice-Refuses _ _ _ _)))
  execute-Refuses (string k) = Refuses-after s _ _ (
      Refuses-guard s (leb k.min_size k.max_size) _ (
        Refuses-guard s (not (k.intervals.size == 0) || k.max_size == 0) _
          (Refuses-after s _ _ (Refuses-after s _ _ (resolve_choice-Refuses _ _ _ _)))))
  execute-Refuses (weigh p f) =
      Refuses-after s _ _ (weighted_with-Refuses p f sampling.weighted_boolean_sample)
  execute-Refuses (weigh_precise p f) =
      Refuses-after s _ _ (weighted_with-Refuses p f sampling.weighted_boolean_sample_precise)

-- Between spans the verdict stands.
module _ {G R : Type 0} (c : Status × Option (List ℕ)) where
  -- The verdict is `c`, and `n` nodes and `t` draws have been counted.
  abbrev pub Stands : List ChoiceNode → ℕ → NativeTestCase G R → Type 0
  Stands nodes draws s =
      (s.family.conclusion ≡ some c) × (s.nodes ≡ nodes) × (s.family.total_draws ≡ draws)

  conclude-Stands :
      (nodes : List ChoiceNode) (draws : ℕ) (v : Status) (o : Option (List ℕ))
      (s : NativeTestCase G R)
      → Stands nodes draws s
      → Stands nodes draws (conclude v o s)
  unfolding conclude conclude_family
  conclude-Stands nodes draws v o s h = ground (arith, h.0)

  freeze-Stands :
      (nodes : List ChoiceNode) (draws : ℕ) (s : NativeTestCase G R)
      → Stands nodes draws s
      → Stands nodes draws (freeze s)
  unfolding close_all
  freeze-Stands nodes draws s h =
      freeze-elim (Stands nodes draws) s h (conclude-Stands nodes draws valid none (close_all s) h)

  start_span-Stands :
      (nodes : List ChoiceNode) (draws label : ℕ) (s : NativeTestCase G R)
      → Stands nodes draws s
      → Stands nodes draws (start_span label s).1
  unfolding open_span
  start_span-Stands nodes draws label s h =
      start_span-elim (Stands nodes draws) s label
        (freeze-Stands nodes draws (conclude invalid none (open_span label s))
          (conclude-Stands nodes draws invalid none (open_span label s) h))
        h

  stop_span-Stands :
      (nodes : List ChoiceNode) (draws : ℕ) (discard : Bool) (s : NativeTestCase G R)
      → Stands nodes draws s
      → Stands nodes draws (stop_span discard s)
  unfolding close_span
  stop_span-Stands nodes draws discard s h =
      stop_span-elim (Stands nodes draws) s discard h (λ i stack. h)

  -- Once the family has its verdict, no body changes it, adds a node or counts a draw, whatever it draws and
  -- however it moves between spans.
  pub run_concluded :
      {A : Type 0} (floats : FloatChoices) (sampling : Sampling G R) (b : Body A)
      (nodes : List ChoiceNode) (draws : ℕ) (s : NativeTestCase G R)
      → Stands nodes draws s
      → Stands nodes draws (left (run floats sampling b s))
  unfolding run
  run_concluded floats sampling (done a) nodes draws s h = h
  run_concluded floats sampling (raise e) nodes draws s h = h
  run_concluded floats sampling (draw d k) nodes draws s h =
      let (e, q) = execute-Refuses floats sampling s c h.0 d in rw q h
  run_concluded floats sampling (enter label b) nodes draws s h =
      run_concluded floats sampling b nodes draws (start_span label s).1
        (start_span-Stands nodes draws label s h)
  run_concluded floats sampling (leave discard b) nodes draws s h =
      run_concluded floats sampling b nodes draws (stop_span discard s)
        (stop_span-Stands nodes draws discard s h)
