-- ===== src/TestCase/Interface.antt =====
-- A stream of hegel-c/src/native/core/state.rs as the test case that the state machine takes, and what it
-- promises.
use hegel_rust.Base.{◌≡◌, sym, ap, ◌∙◌, subst, arith, Bool, true, Bool-cases, inl, inr, some}
use hegel_rust.Base.Int.{ℤ, ◌≤ℤ◌, leb_ℤ}
use hegel_rust.Base.Results
use hegel_rust.Choices.Integer
use hegel_rust.Choices.Integer.{IntegerChoice}
use hegel_rust.Choices.Integer.Index.{IsRange}
use hegel_rust.Choices.Kinds.{FloatChoices}
use hegel_rust.Database.{ChoiceValue}
use hegel_rust.Base.Results.{Result}
use hegel_rust.StateMachine.Draws
use hegel_rust.StateMachine.Draws.{Outcome, Probability, TestCase, IsTestCase}
use hegel_rust.TestCase.Draw.{
  range_of, forced_by, draw_integer, draw_integer_from, draw_integer_forced, weighted_with,
  weighted, weighted_precise, integer_from_prefix, parameters_of,
}
use hegel_rust.TestCase.Replay.Resolved.{resolve_choice-Took}
use hegel_rust.TestCase.Reply.{
  Reply, returns, fails, ◌>>◌, outcome, returns-after, returns_injective,
}
use hegel_rust.TestCase.Resolve.{resolve_choice, pre_choice}
use hegel_rust.TestCase.Sampling.{Sampling, HasIntegers}
use hegel_rust.TestCase.Spans.{start_span, stop_span}
use hegel_rust.TestCase.Stream.{NativeTestCase}

Results_ok_injective :
    {A : Type 0} (a b : A) → ◌≡◌ {A = Result A} (Results.ok a) (Results.ok b) → a ≡ b
Results_ok_injective a b h = cc h

validate-simplest_integer :
    (c : IntegerChoice) → IsRange c → Integer.validate c (Integer.simplest c) ≡ true
unfolding Integer.validate Integer.simplest Integer.clamped_shrink_towards
validate-simplest_integer c h = ground arith

validate-unit_integer : (c : IntegerChoice) → IsRange c → Integer.validate c (Integer.unit c) ≡ true
unfolding Integer.unit
validate-unit_integer c h = ground (arith, validate-simplest_integer c h)

integer_from_prefix-validate :
    (c : IntegerChoice) (w : ChoiceValue) (v : ℤ)
    → integer_from_prefix c w ≡ some v
    → Integer.validate c v ≡ true
unfolding integer_from_prefix
integer_from_prefix-validate c (ChoiceValue.integer n) v h = ground arith
integer_from_prefix-validate c (ChoiceValue.boolean n) v h = absurd (cc h)
integer_from_prefix-validate c (ChoiceValue.float n) v h = absurd (cc h)
integer_from_prefix-validate c (ChoiceValue.bytes n) v h = absurd (cc h)
integer_from_prefix-validate c (ChoiceValue.string n) v h = absurd (cc h)
integer_from_prefix-validate c (ChoiceValue.clone n) v h = absurd (cc h)

-- An outcome's state.
abbrev pub state_of : {S A : Type 0} → Outcome (A × S) → Outcome S
state_of (Draws.ok (a, s)) = Draws.ok s
state_of (Draws.err e) = Draws.err e
state_of Draws.panic = Draws.panic

outcome-ok :
    {S A : Type 0} (r : Reply S A) (a : A) (s : S) → outcome r ≡ Draws.ok (a, s) → r ≡ returns a s
outcome-ok (returns b t) a s h =
    let e = Draws.ok_injective (b, t) (a, s) h in λ i. returns (e i).0 (e i).1
outcome-ok (fails e t) a s h = absurd (cc h)

module _ {G R : Type 0} (floats : FloatChoices) (sampling : Sampling G R) where
  unfoldable pub native_test_case : TestCase (NativeTestCase G R)
  native_test_case = record {
    weighted = λ p forced s. outcome (weighted floats sampling p forced s);
    weighted_precise = λ p forced s. outcome (weighted_precise floats sampling p forced s);
    draw_integer = λ lo hi s. outcome (draw_integer floats sampling lo hi s);
    draw_integer_forced = λ lo hi v s. state_of (outcome (draw_integer_forced lo hi v s));
    start_span = λ label s. (start_span label s).1;
    stop_span = stop_span;
  }

  weighted_with-forced :
      (p : Probability) (b : Bool) (sample : Probability → R → Bool × R) (s : NativeTestCase G R)
      (v : Bool) (s' : NativeTestCase G R)
      → weighted_with floats sampling p (some b) sample s ≡ returns v s'
      → v ≡ b
  unfolding weighted_with forced_by
  weighted_with-forced p b sample s v s' h =
      let (x, s1, h1, h2) = returns-after ((pre_choice >> λ t. returns (b, true) t) s) _ v s' h in
      let (u, s2, h3, h4) = returns-after (pre_choice s) _ x s1 h1 in
      sym (
        ap (λ t. t.0) (returns_injective (b, true) x s2 s1 h4).0
        ∙ (returns_injective x.0 v _ s' h2).0)

  module _ (laws : HasIntegers sampling) where
    draw_integer_from-validate :
        (c : IntegerChoice) (g : G) (s : NativeTestCase G R) (v : ℤ) (s' : NativeTestCase G R)
        → IsRange c
        → draw_integer_from floats sampling c (sampling.biased_integer_sample c g) s ≡ returns v s'
        → Integer.validate c v ≡ true
    unfolding draw_integer_from
    draw_integer_from-validate c g s v s' range h =
        let ((x, f), s1, h1, h2) =
          returns-after
            (resolve_choice floats (Results.ok (Integer.simplest c)) (Results.ok (Integer.unit c))
              (integer_from_prefix c) (sampling.biased_integer_sample c g) s)
            _ v s' h in
        let (p, _, _) =
          resolve_choice-Took floats (λ z. Integer.validate c z ≡ true) _ _ _ _
            (λ v' e.
              rw (← (Results_ok_injective (Integer.simplest c) v' e))
                (validate-simplest_integer c range))
            (λ v' e.
              rw (← (Results_ok_injective (Integer.unit c) v' e)) (validate-unit_integer c range))
            (integer_from_prefix-validate c) (λ r v' e. laws c g r v' range e) s x f s1 h1 in
        subst (λ z. Integer.validate c z ≡ true) (returns_injective x v _ s' h2).0 p

    native_draw_integer_bounds :
        (lo hi : ℤ) (s : NativeTestCase G R) (v : ℤ) (s' : NativeTestCase G R)
        → draw_integer floats sampling lo hi s ≡ returns v s'
        → (lo ≤ℤ v) × (v ≤ℤ hi)
    unfolding draw_integer
    native_draw_integer_bounds lo hi s v s' h = elim (Bool-cases (leb_ℤ lo hi)) [
      | inl e ↦
          let valid =
            draw_integer_from-validate (range_of lo hi) (parameters_of floats sampling s) s v s'
              (ground (arith, e)) (rw (e, draw_integer) at h) in
          unfold Integer.validate in (ground (arith, valid))
      | inr e ↦ absurd (cc (rw (e, draw_integer) at h))
    ]

    -- A stream of the engine is a test case as the state machine takes it: a forced Boolean comes back as it is, and a
    -- drawn integer lies in its range, whether it comes from the prefix, a template or a sampler that
    -- keeps to its range.
    pub native_test_case-IsTestCase : IsTestCase native_test_case
    unfolding native_test_case weighted weighted_precise
    native_test_case-IsTestCase = record {
      weighted_forced = λ p b s r h.
          weighted_with-forced p b sampling.weighted_boolean_sample s r.0 r.1
            (outcome-ok _ r.0 r.1 h);
      weighted_precise_forced = λ p b s r h.
          weighted_with-forced p b sampling.weighted_boolean_sample_precise s r.0 r.1
            (outcome-ok _ r.0 r.1 h);
      draw_integer_bounds =
          λ lo hi s r h. native_draw_integer_bounds lo hi s r.0 r.1 (outcome-ok _ r.0 r.1 h);
    }
