-- ===== src/TestCase/Replay/Shapes.antt =====
-- The shapes of the draws of hegel-c/src/native/core/state.rs: a resolved choice that is recorded, and a forced one.
use hegel_rust.Base.{ℕ, ◌≡◌, refl, sym, ap, ◌∙◌, subst, Bool, true, length, Option}
use hegel_rust.Base.Results.{Result}
use hegel_rust.Choices.Kinds.{ChoiceData, FloatChoices}
use hegel_rust.Database.{ChoiceValue}
use hegel_rust.StateMachine.Draws.{Probability}
use hegel_rust.TestCase.Draw.{push_node, register_id, recorded}
use hegel_rust.TestCase.Ids.Laws.{insert_id-IsAscending}
use hegel_rust.TestCase.Replay.{as_replay}
use hegel_rust.TestCase.Replay.Resolved.{
  pre_choice-returns, pre_choice-replay, get_elem?-lt, below_max,
}
use hegel_rust.TestCase.Replay.Steps.{
  IsSource, Repeats, Repeated-resolve, IsRecording, IsReplayable,
}
use hegel_rust.TestCase.Reply.{returns, ◌>>=◌, ◌>>◌, after_assoc, returns-after, returns_injective}
use hegel_rust.TestCase.Resolve.{count_draw, resolve_choice, pre_choice}
use hegel_rust.TestCase.Stream.{NativeTestCase}

module _ {G R : Type 0} where
  pub push-IsRecording :
      {V : Type 0} (choice : V → ChoiceData)
      → IsRecording {G = G} {R = R} choice (λ v f t. push_node (choice v) f t)
  unfolding push_node
  push-IsRecording choice = record {
    nodes_lem = λ v f t. refl;
    family_lem = λ v f t h. h;
    replay_lem = λ v f vs t. refl;
  }

  pub register-IsRecording :
      (choice : ℕ → ChoiceData)
      → IsRecording {G = G} {R = R} choice (λ v f t. register_id v (push_node (choice v) f t))
  unfolding push_node register_id
  register-IsRecording choice = record {
    nodes_lem = λ v f t. refl;
    family_lem = λ v f t h. (h.0, insert_id-IsAscending v t.family.fresh_ids h.1);
    replay_lem = λ v f vs t. refl;
  }

module _ {G R : Type 0} (floats : FloatChoices) where
  pub Repeats-recorded :
      {V : Type 0} {P : V → Type 0} {simplest unit : Result V}
      {from_prefix : ChoiceValue → Option V} {choice : V → ChoiceData}
      (random : NativeTestCase G R → R → Result V × R)
      → ((v v' : V) → choice v ≡ choice v' → v ≡ v')
      → ((s : NativeTestCase G R) → IsSource floats P simplest unit from_prefix (random s) choice)
      → Repeats floats
          (λ s. (resolve_choice floats simplest unit from_prefix (random s) >>= recorded choice) s)
  Repeats-recorded {choice = choice} random inj src s a s' b e =
      Repeated-resolve floats (λ vs. random (as_replay vs s)) (λ v. v)
        (λ v v' f t q. (inj v v' q, ap (λ d. push_node d f t) q)) (src s) (push-IsRecording choice)
        s a s' b e

  pub pre_choice-Repeats :
      {A : Type 0} (choice : ChoiceData) (a : A)
      → Repeats {G = G} {R = R} floats (pre_choice >> λ s. returns a (push_node choice true s))
  unfolding push_node count_draw
  pre_choice-Repeats choice a s b s' k h =
      let (u, s1, h1, h2) = returns-after (pre_choice s) _ b s' h in
      let (c, n, m, t) = pre_choice-returns s s1 h1 in
      let (e, es) = returns_injective a b (push_node choice true s1) s' h2 in
      let es0 : push_node choice true (count_draw s) ≡ s' =
        subst (λ x. push_node choice true x ≡ s') (sym c) es in
      (
        record { choice = choice; was_forced = true },
        ap (λ x. x.nodes) (sym es0),
        subst (λ x. IsReplayable x.family) es0 k,
        λ fits vs g.
            rw (pre_choice-replay vs s n (get_elem?-lt vs (length s.nodes) g) (below_max s k.0 t))
              (λ i. returns (e i) (as_replay vs (es0 i))),
      )

  pub forced-Repeats :
      (p : Probability) (f : Bool)
      → Repeats {G = G} {R = R} floats (
          pre_choice
          >> (λ s. returns (f, true) s)
          >>= recorded (ChoiceData.boolean (record { p = p })))
  forced-Repeats p f s a s' k h =
      let choice = ChoiceData.boolean (record { p = p }) f in
      let (n, en, r, again) =
        pre_choice-Repeats choice f s a s' k (sym (after_assoc (pre_choice s) _ _) ∙ h) in
      (n, en, r, λ fits vs g. after_assoc (pre_choice (as_replay vs s)) _ _ ∙ again fits vs g)
