-- ===== src/TestCase/Replay/Steps.antt =====
-- The draws of hegel-c/src/native/core/state.rs that resolve a choice and record it, on a stream and on its
-- replay.
use hegel_rust.Base.{
  ◌≤◌, ◌≡◌, refl, sym, ap, ◌∙◌, subst, Bool, true, false, List, [], ◌∷◌, ◌++◌, length, get_elem?,
  Option, some,
}
use hegel_rust.Base.Results
use hegel_rust.Base.Results.{Result}
use hegel_rust.Choices.Kinds.{ChoiceData, ChoiceNode, FloatChoices, kind, resolve, value}
use hegel_rust.Database.{ChoiceValue}
use hegel_rust.TestCase.Ids.Laws.{IsAscending}
use hegel_rust.TestCase.Replay.{as_replay}
use hegel_rust.TestCase.Replay.Resolved.{Gives, resolve_choice-Took, resolve_choice-replay}
use hegel_rust.TestCase.Reply.{Reply, returns, ◌>>=◌, ◌>>◌, lift, returns-after, returns_injective}
use hegel_rust.TestCase.Resolve.{count_draw, resolve_choice}
use hegel_rust.TestCase.Stream.{FamilyCore, NativeTestCase, usize_max}

-- The value of a node fits the constraint that the node holds.
abbrev pub Fits : FloatChoices → ChoiceNode → Type 0
Fits floats n = resolve floats (kind n.choice) (value n.choice) ≡ some n.choice

-- A budget that fits the machine, and a registry of identifiers in order.
abbrev pub IsReplayable : {G : Type 0} → FamilyCore G → Type 0
IsReplayable family = (family.budget ≤ usize_max) × IsAscending family.fresh_ids

-- What a draw has to do with its sources of values: each gives values with `P`, and where a value with `P` is
-- recorded as one that fits its constraint, the prefix takes it back.
pub record IsSource {V R : Type 0} (floats : FloatChoices) (P : V → Type 0)
    (simplest unit : Result V) (from_prefix : ChoiceValue → Option V) (random : R → Result V × R)
    (choice : V → ChoiceData) : Type 0 where
  pub simplest_lem : Gives P simplest
  pub unit_lem : Gives P unit
  pub prefix_lem : (w : ChoiceValue) (v : V) → from_prefix w ≡ some v → P v
  pub random_lem : (r : R) → Gives P (random r).0
  pub again_lem :
      (v : V)
      → P v
      → resolve floats (kind (choice v)) (value (choice v)) ≡ some (choice v)
      → (v' : V) × (from_prefix (value (choice v)) ≡ some v') × (choice v' ≡ choice v)

-- The sources of a draw whose prefix takes back every value that fits.
pub direct-IsSource :
    {V R : Type 0} (floats : FloatChoices) (simplest unit : Result V)
    (from_prefix : ChoiceValue → Option V) (random : R → Result V × R) (choice : V → ChoiceData)
    → ((v : V)
        → resolve floats (kind (choice v)) (value (choice v)) ≡ some (choice v)
        → from_prefix (value (choice v)) ≡ some v)
    → IsSource floats (λ v. Unit {0}) simplest unit from_prefix random choice
direct-IsSource floats simplest unit from_prefix random choice back = record {
  simplest_lem = λ v e. tt;
  unit_lem = λ v e. tt;
  prefix_lem = λ w v e. tt;
  random_lem = λ r v e. tt;
  again_lem = λ v p f. (v, back v f, refl);
}

module _ {G R : Type 0} where
  -- How the draws go on from a resolved choice: `update` records the node, and no more that a replay
  -- changes.
  pub record IsRecording {V : Type 0} (choice : V → ChoiceData)
      (update : V → Bool → NativeTestCase G R → NativeTestCase G R) : Type 0 where
    pub nodes_lem :
        (v : V) (f : Bool) (t : NativeTestCase G R)
        → (update v f t).nodes ≡ t.nodes ++ record { choice = choice v; was_forced = f } ∷ []
    pub family_lem :
        (v : V) (f : Bool) (t : NativeTestCase G R)
        → IsReplayable t.family
        → IsReplayable (update v f t).family
    pub replay_lem :
        (v : V) (f : Bool) (vs : List ChoiceValue) (t : NativeTestCase G R)
        → update v f (as_replay vs t) ≡ as_replay vs (update v f t)

module _ {G R : Type 0} (floats : FloatChoices) where
  -- From `s` a draw came to `s'` with the value `a`, and recorded one node; `again` is the draw on a replay, and
  -- does the same where that node fits and the replayed values hold its value.
  abbrev pub Repeated :
      {A : Type 0}
      → (List ChoiceValue → Reply (NativeTestCase G R) A)
      → NativeTestCase G R
      → A
      → NativeTestCase G R
      → Type 0
  Repeated {A} again s a s' =
      (n : ChoiceNode) × (s'.nodes ≡ s.nodes ++ n ∷ [])
      × IsReplayable s'.family
      × (Fits floats n
          → (vs : List ChoiceValue) → get_elem? vs (length s.nodes) ≡ some (value n.choice)
          → again vs ≡ returns a (as_replay vs s'))

  abbrev pub Repeats : {A : Type 0} → (NativeTestCase G R → Reply (NativeTestCase G R) A) → Type 0
  Repeats {A} m =
      (s : NativeTestCase G R) (a : A) (s' : NativeTestCase G R)
      → IsReplayable s.family
      → m s ≡ returns a s'
      → Repeated (λ vs. m (as_replay vs s)) s a s'

  pub Repeats-guard :
      {A : Type 0} (b : Bool) (m : NativeTestCase G R → Reply (NativeTestCase G R) A)
      → (b ≡ true → Repeats m)
      → Repeats (lift (Results.assert b) >> m)
  Repeats-guard true m r s a s' k h = r refl s a s' k h
  Repeats-guard false m r s a s' k h = absurd (cc h)

  pub Repeats-map :
      {A B : Type 0} (m : NativeTestCase G R → Reply (NativeTestCase G R) A) (f : A → B)
      → Repeats m
      → Repeats (m >>= λ a s. returns (f a) s)
  Repeats-map m f r s b s' k h =
      let (a, s1, h1, h2) = returns-after (m s) _ b s' h in
      let (e, e1) = returns_injective (f a) b s1 s' h2 in
      let (n, en, eb, again) = r s a s1 k h1 in
      (
        n,
        ap (λ t. t.nodes) (sym e1) ∙ en,
        subst (λ t. IsReplayable t.family) e1 eb,
        λ fits vs g. rw (again fits vs g) (rw (e, e1) refl),
      )

  pub Repeated-resolve :
      {V A : Type 0} {P : V → Type 0} {simplest unit : Result V}
      {from_prefix : ChoiceValue → Option V} {random : R → Result V × R} {choice : V → ChoiceData}
      {update : V → Bool → NativeTestCase G R → NativeTestCase G R}
      (random' : List ChoiceValue → R → Result V × R) (result : V → A)
      → ((v v' : V) (f : Bool) (t : NativeTestCase G R)
          → choice v ≡ choice v'
          → (result v ≡ result v') × (update v f t ≡ update v' f t))
      → IsSource floats P simplest unit from_prefix random choice
      → IsRecording choice update
      → (s : NativeTestCase G R) (a : A) (s' : NativeTestCase G R) → IsReplayable s.family
      → (resolve_choice floats simplest unit from_prefix random >>= λ (v, f) t.
            returns (result v) (update v f t))
          s
        ≡ returns a s'
      → Repeated
          (λ vs.
            (resolve_choice floats simplest unit from_prefix (random' vs) >>= λ (v, f) t.
            returns (result v) (update v f t))
              (as_replay vs s))
          s
          a
          s'
  unfolding count_draw
  Repeated-resolve {P = P} {simplest = simplest} {unit = unit} {from_prefix = from_prefix}
        {random = random} {choice = choice} {update = update} random' result same src rec s a s' k
        h =
      let ((v, f), s1, h1, h2) =
        returns-after (resolve_choice floats simplest unit from_prefix random s) _ a s' h in
      let (p, ef, took) =
        resolve_choice-Took floats P simplest unit from_prefix random src.simplest_lem src.unit_lem
          src.prefix_lem src.random_lem s v f s1 h1 in
      let (e, es) = returns_injective (result v) a (update v f s1) s' h2 in
      let (n, m, t, (kn, kf, kr)) = took in
      let es0 : update v false s1 ≡ s' = subst (λ b. update v b s1 ≡ s') ef es in
      (
        record { choice = choice v; was_forced = f },
        ap (λ x. x.nodes) (sym es)
            ∙ rec.nodes_lem v f s1
            ∙ ap (λ l. l ++ record { choice = choice v; was_forced = f } ∷ []) kn,
        subst (λ x. IsReplayable x.family) es
            (rec.family_lem v f s1 (subst IsReplayable (sym kf) k)),
        λ fits vs g.
            let (v', e2, ec) = src.again_lem v p fits in
            let (er, eu) = same v' v false (as_replay vs s1) ec in
            let st : update v' false (as_replay vs s1) ≡ as_replay vs s' =
              eu ∙ rec.replay_lem v false vs s1 ∙ ap (as_replay vs) es0 in
            let er' : result v' ≡ a = er ∙ e in
            rw
              (resolve_choice-replay floats simplest unit from_prefix (random' vs) s v' s1 k.0 took
                vs _ g e2)
              (λ i. returns (er' i) (st i)),
      )
