-- ===== src/TestCase/Replay/Runs.antt =====
-- A run of a test body against a stream of hegel-c/src/native/core/state.rs, replayed by `for_choices` from the
-- values of its nodes.
use hegel_rust.Base.{
  ℕ, ◌≡◌, refl, sym, ap, ◌∙◌, subst, Bool, Option-cases, inl, inr, List, [], ◌∷◌, ◌++◌, length,
  get_elem?, map, All, Option, none, some,
}
use hegel_rust.Choices.Kinds.{ChoiceNode, FloatChoices, value}
use hegel_rust.Database.{ChoiceValue}
use hegel_rust.ExecCache.{Status, valid, invalid}
use hegel_rust.TestCase.Body.{Body, done, raise, draw, enter, leave, execute, run}
use hegel_rust.TestCase.Replay.{as_replay}
use hegel_rust.TestCase.Replay.Commands.{Repeats-execute}
use hegel_rust.TestCase.Replay.SpanReplay.{start_span-replay, stop_span-replay}
use hegel_rust.TestCase.Replay.Steps.{Fits, IsReplayable}
use hegel_rust.TestCase.Reply.{returns, returns-after, returns_injective}
use hegel_rust.TestCase.Sampling.{Sampling}
use hegel_rust.TestCase.Spans.{freeze, open_span, start_span, close_span, stop_span, close_all}
use hegel_rust.TestCase.Spans.Branches.{freeze-elim, start_span-elim, stop_span-elim}
use hegel_rust.TestCase.Stream.{NativeTestCase, conclude, conclude_family}
use mathlib.Core.List.{append_assoc, append-nil}

abbrev pub node_value : ChoiceNode → ChoiceValue
node_value n = value n.choice

get_elem?-middle :
    {A B : Type 0} (f : A → B) (l : List A) (x : A) (r : List A)
    → get_elem? (map f ((l ++ x ∷ []) ++ r)) (length l) ≡ some (f x)
get_elem?-middle f [] x r = refl
get_elem?-middle f (y ∷ l) x r = get_elem?-middle f l x r

-- Spans leave the nodes and the registry alone.
module _ {G R : Type 0} where
  abbrev SpansOnly : NativeTestCase G R → NativeTestCase G R → Type 0
  SpansOnly s s' = (s'.nodes ≡ s.nodes) × (IsReplayable s.family → IsReplayable s'.family)

  conclude-SpansOnly :
      (v : Status) (o : Option (List ℕ)) (s : NativeTestCase G R) → SpansOnly s (conclude v o s)
  unfolding conclude conclude_family
  conclude-SpansOnly v o s = (
    refl,
    elim (Option-cases s.family.conclusion) [ inl e ↦ rw e (λ h. h) | inr (c, e) ↦ rw e (λ h. h) ],
  )

  freeze-SpansOnly : (s : NativeTestCase G R) → SpansOnly s (freeze s)
  unfolding close_all
  freeze-SpansOnly s =
      freeze-elim (SpansOnly s) s (refl, λ h. h) (conclude-SpansOnly valid none (close_all s))

  start_span-SpansOnly : (label : ℕ) (s : NativeTestCase G R) → SpansOnly s (start_span label s).1
  unfolding open_span
  start_span-SpansOnly label s =
      let (a, b) = conclude-SpansOnly invalid none (open_span label s) in
      let (c, d) = freeze-SpansOnly (conclude invalid none (open_span label s)) in
      start_span-elim (SpansOnly s) s label (c ∙ a, λ h. d (b h)) (refl, λ h. h)

  stop_span-SpansOnly :
      (discard : Bool) (s : NativeTestCase G R) → SpansOnly s (stop_span discard s)
  unfolding close_span
  stop_span-SpansOnly discard s =
      stop_span-elim (SpansOnly s) s discard (refl, λ h. h) (λ i stack. (refl, λ h. h))

module _ {G R : Type 0} (floats : FloatChoices) (sampling : Sampling G R) where
  -- A run from `s` to `s'` recorded `more`, and where all of them fit, a replay of the values of all the nodes
  -- goes the same way.
  abbrev Replayed : {A : Type 0} → Body A → NativeTestCase G R → A → NativeTestCase G R → Type 0
  Replayed b s a s' =
      (more : List ChoiceNode) × (s'.nodes ≡ s.nodes ++ more)
      × (All (Fits floats) more
          → run floats sampling b (as_replay (map node_value s'.nodes) s)
            ≡ returns a (as_replay (map node_value s'.nodes) s'))

  -- A step that only moves between spans.
  Replayed-spans :
      {A : Type 0} (b : Body A) (s t : NativeTestCase G R) (a : A) (s' : NativeTestCase G R)
      → t.nodes ≡ s.nodes
      → Replayed b t a s'
      → (more : List ChoiceNode) × (s'.nodes ≡ s.nodes ++ more)
        × (All (Fits floats) more
            → run floats sampling b (as_replay (map node_value s'.nodes) t)
              ≡ returns a (as_replay (map node_value s'.nodes) s'))
  Replayed-spans b s t a s' e (more, en, again) = (more, en ∙ ap (λ l. l ++ more) e, again)

  pub run-Replayed :
      {A : Type 0} (b : Body A)
      → (s : NativeTestCase G R) (a : A) (s' : NativeTestCase G R) → IsReplayable s.family
      → run floats sampling b s ≡ returns a s'
      → Replayed b s a s'
  unfolding run
  run-Replayed (done x) s a s' k h =
      let (e, es) = returns_injective x a s s' h in
      (
        [],
        ap (λ t. t.nodes) (sym es) ∙ sym (append-nil s.nodes),
        λ fits i. returns (e i) (as_replay (map node_value s'.nodes) (es i)),
      )
  run-Replayed (raise x) s a s' k h = absurd (cc h)
  run-Replayed (enter label b) s a s' k h =
      let (en, r) = start_span-SpansOnly label s in
      let (more, em, again) =
        Replayed-spans b s (start_span label s).1 a s' en
          (run-Replayed b (start_span label s).1 a s' (r k) h) in
      (more, em, λ fits. rw (start_span-replay (map node_value s'.nodes) label s) (again fits))
  run-Replayed (leave discard b) s a s' k h =
      let (en, r) = stop_span-SpansOnly discard s in
      let (more, em, again) =
        Replayed-spans b s (stop_span discard s) a s' en
          (run-Replayed b (stop_span discard s) a s' (r k) h) in
      (more, em, λ fits. rw (stop_span-replay (map node_value s'.nodes) discard s) (again fits))
  run-Replayed (draw c f) s a s' k h =
      let (v, s1, h1, h2) = returns-after (execute floats sampling c s) _ a s' h in
      let (n, en, r, once) = Repeats-execute floats sampling c s v s1 k h1 in
      let (more, em, again) = run-Replayed (f v) s1 a s' r h2 in
      let all : s'.nodes ≡ (s.nodes ++ n ∷ []) ++ more = em ∙ ap (λ l. l ++ more) en in
      (
        n ∷ more,
        all ∙ append_assoc s.nodes (n ∷ []) more,
        λ fits.
            rw
              (once fits.0 (map node_value s'.nodes) (
                subst (λ l. get_elem? (map node_value l) (length s.nodes) ≡ some (node_value n))
                  (sym all) (get_elem?-middle node_value s.nodes n more)))
              (again fits.1),
      )
