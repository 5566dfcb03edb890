-- ===== src/TestCase/Replay/SpanReplay.antt =====
-- `conclude`, `freeze`, `start_span` and `stop_span` of hegel-c/src/native/core/state.rs, on a stream and on
-- its replay.
use hegel_rust.Base.{
  ℕ, ◌+◌, ◌≡◌, refl, sym, ap, ◌∙◌, Bool, ltb, Bool-cases, Option-cases, inl, inr, List, [], ◌∷◌,
  length, Option, none,
}
use hegel_rust.Database.{ChoiceValue}
use hegel_rust.ExecCache.{Status, valid, invalid}
use hegel_rust.TestCase.Replay.{as_replay}
use hegel_rust.TestCase.Spans.{
  max_depth, close_all, freeze, open_span, start_span, close_span, stop_span,
}
use hegel_rust.TestCase.Spans.Branches.{
  freeze_done, freeze_open, start_span_deep, start_span_shallow, stop_span_none, stop_span_some,
}
use hegel_rust.TestCase.Stream.{NativeTestCase, conclude, conclude_family}

module _ {G R : Type 0} (vs : List ChoiceValue) where
  conclude-replay :
      (v : Status) (o : Option (List ℕ)) (s : NativeTestCase G R)
      → conclude v o (as_replay vs s) ≡ as_replay vs (conclude v o s)
  unfolding conclude conclude_family
  conclude-replay v o s = elim (Option-cases s.family.conclusion) [
    | inl e ↦ rw e refl
    | inr (c, e) ↦ rw e refl
  ]

  freeze-replay : (s : NativeTestCase G R) → freeze (as_replay vs s) ≡ as_replay vs (freeze s)
  unfolding close_all
  freeze-replay s = elim (Bool-cases s.frozen) [
    | inl e ↦ freeze_done (as_replay vs s) e ∙ ap (as_replay vs) (sym (freeze_done s e))
    | inr e ↦
        freeze_open (as_replay vs s) e
        ∙ conclude-replay valid none (close_all s)
        ∙ ap (as_replay vs) (sym (freeze_open s e))
  ]

  pub start_span-replay :
      (label : ℕ) (s : NativeTestCase G R)
      → (start_span label (as_replay vs s)).1 ≡ as_replay vs (start_span label s).1
  unfolding open_span
  start_span-replay label s = elim (Bool-cases (ltb max_depth (length s.span_stack + 1))) [
    | inl e ↦
        start_span_deep label (as_replay vs s) e
        ∙ ap freeze (conclude-replay invalid none (open_span label s))
        ∙ freeze-replay (conclude invalid none (open_span label s))
        ∙ ap (as_replay vs) (sym (start_span_deep label s e))
    | inr e ↦
        start_span_shallow label (as_replay vs s) e
        ∙ ap (as_replay vs) (sym (start_span_shallow label s e))
  ]

  pub stop_span-replay :
      (discard : Bool) (s : NativeTestCase G R)
      → stop_span discard (as_replay vs s) ≡ as_replay vs (stop_span discard s)
  unfolding close_span
  stop_span-replay discard s = stop_on s.span_stack refl
    where
      stop_on :
          (l : List ℕ)
          → s.span_stack ≡ l
          → stop_span discard (as_replay vs s) ≡ as_replay vs (stop_span discard s)
      stop_on [] e =
          stop_span_none discard (as_replay vs s) e
          ∙ ap (as_replay vs) (sym (stop_span_none discard s e))
      stop_on (i ∷ l) e =
          stop_span_some discard (as_replay vs s) i l e
          ∙ ap (as_replay vs) (sym (stop_span_some discard s i l e))
