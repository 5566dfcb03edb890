-- ===== src/TestCase/Spans/Branches.antt =====
-- The branches of `freeze`, `start_span` and `stop_span` of hegel-c/src/native/core/state.rs.
use hegel_rust.Base.{
  Bool-cases, inl, inr, subst, sym, ℕ, ◌+◌, ◌≡◌, refl, arith, Bool, true, false, ltb, List, [], ◌∷◌,
  length, none,
}
use hegel_rust.ExecCache.{valid, invalid}
use hegel_rust.TestCase.Spans.{
  max_depth, close_all, freeze, open_span, start_span, close_span, stop_span,
}
use hegel_rust.TestCase.Stream.{NativeTestCase, conclude}

module _ {G R : Type 0} where
  pub freeze_done : (s : NativeTestCase G R) → s.frozen ≡ true → freeze s ≡ s
  unfolding freeze
  freeze_done s e = rw (e, freeze) refl

  pub freeze_open :
      (s : NativeTestCase G R) → s.frozen ≡ false → freeze s ≡ conclude valid none (close_all s)
  unfolding freeze
  freeze_open s e = rw (e, freeze) refl

  pub start_span_deep :
      (label : ℕ) (s : NativeTestCase G R)
      → ltb max_depth (length s.span_stack + 1) ≡ true
      → (start_span label s).1 ≡ freeze (conclude invalid none (open_span label s))
  unfolding start_span
  start_span_deep label s e = rw e refl

  pub start_span_shallow :
      (label : ℕ) (s : NativeTestCase G R)
      → ltb max_depth (length s.span_stack + 1) ≡ false
      → (start_span label s).1 ≡ open_span label s
  unfolding start_span
  start_span_shallow label s e = rw e refl

  pub stop_span_none :
      (discard : Bool) (s : NativeTestCase G R) → s.span_stack ≡ [] → stop_span discard s ≡ s
  unfolding stop_span
  stop_span_none discard s e = ground (arith, e)

  pub stop_span_some :
      (discard : Bool) (s : NativeTestCase G R) (i : ℕ) (stack : List ℕ)
      → s.span_stack ≡ i ∷ stack
      → stop_span discard s ≡ close_span discard i stack s
  unfolding stop_span
  stop_span_some discard s i stack e = rw (e, stop_span) refl

-- What holds on every branch.
module _ {G R : Type 0} (P : NativeTestCase G R → Type 0) (s : NativeTestCase G R) where
  pub freeze-elim : P s → P (conclude valid none (close_all s)) → P (freeze s)
  freeze-elim h k = elim (Bool-cases s.frozen) [
    | inl e ↦ subst P (sym (freeze_done s e)) h
    | inr e ↦ subst P (sym (freeze_open s e)) k
  ]

  pub start_span-elim :
      (label : ℕ)
      → P (freeze (conclude invalid none (open_span label s)))
      → P (open_span label s)
      → P (start_span label s).1
  start_span-elim label h k = elim (Bool-cases (ltb max_depth (length s.span_stack + 1))) [
    | inl e ↦ subst P (sym (start_span_deep label s e)) h
    | inr e ↦ subst P (sym (start_span_shallow label s e)) k
  ]

  pub stop_span-elim :
      (discard : Bool)
      → P s
      → ((i : ℕ) (stack : List ℕ) → P (close_span discard i stack s))
      → P (stop_span discard s)
  stop_span-elim discard h k = stop_on s.span_stack refl
    where
      stop_on : (l : List ℕ) → s.span_stack ≡ l → P (stop_span discard s)
      stop_on [] e = subst P (sym (stop_span_none discard s e)) h
      stop_on (i ∷ l) e = subst P (sym (stop_span_some discard s i l e)) (k i l)
