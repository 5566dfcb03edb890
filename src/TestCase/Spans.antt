-- ===== src/TestCase/Spans.antt =====
-- hegel-c/src/native/core/state.rs: the spans of a stream, `start_span`, `stop_span` and `freeze`. An index
-- of the stack beyond the spans is passed over, as `get_mut` does.
pub mod Branches
use hegel_rust.Base.{
  ℕ, zero, suc, ◌+◌, ◌==◌, ltb, Bool, true, false, ◌||◌, if◌then◌else◌, List, [], ◌∷◌, ◌++◌, length,
  Option, none, some,
}
use hegel_rust.ExecCache.{invalid, valid}
use hegel_rust.TestCase.Span.{Span}
use hegel_rust.TestCase.Stream.{NativeTestCase, conclude}

abbrev pub max_depth : ℕ
max_depth = 1000

-- `if let Some(x) = l.get_mut(i) { f(x) }`
unfoldable pub update_at : {A : Type 0} → (A → A) → ℕ → List A → List A
update_at f i [] = []
update_at f zero (x ∷ l) = f x ∷ l
update_at f (suc i) (x ∷ l) = x ∷ update_at f i l

unfoldable pub contains_label : ℕ → List ℕ → Bool
contains_label x [] = false
contains_label x (y ∷ l) = x == y || contains_label x l

-- `extend`
unfoldable pub extend : List ℕ → List ℕ → List ℕ
unfolding contains_label
extend set [] = set
extend set (x ∷ l) = extend (if contains_label x set then set else x ∷ set) l

abbrev pub head? : {A : Type 0} → List A → Option A
head? [] = none
head? (x ∷ l) = some x

-- `freeze`: the loop over the spans still open.
unfoldable pub close_open : ℕ → List ℕ → List Span → List Span
unfolding update_at
close_open end [] spans = spans
close_open end (i ∷ stack) spans =
    close_open end stack (update_at (λ (sp : Span). record sp { end = end }) i spans)

-- `stop_span`: where the labels of the closed span go.
unfoldable pub promote : List ℕ → List (List ℕ) → List ℕ → List (List ℕ) × List ℕ
unfolding extend
promote labels [] tags = ([], extend tags labels)
promote labels (parent ∷ frames) tags = (extend parent labels ∷ frames, tags)

-- `labels_for_structure_stack.pop().unwrap_or_default()`
abbrev pub pop_frame : List (List ℕ) → List ℕ × List (List ℕ)
pop_frame [] = ([], [])
pop_frame (frame ∷ frames) = (frame, frames)

module _ {G R : Type 0} where
  -- `freeze` before the verdict.
  unfoldable pub close_all : NativeTestCase G R → NativeTestCase G R
  unfolding close_open
  close_all s = record s {
    frozen = true;
    span_stack = [];
    spans = close_open (length s.nodes) s.span_stack s.spans;
  }

  unfoldable pub freeze : NativeTestCase G R → NativeTestCase G R
  unfolding close_all conclude
  freeze s = if s.frozen then s else conclude valid none (close_all s)

  -- `start_span` before the check of the depth.
  unfoldable pub open_span : ℕ → NativeTestCase G R → NativeTestCase G R
  open_span label s = record s {
    spans =
        s.spans
        ++ record {
          start = length s.nodes;
          end = length s.nodes;
          label = label;
          depth = length s.span_stack;
          parent = head? s.span_stack;
          discarded = false;
        }
          ∷ [];
    span_stack = length s.spans ∷ s.span_stack;
    labels_for_structure_stack = (label ∷ []) ∷ s.labels_for_structure_stack;
  }

  unfoldable pub start_span : ℕ → NativeTestCase G R → ℕ × NativeTestCase G R
  unfolding open_span freeze conclude
  start_span label s = (
    length s.spans,
    if ltb max_depth (length s.span_stack + 1)
        then freeze (conclude invalid none (open_span label s))
        else open_span label s,
  )

  -- `stop_span` of the innermost span `i`, with the stack `stack` below it.
  unfoldable pub close_span : Bool → ℕ → List ℕ → NativeTestCase G R → NativeTestCase G R
  unfolding update_at promote
  close_span discard i stack s =
      let (labels, frames) = pop_frame s.labels_for_structure_stack in
      let (frames', tags) = if discard then (frames, s.tags) else promote labels frames s.tags in
      record s {
        span_stack = stack;
        spans =
            update_at (λ (sp : Span). record sp { end = length s.nodes; discarded = discard }) i
              s.spans;
        has_discards = discard || s.has_discards;
        labels_for_structure_stack = frames';
        tags = tags;
      }

  unfoldable pub stop_span : Bool → NativeTestCase G R → NativeTestCase G R
  unfolding close_span
  stop_span discard s = elim s.span_stack [ [] ↦ s | i ∷ stack ↦ close_span discard i stack s ]
