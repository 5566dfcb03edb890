-- ===== src/TestCase/Span.antt =====
-- hegel-c/src/native/core/state.rs, `Span`. The label is the number that the source prints.
use hegel_rust.Base.{ℕ, Bool, Option}

pub record Span : Type 0 where
  pub start : ℕ
  pub end : ℕ
  pub label : ℕ
  pub depth : ℕ
  pub parent : Option ℕ
  pub discarded : Bool
