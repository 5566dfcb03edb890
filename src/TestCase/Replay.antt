-- ===== src/TestCase/Replay.antt =====
-- hegel-c/src/native/core/state.rs: a run, replayed from the values of its nodes.
pub mod Resolved
pub mod Steps
pub mod Sources
pub mod IdSources
pub mod Shapes
pub mod Commands
pub mod SpanReplay
pub mod Runs
pub mod ForChoices
use hegel_rust.Base.{ℕ, List, length, none}
use hegel_rust.Database.{ChoiceValue}
use hegel_rust.TestCase.Stream.{NativeTestCase, usize_max}

-- The stream that has got as far as `s`, but on a replay of `vs`, as `for_choices` makes it.
abbrev pub as_replay : {G R : Type 0} → List ChoiceValue → NativeTestCase G R → NativeTestCase G R
as_replay vs s = record s {
  prefix = vs;
  prefix_nodes = none;
  rng = none;
  max_size = length vs;
  family = record s.family { budget = usize_max; generation_parameters = none };
  trailing_template = none;
}
