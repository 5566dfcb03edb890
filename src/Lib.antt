-- ===== src/Lib.antt =====
-- Verification of the core of the Hegel property-testing engine, hegel-c/src/native.
--
-- The engine draws a test case as a sequence of choices. Each choice has a constraint (core/choices.rs),
-- under which every value has a dense index, simplest first; the shrinker walks these indices with the
-- searches of shrinker/search.rs. A string choice ranks its codepoints by the interval set that is its
-- alphabet (intervalsets.rs). A failing sequence is handed to the user as a base64 text (base64.rs). Each
-- draw goes through a stream (core/state.rs), which takes the choice from a recorded prefix, a template or
-- the random generator, and records it. A stateful test is driven by core/state_machine.rs, which draws the
-- rules to run from the same stream. A run that was executed is found again by its choices (exec_cache.rs),
-- and the values of a failing test are laid out by a pretty-printer (printer.rs).
--
-- Base: shared names, lists and tests over the native numbers, integers, and `Result`, which holds a
--   value or stands for an internal error (or a panic, where a comment says so).
-- Choices: hegel-c/src/native/core/choices.rs. Choices.Integer, Choices.Bytes and Choices.Strings are
--   `IntegerChoice`, `BytesChoice` and `StringChoice`; functions keep their names. Choices.Shortlex
--   holds the loops of `to_index` and `from_index` that the last two write out each.
-- IntervalSet: hegel-c/src/native/intervalsets.rs, every operation under its name. IntervalSet.Spec
--   has the sequence of codepoints that a set stands for.
-- Base64: hegel-c/src/native/base64.rs.
-- Search: hegel-c/src/native/shrinker/search.rs. `record` is `record_verdict`, since the word is
--   reserved; `drive` is the loop that the shrink passes write around `probe` and `record`.
-- StateMachine: hegel-c/src/native/core/state_machine.rs. StateMachine.Draws is the interface to the
--   test case (core/state.rs); StateMachine.Flags is `FeatureFlags`, StateMachine.Rules is
--   `select_rule`, and StateMachine.Machine has the other operations of `NativeStateMachine`.
--   StateMachine.HandOut is about one call of `next_rule`, StateMachine.Rejection
--   about the reports of rejected rules, and StateMachine.Reachable has the
--   states of a machine as a step relation.
-- Database: the binary form of a choice sequence in hegel-c/src/native/database.rs.
--   BigInts has the signed bytes of a `BigInt` (hegel-c/src/native/bignum.rs), which it stores.
-- ExecCache: the cache of executed runs in hegel-c/src/native/exec_cache.rs. `record` is `record_run`, since the
--   word is reserved. A node and a span are of any type, and the sizes of the records are parameters.
-- Printer: hegel-c/src/native/printer.rs, the pretty-printer that shows a failing test. Printer.Commands has
--   the commands that are recorded; Printer.Recorder, Printer.Writers, Printer.Speculation and Printer.Reading
--   are `Printer`, with `main` as `commands`; Printer.Renderer is `Renderer`, and Printer.Document runs it over the
--   commands. A call that changes the printer returns the new one, and a stack has its top first.
-- Choices.Kinds: `ChoiceKind` and `ChoiceData` of hegel-c/src/native/core/choices.rs, which join the kinds. `FloatChoice`
--   and its index, arithmetic on `f64` in the same file, are not modelled: a float choice is an interface over bit
--   patterns, `FloatChoices`, without laws.
-- TestCase: hegel-c/src/native/core/state.rs. TestCase.Stream is `FamilyCore` and `NativeTestCase` with its
--   constructors; TestCase.Resolve has `pre_choice` and `resolve_choice`; TestCase.Draw the draws by kind;
--   TestCase.Spans the spans; TestCase.Ids the sets of identifiers; TestCase.Variables is `NativeVariables`. A
--   call that takes `&mut self` returns the state that it leaves, after an error too (TestCase.Reply). The samplers
--   of the same file are not modelled either: they are an interface, TestCase.Sampling, of
--   which TestCase.Interface alone takes a hypothesis, that an integer sample lies in its range. TestCase.Body is a
--   test body as a tree of what it asks, TestCase.Replay runs it again, TestCase.Limits has the verdict and the
--   budget, and TestCase.Interface is the stream as the test case that the state machine takes.
-- Tests: concrete runs.
--
-- Bounds. A `u32` or `usize` is a natural number; its bound is stated where the code depends on it
-- (`checked_mul` and `checked_add` in the searches, the saturating addition of `union`, the casts of
-- codepoint ranks). The cast `length as u32` of the index powers, the width `v - u + 1` of an interval and the
-- `isize` indentation of the printer wrap, as in a build without overflow checks (a build with them panics where
-- such a sum overflows); the subtractions of the printer on `usize` are checked, and a panic where they underflow.
-- Sums that count what is in memory (offsets, widths of a line, nodes) stay unbounded. The integer that
-- `BinSearchDown` halves is unbounded too: its `i128` subtraction overflows for ends 2 ^ 127 or more apart. `BigInt` and `BigUint` are unbounded, as hegel-c/src/native/bignum.rs wraps an
-- arbitrary-precision library, dashu_int: the bytes of a magnitude that the library makes and reads are a
-- parameter, `UbigBytes`, with what it documents of them as `IsUbigBytes`. `drive` takes a number of rounds and answers `none` when they run
-- out: its theorems say how many rounds always suffice. The binary search of `IntervalSet.get` takes
-- the width of its range for fuel, and each round shortens that range. The reader of choice sequences
-- recurs on the depths that MAX_CLONE_DEPTH leaves. A layout descends into as many slots as there are, since a
-- slot's content splices only slots that were opened later; the search for a group to break takes as many
-- rounds as the queue has groups, and one more; `kill_splices` takes as many slots from its
-- worklist as `visits` counts in the contents that nest below it.
--
-- A probability is a ratio, whose rounding to an `f64` is not modelled, and a float in a choice sequence is its
-- bit pattern. The count of draws of a family wraps at 64 bits. Not modelled: arithmetic on floats, and with it
-- the samplers, which are taken as an interface; of core/state.rs the clones of a stream, its observer, and the
-- state of recursive draws and collections; the ledger of kinds, the asynchronous shrink passes, the test
-- runner, the files of the database, the C interface, the platform layer, and the Rust front end.
pub mod Base
pub mod Choices
pub mod IntervalSet
pub mod Base64
pub mod Search
pub mod StateMachine
pub mod TestCase
pub mod BigInts
pub mod Database
pub mod ExecCache
pub mod Printer
mod Tests
