-- ===== src/TestCase/Limits.antt =====
-- What limits the draws of a stream of hegel-c/src/native/core/state.rs: the verdict of its family, its size and
-- the budget.
pub mod Concluded
pub mod Budget
pub mod Resolved
pub mod Spent
use hegel_rust.TestCase.Reply.{Reply, returns, fails}

-- The state that a call leaves, whether it returns or fails.
abbrev pub left : {S A : Type 0} → Reply S A → S
left (returns a s) = s
left (fails e s) = s
