-- ===== src/StateMachine.antt =====
-- hegel-c/src/native/core/state_machine.rs: the driver of one stateful test case.
pub mod Draws
pub mod Flags
pub mod Rules
pub mod Machine
pub mod Budget
pub mod Rejection
pub mod HandOut
pub mod Reachable
