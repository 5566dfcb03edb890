-- ===== src/TestCase.antt =====
-- hegel-c/src/native/core/state.rs: one stream of a test case, with the state that its family shares, the
-- pools of identifiers and the bookkeeping of recursive draws.
pub mod Span
pub mod Reply
pub mod Stream
pub mod Spans
pub mod Sampling
pub mod Resolve
pub mod Ids
pub mod Draw
pub mod Body
pub mod Replay
pub mod Interface
pub mod Variables
pub mod Limits
pub mod Drawn
