-- ===== src/Search.antt =====
-- hegel-c/src/native/shrinker/search.rs: the searches of the shrink passes, as values that are asked for
-- a probe and told its verdict.
pub mod Step
pub mod FindInteger
pub mod BinSearch
