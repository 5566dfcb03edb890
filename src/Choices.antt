-- ===== src/Choices.antt =====
-- hegel-c/src/native/core/choices.rs: the constraints of a choice and the dense index of its values.
pub mod Integer
pub mod Shortlex
pub mod Bytes
pub mod Strings
pub mod Kinds
