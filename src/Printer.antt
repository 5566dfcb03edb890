-- ===== src/Printer.antt =====
-- hegel-c/src/native/printer.rs: the pretty-printer.
pub mod Commands
pub mod Renderer
pub mod Document
pub mod Recorder
pub mod Writers
pub mod Speculation
pub mod Reading
