-- ===== src/Tests.antt =====
-- Concrete runs of the model, and each theorem of the list at an input that meets its hypotheses.
mod Choices
mod Intervals
mod Codecs
mod Cache
mod Printer
mod Searches
mod Machines
mod Streams
mod Kinds
mod Sequences
