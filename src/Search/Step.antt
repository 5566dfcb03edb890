-- ===== src/Search/Step.antt =====
-- hegel-c/src/native/shrinker/search.rs: one step of a search, the value to probe or the answer.
pub data SearchStep (T : Type 0) : Type 0 where
  probe : T → SearchStep T
  finished : T → SearchStep T
