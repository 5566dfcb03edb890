-- ===== src/StateMachine/Flags.antt =====
-- hegel-c/src/native/core/state_machine.rs, `FeatureFlags`: which rules a worker may run. A `HashSet` is a
-- list without repetitions.
use hegel_rust.Base.{
  ℕ, Bool, false, not, ◌==◌, ◌&&◌, ◌||◌, if◌then◌else◌, List, [], ◌∷◌, length, replicate, Option,
  none, some,
}
use hegel_rust.Base.Int.{pos, as_usize}
use hegel_rust.StateMachine.Draws.{Outcome, ok, ◌>>=◌, at, write, Probability, ratio, TestCase}

pub record FeatureFlags : Type 0 where
  pub p_disabled : Probability
  pub is_disabled : List (Option Bool)
  pub at_least_one_of : List (List ℕ)

abbrev pub contains : List ℕ → ℕ → Bool
contains [] i = false
contains (x ∷ l) i = x == i || contains l i

unfoldable pub remove : List ℕ → ℕ → List ℕ
remove [] i = []
remove (x ∷ l) i = let rest = remove l i in if x == i then rest else x ∷ rest

abbrev pub label_feature_flag : ℕ
label_feature_flag = 16

module _ {S : Type 0} (test_case : TestCase S) where
  unfoldable pub new : List (List ℕ) → ℕ → S → Outcome (FeatureFlags × S)
  new groups num_rules s = do
    r ← test_case.draw_integer (pos 0) (pos 254) s
    ok (
      record {
        p_disabled = ratio (as_usize r.0) 255;
        is_disabled = replicate num_rules none;
        at_least_one_of = groups;
      },
      r.1,
    )

  unfoldable pub is_enabled : ℕ → ℕ → FeatureFlags → S → Outcome (Bool × FeatureFlags × S)
  unfolding remove
  is_enabled group i flags s = do
    candidates ← at flags.at_least_one_of group
    forced ←
        if length candidates == 1 && contains candidates i
        then ok (some false)
        else at flags.is_disabled i
    r ← test_case.weighted flags.p_disabled forced (test_case.start_span label_feature_flag s)
    is_disabled ← write flags.is_disabled i (some r.0)
    at_least_one_of ← write flags.at_least_one_of group (if r.0 then remove candidates i else [])
    ok (
      not r.0,
      record flags { is_disabled = is_disabled; at_least_one_of = at_least_one_of },
      test_case.stop_span false r.1,
    )
