-- ===== src/StateMachine/Rules.antt =====
-- hegel-c/src/native/core/state_machine.rs, `draw_index` and `select_rule`: a rule of the current group.
pub mod Selection
use hegel_rust.Base.{
  ℕ, zero, suc, ◌+◌, ◌-◌, Bool, not, ltb, ◌==◌, if◌then◌else◌, List, [], ◌∷◌, ◌++◌, length, Option,
  none, some,
}
use hegel_rust.Base.Int.{pos, ◌-ℤ◌, as_usize}
use hegel_rust.StateMachine.Draws.{Outcome, ok, ◌>>=◌, ◌>>◌, assert, at, TestCase}
use hegel_rust.StateMachine.Flags.{FeatureFlags, contains, is_enabled}

module _ {S : Type 0} (test_case : TestCase S) where
  unfoldable pub draw_index : ℕ → S → Outcome (ℕ × S)
  draw_index n s = do r ← test_case.draw_integer (pos 0) (pos n -ℤ pos 1) s; ok (as_usize r.0, r.1)

  -- The tries that are left: the rule they find, or the places found disabled.
  unfoldable pub tries_loop :
      ℕ → List ℕ → ℕ → List ℕ → FeatureFlags → S → Outcome (Option ℕ × List ℕ × FeatureFlags × S)
  unfolding draw_index
  tries_loop zero members group known_bad flags s = ok (none, known_bad, flags, s)
  tries_loop (suc tries) members group known_bad flags s = do
    k ← draw_index (length members) s
    let again = tries_loop tries members group known_bad flags k.1
    if contains known_bad k.0 then again else (do
      rule ← at members k.0
      e ← is_enabled test_case group rule flags k.1
      let next = tries_loop tries members group (k.0 ∷ known_bad) e.1 e.2
      if e.0 then ok (some rule, known_bad, e.1, e.2) else next)

  -- The enumeration of `members` from place `k` on, in a group of `n` rules: the rule it stops at, or the
  -- places of the enabled rules.
  unfoldable pub enabled_loop :
      ℕ
      → ℕ
      → List ℕ
      → ℕ
      → ℕ
      → List ℕ
      → List ℕ
      → FeatureFlags
      → S
      → Outcome (Option ℕ × List ℕ × FeatureFlags × S)
  enabled_loop n k [] group speculative known_bad allowed flags s = ok (none, allowed, flags, s)
  enabled_loop n k (rule ∷ members) group speculative known_bad allowed flags s =
      let skip = enabled_loop n (k + 1) members group speculative known_bad allowed flags s in
      if contains known_bad k then skip else (do
        e ← is_enabled test_case group rule flags s
        let allowed' = if e.0 then allowed ++ (k ∷ []) else allowed
        let next = enabled_loop n (k + 1) members group speculative known_bad allowed' e.1 e.2
        if not e.0
            then next
            else (if not (ltb speculative (length allowed')) then next else (do
              s' ← test_case.draw_integer_forced (pos 0) (pos n -ℤ pos 1) (pos k) e.2
              ok (some rule, allowed', e.1, s'))))

  -- The draw among the places of the enabled rules, once all have been enumerated.
  unfoldable pub draw_allowed : List ℕ → List ℕ → FeatureFlags → S → Outcome (ℕ × FeatureFlags × S)
  unfolding draw_index
  draw_allowed members allowed flags s = do
    assert (not (length allowed == 0))
    j ← draw_index (length allowed) s
    k ← at allowed j.0
    s' ← test_case.draw_integer_forced (pos 0) (pos (length members) -ℤ pos 1) (pos k) j.1
    rule ← at members k
    ok (rule, flags, s')

  -- What `select_rule` does behind the tries.
  unfoldable pub fallback : List ℕ → ℕ → List ℕ → FeatureFlags → S → Outcome (ℕ × FeatureFlags × S)
  unfolding draw_index enabled_loop draw_allowed
  fallback members group known_bad flags s = do
    speculative ← draw_index (length members - length known_bad) s
    r ← enabled_loop (length members) 0 members group speculative.0 known_bad [] flags speculative.1
    elim r.0 [ some rule ↦ ok (rule, r.2, r.3) | none ↦ draw_allowed members r.1 r.2 r.3 ]

  unfoldable pub select_rule : ℕ → List ℕ → FeatureFlags → S → Outcome (ℕ × FeatureFlags × S)
  unfolding tries_loop fallback
  select_rule group members flags s = do
    r ← tries_loop 3 members group [] flags s
    elim r.0 [ some rule ↦ ok (rule, r.2, r.3) | none ↦ fallback members group r.1 r.2 r.3 ]
