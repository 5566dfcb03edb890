-- ===== src/StateMachine/Rules/Selection.antt =====
-- The rule that `select_rule` (hegel-c/src/native/core/state_machine.rs) hands out belongs to the group.
use hegel_rust.Base.{
  ℕ, zero, suc, ◌+◌, ◌-◌, ◌≡◌, inl, inr, arith, subst, ◌≢◌, true, not, ltb, ◌==◌, if-cases, List,
  [], elim-Option_cases, ◌∷◌, length, Option, none, some,
}
use hegel_rust.Base.Int.{pos}
use hegel_rust.StateMachine.Draws.{ok, ok->>=, assert, at, TestCase}
use hegel_rust.StateMachine.Flags.{FeatureFlags, contains, is_enabled}
use hegel_rust.StateMachine.Rules.{
  draw_index, tries_loop, enabled_loop, draw_allowed, fallback, select_rule,
}

pub at-contains : (l : List ℕ) (i x : ℕ) → at l i ≡ ok x → contains l x ≡ true
at-contains [] i x h = absurd (cc h)
at-contains (y ∷ l) zero x h = ground arith
at-contains (y ∷ l) (suc i) x h = ground (arith, at-contains l i x h)

contains-tail : (x : ℕ) (l : List ℕ) (i : ℕ) → contains l i ≡ true → contains (x ∷ l) i ≡ true
contains-tail x l i h = ground arith

contains-head : (x : ℕ) (l : List ℕ) (i : ℕ) → x ≡ i → contains (x ∷ l) i ≡ true
contains-head x l i h = ground arith

-- What an answer `ok (some rule, …)` says of a result.
answer-some :
    {A B C : Type 0} (x rule : ℕ) (a : A) (b : B) (c : C) (r : Option ℕ × A × B × C)
    → ok (some x, a, b, c) ≡ ok r
    → r.0 ≡ some rule
    → x ≡ rule
answer-some x rule a b c r h e = cc (h, e)

answer-none :
    {A B C : Type 0} (rule : ℕ) (a : A) (b : B) (c : C) (r : Option ℕ × A × B × C)
    → ok (none, a, b, c) ≡ ok r
    → r.0 ≢ some rule
answer-none rule a b c r h e = cc (h, e)

chosen-contains :
    {B C : Type 0} (members : List ℕ) (rule : ℕ) (b : B × C) (r : ℕ × B × C)
    → ok (rule, b.0, b.1) ≡ ok r
    → contains members rule ≡ true
    → contains members r.0 ≡ true
chosen-contains members rule b r h m = subst (λ x. contains members x ≡ true) (cc h) m

module _ {S : Type 0} (test_case : TestCase S) where
  tries_loop-contains :
      (tries : ℕ) (members : List ℕ) (group : ℕ) (known_bad : List ℕ) (flags : FeatureFlags) (s : S)
      (r : Option ℕ × List ℕ × FeatureFlags × S) (rule : ℕ)
      → tries_loop test_case tries members group known_bad flags s ≡ ok r
      → r.0 ≡ some rule
      → contains members rule ≡ true
  unfolding tries_loop
  tries_loop-contains zero members group known_bad flags s r rule h e =
      absurd (answer-none rule known_bad flags s r h e)
  tries_loop-contains (suc tries) members group known_bad flags s r rule h e =
      let (k, _, h1) = ok->>= (draw_index test_case (length members) s) _ r h in
      elim (if-cases (contains known_bad k.0) _ _ (ok r) h1) [
        | inl (_, h2) ↦ tries_loop-contains tries members group known_bad flags k.1 r rule h2 e
        | inr (_, h2) ↦
            let (x, hx, h3) = ok->>= (at members k.0) _ r h2 in
            let (en, _, h4) = ok->>= (is_enabled test_case group x flags k.1) _ r h3 in
            elim (if-cases en.0 _ _ (ok r) h4) [
              | inl (_, h5) ↦
                  subst (λ y. contains members y ≡ true)
                    (answer-some x rule known_bad en.1 en.2 r h5 e) (at-contains members k.0 x hx)
              | inr (_, h5) ↦
                  tries_loop-contains tries members group (k.0 ∷ known_bad) en.1 en.2 r rule h5 e
            ]
      ]

  enabled_loop-contains :
      (n k : ℕ) (members : List ℕ) (group speculative : ℕ) (known_bad allowed : List ℕ)
      (flags : FeatureFlags) (s : S) (r : Option ℕ × List ℕ × FeatureFlags × S) (rule : ℕ)
      → enabled_loop test_case n k members group speculative known_bad allowed flags s ≡ ok r
      → r.0 ≡ some rule
      → contains members rule ≡ true
  unfolding enabled_loop
  enabled_loop-contains n k [] group speculative known_bad allowed flags s r rule h e =
      absurd (answer-none rule allowed flags s r h e)
  enabled_loop-contains n k (x ∷ members) group speculative known_bad allowed flags s r rule h e =
      elim (if-cases (contains known_bad k) _ _ (ok r) h) [
        | inl (_, h1) ↦ contains-tail x members rule (
            enabled_loop-contains n (k + 1) members group speculative known_bad allowed flags s r
              rule h1 e)
        | inr (_, h1) ↦
            let (en, _, h2) = ok->>= (is_enabled test_case group x flags s) _ r h1 in
            elim (if-cases (not en.0) _ _ (ok r) h2) [
              | inl (_, h3) ↦ contains-tail x members rule (
                  enabled_loop-contains n (k + 1) members group speculative known_bad _ en.1 en.2 r
                    rule h3 e)
              | inr (_, h3) ↦ elim (if-cases (not (ltb speculative _)) _ _ (ok r) h3) [
                | inl (_, h4) ↦ contains-tail x members rule (
                    enabled_loop-contains n (k + 1) members group speculative known_bad _ en.1 en.2
                      r rule h4 e)
                | inr (_, h4) ↦
                    let (s', _, h5) = ok->>= (test_case.draw_integer_forced _ _ _ en.2) _ r h4 in
                    contains-head x members rule (answer-some x rule _ en.1 s' r h5 e)
              ]
            ]
      ]

  draw_allowed-contains :
      (members allowed : List ℕ) (flags : FeatureFlags) (s : S) (r : ℕ × FeatureFlags × S)
      → draw_allowed test_case members allowed flags s ≡ ok r
      → contains members r.0 ≡ true
  unfolding draw_allowed
  draw_allowed-contains members allowed flags s r h =
      let (_, _, h1) = ok->>= (assert (not (length allowed == 0))) _ r h in
      let (j, _, h2) = ok->>= (draw_index test_case (length allowed) s) _ r h1 in
      let (k, _, h3) = ok->>= (at allowed j.0) _ r h2 in
      let (s', _, h4) = ok->>= (test_case.draw_integer_forced _ _ (pos k) j.1) _ r h3 in
      let (rule, h5, h6) = ok->>= (at members k) _ r h4 in
      chosen-contains members rule (flags, s') r h6 (at-contains members k rule h5)

  fallback-contains :
      (members : List ℕ) (group : ℕ) (known_bad : List ℕ) (flags : FeatureFlags) (s : S)
      (r : ℕ × FeatureFlags × S)
      → fallback test_case members group known_bad flags s ≡ ok r
      → contains members r.0 ≡ true
  unfolding fallback
  fallback-contains members group known_bad flags s r h =
      let (spec, _, h1) =
        ok->>= (draw_index test_case (length members - length known_bad) s) _ r h in
      let (a, ha, h2) =
        ok->>=
          (enabled_loop test_case (length members) 0 members group spec.0 known_bad [] flags spec.1)
          _ r h1 in
      elim (elim-Option_cases a.0 _ _ (ok r) h2) [
        | inl (_, h3) ↦ draw_allowed-contains members a.1 a.2 a.3 r h3
        | inr (rule, e, h3) ↦
            chosen-contains members rule (a.2, a.3) r h3
              (enabled_loop-contains _ 0 members group spec.0 known_bad [] flags spec.1 a rule ha e)
      ]

  -- The rule that `select_rule` returns is one of the group's members.
  pub select_rule-contains :
      (group : ℕ) (members : List ℕ) (flags : FeatureFlags) (s : S) (r : ℕ × FeatureFlags × S)
      → select_rule test_case group members flags s ≡ ok r
      → contains members r.0 ≡ true
  unfolding select_rule
  select_rule-contains group members flags s r h =
      let (a, ha, h1) = ok->>= (tries_loop test_case 3 members group [] flags s) _ r h in
      elim (elim-Option_cases a.0 _ _ (ok r) h1) [
        | inl (_, h2) ↦ fallback-contains members group a.1 a.2 a.3 r h2
        | inr (rule, e, h2) ↦
            chosen-contains members rule (a.2, a.3) r h2
              (tries_loop-contains 3 members group [] flags s a rule ha e)
      ]
