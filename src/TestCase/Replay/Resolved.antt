-- ===== src/TestCase/Replay/Resolved.antt =====
-- `pre_choice` and `resolve_choice` of hegel-c/src/native/core/state.rs, on a stream and on its replay.
use hegel_rust.Base.{
  ℕ, zero, suc, ◌<◌, ◌≤◌, ◌≡◌, refl, sym, ap, ◌∙◌, subst, arith, Bool, true, false, Bool-cases,
  Option-cases, inl, inr, List, [], ◌∷◌, length, get_elem?, Option, none, some,
}
use hegel_rust.Base.Results
use hegel_rust.Base.Results.{Result}
use hegel_rust.Choices.Kinds.{FloatChoices}
use hegel_rust.Database.{ChoiceValue}
use hegel_rust.TestCase.Replay.{as_replay}
use hegel_rust.TestCase.Reply.{Reply, returns, lift, returns-after, returns_injective}
use hegel_rust.TestCase.Resolve.{
  count_draw, has_budget, pre_choice, templated, sampled, past_prefix, was_simplest, node_at,
  punned, settle, resolve_choice,
}
use hegel_rust.TestCase.Stream.{ChoiceTemplate, NativeTestCase, status, usize_max}

-- The results that a draw may fall back to.
abbrev pub Gives : {V : Type 0} → (V → Type 0) → Result V → Type 0
Gives {V} P r = (v : V) → r ≡ Results.ok v → P v

pub get_elem?-lt : {A : Type 0} (l : List A) (i : ℕ) {a : A} → get_elem? l i ≡ some a → i < length l
get_elem?-lt [] i h = absurd (cc h)
get_elem?-lt (x ∷ l) zero h = omega arith
get_elem?-lt (x ∷ l) (suc i) h = omega (arith, get_elem?-lt l i h)

module _ {G R : Type 0} where
  pub below_max :
      (s : NativeTestCase G R)
      → s.family.budget ≤ usize_max
      → has_budget s ≡ true
      → s.family.total_draws < usize_max
  unfolding has_budget
  below_max s b t = ground arith

  pub pre_choice-returns :
      (s s' : NativeTestCase G R)
      → pre_choice s ≡ returns tt s'
      → (count_draw s ≡ s')
        × (status s ≡ none)
        × (length s.nodes < s.max_size)
        × (has_budget s ≡ true)
  unfolding pre_choice
  pre_choice-returns s s' h = ground arith

  pub pre_choice-replay :
      (vs : List ChoiceValue) (s : NativeTestCase G R)
      → status s ≡ none
      → length s.nodes < length vs
      → s.family.total_draws < usize_max
      → pre_choice (as_replay vs s) ≡ returns tt (as_replay vs (count_draw s))
  unfolding pre_choice count_draw has_budget status
  pre_choice-replay vs s h m t = ground arith

  -- What the choice of a value leaves as it was.
  abbrev pub Keeps : NativeTestCase G R → NativeTestCase G R → Type 0
  Keeps s s' =
      (s'.nodes ≡ s.nodes)
      × (s'.family ≡ s.family)
      × ((vs : List ChoiceValue) → as_replay vs s' ≡ as_replay vs s)

  lift-returns :
      {V : Type 0} (r : Result V) (s : NativeTestCase G R) (v : V) (s' : NativeTestCase G R)
      → lift r s ≡ returns v s'
      → (r ≡ Results.ok v) × (s ≡ s')
  lift-returns (Results.ok a) s v s' h = (cc h, cc h)
  lift-returns Results.internal_error s v s' h = absurd (cc h)

  Keeps-refl : (s s' : NativeTestCase G R) → s ≡ s' → Keeps s s'
  Keeps-refl s s' e =
      (ap (λ t. t.nodes) (sym e), ap (λ t. t.family) (sym e), λ vs. ap (as_replay vs) (sym e))

  Keeps-template :
      (o : Option ChoiceTemplate) (s s1 s' : NativeTestCase G R)
      → s ≡ s1
      → ◌≡◌ {A = NativeTestCase G R} (record s1 { trailing_template = o }) s'
      → Keeps s s'
  Keeps-template o s s1 s' e k =
      let f : NativeTestCase G R → NativeTestCase G R = λ t. record t { trailing_template = o } in
      Keeps-refl (f s) s' (ap f e ∙ k)

  module _ {V : Type 0} (P : V → Type 0) where
    -- What holds of the value that a call returns, and of the state that it leaves.
    abbrev pub Settles : NativeTestCase G R → Reply (NativeTestCase G R) V → Type 0
    Settles s reply = (v : V) (s' : NativeTestCase G R) → reply ≡ returns v s' → P v × Keeps s s'

    lift-Settles : (r : Result V) → Gives P r → (s : NativeTestCase G R) → Settles s (lift r s)
    lift-Settles r g s v s' h = let (e, k) = lift-returns r s v s' h in (g v e, Keeps-refl s s' k)

    sampled-Settles :
        (random : R → Result V × R)
        → ((r : R) → Gives P (random r).0)
        → (s : NativeTestCase G R) → Settles s (sampled random s)
    unfolding sampled
    sampled-Settles random g s v s' h = elim (Option-cases s.rng) [
      | inl e ↦ absurd (cc (rw (e, sampled) at h))
      | inr (r, e) ↦
          lift-Settles (random r).0 (g r) (record s { rng = some (random r).1 }) v s'
            (rw (e, sampled) at h)
    ]

    templated-Settles :
        (simplest : Result V)
        → Gives P simplest
        → (t : ChoiceTemplate) (s : NativeTestCase G R) (o : Option ℕ) → t.count ≡ o
        → Settles s (templated simplest t s)
    unfolding templated
    templated-Settles simplest g t s none e v s' h =
        lift-Settles simplest g s v s' (rw (e, templated) at h)
    templated-Settles simplest g t s (some zero) e v s' h = absurd (cc (rw (e, templated) at h))
    templated-Settles simplest g t s (some (suc c)) e v s' h =
        let (a, s1, h1, h2) = returns-after (lift simplest s) _ v s' (rw (e, templated) at h) in
        let (e1, k1) = lift-returns simplest s a s1 h1 in
        let (e2, k2) = returns_injective a v _ s' h2 in
        (g v (cc e1), Keeps-template _ s s1 s' k1 k2)

    past_prefix-Settles :
        (simplest : Result V) (random : R → Result V × R)
        → Gives P simplest
        → ((r : R) → Gives P (random r).0)
        → (s : NativeTestCase G R) → Settles s (past_prefix simplest random s)
    unfolding past_prefix
    past_prefix-Settles simplest random g gr s v s' h = elim (Option-cases s.trailing_template) [
      | inl e ↦ sampled-Settles random gr s v s' (rw (e, past_prefix) at h)
      | inr (t, e) ↦ templated-Settles simplest g t s t.count refl v s' (rw (e, past_prefix) at h)
    ]

    module _ (floats : FloatChoices) where
      punned-Settles :
          (simplest unit : Result V)
          → Gives P simplest
          → Gives P unit
          → (w : ChoiceValue) (s : NativeTestCase G R) → Settles s (punned floats simplest unit w s)
      unfolding punned
      punned-Settles simplest unit g gu w s v s' h =
          let (b, s1, h1, h2) =
            returns-after (lift (was_simplest floats (node_at s.prefix_nodes (length s.nodes)) w) s)
              _ v s' h in
          let (e1, k1) = lift-returns _ s b s1 h1 in
          elim (Bool-cases b) [
            | inl e ↦ lift-Settles simplest g s v s' (rw (← k1, e) at h2)
            | inr e ↦ lift-Settles unit gu s v s' (rw (← k1, e) at h2)
          ]

      pub settle-Settles :
          (simplest unit : Result V) (from_prefix : ChoiceValue → Option V)
          (random : R → Result V × R)
          → Gives P simplest
          → Gives P unit
          → ((w : ChoiceValue) (v : V) → from_prefix w ≡ some v → P v)
          → ((r : R) → Gives P (random r).0)
          → (s : NativeTestCase G R) → Settles s (settle floats simplest unit from_prefix random s)
      unfolding settle
      settle-Settles simplest unit from_prefix random g gu gf gr s v s' h =
          elim (Option-cases (get_elem? s.prefix (length s.nodes))) [
            | inl e ↦ past_prefix-Settles simplest random g gr s v s' (rw (e, settle) at h)
            | inr (w, e) ↦ elim (Option-cases (from_prefix w)) [
              | inl f ↦ punned-Settles simplest unit g gu w s v s' (rw (e, settle, f) at h)
              | inr (a, f) ↦
                  let (e1, k1) = returns_injective a v s s' (rw (e, settle, f) at h) in
                  (gf w v (cc f), Keeps-refl s s' k1)
            ]
          ]

  -- What a draw that did not fail found, and what it kept.
  abbrev pub Took : NativeTestCase G R → NativeTestCase G R → Type 0
  Took s s' =
      (status s ≡ none)
      × (length s.nodes < s.max_size)
      × (has_budget s ≡ true)
      × Keeps (count_draw s) s'

  module _ (floats : FloatChoices) {V : Type 0} where
    pub resolve_choice-Took :
        (P : V → Type 0) (simplest unit : Result V) (from_prefix : ChoiceValue → Option V)
        (random : R → Result V × R)
        → Gives P simplest
        → Gives P unit
        → ((w : ChoiceValue) (v : V) → from_prefix w ≡ some v → P v)
        → ((r : R) → Gives P (random r).0)
        → (s : NativeTestCase G R) (v : V) (f : Bool) (s' : NativeTestCase G R)
        → resolve_choice floats simplest unit from_prefix random s ≡ returns (v, f) s'
        → P v × (f ≡ false) × Took s s'
    unfolding resolve_choice
    resolve_choice-Took P simplest unit from_prefix random g gu gf gr s v f s' h =
        let (u, s1, h1, h2) = returns-after (pre_choice s) _ (v, f) s' h in
        let (c, n, m, b) = pre_choice-returns s s1 h1 in
        let (a, s2, h3, h4) =
          returns-after (settle floats simplest unit from_prefix random s1) _ (v, f) s' h2 in
        let (e, k) = returns_injective (a, false) (v, f) s2 s' h4 in
        let (pa, ka) =
          settle-Settles P floats simplest unit from_prefix random g gu gf gr s1 a s2 h3 in
        (
          subst P (ap (λ t. t.0) e) pa,
          sym (ap (λ t. t.1) e),
          (n, m, b, subst (λ x. Keeps x s') (sym c) (subst (Keeps s1) k ka)),
        )

    settle-replay :
        (simplest unit : Result V) (from_prefix : ChoiceValue → Option V)
        (random : R → Result V × R) (vs : List ChoiceValue) (s : NativeTestCase G R)
        (w : ChoiceValue) (v : V)
        → get_elem? vs (length s.nodes) ≡ some w
        → from_prefix w ≡ some v
        → settle floats simplest unit from_prefix random (as_replay vs s)
          ≡ returns v (as_replay vs s)
    unfolding settle
    settle-replay simplest unit from_prefix random vs s w v e f = rw (e, settle) (rw f refl)

    pub resolve_choice-replay :
        (simplest unit : Result V) (from_prefix : ChoiceValue → Option V)
        (random : R → Result V × R) (s : NativeTestCase G R) (v : V) (s' : NativeTestCase G R)
        → s.family.budget ≤ usize_max
        → Took s s'
        → (vs : List ChoiceValue) (w : ChoiceValue) → get_elem? vs (length s.nodes) ≡ some w
        → from_prefix w ≡ some v
        → resolve_choice floats simplest unit from_prefix random (as_replay vs s)
          ≡ returns (v, false) (as_replay vs s')
    unfolding resolve_choice
    resolve_choice-replay simplest unit from_prefix random s v s' b (n, m, t, k) vs w e f =
        let p : pre_choice (as_replay vs s) ≡ returns tt (as_replay vs (count_draw s)) =
          pre_choice-replay vs s n (get_elem?-lt vs (length s.nodes) e) (below_max s b t) in
        let q = settle-replay simplest unit from_prefix random vs (count_draw s) w v e f in
        rw p (rw q (ap (returns (v, false)) (sym (k.2 vs))))
