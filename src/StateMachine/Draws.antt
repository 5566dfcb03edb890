-- ===== src/StateMachine/Draws.antt =====
-- The part of the test case (hegel-c/src/native/core/state.rs, `NativeTestCase`) that the state machine
-- calls, as an interface, with the errors of hegel-c/src/native/core/choices.rs. `S` is the state of the test
-- case. A probability is a ratio: the source's `f64` is the double nearest to it.
use hegel_rust.Base.{ℕ, zero, suc, ◌≡◌, Bool, true, false, List, [], ◌∷◌, Option, some, refl}
use hegel_rust.Base.Int.{ℤ, ◌≤ℤ◌}

pub data EngineError : Type 0 where
  overrun : EngineError
  invalid_test_case : EngineError
  assume_violation : EngineError
  invalid_argument : EngineError
  internal : EngineError

-- What a call of the engine ends in. After an error the test case draws no further, so no state is kept.
pub data Outcome {ℓ} (A : Type ℓ) : Type ℓ where
  ok : A → Outcome A
  err : EngineError → Outcome A
  panic : Outcome A

infixl 5 ◌>>=◌ ◌>>◌
abbrev pub ◌>>=◌ {ℓ κ} : {A : Type ℓ} {B : Type κ} → Outcome A → (A → Outcome B) → Outcome B
ok a >>= f = f a
err e >>= f = err e
panic >>= f = panic

abbrev pub ◌>>◌ {ℓ} : {B : Type ℓ} → Outcome (Unit {0}) → Outcome B → Outcome B
m >> k = m >>= λ _. k

-- The two halves of a chain that ended well.
pub ok->>= {ℓ κ} :
    {A : Type ℓ} {B : Type κ} (m : Outcome A) (f : A → Outcome B) (b : B)
    → (m >>= f) ≡ ok b
    → (a : A) × (m ≡ ok a) × (f a ≡ ok b)
ok->>= (ok a) f b h = (a, refl, h)
ok->>= (err e) f b h = absurd (cc h)
ok->>= panic f b h = absurd (cc h)

pub ok_injective {ℓ} : {A : Type ℓ} (a b : A) → ok a ≡ ok b → a ≡ b
ok_injective a b h = cc h

-- `hegel_internal_assert!`
abbrev pub assert : Bool → Outcome (Unit {0})
assert true = ok tt
assert false = err internal

-- `l[i]`
abbrev pub at {ℓ} : {A : Type ℓ} → List A → ℕ → Outcome A
at [] i = panic
at (x ∷ l) zero = ok x
at (x ∷ l) (suc i) = at l i

-- `l[i] = v`
abbrev pub write {ℓ} : {A : Type ℓ} → List A → ℕ → A → Outcome (List A)
write [] i v = panic
write (x ∷ l) zero v = ok (v ∷ l)
write (x ∷ l) (suc i) v = do l' ← write l i v; ok (x ∷ l')

pub record Probability : Type 0 where
  pub numerator : ℕ
  pub denominator : ℕ

abbrev pub ratio : ℕ → ℕ → Probability
ratio n d = record { numerator = n; denominator = d }

pub record TestCase (S : Type 0) : Type 0 where
  pub weighted : Probability → Option Bool → S → Outcome (Bool × S)
  pub weighted_precise : Probability → Option Bool → S → Outcome (Bool × S)
  pub draw_integer : ℤ → ℤ → S → Outcome (ℤ × S)
  pub draw_integer_forced : ℤ → ℤ → ℤ → S → Outcome S
  pub start_span : ℕ → S → S
  pub stop_span : Bool → S → S

-- What a test case promises: a forced Boolean comes back as it is, and an integer lies in its range.
pub record IsTestCase {S : Type 0} (test_case : TestCase S) : Type 0 where
  pub weighted_forced :
      (p : Probability) (b : Bool) (s : S) (r : Bool × S)
      → test_case.weighted p (some b) s ≡ ok r
      → r.0 ≡ b
  pub weighted_precise_forced :
      (p : Probability) (b : Bool) (s : S) (r : Bool × S)
      → test_case.weighted_precise p (some b) s ≡ ok r
      → r.0 ≡ b
  pub draw_integer_bounds :
      (lo hi : ℤ) (s : S) (r : ℤ × S)
      → test_case.draw_integer lo hi s ≡ ok r
      → (lo ≤ℤ r.0) × (r.0 ≤ℤ hi)
