-- ===== src/TestCase/Reply.antt =====
-- What a call on a test case (hegel-c/src/native/core/state.rs) ends in: a value or an error, and in both
-- cases the state that the call has left behind `&mut self`.
use hegel_rust.Base.{◌≡◌, refl}
use hegel_rust.Base.Results
use hegel_rust.Base.Results.{Result}
use hegel_rust.StateMachine.Draws
use hegel_rust.StateMachine.Draws.{EngineError, Outcome}

pub data Reply (S A : Type 0) : Type 0 where
  returns : A → S → Reply S A
  fails : EngineError → S → Reply S A

-- What follows a call.
abbrev pub after : {S A B : Type 0} → Reply S A → (A → S → Reply S B) → Reply S B
after (returns a s) f = f a s
after (fails e s) f = fails e s

infixl 5 ◌>>=◌ ◌>>◌
abbrev pub ◌>>=◌ : {S A B : Type 0} → (S → Reply S A) → (A → S → Reply S B) → S → Reply S B
◌>>=◌ m f s = after (m s) f

abbrev pub ◌>>◌ : {S A B : Type 0} → (S → Reply S A) → (S → Reply S B) → S → Reply S B
◌>>◌ m k s = after (m s) (λ a. k)

abbrev pub pure : {S A : Type 0} → A → S → Reply S A
pure a s = returns a s

abbrev pub modify : {S : Type 0} → (S → S) → S → Reply S (Unit {0})
modify f s = returns tt (f s)

-- `?` on an internal error.
abbrev pub lift : {S A : Type 0} → Result A → S → Reply S A
lift (Results.ok a) s = returns a s
lift Results.internal_error s = fails EngineError.internal s

-- The reply without the state that an error leaves.
abbrev pub outcome : {S A : Type 0} → Reply S A → Outcome (A × S)
outcome (returns a s) = Draws.ok (a, s)
outcome (fails e s) = Draws.err e

-- The two halves of a chain that returned.
pub returns-after :
    {S A B : Type 0} (r : Reply S A) (f : A → S → Reply S B) (b : B) (s' : S)
    → after r f ≡ returns b s'
    → (a : A) × (s : S) × (r ≡ returns a s) × (f a s ≡ returns b s')
returns-after (returns a s) f b s' h = (a, s, refl, h)
returns-after (fails e s) f b s' h = absurd (cc h)

pub returns_injective :
    {S A : Type 0} (a b : A) (s t : S)
    → ◌≡◌ {A = Reply S A} (returns a s) (returns b t)
    → (a ≡ b) × (s ≡ t)
returns_injective a b s t h = (cc h, cc h)

pub after_assoc :
    {S A B C : Type 0} (r : Reply S A) (f : A → S → Reply S B) (g : B → S → Reply S C)
    → after (after r f) g ≡ after r (λ a s. after (f a s) g)
after_assoc (returns a s) f g = refl
after_assoc (fails e s) f g = refl
