-- ===== src/Base/Results.antt =====
-- `Result<T, InternalError>`: a value, or the report that an internal invariant was broken.
use hegel_rust.Base.{Bool, true, false}

pub data Result {ℓ} (A : Type ℓ) : Type ℓ where
  ok : A → Result A
  internal_error : Result A

infixl 5 ◌>>=◌ ◌>>◌
abbrev pub ◌>>=◌ {ℓ κ} : {A : Type ℓ} {B : Type κ} → Result A → (A → Result B) → Result B
ok a >>= f = f a
internal_error >>= f = internal_error

abbrev pub ◌>>◌ {ℓ} : {B : Type ℓ} → Result (Unit {0}) → Result B → Result B
m >> k = m >>= λ _. k

-- `hegel_internal_assert!`
abbrev pub assert : Bool → Result (Unit {0})
assert true = ok tt
assert false = internal_error
