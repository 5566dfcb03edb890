-- ===== src/Base/Outcomes.antt =====
-- What a fallible call ends in: a value, an error, or a panic (an index out of range, an `unwrap` of `None`).
use hegel_rust.Base.{
  ℕ, zero, suc, ◌-◌, ◌≡◌, refl, leb, if◌then◌else◌, List, [], ◌∷◌, Option, none, some,
}

pub data Outcome {ℓ} (E : Type 0) (A : Type ℓ) : Type ℓ where
  ok : A → Outcome E A
  err : E → Outcome E A
  panic : Outcome E A

infixl 5 ◌>>=◌
abbrev pub ◌>>=◌ {ℓ κ} :
    {E : Type 0} {A : Type ℓ} {B : Type κ} → Outcome E A → (A → Outcome E B) → Outcome E B
ok a >>= f = f a
err e >>= f = err e
panic >>= f = panic

-- The two halves of a chain that ended well.
pub ok->>= {ℓ κ} :
    {E : Type 0} {A : Type ℓ} {B : Type κ} (m : Outcome E A) (f : A → Outcome E B) (b : B)
    → (m >>= f) ≡ ok b
    → (a : A) × (m ≡ ok a) × (f a ≡ ok b)
ok->>= (ok a) f b h = (a, refl, h)
ok->>= (err e) f b h = absurd (cc h)
ok->>= panic f b h = absurd (cc h)

pub ok_injective {ℓ} :
    {E : Type 0} {A : Type ℓ} (a b : A) → ◌≡◌ {A = Outcome E A} (ok a) (ok b) → a ≡ b
ok_injective a b h = cc h

-- `a - b` on `usize`, whose overflow is a panic.
abbrev pub checked_sub : {E : Type 0} → ℕ → ℕ → Outcome E ℕ
checked_sub a b = if leb b a then ok (a - b) else panic

-- `l[i]`
abbrev pub at {ℓ} : {E : Type 0} {A : Type ℓ} → List A → ℕ → Outcome E A
at [] i = panic
at (x ∷ l) zero = ok x
at (x ∷ l) (suc i) = at l i

-- `l[i] = v`
abbrev pub write {ℓ} : {E : Type 0} {A : Type ℓ} → List A → ℕ → A → Outcome E (List A)
write [] i v = panic
write (x ∷ l) zero v = ok (v ∷ l)
write (x ∷ l) (suc i) v = do l' ← write l i v; ok (x ∷ l')

-- `unwrap`, or `ok_or` with an error.
abbrev pub unwrap {ℓ} : {E : Type 0} {A : Type ℓ} → Option A → Outcome E A
unwrap (some a) = ok a
unwrap none = panic
