-- ===== src/Base/Ends.antt =====
-- Total correctness of a fallible call: it does not panic, its value has a property, and its error another.
use hegel_rust.Base.{
  ℕ, zero, suc, ◌-◌, ◌<◌, ◌≤◌, leb, ◌≡◌, ◌≢◌, refl, sym, subst, ◌⊎◌, inl, inr, ap, arith, Bool,
  true, false, List, [], ◌∷◌, length, Option, none, some, if◌then◌else◌,
}
use hegel_rust.Base.Outcomes.{
  Outcome, ok, err, panic, ◌>>=◌, ok->>=, ok_injective, at, write, checked_sub,
}

pub data Ends {E A : Type 0} (F : E → Type 0) (P : A → Type 0) : Outcome E A → Type 0 where
  returns : {a : A} → P a → Ends F P (ok a)
  fails : {e : E} → F e → Ends F P (err e)

module _ {E A : Type 0} {F : E → Type 0} {P : A → Type 0} where
  pub Ends-bind :
      {B : Type 0} {Q : B → Type 0} {m : Outcome E A} {f : A → Outcome E B}
      → Ends F P m
      → ((a : A) → P a → Ends F Q (f a))
      → Ends F Q (m >>= f)
  Ends-bind (returns p) k = k _ p
  Ends-bind (fails q) k = fails q

  pub Ends-mono :
      {Q : A → Type 0} {m : Outcome E A} → Ends F P m → ((a : A) → P a → Q a) → Ends F Q m
  Ends-mono (returns p) k = returns (k _ p)
  Ends-mono (fails q) k = fails q

  pub Ends-if :
      (b : Bool) {x y : Outcome E A}
      → (b ≡ true → Ends F P x)
      → (b ≡ false → Ends F P y)
      → Ends F P (if b then x else y)
  Ends-if true p q = p refl
  Ends-if false p q = q refl

  pub Ends-elim :
      {B : Type 0} (o : Option B) (f : B → Outcome E A) (d : Outcome E A)
      → ((b : B) → o ≡ some b → Ends F P (f b))
      → (o ≡ none → Ends F P d)
      → Ends F P (elim o [ some b ↦ f b | none ↦ d ])
  Ends-elim (some b) f d p q = p b refl
  Ends-elim none f d p q = q refl

module _ {E A : Type 0} {F : E → Type 0} where
  pub Ends-at :
      (l : List A) (i : ℕ) → i < length l → Ends F (λ x. at {E = E} l i ≡ ok x) (at {E = E} l i)
  Ends-at [] i h = absurd (omega (arith, h))
  Ends-at (x ∷ l) zero h = returns refl
  Ends-at (x ∷ l) (suc i) h = Ends-at l i (omega arith)

  pub Ends-write :
      (l : List A) (i : ℕ) (v : A)
      → i < length l
      → Ends F (λ l'. write {E = E} l i v ≡ ok l') (write {E = E} l i v)
  Ends-write [] i v h = absurd (omega (arith, h))
  Ends-write (x ∷ l) zero v h = returns refl
  Ends-write (x ∷ l) (suc i) v h =
      Ends-bind (Ends-write l i v (omega arith)) (λ l' e. returns (rw e))

module _ {E B : Type 0} {F : E → Type 0} {Q : B → Type 0} where
  -- A subtraction that does not underflow goes on with the difference.
  pub Ends-sub :
      (a b : ℕ) (f : ℕ → Outcome E B)
      → b ≤ a
      → Ends F Q (f (a - b))
      → Ends F Q (checked_sub a b >>= f)
  Ends-sub a b f h k = let e : leb b a ≡ true = ground arith in rw e k

-- What a write leaves at another place, and at its own.
module _ {E A : Type 0} where
  pub length-write :
      (l : List A) (i : ℕ) (v : A) (l' : List A)
      → write {E = E} l i v ≡ ok l'
      → length l' ≡ length l
  length-write [] i v l' h = absurd (cc h)
  length-write (x ∷ l) zero v l' h = sym (ap length (ok_injective (v ∷ l) l' h))
  length-write (x ∷ l) (suc i) v l' h =
      let (rest, hr, h1) = ok->>= (write l i v) _ l' h in
      subst (λ k. length k ≡ suc (length l)) (ok_injective (x ∷ rest) l' h1)
        (ap suc (length-write l i v rest hr))

  pub at-write_cases :
      (l : List A) (i g : ℕ) (v : A) (l' : List A) (x : A)
      → write {E = E} l i v ≡ ok l'
      → at {E = E} l' g ≡ ok x
      → ((g ≡ i) × (x ≡ v)) ⊎ ((g ≢ i) × (at {E = E} l g ≡ ok x))
  at-write_cases [] i g v l' x h e = absurd (cc h)
  at-write_cases (y ∷ l) zero zero v l' x h e =
      let same = ok_injective (v ∷ l) l' h in
      inl (refl, ok_injective x v (sym (subst (λ k. at {E = E} k 0 ≡ ok x) (sym same) e)))
  at-write_cases (y ∷ l) zero (suc g) v l' x h e =
      let same = ok_injective (v ∷ l) l' h in
      inr (ground arith, subst (λ k. at {E = E} k (suc g) ≡ ok x) (sym same) e)
  at-write_cases (y ∷ l) (suc i) zero v l' x h e =
      let (rest, hr, h1) = ok->>= (write l i v) _ l' h in
      let same = ok_injective (y ∷ rest) l' h1 in
      inr (ground arith, subst (λ k. at {E = E} k 0 ≡ ok x) (sym same) e)
  at-write_cases (y ∷ l) (suc i) (suc g) v l' x h e =
      let (rest, hr, h1) = ok->>= (write l i v) _ l' h in
      let same = ok_injective (y ∷ rest) l' h1 in
      elim (at-write_cases l i g v rest x hr
        (subst (λ k. at {E = E} k (suc g) ≡ ok x) (sym same) e)) [
          | inl (p, q) ↦ inl (ap suc p, q)
          | inr (p, q) ↦ inr (ground arith, q)
        ]

  pub at-lt : (l : List A) (i : ℕ) (x : A) → at {E = E} l i ≡ ok x → i < length l
  at-lt [] i x h = absurd (cc h)
  at-lt (y ∷ l) zero x h = omega arith
  at-lt (y ∷ l) (suc i) x h = omega (arith, at-lt l i x h)

-- The value, and the equation that gives it.
pub Ends-ok :
    {E A : Type 0} {F : E → Type 0} {P : A → Type 0} {m : Outcome E A}
    → Ends F P m
    → Ends F (λ a. (m ≡ ok a) × P a) m
Ends-ok (returns p) = returns (refl, p)
Ends-ok (fails q) = fails q

-- A call with no error ends in a value.
pub Ends-value :
    {E A : Type 0} {P : A → Type 0} (m : Outcome E A)
    → Ends (λ e. ⊥) P m
    → (a : A) × (m ≡ ok a) × P a
Ends-value (ok a) (returns p) = (a, refl, p)
Ends-value (err e) (fails q) = absurd q
Ends-value panic h = elim h [ ]

-- What holds of the value that a call has ended in.
pub Ends-at_ok :
    {E A : Type 0} {F : E → Type 0} {P : A → Type 0} {m : Outcome E A} (a : A)
    → Ends F P m
    → m ≡ ok a
    → P a
Ends-at_ok {P = P} a (returns {a = b} p) h = subst P (ok_injective b a h) p
Ends-at_ok a (fails q) h = absurd (cc h)

-- An answer by the head of a list.
pub Ends-list :
    {E A B : Type 0} {F : E → Type 0} {P : A → Type 0} (l : List B) (d : Outcome E A)
    (f : B → List B → Outcome E A)
    → (l ≡ [] → Ends F P d)
    → ((x : B) (rest : List B) → l ≡ x ∷ rest → Ends F P (f x rest))
    → Ends F P (elim l [ [] ↦ d | x ∷ rest ↦ f x rest ])
Ends-list [] d f p q = p refl
Ends-list (x ∷ rest) d f p q = q x rest refl
