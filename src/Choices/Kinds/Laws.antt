-- ===== src/Choices/Kinds/Laws.antt =====
-- `ChoiceKind` and `ChoiceData` of hegel-c/src/native/core/choices.rs: `is_simplest` against
-- `simplest_value`, and `resolve` against `kind` and `value`.
use hegel_rust.Base.{arith, ◌==◌, ◌≡◌, refl, true, false, some}
use hegel_rust.Base.Results.{ok, internal_error, ◌>>=◌}
use hegel_rust.Choices.Kinds.{
  FloatChoices, ChoiceKind, ChoiceData, nil, cons, value_eq, kind, value, is_empty, simplest_value,
  is_simplest, resolve,
}
use hegel_rust.Choices.Strings
use hegel_rust.Database.{ChoiceValue}
use hegel_rust.ExecCache.{eqb_list}

module _ (floats : FloatChoices) where
  -- `is_simplest` is `value() == simplest_value()`, its errors included.
  pub is_simplest-value :
      (d : ChoiceData)
      → is_simplest floats d ≡ (do w ← simplest_value floats d; ok (value_eq (value d) w))
  unfolding is_simplest simplest_value value_eq value is_empty
  is_simplest-value (ChoiceData.integer c v) = refl
  is_simplest-value (ChoiceData.boolean c true) = refl
  is_simplest-value (ChoiceData.boolean c false) = refl
  is_simplest-value (ChoiceData.float c v) =
      elim (floats.simplest c)
        as (λ r. (r >>= λ f. ok (v == f)) ≡ (
          (r >>= λ f. ok (ChoiceValue.float f)) >>= λ w. ok (value_eq (ChoiceValue.float v) w))) [
            | ok f ↦ refl
            | internal_error ↦ refl
          ]
  is_simplest-value (ChoiceData.bytes c v) = refl
  is_simplest-value (ChoiceData.string c v) =
      elim (Strings.simplest c)
        as (λ r. (r >>= λ f. ok (eqb_list v f)) ≡ (
          (r >>= λ f. ok (ChoiceValue.string f)) >>= λ w. ok (value_eq (ChoiceValue.string v) w))) [
            | ok f ↦ refl
            | internal_error ↦ refl
          ]
  is_simplest-value (ChoiceData.clone nil s) = refl
  is_simplest-value (ChoiceData.clone (cons d b n) s) = refl

  -- A value resolved against a kind is that value under that kind.
  pub resolve-kind :
      (k : ChoiceKind) (v : ChoiceValue) (d : ChoiceData)
      → resolve floats k v ≡ some d
      → (kind d ≡ k) × (value d ≡ v)
  unfolding resolve kind value
  resolve-kind (ChoiceKind.integer c) (ChoiceValue.integer v) d h = ground arith
  resolve-kind (ChoiceKind.integer c) (ChoiceValue.boolean v) d h = absurd (cc h)
  resolve-kind (ChoiceKind.integer c) (ChoiceValue.float v) d h = absurd (cc h)
  resolve-kind (ChoiceKind.integer c) (ChoiceValue.bytes v) d h = absurd (cc h)
  resolve-kind (ChoiceKind.integer c) (ChoiceValue.string v) d h = absurd (cc h)
  resolve-kind (ChoiceKind.integer c) (ChoiceValue.clone v) d h = absurd (cc h)
  resolve-kind (ChoiceKind.boolean c) (ChoiceValue.integer v) d h = absurd (cc h)
  resolve-kind (ChoiceKind.boolean c) (ChoiceValue.boolean v) d h = ground arith
  resolve-kind (ChoiceKind.boolean c) (ChoiceValue.float v) d h = absurd (cc h)
  resolve-kind (ChoiceKind.boolean c) (ChoiceValue.bytes v) d h = absurd (cc h)
  resolve-kind (ChoiceKind.boolean c) (ChoiceValue.string v) d h = absurd (cc h)
  resolve-kind (ChoiceKind.boolean c) (ChoiceValue.clone v) d h = absurd (cc h)
  resolve-kind (ChoiceKind.float c) (ChoiceValue.integer v) d h = absurd (cc h)
  resolve-kind (ChoiceKind.float c) (ChoiceValue.boolean v) d h = absurd (cc h)
  resolve-kind (ChoiceKind.float c) (ChoiceValue.float v) d h = ground arith
  resolve-kind (ChoiceKind.float c) (ChoiceValue.bytes v) d h = absurd (cc h)
  resolve-kind (ChoiceKind.float c) (ChoiceValue.string v) d h = absurd (cc h)
  resolve-kind (ChoiceKind.float c) (ChoiceValue.clone v) d h = absurd (cc h)
  resolve-kind (ChoiceKind.bytes c) (ChoiceValue.integer v) d h = absurd (cc h)
  resolve-kind (ChoiceKind.bytes c) (ChoiceValue.boolean v) d h = absurd (cc h)
  resolve-kind (ChoiceKind.bytes c) (ChoiceValue.float v) d h = absurd (cc h)
  resolve-kind (ChoiceKind.bytes c) (ChoiceValue.bytes v) d h = ground arith
  resolve-kind (ChoiceKind.bytes c) (ChoiceValue.string v) d h = absurd (cc h)
  resolve-kind (ChoiceKind.bytes c) (ChoiceValue.clone v) d h = absurd (cc h)
  resolve-kind (ChoiceKind.string c) (ChoiceValue.integer v) d h = absurd (cc h)
  resolve-kind (ChoiceKind.string c) (ChoiceValue.boolean v) d h = absurd (cc h)
  resolve-kind (ChoiceKind.string c) (ChoiceValue.float v) d h = absurd (cc h)
  resolve-kind (ChoiceKind.string c) (ChoiceValue.bytes v) d h = absurd (cc h)
  resolve-kind (ChoiceKind.string c) (ChoiceValue.string v) d h = ground arith
  resolve-kind (ChoiceKind.string c) (ChoiceValue.clone v) d h = absurd (cc h)
  resolve-kind ChoiceKind.clone v d h = absurd (cc h)
