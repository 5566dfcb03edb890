-- ===== src/TestCase/Replay/Sources.antt =====
-- The prefix of each draw of hegel-c/src/native/core/state.rs takes back a value that fits its constraint.
use hegel_rust.Base.{ℕ, refl, arith, Bool, true, false, List}
use hegel_rust.Base.Int.{ℤ}
use hegel_rust.Base.Results
use hegel_rust.Base.Results.{Result}
use hegel_rust.Choices.Bytes
use hegel_rust.Choices.Bytes.{BytesChoice, set_last}
use hegel_rust.Choices.Integer
use hegel_rust.Choices.Integer.{IntegerChoice}
use hegel_rust.Choices.Kinds.{
  ChoiceData, FloatChoice, FloatChoices, BooleanChoice, kind, resolve, value,
}
use hegel_rust.Choices.Strings
use hegel_rust.Choices.Strings.{StringChoice}
use hegel_rust.TestCase.Draw.{
  integer_from_prefix, float_from_prefix, bytes_from_prefix, string_from_prefix,
  boolean_from_prefix,
}
use hegel_rust.TestCase.Replay.Steps.{IsSource, direct-IsSource}

module _ {R : Type 0} (floats : FloatChoices) where
  pub integer-IsSource :
      (c : IntegerChoice) (random : R → Result ℤ × R)
      → IsSource floats
          (λ v. Unit {0})
          (Results.ok (Integer.simplest c))
          (Results.ok (Integer.unit c))
          (integer_from_prefix c)
          random
          (ChoiceData.integer c)
  unfolding integer_from_prefix value resolve kind
  integer-IsSource c random =
      direct-IsSource floats _ _ _ random (ChoiceData.integer c) (λ v f. ground arith)

  pub float-IsSource :
      (c : FloatChoice) (random : R → Result ℕ × R)
      → IsSource floats
          (λ v. Unit {0})
          (floats.simplest c)
          (floats.unit c)
          (float_from_prefix floats c)
          random
          (ChoiceData.float c)
  unfolding float_from_prefix value resolve kind
  float-IsSource c random =
      direct-IsSource floats _ _ _ random (ChoiceData.float c) (λ v f. ground arith)

  pub bytes-IsSource :
      (c : BytesChoice) (random : R → Result (List ℕ) × R)
      → IsSource floats
          (λ v. Unit {0})
          (Results.ok (Bytes.simplest c))
          (Results.ok (Bytes.unit c))
          (bytes_from_prefix c)
          random
          (ChoiceData.bytes c)
  unfolding bytes_from_prefix value resolve kind
  bytes-IsSource c random =
      direct-IsSource floats _ _ _ random (ChoiceData.bytes c) (λ v f. ground arith)

  pub string-IsSource :
      (c : StringChoice) (random : R → Result (List ℕ) × R)
      → IsSource floats
          (λ v. Unit {0})
          (Strings.simplest c)
          (Strings.unit c)
          (string_from_prefix c)
          random
          (ChoiceData.string c)
  unfolding string_from_prefix value resolve kind
  string-IsSource c random =
      direct-IsSource floats _ _ _ random (ChoiceData.string c) (λ v f. ground arith)

  pub boolean-IsSource :
      (c : BooleanChoice) (random : R → Result Bool × R)
      → IsSource floats
          (λ v. Unit {0})
          (Results.ok false)
          (Results.ok true)
          boolean_from_prefix
          random
          (ChoiceData.boolean c)
  unfolding boolean_from_prefix value resolve kind
  boolean-IsSource c random =
      direct-IsSource floats _ _ _ random (ChoiceData.boolean c) (λ v f. refl)
