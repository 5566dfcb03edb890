-- ===== src/TestCase/Sampling.antt =====
-- What the draws of hegel-c/src/native/core/state.rs take from the samplers, as an interface: the random
-- generator is a library, and the samplers are arithmetic on `f64`. `G` is the type of generation parameters
-- and `R` of the generator.
use hegel_rust.Base.{ℕ, ◌≡◌, Bool, true, List}
use hegel_rust.Base.Int.{ℤ}
use hegel_rust.Base.Results.{Result, ok}
use hegel_rust.Choices.Bytes.{BytesChoice}
use hegel_rust.Choices.Integer
use hegel_rust.Choices.Integer.{IntegerChoice}
use hegel_rust.Choices.Integer.Index.{IsRange}
use hegel_rust.Choices.Kinds.{FloatChoice}
use hegel_rust.Choices.Strings.{StringChoice}
use hegel_rust.StateMachine.Draws.{Probability}

pub record Sampling (G R : Type 0) : Type 0 where
  pub default_parameters : G
  pub biased_integer_sample : IntegerChoice → G → R → Result ℤ × R
  pub biased_float_sample : FloatChoice → R → Result ℕ × R
  pub biased_bytes_sample : BytesChoice → R → Result (List ℕ) × R
  pub biased_string_sample : StringChoice → R → Result (List ℕ) × R
  pub weighted_boolean_sample : Probability → R → Bool × R
  pub weighted_boolean_sample_precise : Probability → R → Bool × R
  -- `random_range(min_value..=max_value)` and `random_range(0..n)`
  pub random_between : ℕ → ℕ → R → ℕ × R
  pub random_below : ℕ → R → ℕ × R

-- What a caller of `draw_integer` relies on: a sample of a range lies in it.
abbrev pub HasIntegers : {G R : Type 0} → Sampling G R → Type 0
HasIntegers {G} {R} m =
    (c : IntegerChoice) (g : G) (r : R) (v : ℤ)
    → IsRange c
    → (m.biased_integer_sample c g r).0 ≡ ok v
    → Integer.validate c v ≡ true
