-- ===== src/TestCase/Body.antt =====
-- A test body, as what it asks of its test case (hegel-c/src/native/core/state.rs): draws, whose values it may
-- go on by, spans, and an early end by an error. Every body of a deterministic test is such a tree.
use hegel_rust.Base.{ℕ, Bool, List, Option}
use hegel_rust.Base.Int.{ℤ, pos}
use hegel_rust.Choices.Bytes.{BytesChoice}
use hegel_rust.Choices.Kinds.{FloatChoice, FloatChoices}
use hegel_rust.Choices.Strings.{StringChoice}
use hegel_rust.Database.{ChoiceValue}
use hegel_rust.StateMachine.Draws.{EngineError, Probability}
use hegel_rust.TestCase.Draw.{
  draw_integer, draw_integer_uniform, draw_integer_forced, draw_fresh_id, draw_from_set, draw_float,
  draw_bytes, draw_string, weighted, weighted_precise,
}
use hegel_rust.TestCase.Reply.{Reply, returns, fails, after, ◌>>=◌}
use hegel_rust.TestCase.Sampling.{Sampling}
use hegel_rust.TestCase.Spans.{start_span, stop_span}
use hegel_rust.TestCase.Stream.{NativeTestCase}

pub data Command : Type 0 where
  integer : ℤ → ℤ → Command
  uniform : ℕ → ℕ → Command
  forced : ℤ → ℤ → ℤ → Command
  fresh_id : Command
  member : List ℕ → Command
  float : FloatChoice → Command
  bytes : BytesChoice → Command
  string : StringChoice → Command
  weigh : Probability → Option Bool → Command
  weigh_precise : Probability → Option Bool → Command

pub data Body (A : Type 0) : Type 0 where
  done : A → Body A
  raise : EngineError → Body A
  draw : Command → (ChoiceValue → Body A) → Body A
  enter : ℕ → Body A → Body A
  leave : Bool → Body A → Body A

module _ {G R : Type 0} (floats : FloatChoices) (sampling : Sampling G R) where
  -- The draw of a command, its result as a choice value.
  unfoldable pub execute : Command → NativeTestCase G R → Reply (NativeTestCase G R) ChoiceValue
  execute (integer lo hi) =
      draw_integer floats sampling lo hi >>= λ v s. returns (ChoiceValue.integer v) s
  execute (uniform lo hi) =
      draw_integer_uniform floats sampling lo hi >>= λ v s. returns (ChoiceValue.integer v) s
  execute (forced lo hi v) =
      draw_integer_forced lo hi v >>= λ u s. returns (ChoiceValue.integer v) s
  execute fresh_id =
      draw_fresh_id floats sampling >>= λ id s. returns (ChoiceValue.integer (pos id)) s
  execute (member l) =
      draw_from_set floats sampling l >>= λ id s. returns (ChoiceValue.integer (pos id)) s
  execute (float c) = draw_float floats sampling c >>= λ f s. returns (ChoiceValue.float f) s
  execute (bytes c) = draw_bytes floats sampling c >>= λ b s. returns (ChoiceValue.bytes b) s
  execute (string c) = draw_string floats sampling c >>= λ t s. returns (ChoiceValue.string t) s
  execute (weigh p f) = weighted floats sampling p f >>= λ b s. returns (ChoiceValue.boolean b) s
  execute (weigh_precise p f) =
      weighted_precise floats sampling p f >>= λ b s. returns (ChoiceValue.boolean b) s

  unfoldable pub run : {A : Type 0} → Body A → NativeTestCase G R → Reply (NativeTestCase G R) A
  unfolding execute start_span stop_span
  run (done a) s = returns a s
  run (raise e) s = fails e s
  run (draw c k) s = after (execute c s) (λ v t. run (k v) t)
  run (enter label b) s = run b (start_span label s).1
  run (leave discard b) s = run b (stop_span discard s)
