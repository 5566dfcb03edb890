-- ===== src/Choices/Kinds.antt =====
-- hegel-c/src/native/core/choices.rs: `ChoiceKind`, a constraint of any kind, and `ChoiceData`, a constraint
-- with the value drawn under it. The constraint of a float is a component of its own, taken as an interface
-- over bit patterns.
pub mod Laws
use hegel_rust.Base.{
  ℕ, zero, suc, ◌==◌, Bool, true, false, not, ◌&&◌, if◌then◌else◌, List, [], ◌∷◌, Option, none,
  some,
}
use hegel_rust.Base.Int.{ℤ, eqb_ℤ}
use hegel_rust.Base.Results.{Result, ok, internal_error, ◌>>=◌}
use hegel_rust.Choices.Bytes
use hegel_rust.Choices.Bytes.{BytesChoice}
use hegel_rust.Choices.Integer
use hegel_rust.Choices.Integer.{IntegerChoice}
use hegel_rust.Choices.Strings
use hegel_rust.Choices.Strings.{StringChoice}
use hegel_rust.Database.{ChoiceValue, ChoiceValues}
use hegel_rust.ExecCache.{eqb_list}
use hegel_rust.StateMachine.Draws.{Probability}
use hegel_rust.TestCase.Span.{Span}

-- The `f64`s by their bits.
pub record FloatChoice : Type 0 where
  pub min_value : ℕ
  pub max_value : ℕ
  pub allow_nan : Bool
  pub allow_infinity : Bool
  pub smallest_nonzero_magnitude : ℕ

pub record FloatChoices : Type 0 where
  pub simplest : FloatChoice → Result ℕ
  pub unit : FloatChoice → Result ℕ
  pub validate : FloatChoice → ℕ → Bool
  pub max_index : FloatChoice → ℕ
  pub to_index : FloatChoice → ℕ → Result ℕ
  pub from_index : FloatChoice → ℕ → Result (Option ℕ)

pub record BooleanChoice : Type 0 where
  pub p : Probability

unfoldable pub boolean_to_index : Bool → ℕ
boolean_to_index value = if value then 1 else 0

unfoldable pub boolean_from_index : ℕ → Option Bool
boolean_from_index index = if index == 0 then some false else if index == 1 then some true else none

pub data ChoiceKind : Type 0 where
  integer : IntegerChoice → ChoiceKind
  boolean : BooleanChoice → ChoiceKind
  float : FloatChoice → ChoiceKind
  bytes : BytesChoice → ChoiceKind
  string : StringChoice → ChoiceKind
  clone : ChoiceKind

-- A clone holds its realized stream: the nodes, each with whether its draw was forced, and the spans.
mutual
  pub data ChoiceData : Type 0 where
    integer : IntegerChoice → ℤ → ChoiceData
    boolean : BooleanChoice → Bool → ChoiceData
    float : FloatChoice → ℕ → ChoiceData
    bytes : BytesChoice → List ℕ → ChoiceData
    string : StringChoice → List ℕ → ChoiceData
    clone : RealizedNodes → List Span → ChoiceData

  pub data RealizedNodes : Type 0 where
    nil : RealizedNodes
    cons : ChoiceData → Bool → RealizedNodes → RealizedNodes

pub record ChoiceNode : Type 0 where
  pub choice : ChoiceData
  pub was_forced : Bool

abbrev pub eqb_bool : Bool → Bool → Bool
eqb_bool true b = b
eqb_bool false b = not b

-- `==` on choice values: a clone by the values of its stream.
unfoldable mutual
  pub value_eq : ChoiceValue → ChoiceValue → Bool
  value_eq (ChoiceValue.integer a) (ChoiceValue.integer b) = eqb_ℤ a b
  value_eq (ChoiceValue.boolean a) (ChoiceValue.boolean b) = eqb_bool a b
  value_eq (ChoiceValue.float a) (ChoiceValue.float b) = a == b
  value_eq (ChoiceValue.bytes a) (ChoiceValue.bytes b) = eqb_list a b
  value_eq (ChoiceValue.string a) (ChoiceValue.string b) = eqb_list a b
  value_eq (ChoiceValue.clone a) (ChoiceValue.clone b) = values_eq a b
  value_eq _ _ = false

  pub values_eq : ChoiceValues → ChoiceValues → Bool
  values_eq ChoiceValues.nil ChoiceValues.nil = true
  values_eq (ChoiceValues.cons a as') (ChoiceValues.cons b bs) = value_eq a b && values_eq as' bs
  values_eq _ _ = false

unfoldable pub kind : ChoiceData → ChoiceKind
kind (ChoiceData.integer c _) = ChoiceKind.integer c
kind (ChoiceData.boolean c _) = ChoiceKind.boolean c
kind (ChoiceData.float c _) = ChoiceKind.float c
kind (ChoiceData.bytes c _) = ChoiceKind.bytes c
kind (ChoiceData.string c _) = ChoiceKind.string c
kind (ChoiceData.clone _ _) = ChoiceKind.clone

unfoldable mutual
  pub value : ChoiceData → ChoiceValue
  value (ChoiceData.integer _ v) = ChoiceValue.integer v
  value (ChoiceData.boolean _ v) = ChoiceValue.boolean v
  value (ChoiceData.float _ v) = ChoiceValue.float v
  value (ChoiceData.bytes _ v) = ChoiceValue.bytes v
  value (ChoiceData.string _ v) = ChoiceValue.string v
  value (ChoiceData.clone nodes _) = ChoiceValue.clone (values nodes)

  pub values : RealizedNodes → ChoiceValues
  values nil = ChoiceValues.nil
  values (cons d _ nodes) = ChoiceValues.cons (value d) (values nodes)

unfoldable pub is_empty : RealizedNodes → Bool
is_empty nil = true
is_empty (cons _ _ _) = false

-- `o.map(f)` under a result.
abbrev pub mapped : {A B : Type 0} → (A → B) → Option A → Option B
mapped f none = none
mapped f (some a) = some (f a)

module _ (floats : FloatChoices) where
  unfoldable pub simplest : ChoiceKind → Result ChoiceValue
  simplest (ChoiceKind.integer c) = ok (ChoiceValue.integer (Integer.simplest c))
  simplest (ChoiceKind.boolean _) = ok (ChoiceValue.boolean false)
  simplest (ChoiceKind.float c) = do f ← floats.simplest c; ok (ChoiceValue.float f)
  simplest (ChoiceKind.bytes c) = ok (ChoiceValue.bytes (Bytes.simplest c))
  simplest (ChoiceKind.string c) = do s ← Strings.simplest c; ok (ChoiceValue.string s)
  simplest ChoiceKind.clone = ok (ChoiceValue.clone ChoiceValues.nil)

  unfoldable pub unit : ChoiceKind → Result ChoiceValue
  unit (ChoiceKind.integer c) = ok (ChoiceValue.integer (Integer.unit c))
  unit (ChoiceKind.boolean _) = ok (ChoiceValue.boolean true)
  unit (ChoiceKind.float c) = do f ← floats.unit c; ok (ChoiceValue.float f)
  unit (ChoiceKind.bytes c) = ok (ChoiceValue.bytes (Bytes.unit c))
  unit (ChoiceKind.string c) = do s ← Strings.unit c; ok (ChoiceValue.string s)
  unit ChoiceKind.clone = ok (ChoiceValue.clone ChoiceValues.nil)

  unfoldable pub max_index : ChoiceKind → Option ℕ
  max_index (ChoiceKind.integer c) = some (Integer.max_index c)
  max_index (ChoiceKind.boolean _) = some 1
  max_index (ChoiceKind.float c) = some (floats.max_index c)
  max_index (ChoiceKind.bytes c) = some (Bytes.max_index c)
  max_index (ChoiceKind.string c) = some (Strings.max_index c)
  max_index ChoiceKind.clone = none

  unfoldable pub from_index : ChoiceKind → ℕ → Result (Option ChoiceValue)
  from_index (ChoiceKind.integer c) i = ok (mapped ChoiceValue.integer (Integer.from_index c i))
  from_index (ChoiceKind.boolean _) i = ok (mapped ChoiceValue.boolean (boolean_from_index i))
  from_index (ChoiceKind.float c) i = do o ← floats.from_index c i; ok (mapped ChoiceValue.float o)
  from_index (ChoiceKind.bytes c) i = do o ← Bytes.from_index c i; ok (mapped ChoiceValue.bytes o)
  from_index (ChoiceKind.string c) i = do
    o ← Strings.from_index c i
    ok (mapped ChoiceValue.string o)
  from_index ChoiceKind.clone i = ok none

  unfoldable pub resolve : ChoiceKind → ChoiceValue → Option ChoiceData
  resolve (ChoiceKind.integer c) (ChoiceValue.integer v) =
      if Integer.validate c v then some (ChoiceData.integer c v) else none
  resolve (ChoiceKind.boolean c) (ChoiceValue.boolean v) = some (ChoiceData.boolean c v)
  resolve (ChoiceKind.float c) (ChoiceValue.float v) =
      if floats.validate c v then some (ChoiceData.float c v) else none
  resolve (ChoiceKind.bytes c) (ChoiceValue.bytes v) =
      if Bytes.validate c v then some (ChoiceData.bytes c v) else none
  resolve (ChoiceKind.string c) (ChoiceValue.string v) =
      if Strings.validate c v then some (ChoiceData.string c v) else none
  resolve _ _ = none

  unfoldable pub simplest_value : ChoiceData → Result ChoiceValue
  unfolding kind simplest
  simplest_value d = simplest (kind d)

  unfoldable pub is_simplest : ChoiceData → Result Bool
  is_simplest (ChoiceData.integer c v) = ok (eqb_ℤ v (Integer.simplest c))
  is_simplest (ChoiceData.boolean _ v) = ok (not v)
  is_simplest (ChoiceData.float c v) = do f ← floats.simplest c; ok (v == f)
  is_simplest (ChoiceData.bytes c v) = ok (eqb_list v (Bytes.simplest c))
  is_simplest (ChoiceData.string c v) = do s ← Strings.simplest c; ok (eqb_list v s)
  is_simplest (ChoiceData.clone nodes _) = ok (is_empty nodes)

  unfoldable pub with_simplest : ChoiceData → Result ChoiceData
  with_simplest (ChoiceData.integer c _) = ok (ChoiceData.integer c (Integer.simplest c))
  with_simplest (ChoiceData.boolean c _) = ok (ChoiceData.boolean c false)
  with_simplest (ChoiceData.float c _) = do f ← floats.simplest c; ok (ChoiceData.float c f)
  with_simplest (ChoiceData.bytes c _) = ok (ChoiceData.bytes c (Bytes.simplest c))
  with_simplest (ChoiceData.string c _) = do s ← Strings.simplest c; ok (ChoiceData.string c s)
  with_simplest (ChoiceData.clone _ _) = ok (ChoiceData.clone nil [])

  unfoldable pub to_index : ChoiceData → Result (Option ℕ)
  to_index (ChoiceData.integer c v) = ok (some (Integer.to_index c v))
  to_index (ChoiceData.boolean _ v) = ok (some (boolean_to_index v))
  to_index (ChoiceData.float c v) = do i ← floats.to_index c v; ok (some i)
  to_index (ChoiceData.bytes c v) = ok (some (Bytes.to_index c v))
  to_index (ChoiceData.string c v) = do i ← Strings.to_index c v; ok (some i)
  to_index (ChoiceData.clone _ _) = ok none
