-- ===== src/TestCase/Draw.antt =====
-- hegel-c/src/native/core/state.rs: the draws of a stream by kind. The integer draws are over unbounded integers:
-- the source's conversion from and to a machine width cannot fail between bounds of that width.
use hegel_rust.Base.{
  ℕ, ◌+◌, ◌==◌, Bool, true, false, not, ltb, leb, ◌&&◌, ◌||◌, if◌then◌else◌, List, [], ◌∷◌, ◌++◌,
  length, get_elem?, Option, none, some,
}
use hegel_rust.Base.Int.{ℤ, pos, leb_ℤ}
use hegel_rust.Base.Results
use hegel_rust.Base.Results.{Result}
use hegel_rust.Choices.Bytes
use hegel_rust.Choices.Bytes.{BytesChoice}
use hegel_rust.Choices.Integer
use hegel_rust.Choices.Integer.{IntegerChoice}
use hegel_rust.Choices.Kinds.{ChoiceData, FloatChoice, FloatChoices}
use hegel_rust.Choices.Strings
use hegel_rust.Choices.Strings.{StringChoice}
use hegel_rust.Database.{ChoiceValue}
use hegel_rust.IntervalSet.ShrinkOrder.{is_char}
use hegel_rust.StateMachine.Draws.{Probability}
use hegel_rust.TestCase.Ids.{
  smallest_unused_id, largest, insert_id, contains_id, sorted_ids, floor_member, smallest_member,
}
use hegel_rust.TestCase.Reply.{Reply, returns, ◌>>=◌, ◌>>◌, lift, modify}
use hegel_rust.TestCase.Resolve.{resolve_choice, pre_choice}
use hegel_rust.TestCase.Sampling.{Sampling}
use hegel_rust.TestCase.Stream.{NativeTestCase}

-- The `from_prefix` of each draw.
unfoldable pub integer_from_prefix : IntegerChoice → ChoiceValue → Option ℤ
integer_from_prefix c (ChoiceValue.integer n) = if Integer.validate c n then some n else none
integer_from_prefix c _ = none

unfoldable pub float_from_prefix : FloatChoices → FloatChoice → ChoiceValue → Option ℕ
float_from_prefix floats c (ChoiceValue.float f) = if floats.validate c f then some f else none
float_from_prefix floats c _ = none

unfoldable pub bytes_from_prefix : BytesChoice → ChoiceValue → Option (List ℕ)
bytes_from_prefix c (ChoiceValue.bytes b) = if Bytes.validate c b then some b else none
bytes_from_prefix c _ = none

unfoldable pub string_from_prefix : StringChoice → ChoiceValue → Option (List ℕ)
string_from_prefix c (ChoiceValue.string s) = if Strings.validate c s then some s else none
string_from_prefix c _ = none

unfoldable pub boolean_from_prefix : ChoiceValue → Option Bool
boolean_from_prefix (ChoiceValue.boolean b) = some b
boolean_from_prefix _ = none

-- An identifier of the window that is not in use.
unfoldable pub id_from_prefix : ℕ → List ℕ → ChoiceValue → Option ℕ
id_from_prefix window_hi used (ChoiceValue.integer (pos id)) =
    if leb id window_hi && not (contains_id id used) then some id else none
id_from_prefix window_hi used _ = none

unfoldable pub member_from_prefix : ℕ → ChoiceValue → Option ℕ
member_from_prefix window_hi (ChoiceValue.integer (pos id)) =
    if leb id window_hi then some id else none
member_from_prefix window_hi _ = none

-- The ends of the recorded ranges: two above the largest identifier drawn, and one above it, from -1.
unfoldable pub fresh_window : List ℕ → ℕ
fresh_window used = elim (largest used) [ none ↦ 1 | some m ↦ m + 2 ]

unfoldable pub set_window : List ℕ → ℕ
set_window used = elim (largest used) [ none ↦ 0 | some m ↦ m + 1 ]

abbrev pub range_of : ℤ → ℤ → IntegerChoice
range_of lo hi = record { min_value = lo; max_value = hi; shrink_towards = pos 0 }

-- The value that a probability outside (0, 1) forces.
unfoldable pub forced_by : Probability → Option Bool → Option Bool
forced_by p (some b) = some b
forced_by p none =
    if p.numerator == 0
    then some false
    else if leb p.denominator p.numerator
    then some true
    else none

-- `filter_map(char::from_u32)`: what is no character is dropped.
unfoldable pub codepoints_to_string : List ℕ → List ℕ
codepoints_to_string [] = []
codepoints_to_string (cp ∷ cps) =
    let rest = codepoints_to_string cps in if is_char cp then cp ∷ rest else rest

module _ {G R : Type 0} where
  unfoldable pub push_node : ChoiceData → Bool → NativeTestCase G R → NativeTestCase G R
  push_node choice was_forced s = record s {
    nodes = s.nodes ++ record { choice = choice; was_forced = was_forced } ∷ [];
  }

  unfoldable pub register_id : ℕ → NativeTestCase G R → NativeTestCase G R
  register_id id s = record s {
    family = record s.family { fresh_ids = insert_id id s.family.fresh_ids };
  }

  -- Recording a resolved choice.
  abbrev pub recorded :
      {V : Type 0} → (V → ChoiceData) → V × Bool → NativeTestCase G R → Reply (NativeTestCase G R) V
  recorded choice (v, was_forced) s = returns v (push_node (choice v) was_forced s)

  unfoldable pub draw_integer_forced :
      ℤ → ℤ → ℤ → NativeTestCase G R → Reply (NativeTestCase G R) (Unit {0})
  unfolding push_node
  draw_integer_forced lo hi v =
      lift (Results.assert (leb_ℤ lo v && leb_ℤ v hi))
      >> (pre_choice >> modify (push_node (ChoiceData.integer (range_of lo hi) v) true))

  module _ (floats : FloatChoices) (sampling : Sampling G R) where
    unfoldable pub draw_integer_from :
        IntegerChoice → (R → Result ℤ × R) → NativeTestCase G R → Reply (NativeTestCase G R) ℤ
    unfolding push_node
    draw_integer_from kind sample =
        resolve_choice floats (Results.ok (Integer.simplest kind)) (Results.ok (Integer.unit kind))
          (integer_from_prefix kind) sample
        >>= recorded (ChoiceData.integer kind)

    unfoldable pub parameters_of : NativeTestCase G R → G
    parameters_of s = elim s.family.generation_parameters [
      | some params ↦ params
      | none ↦ sampling.default_parameters
    ]

    unfoldable pub draw_integer : ℤ → ℤ → NativeTestCase G R → Reply (NativeTestCase G R) ℤ
    unfolding draw_integer_from parameters_of
    draw_integer lo hi = lift (Results.assert (leb_ℤ lo hi)) >> λ s.
        draw_integer_from (range_of lo hi)
          (sampling.biased_integer_sample (range_of lo hi) (parameters_of s)) s

    unfoldable pub uniform_sample : ℕ → ℕ → R → Result ℤ × R
    uniform_sample lo hi r =
        let (n, r') = sampling.random_between lo hi r in (Results.ok (pos n), r')

    unfoldable pub draw_integer_uniform : ℕ → ℕ → NativeTestCase G R → Reply (NativeTestCase G R) ℤ
    unfolding draw_integer_from uniform_sample
    draw_integer_uniform lo hi =
        lift (Results.assert (leb lo hi))
        >> draw_integer_from (range_of (pos lo) (pos hi)) (uniform_sample lo hi)

    -- `used` is the registry at the start of the draw.
    unfoldable pub draw_id_outside : List ℕ → NativeTestCase G R → Reply (NativeTestCase G R) ℕ
    unfolding push_node register_id
    draw_id_outside used =
        resolve_choice floats (Results.ok (smallest_unused_id used))
          (Results.ok (smallest_unused_id used)) (id_from_prefix (fresh_window used) used)
          (λ r. (Results.ok (smallest_unused_id used), r))
        >>= λ (id, was_forced) s. returns id (
            register_id id (
              push_node (ChoiceData.integer (range_of (pos 0) (pos (fresh_window used))) (pos id))
                was_forced s))

    unfoldable pub draw_fresh_id : NativeTestCase G R → Reply (NativeTestCase G R) ℕ
    unfolding draw_id_outside
    draw_fresh_id s = draw_id_outside s.family.fresh_ids s

    unfoldable pub member_sample : List ℕ → R → Result ℕ × R
    member_sample sorted r =
        let (i, r') = sampling.random_below (length sorted) r in
        (elim (get_elem? sorted i) [ some m ↦ Results.ok m | none ↦ Results.internal_error ], r')

    -- `draw_from_set` of sorted members, with the end of the window.
    unfoldable pub draw_member : List ℕ → ℕ → NativeTestCase G R → Reply (NativeTestCase G R) ℕ
    unfolding member_sample push_node
    draw_member sorted window_hi =
        lift (Results.assert (leb (elim (largest sorted) [ some m ↦ m | none ↦ 0 ]) window_hi))
        >> (resolve_choice floats (Results.ok (smallest_member sorted))
              (Results.ok (smallest_member sorted)) (member_from_prefix window_hi)
              (member_sample sorted)
            >>= λ (raw, was_forced).
                recorded (λ id. ChoiceData.integer (range_of (pos 0) (pos window_hi)) (pos id))
                  (floor_member (smallest_member sorted) raw sorted, was_forced))

    -- The members are natural numbers: the source asserts that none is negative.
    unfoldable pub draw_from_set : List ℕ → NativeTestCase G R → Reply (NativeTestCase G R) ℕ
    unfolding draw_member
    draw_from_set members = lift (Results.assert (ltb 0 (length members))) >> λ s.
        draw_member (sorted_ids members) (set_window s.family.fresh_ids) s

    -- The draws of floats, bytes and strings take the constraint that the source builds from their arguments.
    unfoldable pub draw_float : FloatChoice → NativeTestCase G R → Reply (NativeTestCase G R) ℕ
    unfolding push_node
    draw_float kind =
        resolve_choice floats (floats.simplest kind) (floats.unit kind)
          (float_from_prefix floats kind) (sampling.biased_float_sample kind)
        >>= recorded (ChoiceData.float kind)

    unfoldable pub draw_bytes :
        BytesChoice → NativeTestCase G R → Reply (NativeTestCase G R) (List ℕ)
    unfolding push_node
    draw_bytes kind =
        lift (Results.assert (leb kind.min_size kind.max_size))
        >> (resolve_choice floats (Results.ok (Bytes.simplest kind)) (Results.ok (Bytes.unit kind))
              (bytes_from_prefix kind) (sampling.biased_bytes_sample kind)
            >>= recorded (ChoiceData.bytes kind))

    -- The node keeps the codepoints, and the caller gets the `String` of them.
    unfoldable pub draw_string :
        StringChoice → NativeTestCase G R → Reply (NativeTestCase G R) (List ℕ)
    unfolding push_node codepoints_to_string
    draw_string kind =
        lift (Results.assert (leb kind.min_size kind.max_size))
        >> (lift (Results.assert (not (kind.intervals.size == 0) || kind.max_size == 0))
            >> (resolve_choice floats (Strings.simplest kind) (Strings.unit kind)
                  (string_from_prefix kind) (sampling.biased_string_sample kind)
                >>= recorded (ChoiceData.string kind)
                >>= λ v s. returns (codepoints_to_string v) s))

    unfoldable pub weighted_with :
        Probability
        → Option Bool
        → (Probability → R → Bool × R)
        → NativeTestCase G R
        → Reply (NativeTestCase G R) Bool
    unfolding push_node
    weighted_with p forced sample =
        elim (forced_by p forced) [
          | some f ↦ pre_choice >> λ s. returns (f, true) s
          | none ↦
              resolve_choice floats (Results.ok false) (Results.ok true) boolean_from_prefix
                (λ r. let (b, r') = sample p r in (Results.ok b, r'))
        ]
        >>= recorded (ChoiceData.boolean (record { p = p }))

    unfoldable pub weighted :
        Probability → Option Bool → NativeTestCase G R → Reply (NativeTestCase G R) Bool
    unfolding weighted_with
    weighted p forced = weighted_with p forced sampling.weighted_boolean_sample

    unfoldable pub weighted_precise :
        Probability → Option Bool → NativeTestCase G R → Reply (NativeTestCase G R) Bool
    unfolding weighted_with
    weighted_precise p forced = weighted_with p forced sampling.weighted_boolean_sample_precise
