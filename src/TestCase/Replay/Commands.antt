-- ===== src/TestCase/Replay/Commands.antt =====
-- Each draw of hegel-c/src/native/core/state.rs, repeated on a replay.
use hegel_rust.Base.{
  ℕ, ◌≡◌, ◌≢◌, ap, arith, Bool, true, false, ltb, leb, ◌&&◌, List, [], length, Option, none, some,
}
use hegel_rust.Base.Int.{ℤ, pos, leb_ℤ}
use hegel_rust.Base.Results
use hegel_rust.Base.Results.{Result}
use hegel_rust.Choices.Bytes.{BytesChoice}
use hegel_rust.Choices.Integer.{IntegerChoice}
use hegel_rust.Choices.Kinds.{ChoiceData, FloatChoice, FloatChoices}
use hegel_rust.Choices.Strings.{StringChoice}
use hegel_rust.Database.{ChoiceValue}
use hegel_rust.StateMachine.Draws.{Probability}
use hegel_rust.TestCase.Body.{
  Command, integer, uniform, forced, fresh_id, member, float, bytes, string, weigh, weigh_precise,
  execute,
}
use hegel_rust.TestCase.Draw.{
  push_node, register_id, recorded, range_of, forced_by, fresh_window, draw_integer_from,
  draw_integer, draw_integer_uniform, draw_integer_forced, draw_id_outside, draw_fresh_id,
  draw_member, draw_from_set, draw_float, draw_bytes, draw_string, codepoints_to_string,
  boolean_from_prefix, weighted_with, weighted, weighted_precise, uniform_sample, member_sample,
  set_window, parameters_of,
}
use hegel_rust.TestCase.Ids.{sorted_ids}
use hegel_rust.TestCase.Ids.Laws.{IsAscending, sorted_ids-IsAscending, sorted_ids-ne}
use hegel_rust.TestCase.Ids.Members.{chosen}
use hegel_rust.TestCase.Replay.Shapes.{
  push-IsRecording, register-IsRecording, Repeats-recorded, pre_choice-Repeats, forced-Repeats,
}
use hegel_rust.TestCase.Replay.Sources.{
  integer-IsSource, bytes-IsSource, string-IsSource, boolean-IsSource, float-IsSource,
}
use hegel_rust.TestCase.Replay.IdSources.{fresh-IsSource, member-IsSource}
use hegel_rust.TestCase.Replay.Steps.{Repeats, Repeats-guard, Repeats-map, Repeated-resolve}
use hegel_rust.TestCase.Reply.{returns, ◌>>=◌, ◌>>◌}
use hegel_rust.TestCase.Resolve.{resolve_choice, pre_choice}
use hegel_rust.TestCase.Sampling.{Sampling}
use hegel_rust.TestCase.Stream.{NativeTestCase}

module _ {G R : Type 0} (floats : FloatChoices) (sampling : Sampling G R) where
  Repeats-integer_from :
      (c : IntegerChoice) (sample : NativeTestCase G R → R → Result ℤ × R)
      → Repeats floats (λ s. draw_integer_from floats sampling c (sample s) s)
  unfolding draw_integer_from
  Repeats-integer_from c sample =
      Repeats-recorded floats sample (λ v v' q. cc q) (λ s. integer-IsSource floats c (sample s))

  Repeats-draw_integer : (lo hi : ℤ) → Repeats floats (draw_integer floats sampling lo hi)
  unfolding draw_integer
  Repeats-draw_integer lo hi = Repeats-guard floats (leb_ℤ lo hi) _ λ g.
      Repeats-integer_from (range_of lo hi)
        (λ s. sampling.biased_integer_sample (range_of lo hi) (parameters_of floats sampling s))

  Repeats-draw_integer_uniform :
      (lo hi : ℕ) → Repeats floats (draw_integer_uniform floats sampling lo hi)
  unfolding draw_integer_uniform
  Repeats-draw_integer_uniform lo hi = Repeats-guard floats (leb lo hi) _ λ g.
      Repeats-integer_from (range_of (pos lo) (pos hi)) (λ s. uniform_sample floats sampling lo hi)

  Repeats-draw_float : (c : FloatChoice) → Repeats floats (draw_float floats sampling c)
  unfolding draw_float
  Repeats-draw_float c =
      Repeats-recorded floats (λ s. sampling.biased_float_sample c) (λ v v' q. cc q)
        (λ s. float-IsSource floats c (sampling.biased_float_sample c))

  Repeats-draw_bytes : (c : BytesChoice) → Repeats floats (draw_bytes floats sampling c)
  unfolding draw_bytes
  Repeats-draw_bytes c = Repeats-guard floats (leb c.min_size c.max_size) _ λ g.
      Repeats-recorded floats (λ s. sampling.biased_bytes_sample c) (λ v v' q. cc q)
        (λ s. bytes-IsSource floats c (sampling.biased_bytes_sample c))

  Repeats-draw_string : (c : StringChoice) → Repeats floats (draw_string floats sampling c)
  unfolding draw_string
  Repeats-draw_string c = Repeats-guard floats (leb c.min_size c.max_size) _ λ g.
      Repeats-guard floats _ _ λ g'. Repeats-map floats _ codepoints_to_string (
        Repeats-recorded floats (λ s. sampling.biased_string_sample c) (λ v v' q. cc q)
          (λ s. string-IsSource floats c (sampling.biased_string_sample c)))

  Repeats-draw_fresh_id : Repeats floats (draw_fresh_id floats sampling)
  unfolding draw_fresh_id draw_id_outside
  Repeats-draw_fresh_id s a s' b e =
      let choice : ℕ → ChoiceData = λ id.
        ChoiceData.integer (range_of (pos 0) (pos (fresh_window s.family.fresh_ids))) (pos id) in
      Repeated-resolve floats (λ vs r. _) (λ v. v)
        (λ v v' f t q.
          let e1 : v ≡ v' = cc q in (e1, ap (λ k. register_id k (push_node (choice k) f t)) e1))
        (fresh-IsSource floats s.family.fresh_ids b.1) (register-IsRecording choice) s a s' b e

  Repeats-draw_member :
      (sorted : List ℕ) (window_hi : ℕ)
      → sorted ≢ []
      → IsAscending sorted
      → Repeats floats (draw_member floats sampling sorted window_hi)
  unfolding draw_member
  Repeats-draw_member sorted window_hi n o = Repeats-guard floats _ _ λ g s a s' b e.
      let choice : ℕ → ChoiceData =
        λ raw. ChoiceData.integer (range_of (pos 0) (pos window_hi)) (pos (chosen raw sorted)) in
      Repeated-resolve floats (λ vs. member_sample floats sampling sorted)
        (λ raw. chosen raw sorted)
        (λ v v' f t q.
          let e1 : chosen v sorted ≡ chosen v' sorted = cc q in (e1, ap (λ d. push_node d f t) q))
        (member-IsSource sorted window_hi n o g floats (member_sample floats sampling sorted))
        (push-IsRecording choice) s a s' b e

  Repeats-draw_from_set :
      (members : List ℕ) → Repeats floats (draw_from_set floats sampling members)
  unfolding draw_from_set
  Repeats-draw_from_set members = Repeats-guard floats (ltb 0 (length members)) _ λ g s.
      Repeats-draw_member (sorted_ids members) (set_window s.family.fresh_ids)
        (sorted_ids-ne members (ground (arith, g))) (sorted_ids-IsAscending members) s

  Repeats-draw_integer_forced :
      (lo hi v : ℤ) → Repeats {G = G} {R = R} floats (draw_integer_forced lo hi v)
  unfolding draw_integer_forced
  Repeats-draw_integer_forced lo hi v =
      Repeats-guard floats (leb_ℤ lo v && leb_ℤ v hi) _
        λ g. pre_choice-Repeats floats (ChoiceData.integer (range_of lo hi) v) tt

  Repeats-weighted_with :
      (p : Probability) (o : Option Bool) (sample : Probability → R → Bool × R)
      → Repeats floats (weighted_with floats sampling p o sample)
  unfolding weighted_with
  Repeats-weighted_with p o sample =
      elim (forced_by p o)
        as (λ x. Repeats {G = G} {R = R} floats (
          elim x [
            | some f ↦ pre_choice >> λ s. returns (f, true) s
            | none ↦
                resolve_choice floats (Results.ok false) (Results.ok true) boolean_from_prefix
                  (λ r. let (b, r') = sample p r in (Results.ok b, r'))
          ]
          >>= recorded (ChoiceData.boolean (record { p = p })))) [
            | some f ↦ forced-Repeats floats p f
            | none ↦
                Repeats-recorded floats (λ s r. let (b, r') = sample p r in (Results.ok b, r'))
                  (λ v v' q. cc q) (λ s. boolean-IsSource floats (record { p = p }) _)
          ]

  pub Repeats-execute : (c : Command) → Repeats floats (execute floats sampling c)
  unfolding execute weighted weighted_precise
  Repeats-execute (integer lo hi) =
      Repeats-map floats _ ChoiceValue.integer (Repeats-draw_integer lo hi)
  Repeats-execute (uniform lo hi) =
      Repeats-map floats _ ChoiceValue.integer (Repeats-draw_integer_uniform lo hi)
  Repeats-execute (forced lo hi v) =
      Repeats-map floats _ (λ u. ChoiceValue.integer v) (Repeats-draw_integer_forced lo hi v)
  Repeats-execute fresh_id =
      Repeats-map floats _ (λ id. ChoiceValue.integer (pos id)) Repeats-draw_fresh_id
  Repeats-execute (member l) =
      Repeats-map floats _ (λ id. ChoiceValue.integer (pos id)) (Repeats-draw_from_set l)
  Repeats-execute (float c) = Repeats-map floats _ ChoiceValue.float (Repeats-draw_float c)
  Repeats-execute (bytes c) = Repeats-map floats _ ChoiceValue.bytes (Repeats-draw_bytes c)
  Repeats-execute (string c) = Repeats-map floats _ ChoiceValue.string (Repeats-draw_string c)
  Repeats-execute (weigh p f) =
      Repeats-map floats _ ChoiceValue.boolean
        (Repeats-weighted_with p f sampling.weighted_boolean_sample)
  Repeats-execute (weigh_precise p f) =
      Repeats-map floats _ ChoiceValue.boolean
        (Repeats-weighted_with p f sampling.weighted_boolean_sample_precise)
