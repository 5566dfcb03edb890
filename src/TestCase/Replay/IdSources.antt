-- ===== src/TestCase/Replay/IdSources.antt =====
-- The sources of `draw_fresh_id` and `draw_from_set` of hegel-c/src/native/core/state.rs fit their ranges.
use hegel_rust.Base.{
  ℕ, ◌≤◌, ◌≡◌, ◌≢◌, refl, sym, ap, subst, arith, true, not, ◌&&◌, leb, Option-cases, inl, inr, List,
  [], none, some,
}
use hegel_rust.Base.Int.{pos}
use hegel_rust.Base.Results
use hegel_rust.Base.Results.{Result}
use hegel_rust.Choices.Kinds.{ChoiceData, FloatChoices, kind, resolve, value}
use hegel_rust.Database.{ChoiceValue}
use hegel_rust.TestCase.Draw.{id_from_prefix, member_from_prefix, fresh_window, range_of}
use hegel_rust.TestCase.Ids.{
  smallest_from, smallest_unused_id, largest, contains_id, smallest_member,
}
use hegel_rust.TestCase.Ids.Laws.{
  IsAscending, contains_id-smallest_unused_id, smallest_unused_id-le, largest-All, largest-none,
  contains_id-All,
}
use hegel_rust.TestCase.Ids.Members.{chosen, contains_id-chosen, chosen_twice}
use hegel_rust.TestCase.Replay.Steps.{IsSource}

-- An identifier that the window admits and nobody has drawn.
abbrev pub IsFree : List ℕ → ℕ → Type 0
IsFree used id = (leb id (fresh_window used) && not (contains_id id used)) ≡ true

smallest_unused_id-IsFree :
    (used : List ℕ) → IsAscending used → IsFree used (smallest_unused_id used)
unfolding fresh_window smallest_unused_id smallest_from largest contains_id
smallest_unused_id-IsFree used a = elim (Option-cases (largest used)) [
  | inl e ↦ subst (λ u. IsFree u (smallest_unused_id u)) (sym (largest-none used e)) refl
  | inr (m, e) ↦ ground (
    arith,
    e,
    contains_id-smallest_unused_id used a,
    smallest_unused_id-le used m (largest-All used a m e),
  )
]

id_from_prefix-IsFree :
    (used : List ℕ) (w : ChoiceValue) (id : ℕ)
    → id_from_prefix (fresh_window used) used w ≡ some id
    → IsFree used id
unfolding id_from_prefix
id_from_prefix-IsFree used (ChoiceValue.integer n) id h = ground arith
id_from_prefix-IsFree used (ChoiceValue.boolean n) id h = absurd (cc h)
id_from_prefix-IsFree used (ChoiceValue.float n) id h = absurd (cc h)
id_from_prefix-IsFree used (ChoiceValue.bytes n) id h = absurd (cc h)
id_from_prefix-IsFree used (ChoiceValue.string n) id h = absurd (cc h)
id_from_prefix-IsFree used (ChoiceValue.clone n) id h = absurd (cc h)

module _ {R : Type 0} (floats : FloatChoices) where
  pub fresh-IsSource :
      (used : List ℕ)
      → IsAscending used
      → IsSource {R = R} floats
          (IsFree used)
          (Results.ok (smallest_unused_id used))
          (Results.ok (smallest_unused_id used))
          (id_from_prefix (fresh_window used) used)
          (λ r. (Results.ok (smallest_unused_id used), r))
          (λ id. ChoiceData.integer (range_of (pos 0) (pos (fresh_window used))) (pos id))
  unfolding id_from_prefix value resolve kind
  fresh-IsSource used a = record {
    simplest_lem = λ v e. fallback v e;
    unit_lem = λ v e. fallback v e;
    prefix_lem = id_from_prefix-IsFree used;
    random_lem = λ r v e. fallback v e;
    again_lem = λ v p f. (v, rw p refl, refl);
  }
    where
      fallback :
          (v : ℕ)
          → ◌≡◌ {A = Result ℕ} (Results.ok (smallest_unused_id used)) (Results.ok v)
          → IsFree used v
      fallback v e =
          let q : smallest_unused_id used ≡ v = cc e in
          subst (IsFree used) q (smallest_unused_id-IsFree used a)

module _ (sorted : List ℕ) (window_hi : ℕ) (nonempty : sorted ≢ []) (a : IsAscending sorted)
    (within : leb (elim (largest sorted) [ some m ↦ m | none ↦ 0 ]) window_hi ≡ true) where
  pub chosen-le : (raw : ℕ) → chosen raw sorted ≤ window_hi
  chosen-le raw = elim (Option-cases (largest sorted)) [
    | inl e ↦ absurd (nonempty (largest-none sorted e))
    | inr (m, e) ↦
        let p =
          contains_id-All (λ y. y ≤ m) sorted (chosen raw sorted) (largest-All sorted a m e)
            (contains_id-chosen raw sorted nonempty) in
        ground (arith, e, p, within)
  ]

  pub member-IsSource :
      {R : Type 0} (floats : FloatChoices) (random : R → Result ℕ × R)
      → IsSource floats
          (λ v. Unit {0})
          (Results.ok (smallest_member sorted))
          (Results.ok (smallest_member sorted))
          (member_from_prefix window_hi)
          random
          (λ raw. ChoiceData.integer (range_of (pos 0) (pos window_hi)) (pos (chosen raw sorted)))
  unfolding member_from_prefix value resolve kind
  member-IsSource floats random = record {
    simplest_lem = λ v e. tt;
    unit_lem = λ v e. tt;
    prefix_lem = λ w v e. tt;
    random_lem = λ r v e. tt;
    again_lem = λ v p f. (
      chosen v sorted,
      ground (arith, chosen-le v),
      ap (λ k. ChoiceData.integer (range_of (pos 0) (pos window_hi)) (pos k))
          (chosen_twice v sorted a),
    );
  }
