-- ===== src/TestCase/Drawn.antt =====
-- `draw_fresh_id` and `draw_from_set` of hegel-c/src/native/core/state.rs: which identifiers they give.
use hegel_rust.Base.{
  ℕ, ◌≡◌, ◌≢◌, sym, ap, ◌∙◌, subst, arith, true, false, ◌||◌, ◌==◌, leb, ltb, ltb→lt, Bool-cases,
  inl, inr, List, [], length, some, none,
}
use hegel_rust.Base.Results
use hegel_rust.Choices.Kinds.{FloatChoices}
use hegel_rust.TestCase.Draw.{
  draw_fresh_id, draw_id_outside, draw_from_set, draw_member, register_id, push_node, fresh_window,
  set_window, id_from_prefix, member_from_prefix, member_sample,
}
use hegel_rust.TestCase.Ids.{
  smallest_unused_id, contains_id, insert_id, sorted_ids, largest, smallest_member,
}
use hegel_rust.TestCase.Ids.Laws.{
  IsAscending, insert_id-IsAscending, contains_id-insert_id, sorted_ids-ne, contains_id-sorted_ids,
}
use hegel_rust.TestCase.Ids.Members.{contains_id-chosen, chosen}
use hegel_rust.TestCase.Replay.IdSources.{IsFree, fresh-IsSource}
use hegel_rust.TestCase.Replay.Resolved.{resolve_choice-Took}
use hegel_rust.TestCase.Reply.{returns, lift, returns-after, returns_injective}
use hegel_rust.TestCase.Resolve.{count_draw, resolve_choice}
use hegel_rust.TestCase.Sampling.{Sampling}
use hegel_rust.TestCase.Stream.{NativeTestCase}

module _ {G R : Type 0} (floats : FloatChoices) (sampling : Sampling G R) (s : NativeTestCase G R)
    (id : ℕ) (s' : NativeTestCase G R) where
  -- An identifier that `draw_fresh_id` returns, from the prefix or as the fallback, is not in the family's registry,
  -- which lists its identifiers in order, and is in the registry afterwards, beside what was there.
  pub draw_fresh_id_lem :
      IsAscending s.family.fresh_ids
      → draw_fresh_id floats sampling s ≡ returns id s'
      → (contains_id id s.family.fresh_ids ≡ false)
        × IsAscending s'.family.fresh_ids
        × ((x : ℕ)
            → contains_id x s'.family.fresh_ids ≡ (x == id || contains_id x s.family.fresh_ids))
  unfolding draw_fresh_id draw_id_outside register_id push_node count_draw
  draw_fresh_id_lem a h =
      let used = s.family.fresh_ids in
      let ((v, f), s1, h1, h2) =
        returns-after
          (resolve_choice floats (Results.ok (smallest_unused_id used))
            (Results.ok (smallest_unused_id used)) (id_from_prefix (fresh_window used) used)
            (λ r. (Results.ok (smallest_unused_id used), r)) s)
          _ id s' h in
      let src = fresh-IsSource {R = R} floats used a in
      let (free, _, (_, _, _, (_, fam, _))) =
        resolve_choice-Took floats (IsFree used) _ _ _ _ src.simplest_lem src.unit_lem
          src.prefix_lem src.random_lem s v f s1 h1 in
      let (e, es) = returns_injective v id _ s' h2 in
      let q : insert_id id used ≡ s'.family.fresh_ids =
        ap (λ x. insert_id x used) (sym e)
        ∙ ap (λ x. insert_id v x.fresh_ids) (sym fam)
        ∙ ap (λ t. t.family.fresh_ids) es in
      let unused : IsFree used id = subst (IsFree used) e free in
      (
        ground (arith, unused),
        subst IsAscending q (insert_id-IsAscending id used a),
        λ x.
            subst (λ l. contains_id x l ≡ (x == id || contains_id x used)) q
              (contains_id-insert_id x id used),
      )

  draw_member_lem :
      (sorted : List ℕ) (window_hi : ℕ)
      → sorted ≢ []
      → draw_member floats sampling sorted window_hi s ≡ returns id s'
      → contains_id id sorted ≡ true
  unfolding draw_member
  draw_member_lem sorted window_hi n h =
      let (u, s1, h1, h2) =
        returns-after
          (lift (Results.assert (leb (elim (largest sorted) [ some m ↦ m | none ↦ 0 ]) window_hi))
            s)
          _ id s' h in
      let ((raw, f), s2, h3, h4) =
        returns-after
          (resolve_choice floats (Results.ok (smallest_member sorted))
            (Results.ok (smallest_member sorted)) (member_from_prefix window_hi)
            (member_sample floats sampling sorted) s1)
          _ id s' h2 in
      subst (λ k. contains_id k sorted ≡ true) (returns_injective (chosen raw sorted) id _ s' h4).0
        (contains_id-chosen raw sorted n)

  -- `draw_from_set` returns a member, whatever the prefix holds.
  pub draw_from_set_lem :
      (members : List ℕ)
      → draw_from_set floats sampling members s ≡ returns id s'
      → contains_id id members ≡ true
  unfolding draw_from_set draw_member
  draw_from_set_lem members h = elim (Bool-cases (ltb 0 (length members))) [
    | inr e ↦ absurd (cc (rw (e, draw_from_set) at h))
    | inl e ↦
        sym (contains_id-sorted_ids id members)
        ∙ draw_member_lem (sorted_ids members) (set_window s.family.fresh_ids)
            (sorted_ids-ne members (ltb→lt 0 (length members) e)) (rw (e, draw_from_set) at h)
  ]
