-- ===== src/TestCase/Ids/Members.antt =====
-- The member that `draw_from_set` of hegel-c/src/native/core/state.rs takes a replayed value for.
use hegel_rust.Base.{
  ℕ, ◌<◌, ◌≤◌, ◌≡◌, ◌≢◌, refl, sym, subst, arith, true, leb, Bool-cases, inl, inr, ◌⊎◌, List, [],
  ◌∷◌, All,
}
use hegel_rust.TestCase.Ids.{contains_id, smallest_member, floor_member}
use hegel_rust.TestCase.Ids.Laws.{IsAscending, All-mono}

-- Among the members from `best` on: the last one that is not above `raw`, else `best`.
floor_member-cases :
    (best raw : ℕ) (l : List ℕ)
    → (floor_member best raw l ≡ best) ⊎ (contains_id (floor_member best raw l) l ≡ true)
unfolding floor_member contains_id
floor_member-cases best raw [] = inl refl
floor_member-cases best raw (x ∷ l) = elim (Bool-cases (leb x raw)) [
  | inl e ↦
      let step : floor_member best raw (x ∷ l) ≡ floor_member x raw l = rw (e, floor_member) refl in
      inr (
        subst (λ k. contains_id k (x ∷ l) ≡ true) (sym step)
          (elim (floor_member-cases x raw l) [ inl f ↦ ground arith | inr f ↦ ground arith ]))
  | inr e ↦ inl (rw (e, floor_member) refl)
]

floor_member-ge :
    (best raw : ℕ) (l : List ℕ)
    → All (λ y. best ≤ y) l
    → IsAscending l
    → best ≤ floor_member best raw l
unfolding floor_member
floor_member-ge best raw [] h a = omega arith
floor_member-ge best raw (x ∷ l) h a =
    ground (arith, floor_member-ge x raw l (All-mono (λ y p. omega arith) l a.0) a.1, h.0)

pub floor_member-le : (best raw : ℕ) (l : List ℕ) → best ≤ raw → floor_member best raw l ≤ raw
unfolding floor_member
floor_member-le best raw [] h = h
floor_member-le best raw (x ∷ l) h = ground (arith, floor_member-le x raw l)

floor_member-above :
    (best : ℕ) (l : List ℕ) → All (λ y. best < y) l → floor_member best best l ≡ best
unfolding floor_member
floor_member-above best [] h = refl
floor_member-above best (x ∷ l) h = ground (arith, h.0)

floor_member-again :
    (best raw : ℕ) (l : List ℕ)
    → All (λ y. best < y) l
    → IsAscending l
    → floor_member best (floor_member best raw l) l ≡ floor_member best raw l
unfolding floor_member
floor_member-again best raw [] h a = refl
floor_member-again best raw (x ∷ l) h a = elim (Bool-cases (leb x raw)) [
  | inl e ↦
      let step : floor_member best raw (x ∷ l) ≡ floor_member x raw l = rw (e, floor_member) refl in
      rw step (
        ground (
          arith,
          floor_member-again x raw l a.0 a.1,
          floor_member-ge x raw l (All-mono (λ y p. omega arith) l a.0) a.1,
        ))
  | inr e ↦
      let step : floor_member best raw (x ∷ l) ≡ best = rw (e, floor_member) refl in
      rw step (floor_member-above best (x ∷ l) h)
]

abbrev pub chosen : ℕ → List ℕ → ℕ
chosen raw members = floor_member (smallest_member members) raw members

-- What is chosen is a member.
pub contains_id-chosen :
    (raw : ℕ) (members : List ℕ) → members ≢ [] → contains_id (chosen raw members) members ≡ true
unfolding smallest_member contains_id
contains_id-chosen raw [] h = absurd (h refl)
contains_id-chosen raw (x ∷ l) h = elim (floor_member-cases x raw (x ∷ l)) [
  | inl e ↦ subst (λ k. contains_id k (x ∷ l) ≡ true) (sym e) (ground arith)
  | inr e ↦ e
]

-- It stands for itself.
pub chosen_twice :
    (raw : ℕ) (members : List ℕ)
    → IsAscending members
    → chosen (chosen raw members) members ≡ chosen raw members
unfolding smallest_member floor_member
chosen_twice raw [] a = refl
chosen_twice raw (x ∷ l) a = elim (Bool-cases (leb x raw)) [
  | inl e ↦
      let step : chosen raw (x ∷ l) ≡ floor_member x raw l = rw (e, floor_member) refl in
      rw step (
        ground (
          arith,
          floor_member-again x raw l a.0 a.1,
          floor_member-ge x raw l (All-mono (λ y p. omega arith) l a.0) a.1,
        ))
  | inr e ↦
      let step : chosen raw (x ∷ l) ≡ x = rw (e, floor_member) refl in
      rw step (ground (arith, floor_member-above x l a.0))
]
