-- ===== src/TestCase/Ids/Laws.antt =====
-- The identifiers of hegel-c/src/native/core/state.rs: the smallest unused one, and the member that a
-- replayed value stands for.
use hegel_rust.Base.{
  ℕ, ◌+◌, ◌<◌, ◌≤◌, ◌≡◌, ◌≢◌, ◌==◌, refl, sym, ap, ◌∙◌, subst, ==_iff, ltb→lt, max, arith, true,
  false, ltb, ◌||◌, Bool-cases, inl, inr, List, [], ◌∷◌, length, All, none, some,
}
use hegel_rust.TestCase.Ids.{
  smallest_from, smallest_unused_id, largest, contains_id, insert_id, sorted_ids,
}

-- Each element lies below all that follow it.
abbrev pub IsAscending : List ℕ → Type 0
IsAscending [] = Unit {0}
IsAscending (x ∷ l) = All (λ y. x < y) l × IsAscending l

pub All-mono : {P Q : ℕ → Type 0} → ((x : ℕ) → P x → Q x) → (l : List ℕ) → All P l → All Q l
All-mono f [] h = tt
All-mono f (x ∷ l) h = (f x h.0, All-mono f l h.1)

pub contains_id-All :
    (P : ℕ → Type 0) (l : List ℕ) (id : ℕ) → All P l → contains_id id l ≡ true → P id
unfolding contains_id
contains_id-All P [] id h c = absurd (cc c)
contains_id-All P (x ∷ l) id h c = elim (Bool-cases (id == x)) [
  | inl e ↦ subst P (sym ((==_iff id x).0 e)) h.0
  | inr e ↦ contains_id-All P l id h.1 (rw (e, contains_id) at c)
]

smallest_from-ge : (c : ℕ) (used : List ℕ) → c ≤ smallest_from c used
unfolding smallest_from
smallest_from-ge c [] = omega arith
smallest_from-ge c (id ∷ used) = elim (Bool-cases (id == c)) [
  | inl e ↦ ground (arith, smallest_from-ge (c + 1) used)
  | inr e ↦ ground (arith, smallest_from-ge c used)
]

-- An identifier below all of them is not among them.
not_contains-All : (l : List ℕ) (id : ℕ) → All (λ y. id < y) l → contains_id id l ≡ false
not_contains-All l id h = elim (Bool-cases (contains_id id l)) [
  | inl e ↦ absurd (omega (arith, contains_id-All (λ y. id < y) l id h e))
  | inr e ↦ e
]

contains_id-smallest_from :
    (c : ℕ) (used : List ℕ) → IsAscending used → contains_id (smallest_from c used) used ≡ false
unfolding smallest_from contains_id
contains_id-smallest_from c [] a = refl
contains_id-smallest_from c (id ∷ used) a = elim (Bool-cases (ltb c id)) [
  | inl e ↦
      let stop : smallest_from c (id ∷ used) ≡ c = rw (e, smallest_from) refl in
      subst (λ k. contains_id k (id ∷ used) ≡ false) (sym stop)
        (not_contains-All (id ∷ used) c
          (ltb→lt c id e, All-mono (λ x p. omega (arith, ltb→lt c id e)) used a.0))
  | inr e ↦ elim (Bool-cases (id == c)) [
    | inl q ↦
        ground (arith, contains_id-smallest_from (c + 1) used a.1, smallest_from-ge (c + 1) used)
    | inr q ↦ ground (arith, contains_id-smallest_from c used a.1, smallest_from-ge c used)
  ]
]

-- No identifier that is in use, however large the registry.
pub contains_id-smallest_unused_id :
    (used : List ℕ) → IsAscending used → contains_id (smallest_unused_id used) used ≡ false
unfolding smallest_unused_id
contains_id-smallest_unused_id used a = contains_id-smallest_from 0 used a

smallest_from-le :
    (c m : ℕ) (used : List ℕ) → All (λ y. y ≤ m) used → smallest_from c used ≤ max c (m + 1)
unfolding smallest_from
smallest_from-le c m [] h = omega arith
smallest_from-le c m (id ∷ used) h = elim (Bool-cases (id == c)) [
  | inl q ↦ ground (arith, smallest_from-le (c + 1) m used h.1)
  | inr q ↦ ground (arith, smallest_from-le c m used h.1)
]

pub smallest_unused_id-le :
    (used : List ℕ) (m : ℕ) → All (λ y. y ≤ m) used → smallest_unused_id used ≤ m + 1
unfolding smallest_unused_id
smallest_unused_id-le used m h = omega (arith, smallest_from-le 0 m used h)

-- Only the empty registry has no largest identifier.
pub largest-none : (used : List ℕ) → largest used ≡ none → used ≡ []
unfolding largest
largest-none [] h = refl
largest-none (x ∷ []) h = absurd (cc h)
largest-none (x ∷ y ∷ l) h = absurd (cc (largest-none (y ∷ l) h))

pub largest-All :
    (used : List ℕ) → IsAscending used → (m : ℕ) → largest used ≡ some m → All (λ y. y ≤ m) used
unfolding largest
largest-All [] a m h = tt
largest-All (x ∷ []) a m h = let e : x ≡ m = cc h in (omega arith, tt)
largest-All (x ∷ y ∷ l) a m h =
    let (p, q) = largest-All (y ∷ l) a.1 m h in (omega (arith, a.0.0), (p, q))

-- Every smaller number is in use.
smallest_from-below :
    (c : ℕ) (used : List ℕ) (n : ℕ) → c ≤ n → n < smallest_from c used → contains_id n used ≡ true
unfolding smallest_from contains_id
smallest_from-below c [] n h k = absurd (omega arith)
smallest_from-below c (id ∷ used) n h k = elim (Bool-cases (n == id)) [
  | inl e ↦ rw (e, contains_id) refl
  | inr e ↦ elim (Bool-cases (id == c)) [
    | inl q ↦ ground (arith, smallest_from-below (c + 1) used n)
    | inr q ↦ ground (arith, smallest_from-below c used n)
  ]
]

-- The fallback of `draw_fresh_id` is the smallest number that is not in use.
pub smallest_unused_id_lem :
    (used : List ℕ)
    → IsAscending used
    → (contains_id (smallest_unused_id used) used ≡ false)
      × ((n : ℕ) → n < smallest_unused_id used → contains_id n used ≡ true)
unfolding smallest_unused_id
smallest_unused_id_lem used a =
    (contains_id-smallest_from 0 used a, λ n h. smallest_from-below 0 used n (omega arith) h)

All-insert_id : (P : ℕ → Type 0) (id : ℕ) (l : List ℕ) → P id → All P l → All P (insert_id id l)
unfolding insert_id
All-insert_id P id [] p h = (p, tt)
All-insert_id P id (x ∷ l) p h = elim (Bool-cases (ltb id x)) [
  | inl e ↦ rw (e, insert_id) (p, (h.0, h.1))
  | inr e ↦ elim (Bool-cases (id == x)) [
    | inl q ↦ rw (e, q, insert_id) (h.0, h.1)
    | inr q ↦ rw (e, q, insert_id) (h.0, All-insert_id P id l p h.1)
  ]
]

pub insert_id-IsAscending : (id : ℕ) (l : List ℕ) → IsAscending l → IsAscending (insert_id id l)
unfolding insert_id
insert_id-IsAscending id [] a = (tt, tt)
insert_id-IsAscending id (x ∷ l) a = elim (Bool-cases (ltb id x)) [
  | inl e ↦
      rw (e, insert_id)
        ((ltb→lt id x e, All-mono (λ y h. omega (arith, ltb→lt id x e)) l a.0), (a.0, a.1))
  | inr e ↦ elim (Bool-cases (id == x)) [
    | inl q ↦ rw (e, q, insert_id) (a.0, a.1)
    | inr q ↦
        rw (e, q, insert_id)
          (All-insert_id (λ y. x < y) id l (ground arith) a.0, insert_id-IsAscending id l a.1)
  ]
]

pub sorted_ids-IsAscending : (l : List ℕ) → IsAscending (sorted_ids l)
unfolding sorted_ids
sorted_ids-IsAscending [] = tt
sorted_ids-IsAscending (x ∷ l) = insert_id-IsAscending x (sorted_ids l) (sorted_ids-IsAscending l)

pub contains_id-insert_id :
    (n id : ℕ) (l : List ℕ) → contains_id n (insert_id id l) ≡ (n == id || contains_id n l)
unfolding contains_id insert_id
contains_id-insert_id n id [] = refl
contains_id-insert_id n id (x ∷ l) = elim (Bool-cases (n == id)) [
  | inl e ↦ ground (arith, contains_id-insert_id n id l)
  | inr e ↦ ground (arith, contains_id-insert_id n id l)
]

pub contains_id-sorted_ids : (n : ℕ) (l : List ℕ) → contains_id n (sorted_ids l) ≡ contains_id n l
unfolding sorted_ids contains_id
contains_id-sorted_ids n [] = refl
contains_id-sorted_ids n (x ∷ l) =
    contains_id-insert_id n x (sorted_ids l) ∙ ap (λ b. n == x || b) (contains_id-sorted_ids n l)

insert_id-ne : (id : ℕ) (l : List ℕ) → insert_id id l ≢ []
unfolding insert_id
insert_id-ne id [] e = cc e
insert_id-ne id (x ∷ l) e = ground arith

pub sorted_ids-ne : (members : List ℕ) → 0 < length members → sorted_ids members ≢ []
unfolding sorted_ids
sorted_ids-ne [] h e = absurd (omega (arith, h))
sorted_ids-ne (x ∷ l) h e = insert_id-ne x (sorted_ids l) e
