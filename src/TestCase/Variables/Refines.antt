-- ===== src/TestCase/Variables/Refines.antt =====
-- The pool of hegel-c/src/native/core/state.rs against the list of the identifiers that are in it.
use hegel_rust.Base.{
  ℕ, ◌≡◌, ◌==◌, ==_iff, refl, sym, ap, ◌∙◌, subst, arith, true, false, not, ◌||◌, ◌&&◌,
  if◌then◌else◌, Bool-cases, inl, inr, List, [], ◌∷◌, ◌++◌,
}
use hegel_rust.TestCase.Ids.{contains_id}
use hegel_rust.TestCase.Variables.{
  NativeVariables, new, remove_id, add, kept, active, trim, consume,
}
use mathlib.Core.List.{append-nil}

-- What a pool stands for: the identifiers in it, in the order of their addition, and all that ever were.
pub record Pool : Type 0 where
  pub live : List ℕ
  pub ever : List ℕ

pub data Operation : Type 0 where
  adds : ℕ → Operation
  consumes : ℕ → Operation

abbrev pub perform : Operation → NativeVariables → NativeVariables
perform (adds id) pool = add id pool
perform (consumes id) pool = consume id pool

abbrev pub specify : Operation → Pool → Pool
specify (adds id) p = record { live = p.live ++ id ∷ []; ever = id ∷ p.ever }
specify (consumes id) p = record p { live = remove_id id p.live }

-- What is added was never in the pool, and what is consumed is in it.
abbrev pub Allowed : Operation → Pool → Type 0
Allowed (adds id) p = contains_id id p.ever ≡ false
Allowed (consumes id) p = contains_id id p.live ≡ true

abbrev pub perform_all : List Operation → NativeVariables → NativeVariables
perform_all [] pool = pool
perform_all (o ∷ l) pool = perform_all l (perform o pool)

abbrev pub specify_all : List Operation → Pool → Pool
specify_all [] p = p
specify_all (o ∷ l) p = specify_all l (specify o p)

abbrev pub AllAllowed : List Operation → Pool → Type 0
AllAllowed [] p = Unit {0}
AllAllowed (o ∷ l) p = Allowed o p × AllAllowed l (specify o p)

abbrev IsDistinct : List ℕ → Type 0
IsDistinct [] = Unit {0}
IsDistinct (x ∷ l) = (contains_id x l ≡ false) × IsDistinct l

abbrev Within : List ℕ → List ℕ → Type 0
Within l m = (x : ℕ) → contains_id x l ≡ true → contains_id x m ≡ true

record Represents (pool : NativeVariables) (p : Pool) : Type 0 where
  same : active pool ≡ p.live
  distinct : IsDistinct pool.variables
  added : Within pool.variables p.ever
  known : Within pool.removed p.ever

contains_id-remove_id :
    (x id : ℕ) (l : List ℕ) → contains_id x (remove_id id l) ≡ (not (x == id) && contains_id x l)
unfolding contains_id remove_id
contains_id-remove_id x id [] = ground arith
contains_id-remove_id x id (y ∷ l) = elim (Bool-cases (id == y)) [
  | inl e ↦ ground (arith, contains_id-remove_id x id l)
  | inr e ↦ ground (arith, contains_id-remove_id x id l)
]

-- What is kept depends on the removed identifiers only at the variables.
kept-cong :
    (r r' l : List ℕ)
    → ((x : ℕ) → contains_id x l ≡ true → contains_id x r ≡ contains_id x r')
    → kept r l ≡ kept r' l
unfolding kept contains_id
kept-cong r r' [] h = refl
kept-cong r r' (x ∷ l) h =
    let rest = kept-cong r r' l (λ y k. h y (ground arith)) in ground (arith, rest, h x)

ne_of_contains :
    (x y : ℕ) (l : List ℕ) → contains_id x l ≡ false → contains_id y l ≡ true → (y == x) ≡ false
ne_of_contains x y l h k = elim (Bool-cases (y == x)) [
  | inl e ↦
      let same : y ≡ x = (==_iff y x).0 e in
      absurd (cc (h, subst (λ z. contains_id z l ≡ true) same k))
  | inr e ↦ e
]

kept-remove_self :
    (x : ℕ) (l r : List ℕ) → contains_id x l ≡ false → kept (remove_id x r) l ≡ kept r l
kept-remove_self x l r h =
    kept-cong (remove_id x r) r l
      (λ y k. contains_id-remove_id y x r ∙ rw (ne_of_contains x y l h k) refl)

kept-trim :
    (l r : List ℕ)
    → IsDistinct l
    → (active (trim l r) ≡ kept r l)
      × IsDistinct (trim l r).variables
      × Within (trim l r).variables l
      × Within (trim l r).removed r
unfolding active kept trim contains_id
kept-trim [] r d = (refl, tt, λ x h. h, λ x h. h)
kept-trim (x ∷ l) r d = elim (Bool-cases (contains_id x r)) [
  | inl e ↦
      let (same, distinct, variables, removed) = kept-trim l (remove_id x r) d.1 in
      rw e (
        same ∙ kept-remove_self x l r d.0,
        distinct,
        λ y h. ground (arith, variables y h),
        λ y h. ground (arith, removed y h, contains_id-remove_id y x r),
      )
  | inr e ↦ rw e (rw e refl, d, λ y h. h, λ y h. h)
]

remove_id-append :
    (id x : ℕ) (l : List ℕ)
    → remove_id id (l ++ x ∷ []) ≡ remove_id id l ++ (if id == x then [] else x ∷ [])
unfolding remove_id
remove_id-append id x [] = ground arith
remove_id-append id x (y ∷ l) = elim (Bool-cases (id == y)) [
  | inl e ↦ ground (arith, remove_id-append id x l)
  | inr e ↦ ground (arith, remove_id-append id x l)
]

contains_id-append :
    (x : ℕ) (l m : List ℕ) → contains_id x (l ++ m) ≡ (contains_id x l || contains_id x m)
unfolding contains_id
contains_id-append x [] m = refl
contains_id-append x (y ∷ l) m = ground (arith, contains_id-append x l m)

kept-Within : (r l : List ℕ) → Within (kept r l) l
unfolding kept contains_id
kept-Within r [] x h = h
kept-Within r (y ∷ l) x h = elim (Bool-cases (contains_id y r)) [
  | inl e ↦
      let k : contains_id x (kept r l) ≡ true = rw (e, kept) at h in
      ground (arith, kept-Within r l x k)
  | inr e ↦
      let k : contains_id x (kept r l ++ y ∷ []) ≡ true = rw (e, kept) at h in
      ground (arith, kept-Within r l x, contains_id-append x (kept r l) (y ∷ []), k)
]

kept-remove : (id : ℕ) (r l : List ℕ) → kept (id ∷ r) l ≡ remove_id id (kept r l)
unfolding kept remove_id contains_id
kept-remove id r [] = refl
kept-remove id r (x ∷ l) = ground (
  arith,
  kept-remove id r l,
  remove_id-append id x (kept r l),
  append-nil (remove_id id (kept r l)),
)

add-Represents :
    (id : ℕ) (pool : NativeVariables) (p : Pool)
    → Allowed (adds id) p
    → Represents pool p
    → Represents (add id pool) (specify (adds id) p)
unfolding add active kept contains_id
add-Represents id pool p fresh h = record {
  same = rw (unseen pool.removed h.known) (ap (λ l. l ++ id ∷ []) h.same);
  distinct = (unseen pool.variables h.added, h.distinct);
  added = λ x k. ground (arith, h.added x);
  known = λ x k. ground (arith, h.known x k);
}
  where
    unseen : (l : List ℕ) → Within l p.ever → contains_id id l ≡ false
    unseen l w = elim (Bool-cases (contains_id id l)) [
      | inl e ↦ absurd (cc (fresh, w id e))
      | inr e ↦ e
    ]

consume-Represents :
    (id : ℕ) (pool : NativeVariables) (p : Pool)
    → Allowed (consumes id) p
    → Represents pool p
    → Represents (consume id pool) (specify (consumes id) p)
unfolding consume active contains_id
consume-Represents id pool p inside h =
    let (same, distinct, variables, removed) =
      kept-trim pool.variables (id ∷ pool.removed) h.distinct in
    let there : contains_id id p.ever ≡ true =
      h.added id (kept-Within pool.removed pool.variables id (rw (h.same) inside)) in
    record {
      same = same ∙ kept-remove id pool.removed pool.variables ∙ ap (remove_id id) h.same;
      distinct = distinct;
      added = λ x k. h.added x (variables x k);
      known = λ x k. elim (Bool-cases (x == id)) [
        | inl e ↦ subst (λ z. contains_id z p.ever ≡ true) (sym ((==_iff x id).0 e)) there
        | inr e ↦ h.known x (ground (arith, removed x k, e))
      ];
    }

perform_all-Represents :
    (l : List Operation) (pool : NativeVariables) (p : Pool)
    → AllAllowed l p
    → Represents pool p
    → Represents (perform_all l pool) (specify_all l p)
perform_all-Represents [] pool p a h = h
perform_all-Represents (adds id ∷ l) pool p a h =
    perform_all-Represents l (add id pool) (specify (adds id) p) a.1
      (add-Represents id pool p a.0 h)
perform_all-Represents (consumes id ∷ l) pool p a h =
    perform_all-Represents l (consume id pool) (specify (consumes id) p) a.1
      (consume-Represents id pool p a.0 h)

-- From the empty pool on, where each added identifier is new and each consumed one is in the pool, `active` lists
-- the identifiers that were added and not consumed, in the order of their addition, whatever has been trimmed.
pub active-perform_all :
    (l : List Operation)
    → AllAllowed l (record { live = []; ever = [] })
    → active (perform_all l new) ≡ (specify_all l (record { live = []; ever = [] })).live
unfolding active kept
active-perform_all l a =
    (perform_all-Represents l new (record { live = []; ever = [] }) a
      (record { same = nothing; distinct = tt; added = λ x h. h; known = λ x h. h })).same
  where
    nothing : active new ≡ []
    nothing = refl
