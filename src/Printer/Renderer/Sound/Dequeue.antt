-- ===== src/Printer/Renderer/Sound/Dequeue.antt =====
-- `deq` (hegel-c/src/native/printer.rs) finds a group of the queue, and changes only which groups want to break.
use hegel_rust.Base.{
  ℕ, suc, ◌≤◌, ◌<◌, ◌≡◌, refl, sym, ◌∙◌, ap, subst, inl, inr, arith, true, ltb, List, [], ◌∷◌,
  length, All, Option, none, some,
}
use hegel_rust.Base.Outcomes.{ok, at}
use hegel_rust.Base.Ends.{
  Ends, returns, Ends-bind, Ends-mono, Ends-if, Ends-elim, Ends-at, Ends-write, length-write,
  at-write_cases,
}
use hegel_rust.Printer.Commands.{PrinterError}
use hegel_rust.Printer.Renderer.{Token, Group}
use hegel_rust.Printer.Renderer.Breaks.{queue_size, want_break_all, take_pending, deq_loop}
use hegel_rust.Printer.Renderer.Sound.{InGroups, IsSound}

-- Groups that differ only in whether they want to break.
pub record SameCounts (groups groups' : List Group) : Type 0 where
  pub same_length : length groups' ≡ length groups
  pub same_counts :
      (g : ℕ) (x' : Group)
      → at {E = PrinterError} groups' g ≡ ok x'
      → (x : Group) × (at {E = PrinterError} groups g ≡ ok x)
        × (x'.pending ≡ x.pending)
        × (x'.depth ≡ x.depth)

SameCounts-refl : (groups : List Group) → SameCounts groups groups
SameCounts-refl groups = record { same_length = refl; same_counts = λ g x e. (x, e, refl, refl) }

SameCounts-trans : (a b c : List Group) → SameCounts a b → SameCounts b c → SameCounts a c
SameCounts-trans a b c p q = record {
  same_length = omega (arith, p.same_length, q.same_length);
  same_counts = λ g x'' e.
      let (x', e', h, k) = q.same_counts g x'' e in
      let (x, e'', h', k') = p.same_counts g x' e' in (x, e'', h ∙ h', k ∙ k');
}

want_break_all-SameCounts :
    {F : PrinterError → Type 0} (level : List ℕ) (groups : List Group)
    → All (λ id. id < length groups) level
    → Ends F (SameCounts groups) (want_break_all level groups)
unfolding want_break_all
want_break_all-SameCounts [] groups h = returns (SameCounts-refl groups)
want_break_all-SameCounts (id ∷ level) groups h = Ends-bind (Ends-at groups id h.0) λ g hg.
    Ends-bind (Ends-write groups id (record g { want_break = true }) h.0) λ groups' hs.
      let same = length-write groups id (record g { want_break = true }) groups' hs in
      let step : SameCounts groups groups' = record {
        same_length = same;
        same_counts = λ k x e. elim (at-write_cases groups id k _ groups' x hs e) [
          | inl (p, q) ↦ (
            g,
            subst (λ j. at {E = PrinterError} groups j ≡ ok g) (sym p) hg,
            ap (λ (y : Group). y.pending) q,
            ap (λ (y : Group). y.depth) q,
          )
          | inr (p, q) ↦ (x, q, refl, refl)
        ];
      } in
      Ends-mono
        (want_break_all-SameCounts level groups'
          (subst (λ n. All (λ i. i < n) level) (sym same) h.1))
        (λ groups'' k. SameCounts-trans groups groups' groups'' step k)

-- The group that `take_pending` finds is one of the level, and the rest is shorter.
abbrev Found : ℕ → List ℕ → Option (ℕ × List ℕ) → Type 0
Found n level none = Unit
Found n level (some (id, rest)) =
    (id < n) × All (λ i. i < n) rest × (suc (length rest) ≡ length level)

take_pending-Found :
    {F : PrinterError → Type 0} (groups : List Group) (level : List ℕ)
    → All (λ id. id < length groups) level
    → Ends F (Found (length groups) level) (take_pending groups level)
unfolding take_pending
take_pending-Found groups [] h = returns tt
take_pending-Found groups (id ∷ level) h = Ends-bind (Ends-at groups id h.0) λ g hg.
    Ends-if (ltb 0 g.pending) (λ _. returns (h.0, h.1, refl))
      (λ _. Ends-bind (take_pending-Found groups level h.1) λ rest k.
        Ends-elim rest _ _
          (λ p e.
            let f = subst (Found (length groups) level) e k in
            returns (f.0, (h.0, f.1), ap suc f.2))
          (λ _. returns tt))

-- What `deq` returns.
pub record Dequeued (groups : List Group) (queue : List (List ℕ))
    (d : Option ℕ × List Group × List (List ℕ)) : Type 0 where
  pub same : SameCounts groups d.1
  pub levels : length d.2 ≡ length queue
  pub in_range : All (λ level. All (λ id. id < length groups) level) d.2
  pub size_le : queue_size d.2 ≤ queue_size queue
  pub found : (id : ℕ) → d.0 ≡ some id → (id < length groups) × (queue_size d.2 < queue_size queue)

pub deq_loop-Dequeued :
    {F : PrinterError → Type 0} (queue : List (List ℕ)) (groups : List Group)
    → All (λ level. All (λ id. id < length groups) level) queue
    → Ends F (Dequeued groups queue) (deq_loop queue groups)
unfolding deq_loop queue_size
deq_loop-Dequeued [] groups h = returns (record {
  same = SameCounts-refl groups;
  levels = refl;
  in_range = tt;
  size_le = omega arith;
  found = λ id e. absurd (cc e);
})
deq_loop-Dequeued (level ∷ queue) groups h =
    Ends-bind (take_pending-Found groups level h.0) λ found k.
      Ends-elim found _ _
        (λ p e.
          let f = subst (Found (length groups) level) e k in
          Ends-bind (want_break_all-SameCounts (p.0 ∷ []) groups (f.0, tt)) λ groups' same.
            returns (record {
              same = same;
              levels = refl;
              in_range = (f.1, h.1);
              size_le = omega (arith, f.2);
              found = λ id e'.
                  (subst (λ i. i < length groups) (ground (arith, e')) f.0, omega (arith, f.2));
            }))
        (λ _. Ends-bind (want_break_all-SameCounts level groups h.0) λ groups' same.
          Ends-bind
            (deq_loop-Dequeued queue groups'
              (subst (λ n. All (λ l. All (λ id. id < n) l) queue) (sym same.same_length) h.1))
            (λ rest d. returns (record {
              same = SameCounts-trans groups groups' rest.1 same d.same;
              levels = ap suc d.levels;
              in_range = (
                tt,
                subst (λ n. All (λ l. All (λ id. id < n) l) rest.2) same.same_length d.in_range,
              );
              size_le = omega (arith, d.size_le);
              found = λ id e.
                  let f = d.found id e in
                  (omega (arith, f.0, same.same_length), omega (arith, f.1));
            })))

pub IsSound-same :
    (tokens : List Token) (groups groups' : List Group) (queue queue' : List (List ℕ))
    (stack : List ℕ)
    → IsSound tokens groups queue stack
    → SameCounts groups groups'
    → length queue' ≡ length queue
    → All (λ level. All (λ id. id < length groups) level) queue'
    → IsSound tokens groups' queue' stack
IsSound-same tokens groups groups' queue queue' stack v same levels h = record {
  counted = λ g x' e. let (x, e', p, q) = same.same_counts g x' e in p ∙ v.counted g x e';
  leveled = λ g x' e.
      let (x, e', p, q) = same.same_counts g x' e in omega (arith, q, levels, v.leveled g x e');
  tokens_in = subst (λ n. All (InGroups n) tokens) (sym same.same_length) v.tokens_in;
  queue_in = subst (λ n. All (λ l. All (λ id. id < n) l) queue') (sym same.same_length) h;
  stack_in = subst (λ n. All (λ i. i < n) stack) (sym same.same_length) v.stack_in;
  stack_ne = v.stack_ne;
}
