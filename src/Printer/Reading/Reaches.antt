-- ===== src/Printer/Reading/Reaches.antt =====
-- Every printer that calls lead to (hegel-c/src/native/printer.rs), with deferred slots and regions on any target.
use mathlib.Core.List.{map}
use hegel_rust.Base.{
  ℕ, zero, suc, ◌≡◌, ◌≤◌, ◌<◌, ◌⊎◌, inl, inr, refl, sym, ap, subst, false, not, List, [], ◌∷◌,
  length, All, Option, none, some,
}
use hegel_rust.Base.Outcomes.{ok, err, panic, at, ok_injective}
use hegel_rust.Base.Ends.{Ends, returns, fails, Ends-bind, Ends-mono, Ends-at_ok}
use hegel_rust.Printer.Commands.{
  PrinterError, unbalanced_group, unresolved_deferred, nothing_to_resolve, Target, Cmd, Slot,
  splice_ids,
}
use hegel_rust.Printer.Renderer.{Rendering}
use hegel_rust.Printer.Renderer.Sound.{if_either}
use hegel_rust.Printer.Recorder
use hegel_rust.Printer.Recorder.{Printer, set_max_width, dispatch, deferred}
use hegel_rust.Printer.Recorder.Links.{
  Links, AnyError, HasTarget, first_slot, dispatch-Links, deferred-Links,
}
use hegel_rust.Printer.Speculation.{begin_speculative, commit_speculative, abort_speculative}
use hegel_rust.Printer.Speculation.Balance.{plain-splice_ids}
use hegel_rust.Printer.Speculation.Visits.{IsLinkedAt}
use hegel_rust.Printer.Speculation.Links.{
  begin_speculative-Links, commit_speculative-Links, abort_speculative-Links,
}
use hegel_rust.Printer.Document.{render}
use hegel_rust.Printer.Document.Marks.{SplicesIn}
use hegel_rust.Printer.Document.Safe.{render-safe}
use hegel_rust.Printer.Document.Execute.{IsPlain}
use hegel_rust.Printer.Reading.{close_slot, seal, rendered_output, resolve, value}

-- A call that ends well, on a target that exists; or a reading, whatever its answer.
pub data Call : Printer → Printer → Type 0 where
  dispatches :
      {p p' : Printer} (target : Target) (cmd : Cmd)
      → HasTarget target p
      → IsPlain cmd
      → dispatch target cmd p ≡ ok p'
      → Call p p'
  defers :
      {p p' : Printer} (target : Target) (id : ℕ)
      → HasTarget target p
      → deferred target p ≡ ok (p', id)
      → Call p p'
  begins :
      {p p' : Printer} (target : Target)
      → HasTarget target p
      → begin_speculative target p ≡ ok p'
      → Call p p'
  commits :
      {p p' : Printer} (target : Target)
      → HasTarget target p
      → commit_speculative target p ≡ ok p'
      → Call p p'
  aborts :
      {p p' : Printer} (target : Target)
      → HasTarget target p
      → abort_speculative target p ≡ ok p'
      → Call p p'
  resizes : {p : Printer} (max_width : ℕ) → Call p (set_max_width max_width p)
  resolves : {p : Printer} → Call p (resolve p).0
  reads : {p : Printer} → Call p (value p).0

pub data Reaches (p : Printer) : Printer → Type 0 where
  start : Reaches p p
  next : {p' p'' : Printer} → Reaches p p' → Call p' p'' → Reaches p p''

plain-SplicesIn : (low high : ℕ) (cmd : Cmd) → IsPlain cmd → SplicesIn low high (cmd ∷ [])
plain-SplicesIn low high cmd k =
    subst (All (λ id. (low ≤ id) × (id < high))) (sym (plain-splice_ids cmd k)) tt

at-map :
    (slots : List Slot) (i : ℕ) (s : Slot)
    → at {E = PrinterError} (map close_slot slots) i ≡ ok s
    → (t : Slot) × (at {E = PrinterError} slots i ≡ ok t) × (s ≡ close_slot t)
at-map [] i s e = absurd (cc e)
at-map (t ∷ slots) zero s e = (t, refl, sym (ok_injective (close_slot t) s e))
at-map (t ∷ slots) (suc i) s e = at-map slots i s e

length-map : (slots : List Slot) → length (map close_slot slots) ≡ length slots
length-map [] = refl
length-map (s ∷ slots) = ap suc (length-map slots)

seal-Links : (p : Printer) → Links p → Links (seal p)
unfolding seal close_slot
seal-Links p v =
    let n = sym (length-map p.slots) in
    record {
      main_in = subst (λ m. SplicesIn 0 m p.commands) n v.main_in;
      regions_in = tt;
      linked = λ i s e.
          let (t, f, g) = at-map p.slots i s e in
          subst (λ m. IsLinkedAt m i s) n
            (subst (IsLinkedAt (length p.slots) i) (sym g) ((v.linked i t f).0, tt));
    }

-- The errors that a reading may end in.
abbrev pub MisuseError : PrinterError → Type 0
MisuseError e = (e ≡ unbalanced_group) ⊎ ((e ≡ unresolved_deferred) ⊎ (e ≡ nothing_to_resolve))

-- A reading leaves a linked printer, and ends with no panic.
abbrev IsAnswer : {A : Type 0} → Printer × Rendering A → Type 0
IsAnswer r = Links r.0 × Ends MisuseError (λ a. Unit {0}) r.1

layout-IsAnswer :
    (m : Rendering (List ℕ)) (p : Printer)
    → Links p
    → Ends (λ e. e ≡ unbalanced_group) (λ document. Unit {0}) m
    → IsAnswer {A = List ℕ} (elim m [
      | ok d ↦ (record p { rendered = some d }, ok d)
      | err e ↦ (p, err e)
      | panic ↦ (p, panic)
    ])
layout-IsAnswer (ok d) p v (returns h) = (v, returns tt)
layout-IsAnswer (err e) p v (fails h) = (v, fails (inl h))
layout-IsAnswer panic p v h = elim h [ ]

rendered_output-IsAnswer : (p : Printer) → Links p → IsAnswer (rendered_output p)
unfolding rendered_output
rendered_output-IsAnswer p v = by_kept p.rendered
  where
    by_kept :
        (o : Option (List ℕ))
        → IsAnswer {A = List ℕ} (elim o [
          | some document ↦ (p, ok document)
          | none ↦ elim (render p.max_width p.slots p.commands) [
            | ok document ↦ (record p { rendered = some document }, ok document)
            | err e ↦ (p, err e)
            | panic ↦ (p, panic)
          ]
        ])
    by_kept (some document) = (v, returns tt)
    by_kept none =
        layout-IsAnswer (render p.max_width p.slots p.commands) p v
          (render-safe p.max_width p.slots p.commands (λ i s e. (v.linked i s e).0) v.main_in)

value-IsAnswer : (p : Printer) → Links p → IsAnswer (value p)
unfolding value
value-IsAnswer p v =
    if_either (IsAnswer {A = List ℕ}) p.pending_resolve _ _ (v, fails (inr (inl refl)))
      (rendered_output-IsAnswer (seal p) (seal-Links p v))

resolve-IsAnswer : (p : Printer) → Links p → IsAnswer (resolve p)
unfolding resolve
resolve-IsAnswer p v =
    let closed : Printer = record (seal p) { pending_resolve = false } in
    let (links, ends) = rendered_output-IsAnswer closed (seal-Links p v) in
    if_either (IsAnswer {A = Unit {0}}) (not p.pending_resolve) _ _ (v, fails (inr (inr refl)))
      (links, Ends-bind ends (λ document _. returns tt))

Call-Links : (p p' : Printer) → Links p → Call p p' → Links p'
unfolding set_max_width
Call-Links p p' v (dispatches target cmd t k e) =
    Ends-at_ok p' (dispatch-Links target cmd p t (plain-SplicesIn (first_slot target) _ cmd k) v) e
Call-Links p p' v (defers target id t e) = Ends-at_ok (p', id) (deferred-Links target p t v) e
Call-Links p p' v (begins target t e) = Ends-at_ok p' (begin_speculative-Links target p t v) e
Call-Links p p' v (commits target t e) = Ends-at_ok p' (commit_speculative-Links target p t v) e
Call-Links p p' v (aborts target t e) = Ends-at_ok p' (abort_speculative-Links target p t v) e
Call-Links p p' v (resizes w) = v
Call-Links p p' v resolves = (resolve-IsAnswer p v).0
Call-Links p p' v reads = (value-IsAnswer p v).0

new-Links : (max_width : ℕ) → Links (Recorder.new max_width)
unfolding Recorder.new splice_ids
new-Links max_width = record { main_in = tt; regions_in = tt; linked = λ i s e. absurd (cc e) }

Reaches-Links : (p p' : Printer) → Links p → Reaches p p' → Links p'
Reaches-Links p p' v start = v
Reaches-Links p p' v (next {p' = q} calls call) = Call-Links q p' (Reaches-Links p q v calls) call

-- A call that ends in a value or an error, and never in a panic.
abbrev pub Returns : {A : Type 0} → Rendering A → Type 0
Returns m = Ends AnyError (λ a. Unit {0}) m

-- In a build without overflow checks, where the indentation wraps: however a printer is reached from a new one, by writes, deferred slots, regions begun, committed and aborted on any
-- target, changes of the width and readings, its next call does not panic on a target that exists: it returns or
-- ends in an error, and a reading in no other error than `UnbalancedGroup`, `UnresolvedDeferred` or
-- `NothingToResolve`.
pub Reaches-safe :
    (max_width : ℕ) (p : Printer) (target : Target) (cmd : Cmd)
    → Reaches (Recorder.new max_width) p
    → HasTarget target p
    → IsPlain cmd
    → Returns (dispatch target cmd p)
      × Returns (deferred target p)
      × Returns (begin_speculative target p)
      × Returns (commit_speculative target p)
      × Returns (abort_speculative target p)
      × Ends MisuseError (λ a. Unit {0}) (value p).1
      × Ends MisuseError (λ a. Unit {0}) (resolve p).1
Reaches-safe max_width p target cmd calls t k =
    let v = Reaches-Links (Recorder.new max_width) p (new-Links max_width) calls in
    (
      Ends-mono (dispatch-Links target cmd p t (plain-SplicesIn (first_slot target) _ cmd k) v)
          (λ _ _. tt),
      Ends-mono (deferred-Links target p t v) (λ _ _. tt),
      Ends-mono (begin_speculative-Links target p t v) (λ _ _. tt),
      Ends-mono (commit_speculative-Links target p t v) (λ _ _. tt),
      Ends-mono (abort_speculative-Links target p t v) (λ _ _. tt),
      (value-IsAnswer p v).1,
      (resolve-IsAnswer p v).1,
    )
