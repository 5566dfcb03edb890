-- ===== src/Printer/Reading/Sealed.antt =====
-- A printer whose document was read (hegel-c/src/native/printer.rs).
use mathlib.Core.List.{map}
use hegel_rust.Base.{
  ℕ, ◌≡◌, refl, ◌∙◌, ap, subst, Bool, true, false, if◌then◌else◌, List, [], ◌∷◌, Option, none, some,
}
use hegel_rust.Base.Outcomes.{ok, err, panic, ok_injective}
use hegel_rust.Printer.Commands.{dead_slot, unresolved_deferred, Target, main, slot, Cmd, Slot}
use hegel_rust.Printer.Renderer.{Rendering}
use hegel_rust.Printer.Recorder.{Printer, dispatch, deferred}
use hegel_rust.Printer.Speculation.{begin_speculative, commit_speculative, abort_speculative}
use hegel_rust.Printer.Document.{render}
use hegel_rust.Printer.Reading.{close_slot, seal, rendered_output, value}

close_slot-again :
    (slots : List Slot) → map close_slot (map close_slot slots) ≡ map close_slot slots
unfolding close_slot
close_slot-again [] = refl
close_slot-again (s ∷ slots) = ap (λ l. close_slot s ∷ l) (close_slot-again slots)

-- A printer that was read: sealed, and with its document.
pub record IsRead (p : Printer) (document : List ℕ) : Type 0 where
  pub resolved : p.pending_resolve ≡ false
  pub kept : p.rendered ≡ some document
  pub seals : seal p ≡ p
  pub closed : p.sealed ≡ true

seal-again : (p : Printer) → seal (seal p) ≡ seal p
unfolding seal
seal-again p = ap (λ l. record (seal p) { slots = l }) (close_slot-again p.slots)

rendered-IsRead :
    (q : Printer) (d : List ℕ)
    → q.pending_resolve ≡ false
    → seal q ≡ q
    → q.sealed ≡ true
    → IsRead (record q { rendered = some d }) d
unfolding seal
rendered-IsRead q d h s c =
    let reads : Printer → Printer = λ x. record x { rendered = some d } in
    record { resolved = h; kept = refl; seals = ap reads s; closed = c }

-- The three answers of a layout, and the answer of `rendered_output` by what is kept.
layout-IsRead :
    (m : Rendering (List ℕ)) (q p' : Printer) (document : List ℕ)
    → q.pending_resolve ≡ false
    → seal q ≡ q
    → q.sealed ≡ true
    → ◌≡◌ {A = Printer × Rendering (List ℕ)}
        (elim m [
          | ok d ↦ (record q { rendered = some d }, ok d)
          | err e ↦ (q, err e)
          | panic ↦ (q, panic)
        ])
        (p', ok document)
    → IsRead p' document
layout-IsRead (ok d) q p' document h s c e =
    subst (λ x. IsRead x document) (ap (λ (a : Printer × Rendering (List ℕ)). a.0) e)
      (subst (IsRead (record q { rendered = some d }))
        (ok_injective d document (ap (λ (a : Printer × Rendering (List ℕ)). a.1) e))
        (rendered-IsRead q d h s c))
layout-IsRead (err x) q p' document h s c e =
    absurd (cc (ap (λ (a : Printer × Rendering (List ℕ)). a.1) e))
layout-IsRead panic q p' document h s c e =
    absurd (cc (ap (λ (a : Printer × Rendering (List ℕ)). a.1) e))

kept-IsRead :
    (o : Option (List ℕ)) (q p' : Printer) (document : List ℕ)
    → q.rendered ≡ o
    → q.pending_resolve ≡ false
    → seal q ≡ q
    → q.sealed ≡ true
    → ◌≡◌ {A = Printer × Rendering (List ℕ)}
        (elim o [
          | some d ↦ (q, ok d)
          | none ↦ elim (render q.max_width q.slots q.commands) [
            | ok d ↦ (record q { rendered = some d }, ok d)
            | err e ↦ (q, err e)
            | panic ↦ (q, panic)
          ]
        ])
        (p', ok document)
    → IsRead p' document
kept-IsRead (some d) q p' document k h s c e =
    subst (λ x. IsRead x document) (ap (λ (a : Printer × Rendering (List ℕ)). a.0) e)
      (record {
        resolved = h;
        kept =
            k
            ∙ ap some (ok_injective d document (ap (λ (a : Printer × Rendering (List ℕ)). a.1) e));
        seals = s;
        closed = c;
      })
kept-IsRead none q p' document k h s c e =
    layout-IsRead (render q.max_width q.slots q.commands) q p' document h s c e

value-IsRead :
    (p p' : Printer) (document : List ℕ) → value p ≡ (p', ok document) → IsRead p' document
unfolding value rendered_output seal
value-IsRead p p' document e = by_resolution p.pending_resolve refl e
  where
    by_resolution :
        (b : Bool)
        → p.pending_resolve ≡ b
        → ◌≡◌ {A = Printer × Rendering (List ℕ)}
            (if b then (p, err unresolved_deferred) else rendered_output (seal p))
            (p', ok document)
        → IsRead p' document
    by_resolution true h e = absurd (cc (ap (λ (a : Printer × Rendering (List ℕ)). a.1) e))
    by_resolution false h e =
        kept-IsRead p.rendered (seal p) p' document refl h (seal-again p) refl e

read-value : (p : Printer) (document : List ℕ) → IsRead p document → value p ≡ (p, ok document)
unfolding value rendered_output
read-value p document v =
    ap (λ b. if b then (p, err unresolved_deferred) else rendered_output (seal p)) v.resolved
    ∙ ap rendered_output v.seals
    ∙ ap
        (λ (o : Option (List ℕ)). elim o [
          | some d ↦ (p, ok d)
          | none ↦ elim (render p.max_width p.slots p.commands) [
            | ok d ↦ (record p { rendered = some d }, ok d)
            | err e ↦ (p, err e)
            | panic ↦ (p, panic)
          ]
        ])
        v.kept

-- No writer writes to a printer.
abbrev pub IsDead : Printer → Type 0
IsDead p =
    (target : Target)
    → ((cmd : Cmd) → dispatch target cmd p ≡ err dead_slot)
      × (deferred target p ≡ err dead_slot)
      × (begin_speculative target p ≡ err dead_slot)
      × (commit_speculative target p ≡ err dead_slot)
      × (abort_speculative target p ≡ err dead_slot)

sealed-IsDead : (p : Printer) → p.sealed ≡ true → IsDead p
unfolding dispatch deferred begin_speculative commit_speculative abort_speculative
sealed-IsDead p h main = (λ cmd. rw h, rw h, rw h, rw h, rw h)
sealed-IsDead p h (slot id) = (λ cmd. rw h, rw h, rw h, rw h, rw h)

-- Once a document was read, a second reading returns the same document and changes nothing, and every write on
-- the main output or on a slot ends in `DeadSlot`.
pub value-again :
    (p p' : Printer) (document : List ℕ)
    → value p ≡ (p', ok document)
    → (value p' ≡ (p', ok document)) × IsDead p'
value-again p p' document e =
    let v = value-IsRead p p' document e in (read-value p' document v, sealed-IsDead p' v.closed)
