-- ===== src/Printer/Reading.antt =====
-- hegel-c/src/native/printer.rs: the reading of a document, which seals it. The printer comes back
-- with the answer, be it an error.
pub mod Balanced
pub mod Recorded
pub mod Sealed
pub mod Reaches
use hegel_rust.Base.{ℕ, true, false, not, if◌then◌else◌, List, [], map, none, some}
use hegel_rust.Base.Outcomes.{ok, err, panic, ◌>>=◌}
use hegel_rust.Printer.Commands.{unresolved_deferred, nothing_to_resolve, Slot}
use hegel_rust.Printer.Renderer.{Rendering}
use hegel_rust.Printer.Document.{render}
use hegel_rust.Printer.Recorder.{Printer}

unfoldable pub close_slot : Slot → Slot
close_slot s = record s { speculation = []; dead = true }

unfoldable pub seal : Printer → Printer
unfolding close_slot
seal p = record p { speculation = []; slots = map close_slot p.slots; sealed = true }

unfoldable pub rendered_output : Printer → Printer × Rendering (List ℕ)
unfolding render
rendered_output p = elim p.rendered [
  | some document ↦ (p, ok document)
  | none ↦ elim (render p.max_width p.slots p.commands) [
    | ok document ↦ (record p { rendered = some document }, ok document)
    | err e ↦ (p, err e)
    | panic ↦ (p, panic)
  ]
]

unfoldable pub resolve : Printer → Printer × Rendering (Unit {0})
unfolding seal rendered_output
resolve p =
    if not p.pending_resolve
    then (p, err nothing_to_resolve)
    else (let (p', document) = rendered_output (record (seal p) { pending_resolve = false }) in
        (p', document >>= λ _. ok tt))

unfoldable pub value : Printer → Printer × Rendering (List ℕ)
unfolding seal rendered_output
value p = if p.pending_resolve then (p, err unresolved_deferred) else rendered_output (seal p)
