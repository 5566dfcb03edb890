-- ===== src/Printer/Reading/Recorded.antt =====
-- A document that is recorded on the main output, without deferred slots (hegel-c/src/native/printer.rs), and read.
use hegel_rust.Base.{ℕ, ◌≡◌, refl, sym, ◌∙◌, ap, subst, false, List, [], none, some}
use hegel_rust.Base.Outcomes.{ok, err, panic}
use hegel_rust.Base.Ends.{Ends-at_ok}
use hegel_rust.Printer.Commands.{main, Cmd, splice_ids}
use hegel_rust.Printer.Renderer.{Rendering}
use hegel_rust.Printer.Recorder
use hegel_rust.Printer.Recorder.{Printer, set_max_width, push_main, dispatch}
use hegel_rust.Printer.Speculation.{
  begin_speculative, balance_loop, commit_speculative, abort_speculative,
}
use hegel_rust.Printer.Document.{render}
use hegel_rust.Printer.Document.Execute.{IsPlain}
use hegel_rust.Printer.Document.Balanced.{render-balanced}
use hegel_rust.Printer.Reading.{seal, rendered_output, value}
use hegel_rust.Printer.Reading.Balanced.{
  IsRecorded, abort_speculative-IsRecorded, begin_speculative-IsRecorded,
  commit_speculative-IsRecorded, dispatch-IsRecorded, set_max_width-IsRecorded,
}

-- A call on the main output that ends well, none of them of a deferred slot.
pub data Step : Printer → Printer → Type 0 where
  writes : {p p' : Printer} (cmd : Cmd) → IsPlain cmd → dispatch main cmd p ≡ ok p' → Step p p'
  begins : {p p' : Printer} → begin_speculative main p ≡ ok p' → Step p p'
  commits : {p p' : Printer} → commit_speculative main p ≡ ok p' → Step p p'
  aborts : {p p' : Printer} → abort_speculative main p ≡ ok p' → Step p p'
  resizes : {p : Printer} (max_width : ℕ) → Step p (set_max_width max_width p)

pub data Records (p : Printer) : Printer → Type 0 where
  start : Records p p
  next : {p' p'' : Printer} → Records p p' → Step p' p'' → Records p p''

Step-IsRecorded : (p p' : Printer) → IsRecorded p → Step p p' → IsRecorded p'
Step-IsRecorded p p' v (writes cmd k e) = Ends-at_ok p' (dispatch-IsRecorded cmd p k v) e
Step-IsRecorded p p' v (begins e) = Ends-at_ok p' (begin_speculative-IsRecorded p v) e
Step-IsRecorded p p' v (commits e) = Ends-at_ok p' (commit_speculative-IsRecorded p v) e
Step-IsRecorded p p' v (aborts e) = Ends-at_ok p' (abort_speculative-IsRecorded p v) e
Step-IsRecorded p p' v (resizes w) = set_max_width-IsRecorded w p v

new-IsRecorded : (max_width : ℕ) → IsRecorded (Recorder.new max_width)
unfolding Recorder.new splice_ids balance_loop
new-IsRecorded max_width = record {
  no_slots = refl;
  unresolved = refl;
  unread = refl;
  plain = refl;
  regions = tt;
  counted = refl;
  nonneg = refl;
}

Records-IsRecorded : (p p' : Printer) → IsRecorded p → Records p p' → IsRecorded p'
Records-IsRecorded p p' v start = v
Records-IsRecorded p p' v (next {p' = q} steps step) =
    Step-IsRecorded q p' (Records-IsRecorded p q v steps) step

read_out :
    (p : Printer) (document : List ℕ)
    → IsRecorded p
    → render p.max_width [] p.commands ≡ ok document
    → value p ≡ (record (seal p) { rendered = some document }, ok document)
unfolding value rendered_output seal
read_out p document v e =
    let q : Printer = record p { slots = []; pending_resolve = false; rendered = none } in
    let same : p ≡ q =
      ap (λ l. record p { slots = l }) v.no_slots
      ∙ ap (λ b. record p { slots = []; pending_resolve = b }) v.unresolved
      ∙ ap (λ o. record p { slots = []; pending_resolve = false; rendered = o }) v.unread in
    subst (λ x. value x ≡ (record (seal x) { rendered = some document }, ok document)) (sym same)
      (ap
        (λ (o : Rendering (List ℕ)). elim o [
          | ok d ↦ (record (seal q) { rendered = some d }, ok d)
          | err c ↦ (seal q, err c)
          | panic ↦ (seal q, panic)
        ])
        e)

-- In a build without overflow checks, where the indentation wraps: a new printer after any sequence of writes, changes of the width, and regions begun, committed and
-- aborted on its main output, each of them without an error and none for a deferred slot, reads out with no
-- error: its value is the layout of the commands that are recorded, and is kept.
pub Records-value :
    (max_width : ℕ) (p : Printer)
    → Records (Recorder.new max_width) p
    → (document : List ℕ) × (render p.max_width [] p.commands ≡ ok document)
      × (value p ≡ (record (seal p) { rendered = some document }, ok document))
Records-value max_width p steps =
    let v = Records-IsRecorded (Recorder.new max_width) p (new-IsRecorded max_width) steps in
    let (document, e) = render-balanced p.max_width p.commands p.open_groups v.plain v.counted in
    (document, e, read_out p document v e)
