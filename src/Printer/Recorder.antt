-- ===== src/Printer/Recorder.antt =====
-- hegel-c/src/native/printer.rs, `Printer`: what the writers of a document record. A call that ends in an
-- error leaves the printer as it was.
pub mod Links
use hegel_rust.Base.{
  ℕ, Bool, true, false, ◌==◌, ◌&&◌, if◌then◌else◌, List, [], ◌∷◌, ◌++◌, length, Option, none,
}
use hegel_rust.Base.Int.{ℤ, pos, ◌+ℤ◌, ◌-ℤ◌, eqb_ℤ}
use hegel_rust.Base.Outcomes.{ok, err, ◌>>=◌, at, write}
use hegel_rust.Printer.Commands.{
  dead_slot, unbalanced_group, Target, main, slot, Cmd, text, breakable, if_break, hard_break,
  begin_group, end_group, shift_indent, comment, splice, Slot, new_slot, newline_char,
}
use hegel_rust.Printer.Renderer.{Rendering, is_nil}

-- The innermost speculative region stands first.
pub record Printer : Type 0 where
  pub max_width : ℕ
  pub commands : List Cmd
  pub open_groups : ℤ
  pub speculation : List (List Cmd)
  pub slots : List Slot
  pub pending_resolve : Bool
  pub sealed : Bool
  pub rendered : Option (List ℕ)

unfoldable pub new : ℕ → Printer
new max_width = record {
  max_width = max_width;
  commands = [];
  open_groups = pos 0;
  speculation = [];
  slots = [];
  pending_resolve = false;
  sealed = false;
  rendered = none;
}

unfoldable pub set_max_width : ℕ → Printer → Printer
set_max_width max_width p = record p { max_width = max_width; rendered = none }

-- A command at the end of the open document.
unfoldable pub push_main : Cmd → Printer → Rendering Printer
push_main (begin_group indent opening) p = ok (record p {
  commands = p.commands ++ (begin_group indent opening ∷ []);
  open_groups = p.open_groups +ℤ pos 1;
})
push_main (end_group close) p =
    if is_nil p.slots && eqb_ℤ p.open_groups (pos 0)
    then err unbalanced_group
    else ok (record p {
      commands = p.commands ++ (end_group close ∷ []);
      open_groups = p.open_groups -ℤ pos 1;
    })
push_main (splice id) p =
    ok (record p { commands = p.commands ++ (splice id ∷ []); pending_resolve = true })
push_main (text s) p = ok (record p { commands = p.commands ++ (text s ∷ []) })
push_main (breakable s) p = ok (record p { commands = p.commands ++ (breakable s ∷ []) })
push_main (if_break s) p = ok (record p { commands = p.commands ++ (if_break s ∷ []) })
push_main hard_break p = ok (record p { commands = p.commands ++ (hard_break ∷ []) })
push_main (shift_indent d) p = ok (record p { commands = p.commands ++ (shift_indent d ∷ []) })
push_main (comment s) p = ok (record p { commands = p.commands ++ (comment s ∷ []) })

unfoldable pub push_slot : Cmd → Slot → Slot
push_slot cmd s = elim s.speculation [
  | [] ↦ record s { commands = s.commands ++ (cmd ∷ []) }
  | buf ∷ outer ↦ record s { speculation = (buf ++ (cmd ∷ [])) ∷ outer }
]

unfoldable pub dispatch : Target → Cmd → Printer → Rendering Printer
unfolding push_main push_slot is_nil
dispatch main cmd p = if p.sealed then err dead_slot else elim p.speculation [
  | [] ↦ push_main cmd p
  | buf ∷ outer ↦ ok (record p { speculation = (buf ++ (cmd ∷ [])) ∷ outer })
]
dispatch (slot id) cmd p = if p.sealed then err dead_slot else (do
  s ← at p.slots id
  if s.dead
      then err dead_slot
      else (do slots ← write p.slots id (push_slot cmd s); ok (record p { slots = slots })))

-- The new printer, and the number of the slot.
unfoldable pub deferred : Target → Printer → Rendering (Printer × ℕ)
unfolding dispatch
deferred main p = if p.sealed then err dead_slot else (do
  p' ← dispatch main (splice (length p.slots)) (record p { slots = p.slots ++ (new_slot ∷ []) })
  ok (p', length p.slots))
deferred (slot id) p = if p.sealed then err dead_slot else (do
  s ← at p.slots id
  if s.dead then err dead_slot else (do
    p' ←
        dispatch (slot id) (splice (length p.slots))
          (record p { slots = p.slots ++ (new_slot ∷ []) })
    ok (p', length p.slots)))

-- The segments of a text between its newlines, the first of them begun by `s`.
unfoldable pub split_lines : List ℕ → List ℕ → List (List ℕ)
split_lines s [] = s ∷ []
split_lines s (c ∷ rest) =
    let ended = s ∷ split_lines [] rest in
    let longer = split_lines (s ++ (c ∷ [])) rest in if c == newline_char then ended else longer

unfoldable pub note_loop : Target → List (List ℕ) → Printer → Rendering Printer
unfolding dispatch
note_loop target [] p = ok p
note_loop target (segment ∷ segments) p = do
  p' ← if is_nil segment then ok p else dispatch target (text segment) p
  p'' ← dispatch target hard_break p'
  note_loop target segments p''

unfoldable pub note : Target → List ℕ → Printer → Rendering Printer
unfolding note_loop split_lines
note target s p = note_loop target (split_lines [] s) p
