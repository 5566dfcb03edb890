-- ===== src/Printer/Speculation.antt =====
-- hegel-c/src/native/printer.rs: the speculative regions of `Printer`, output that may be retracted.
pub mod Writes
pub mod Commits
pub mod Balance
pub mod Visits
pub mod Kills
pub mod Links
use hegel_rust.Base.{
  ℕ, zero, suc, ◌+◌, Bool, true, ◌&&◌, if◌then◌else◌, List, [], ◌∷◌, ◌++◌, length,
}
use hegel_rust.Base.Int.{ℤ, pos, ◌+ℤ◌, ◌-ℤ◌, ltb_ℤ}
use hegel_rust.Base.Outcomes.{ok, err, panic, ◌>>=◌, at, write}
use hegel_rust.Printer.Commands.{
  PrinterError, dead_slot, unbalanced_group, no_speculation, Target, main, slot, Cmd, text,
  breakable, if_break, hard_break, begin_group, end_group, shift_indent, comment, splice, Slot,
  splice_ids,
}
use hegel_rust.Printer.Renderer.{Rendering, is_nil}
use mathlib.Core.List.{reverse}
use hegel_rust.Printer.Recorder.{Printer}

unfoldable pub begin_speculative : Target → Printer → Rendering Printer
begin_speculative main p =
    if p.sealed then err dead_slot else ok (record p { speculation = [] ∷ p.speculation })
begin_speculative (slot id) p = if p.sealed then err dead_slot else (do
  s ← at p.slots id
  if s.dead then err dead_slot else (do
    slots ← write p.slots id (record s { speculation = [] ∷ s.speculation })
    ok (record p { slots = slots })))

-- The loop over a region that is committed: the balance of its groups from `balance` on.
unfoldable pub balance_loop : Bool → ℤ → List Cmd → Rendering ℤ
balance_loop sound balance [] = ok balance
balance_loop sound balance (begin_group _ _ ∷ cmds) = balance_loop sound (balance +ℤ pos 1) cmds
balance_loop sound balance (end_group _ ∷ cmds) =
    let rest = balance_loop sound (balance -ℤ pos 1) cmds in
    if sound && ltb_ℤ (balance -ℤ pos 1) (pos 0) then err unbalanced_group else rest
balance_loop sound balance (text _ ∷ cmds) = balance_loop sound balance cmds
balance_loop sound balance (breakable _ ∷ cmds) = balance_loop sound balance cmds
balance_loop sound balance (if_break _ ∷ cmds) = balance_loop sound balance cmds
balance_loop sound balance (hard_break ∷ cmds) = balance_loop sound balance cmds
balance_loop sound balance (shift_indent _ ∷ cmds) = balance_loop sound balance cmds
balance_loop sound balance (comment _ ∷ cmds) = balance_loop sound balance cmds
balance_loop sound balance (splice _ ∷ cmds) = balance_loop sound balance cmds

-- `commit_speculative` on the main output, by the stack of regions.
unfoldable pub commit_main : List (List Cmd) → Printer → Rendering Printer
unfolding balance_loop is_nil splice_ids
commit_main [] p = err no_speculation
commit_main (buf ∷ outer ∷ rest) p = ok (record p { speculation = (outer ++ buf) ∷ rest })
commit_main (buf ∷ []) p = do
  balance ← balance_loop (is_nil p.slots) p.open_groups buf
  ok (record p {
    speculation = [];
    pending_resolve = if is_nil (splice_ids buf) then p.pending_resolve else true;
    open_groups = balance;
    commands = p.commands ++ buf;
  })

unfoldable pub commit_slot : Slot → Rendering Slot
commit_slot s = elim s.speculation [
  | [] ↦ err no_speculation
  | buf ∷ rest ↦ elim rest [
    | [] ↦ ok (record s { speculation = []; commands = s.commands ++ buf })
    | outer ∷ more ↦ ok (record s { speculation = (outer ++ buf) ∷ more })
  ]
]

unfoldable pub commit_speculative : Target → Printer → Rendering Printer
unfolding commit_main commit_slot
commit_speculative main p = if p.sealed then err dead_slot else commit_main p.speculation p
commit_speculative (slot id) p = if p.sealed then err dead_slot else (do
  s ← at p.slots id
  if s.dead
      then err dead_slot
      else (do s' ← commit_slot s; slots ← write p.slots id s'; ok (record p { slots = slots })))

unfoldable pub region_ids : List (List Cmd) → List ℕ
unfolding splice_ids
region_ids [] = []
region_ids (buf ∷ regions) = splice_ids buf ++ region_ids regions

-- The slots that a slot's content splices, the last of them first.
unfoldable pub content_ids : Slot → List ℕ
unfolding splice_ids region_ids
content_ids s = reverse (splice_ids s.commands ++ region_ids (reverse s.speculation))

-- How many slots the worklist of `kill_splices` takes, where their contents nest to a depth.
unfoldable pub visits : List Slot → ℕ → List ℕ → ℕ
unfolding content_ids
visits slots depth [] = 0
visits slots zero (id ∷ work) = 0
visits slots (suc depth) (id ∷ work) =
    let rest = visits slots (suc depth) work in
    elim (at {E = PrinterError} slots id) [
      | ok s ↦ suc (visits slots depth (content_ids s) + rest)
      | err _ ↦ rest
      | panic ↦ rest
    ]

-- The worklist, its end first: a slot is dead, and so is what its content splices.
unfoldable pub kill_loop : ℕ → List ℕ → List Slot → Rendering (List Slot)
unfolding content_ids
kill_loop rounds [] slots = ok slots
kill_loop zero (id ∷ work) slots = panic
kill_loop (suc rounds) (id ∷ work) slots = do
  s ← at slots id
  slots' ← write slots id (record s { dead = true })
  kill_loop rounds (content_ids s ++ work) slots'

unfoldable pub kill_splices : List Cmd → Printer → Rendering Printer
unfolding kill_loop visits splice_ids
kill_splices cmds p = do
  let work = reverse (splice_ids cmds)
  slots ← kill_loop (visits p.slots (length p.slots) work) work p.slots
  ok (record p { slots = slots })

unfoldable pub abort_speculative : Target → Printer → Rendering Printer
unfolding kill_splices
abort_speculative main p = if p.sealed then err dead_slot else elim p.speculation [
  | [] ↦ err no_speculation
  | buf ∷ rest ↦ kill_splices buf (record p { speculation = rest })
]
abort_speculative (slot id) p = if p.sealed then err dead_slot else (do
  s ← at p.slots id
  if s.dead then err dead_slot else elim s.speculation [
    | [] ↦ err no_speculation
    | buf ∷ rest ↦ do
      slots ← write p.slots id (record s { speculation = rest })
      kill_splices buf (record p { slots = slots })
  ])
