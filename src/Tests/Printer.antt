-- ===== src/Tests/Printer.antt =====
-- Concrete runs of the pretty-printer: layouts on a wide and on a narrow line, regions and slots.
use hegel_rust.Base.{ℕ, ◌≡◌, refl, subst, arith, true, false, List, [], ◌∷◌, some, zero, suc}
use hegel_rust.Base.Int.{◌+ℤ◌}
use hegel_rust.Base.Outcomes.{ok, ok_injective, ◌>>=◌}
use hegel_rust.Base.Ends.{Ends}
use hegel_rust.Printer.Commands.{
  unbalanced_group, main, slot, hard_break, Cmd, text, breakable, begin_group, end_group, comment,
  splice, Slot, splice_ids,
}
use hegel_rust.Printer.Renderer
use hegel_rust.Printer.Renderer.{
  Renderer, width, is_nil, emit_pending_comments, emit, start_line, remove_id, queue_remove,
  output_token, flush_loop, flush,
}
use hegel_rust.Printer.Renderer.Writes
use hegel_rust.Printer.Renderer.Writes.{
  append_text, push_text, innermost, newline, push_level, fresh_line,
}
use hegel_rust.Printer.Document.{execute, mark_comment_groups, run, finish, render}
use hegel_rust.Printer.Document.Marks.{SplicesIn, IsNested}
use hegel_rust.Printer.Document.Safe.{render-safe}
use hegel_rust.Printer.Recorder
use hegel_rust.Printer.Recorder.{Printer, dispatch, push_main, push_slot, deferred}
use hegel_rust.Printer.Speculation.{
  begin_speculative, commit_speculative, abort_speculative, balance_loop, commit_main, kill_splices,
}
use hegel_rust.Printer.Speculation.Commits.{commit_speculative-dispatch, abort_speculative-dispatch}
use hegel_rust.Printer.Speculation.Writes.{dispatch_all}
use hegel_rust.Printer.Speculation.Kills.{IsKilled, kill_splices-IsKilled}
use hegel_rust.Printer.Speculation.Visits.{IsLinkedAt, AreLinked}
use hegel_rust.Printer.Reading.Reaches
use hegel_rust.Printer.Reading.Reaches.{Returns, MisuseError, Reaches-safe, defers, dispatches}
use hegel_rust.Printer.Reading.{resolve, seal, value}
use hegel_rust.Printer.Reading.Recorded.{Records-value}
use hegel_rust.Printer.Reading.Recorded.{start, next, writes, begins, commits}

-- `[1, 2]`, a group of two parts.
abbrev pair : List Cmd
pair =
    begin_group 1 (b'[' ∷ [])
    ∷ text (b'1' ∷ b',' ∷ [])
    ∷ breakable (b' ' ∷ [])
    ∷ text (b'2' ∷ [])
    ∷ end_group (b']' ∷ [])
    ∷ []

wide_run : render 10 [] pair ≡ ok (b'[' ∷ b'1' ∷ b',' ∷ b' ' ∷ b'2' ∷ b']' ∷ [])
unfolding render mark_comment_groups run execute finish Writes.begin_group Renderer.new
    Writes.breakable Writes.end_group
wide_run = refl

narrow_run : render 4 [] pair ≡ ok (b'[' ∷ b'1' ∷ b',' ∷ 10 ∷ b' ' ∷ b'2' ∷ b']' ∷ [])
unfolding render mark_comment_groups run execute finish Writes.begin_group Renderer.new
    Writes.breakable ◌+ℤ◌ Writes.end_group
narrow_run = refl

-- Two slots, of which the first splices the second.
abbrev outer_slot : Slot
outer_slot = record { commands = text (b'b' ∷ []) ∷ splice 1 ∷ []; speculation = []; dead = false }

abbrev inner_slot : Slot
inner_slot = record { commands = comment (b'c' ∷ []) ∷ []; speculation = []; dead = false }

abbrev two_slots : List Slot
two_slots = outer_slot ∷ inner_slot ∷ []

two_slots-IsNested : IsNested two_slots
unfolding splice_ids
two_slots-IsNested zero s e =
    subst (λ t. SplicesIn 1 2 t.commands) (ok_injective outer_slot s e)
      ((omega arith, omega arith), tt)
two_slots-IsNested (suc zero) s e =
    subst (λ t. SplicesIn 2 2 t.commands) (ok_injective inner_slot s e) tt
two_slots-IsNested (suc (suc i)) s e = absurd (cc e)

render-safe_example :
    Ends
      (λ e. e ≡ unbalanced_group)
      (λ document. Unit)
      (render 4 two_slots (begin_group 1 (b'[' ∷ []) ∷ splice 0 ∷ end_group [] ∷ end_group [] ∷ []))
unfolding splice_ids
render-safe_example =
    render-safe 4 two_slots
      (begin_group 1 (b'[' ∷ []) ∷ splice 0 ∷ end_group [] ∷ end_group [] ∷ []) two_slots-IsNested
      ((omega arith, omega arith), tt)

abbrev fresh : Printer
fresh = Recorder.new 4

commit_speculative-dispatch_example :
    (do
      p1 ← begin_speculative main fresh
      p2 ← dispatch_all main pair p1
      commit_speculative main p2)
    ≡ dispatch_all main pair fresh
unfolding Recorder.new
commit_speculative-dispatch_example = commit_speculative-dispatch pair fresh refl (λ _. refl)

abort_speculative-dispatch_example :
    (do
      p1 ← begin_speculative main fresh
      p2 ← dispatch_all main pair p1
      abort_speculative main p2)
    ≡ ok fresh
unfolding Recorder.new splice_ids
abort_speculative-dispatch_example = abort_speculative-dispatch pair fresh refl refl

-- A text and a comment in a region, which is committed.
abbrev recorded : Printer
recorded = record fresh { commands = text (b'a' ∷ []) ∷ comment (b'c' ∷ []) ∷ [] }

Records-value_example :
    (document : List ℕ) × (render 4 [] (text (b'a' ∷ []) ∷ comment (b'c' ∷ []) ∷ []) ≡ ok document)
    × (value recorded ≡ (record (seal recorded) { rendered = some document }, ok document))
unfolding Recorder.new begin_speculative dispatch push_main commit_speculative commit_main
    balance_loop splice_ids is_nil
Records-value_example = Records-value 4 recorded (
    next
      (next (next (next start (writes (text (b'a' ∷ [])) tt refl)) (begins refl))
        (writes (comment (b'c' ∷ [])) tt refl))
      (commits refl))

abbrev read : Printer
read = record recorded { sealed = true; rendered = some (b'a' ∷ b'c' ∷ []) }

two_slots-AreLinked : AreLinked two_slots
unfolding splice_ids
two_slots-AreLinked zero s e =
    subst (IsLinkedAt 2 0) (ok_injective outer_slot s e) (((omega arith, omega arith), tt), tt)
two_slots-AreLinked (suc zero) s e = subst (IsLinkedAt 2 1) (ok_injective inner_slot s e) (tt, tt)
two_slots-AreLinked (suc (suc i)) s e = absurd (cc e)

abbrev nested : Printer
nested = record fresh { slots = two_slots }

kill_splices-IsKilled_example :
    Ends (λ e. ⊥) (IsKilled nested) (kill_splices (splice 0 ∷ []) nested)
unfolding splice_ids
kill_splices-IsKilled_example =
    kill_splices-IsKilled (splice 0 ∷ []) nested two_slots-AreLinked
      ((omega arith, omega arith), tt)

-- A slot opened in a region, and written.
abbrev held : Printer
held = record fresh {
  speculation = (splice 0 ∷ []) ∷ [];
  slots = record { commands = text (b'a' ∷ []) ∷ []; speculation = []; dead = false } ∷ [];
}

Reaches-safe_example :
    Returns (dispatch (slot 0) hard_break held)
    × Returns (deferred (slot 0) held)
    × Returns (begin_speculative (slot 0) held)
    × Returns (commit_speculative (slot 0) held)
    × Returns (abort_speculative (slot 0) held)
    × Ends MisuseError (λ a. Unit) (value held).1
    × Ends MisuseError (λ a. Unit) (resolve held).1
unfolding Recorder.new begin_speculative dispatch deferred push_slot
Reaches-safe_example =
    Reaches-safe 4 held (slot 0) hard_break
      (Reaches.next
        (Reaches.next (Reaches.next Reaches.start (Reaches.begins main tt refl))
          (defers main 0 tt refl))
        (dispatches (slot 0) (text (b'a' ∷ [])) (omega arith) tt refl))
      (omega arith) tt
