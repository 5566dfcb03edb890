-- ===== src/Printer/Speculation/Links.antt =====
-- The regions of a printer (hegel-c/src/native/printer.rs) keep its splices in order, and end with no panic.
use hegel_rust.Base.{ℕ, suc, sym, subst, arith, Bool, ◌&&◌, List, [], ◌∷◌, ◌++◌, length, All}
use hegel_rust.Base.Int.{ℤ, pos, ◌+ℤ◌, ◌-ℤ◌, ltb_ℤ}
use hegel_rust.Base.Ends.{
  Ends, returns, fails, Ends-bind, Ends-mono, Ends-if, Ends-list, Ends-at, Ends-write, length-write,
}
use hegel_rust.Printer.Commands.{
  Target, main, slot, Cmd, text, breakable, if_break, hard_break, begin_group, end_group,
  shift_indent, comment, splice, Slot, splice_ids,
}
use hegel_rust.Printer.Renderer.{is_nil}
use hegel_rust.Printer.Renderer.Sound.{All-mono}
use hegel_rust.Printer.Recorder.{Printer}
use hegel_rust.Printer.Recorder.Links.{
  Links, AnyError, HasTarget, SplicesIn-append, Links-write, Links-regions, Links-commands,
}
use hegel_rust.Printer.Document.Marks.{SplicesIn}
use hegel_rust.Printer.Speculation.{
  begin_speculative, balance_loop, commit_main, commit_slot, commit_speculative, kill_splices,
  abort_speculative,
}
use hegel_rust.Printer.Speculation.Kills.{SameContents-AreLinked, kill_splices-IsKilled}
use hegel_rust.Printer.Speculation.Visits.{IsLinkedAt}

pub begin_speculative-Links :
    (target : Target) (p : Printer)
    → HasTarget target p
    → Links p
    → Ends AnyError Links (begin_speculative target p)
unfolding begin_speculative splice_ids
begin_speculative-Links main p t v =
    Ends-if p.sealed (λ _. fails tt)
      (λ _. returns (Links-regions p ([] ∷ p.speculation) v (tt, v.regions_in)))
begin_speculative-Links (slot id) p t v =
    Ends-if p.sealed (λ _. fails tt)
      (λ _. Ends-bind (Ends-at p.slots id t) λ s e.
        Ends-if s.dead (λ _. fails tt)
          (λ _.
            Ends-bind (Ends-write p.slots id (record s { speculation = [] ∷ s.speculation }) t)
              λ slots' w.
                let (a, b) = v.linked id s e in
                returns (Links-write p id _ slots' v w (a, (tt, b)))))

balance_loop_total :
    (sound : Bool) (n : ℤ) (cmds : List Cmd)
    → Ends AnyError (λ b. Unit {0}) (balance_loop sound n cmds)
unfolding balance_loop
balance_loop_total sound n [] = returns tt
balance_loop_total sound n (text s ∷ cmds) = balance_loop_total sound n cmds
balance_loop_total sound n (breakable s ∷ cmds) = balance_loop_total sound n cmds
balance_loop_total sound n (if_break s ∷ cmds) = balance_loop_total sound n cmds
balance_loop_total sound n (hard_break ∷ cmds) = balance_loop_total sound n cmds
balance_loop_total sound n (begin_group i o ∷ cmds) = balance_loop_total sound (n +ℤ pos 1) cmds
balance_loop_total sound n (end_group c ∷ cmds) =
    Ends-if (sound && ltb_ℤ (n -ℤ pos 1) (pos 0)) (λ _. fails tt)
      (λ _. balance_loop_total sound (n -ℤ pos 1) cmds)
balance_loop_total sound n (shift_indent d ∷ cmds) = balance_loop_total sound n cmds
balance_loop_total sound n (comment s ∷ cmds) = balance_loop_total sound n cmds
balance_loop_total sound n (splice id ∷ cmds) = balance_loop_total sound n cmds

commit_main-Links :
    (regions : List (List Cmd)) (p : Printer)
    → All (SplicesIn 0 (length p.slots)) regions
    → Links p
    → Ends AnyError Links (commit_main regions p)
unfolding commit_main
commit_main-Links [] p h v = fails tt
commit_main-Links (buf ∷ []) p h v =
    Ends-bind (balance_loop_total (is_nil p.slots) p.open_groups buf) λ b _.
      returns (
        Links-regions (record p { commands = p.commands ++ buf }) [] (Links-commands p buf v h.0)
          tt)
commit_main-Links (buf ∷ outer ∷ rest) p h v = returns (
    Links-regions p ((outer ++ buf) ∷ rest) v
      (SplicesIn-append 0 (length p.slots) outer buf h.1.0 h.0, h.1.1))

commit_slot-IsLinkedAt :
    (s : Slot) (n i : ℕ) → IsLinkedAt n i s → Ends AnyError (IsLinkedAt n i) (commit_slot s)
unfolding commit_slot
commit_slot-IsLinkedAt s n i v =
    Ends-list s.speculation _ _ (λ _. fails tt)
      (λ buf rest e.
        let h = subst (All (SplicesIn (suc i) n)) e v.1 in
        Ends-list rest _ _ (λ _. returns (SplicesIn-append (suc i) n s.commands buf v.0 h.0, tt))
          (λ outer more f.
            let k = subst (All (SplicesIn (suc i) n)) f h.1 in
            returns (v.0, (SplicesIn-append (suc i) n outer buf k.0 h.0, k.1))))

pub commit_speculative-Links :
    (target : Target) (p : Printer)
    → HasTarget target p
    → Links p
    → Ends AnyError Links (commit_speculative target p)
unfolding commit_speculative
commit_speculative-Links main p t v =
    Ends-if p.sealed (λ _. fails tt) (λ _. commit_main-Links p.speculation p v.regions_in v)
commit_speculative-Links (slot id) p t v =
    Ends-if p.sealed (λ _. fails tt)
      (λ _. Ends-bind (Ends-at p.slots id t) λ s e.
        Ends-if s.dead (λ _. fails tt)
          (λ _. Ends-bind (commit_slot-IsLinkedAt s (length p.slots) id (v.linked id s e)) λ s' k.
            Ends-bind (Ends-write p.slots id s' t)
              λ slots' w. returns (Links-write p id s' slots' v w k)))

kill_splices-Links :
    (cmds : List Cmd) (p : Printer)
    → Links p
    → SplicesIn 0 (length p.slots) cmds
    → Ends AnyError Links (kill_splices cmds p)
kill_splices-Links cmds p v h = Ends-mono (kill_splices-IsKilled cmds p v.linked h) λ p' k.
    let n = sym k.slots.same_length in
    subst Links (sym k.rest) (record {
      main_in = subst (λ m. SplicesIn 0 m p.commands) n v.main_in;
      regions_in = subst (λ m. All (SplicesIn 0 m) p.speculation) n v.regions_in;
      linked = SameContents-AreLinked p.slots p'.slots k.slots v.linked;
    })

pub abort_speculative-Links :
    (target : Target) (p : Printer)
    → HasTarget target p
    → Links p
    → Ends AnyError Links (abort_speculative target p)
unfolding abort_speculative
abort_speculative-Links main p t v =
    Ends-if p.sealed (λ _. fails tt)
      (λ _.
        Ends-list p.speculation _ _ (λ _. fails tt)
          (λ buf rest e.
            let h = subst (All (SplicesIn 0 (length p.slots))) e v.regions_in in
            kill_splices-Links buf (record p { speculation = rest }) (Links-regions p rest v h.1)
              h.0))
abort_speculative-Links (slot id) p t v =
    Ends-if p.sealed (λ _. fails tt)
      (λ _. Ends-bind (Ends-at p.slots id t) λ s e.
        Ends-if s.dead (λ _. fails tt)
          (λ _.
            Ends-list s.speculation _ _ (λ _. fails tt)
              (λ buf rest f.
                let (a, b) = v.linked id s e in
                let h = subst (All (SplicesIn (suc id) (length p.slots))) f b in
                Ends-bind (Ends-write p.slots id (record s { speculation = rest }) t) λ slots' w.
                  kill_splices-Links buf (record p { slots = slots' })
                    (Links-write p id (record s { speculation = rest }) slots' v w (a, h.1))
                    (subst (λ n. SplicesIn 0 n buf)
                      (sym (length-write p.slots id (record s { speculation = rest }) slots' w))
                      (All-mono _ _ (splice_ids buf) (λ j k. (omega arith, k.1)) h.0)))))
