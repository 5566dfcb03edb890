-- ===== src/Printer/Speculation/Commits.antt =====
-- A speculative region of the main output (hegel-c/src/native/printer.rs) that is committed, or aborted.
use hegel_rust.Base.{◌≡◌, sym, ◌∙◌, ap, subst, false, List, [], ◌∷◌, length}
use mathlib.Core.List.{reverse}
use hegel_rust.Base.Outcomes.{ok, ◌>>=◌}
use hegel_rust.Printer.Commands.{main, Cmd, splice_ids}
use hegel_rust.Printer.Recorder.{Printer}
use hegel_rust.Printer.Speculation.{
  begin_speculative, commit_main, commit_speculative, kill_loop, kill_splices, visits,
  abort_speculative,
}
use hegel_rust.Printer.Speculation.Writes.{
  IsOpen, dispatch_all, dispatch_all-main, dispatch_all-region, eq-unsealed, unsealed,
}

-- `commit_speculative`, on the regions of a printer that is not sealed.
commit_nested :
    (cmds : List Cmd) (outer : List Cmd) (rest : List (List Cmd)) (p : Printer)
    → dispatch_all main cmds (unsealed ([] ∷ outer ∷ rest) p) >>= commit_speculative main
      ≡ dispatch_all main cmds (unsealed (outer ∷ rest) p)
unfolding commit_speculative commit_main
commit_nested cmds outer rest p =
    ap (λ m. m >>= commit_speculative main) (dispatch_all-region cmds [] (outer ∷ rest) p)
    ∙ sym (dispatch_all-region cmds outer rest p)

commit_last :
    (cmds : List Cmd) (p : Printer)
    → IsOpen p
    → dispatch_all main cmds (unsealed ([] ∷ []) p) >>= commit_speculative main
      ≡ dispatch_all main cmds (unsealed [] p)
unfolding commit_speculative commit_main
commit_last cmds p h =
    ap (λ m. m >>= commit_speculative main) (dispatch_all-region cmds [] [] p)
    ∙ sym (dispatch_all-main cmds p h)

commit_unsealed :
    (cmds : List Cmd) (regions : List (List Cmd)) (p : Printer)
    → IsOpen p
    → dispatch_all main cmds (unsealed ([] ∷ regions) p) >>= commit_speculative main
      ≡ dispatch_all main cmds (unsealed regions p)
commit_unsealed cmds [] p h = commit_last cmds p h
commit_unsealed cmds (outer ∷ rest) p h = commit_nested cmds outer rest p

-- Where a document was not read yet, and has slots or ends no more groups than it begins, a speculative region of
-- the main output that is begun, written and committed records what the same writes record without it, and
-- ends in the same error where a group is ended that was not begun.
pub commit_speculative-dispatch :
    (cmds : List Cmd) (p : Printer)
    → p.sealed ≡ false
    → IsOpen p
    → (do p1 ← begin_speculative main p; p2 ← dispatch_all main cmds p1; commit_speculative main p2)
      ≡ dispatch_all main cmds p
unfolding begin_speculative
commit_speculative-dispatch cmds p h k =
    subst
      (λ q.
        (do
          p1 ← begin_speculative main q
          p2 ← dispatch_all main cmds p1
          commit_speculative main p2)
        ≡ dispatch_all main cmds q)
      (sym (eq-unsealed p h)) (commit_unsealed cmds p.speculation p k)

pub kill_splices-plain :
    (cmds : List Cmd) (p : Printer) → splice_ids cmds ≡ [] → kill_splices cmds p ≡ ok p
unfolding kill_splices kill_loop visits
kill_splices-plain cmds p k =
    ap
      (λ ids.
        kill_loop (visits p.slots (length p.slots) (reverse ids)) (reverse ids) p.slots >>= λ slots.
        ok (record p { slots = slots }))
      k

-- A speculative region of the main output that is begun, written without deferred slots and aborted leaves the
-- printer as it was, if its document was not read yet.
pub abort_speculative-dispatch :
    (cmds : List Cmd) (p : Printer)
    → p.sealed ≡ false
    → splice_ids cmds ≡ []
    → (do p1 ← begin_speculative main p; p2 ← dispatch_all main cmds p1; abort_speculative main p2)
      ≡ ok p
unfolding begin_speculative abort_speculative
abort_speculative-dispatch cmds p h k =
    subst
      (λ q.
        (do
          p1 ← begin_speculative main q
          p2 ← dispatch_all main cmds p1
          abort_speculative main p2)
        ≡ ok q)
      (sym (eq-unsealed p h))
      (ap (λ m. m >>= abort_speculative main) (dispatch_all-region cmds [] p.speculation p)
        ∙ kill_splices-plain cmds (unsealed p.speculation p) k)
