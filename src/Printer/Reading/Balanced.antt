-- ===== src/Printer/Reading/Balanced.antt =====
-- The calls on the main output (hegel-c/src/native/printer.rs) keep a document without slots balanced.
use hegel_rust.Base.{
  ℕ, ◌≡◌, refl, sym, ◌∙◌, ap, subst, true, false, ◌&&◌, if◌then◌else◌, List, [], ◌∷◌, ◌++◌, All,
  none,
}
use hegel_rust.Base.Int.{ℤ, pos, ◌+ℤ◌, ◌-ℤ◌, eqb_ℤ, neg_part}
use hegel_rust.Base.Outcomes.{ok, err, ◌>>=◌}
use hegel_rust.Base.Ends.{Ends, returns, fails, Ends-bind, Ends-if, Ends-list, Ends-ok}
use hegel_rust.Printer.Commands.{
  PrinterError, unbalanced_group, main, Cmd, text, breakable, if_break, hard_break, begin_group,
  end_group, shift_indent, comment, splice, splice_ids,
}
use hegel_rust.Printer.Renderer.{is_nil}
use hegel_rust.Printer.Recorder.{Printer, set_max_width, push_main, dispatch}
use hegel_rust.Printer.Speculation.{
  begin_speculative, balance_loop, commit_main, commit_speculative, abort_speculative,
}
use hegel_rust.Printer.Speculation.Commits.{kill_splices-plain}
use hegel_rust.Printer.Speculation.Writes.{same_test, more_open, less_open}
use hegel_rust.Printer.Document.Execute.{IsPlain}
use hegel_rust.Printer.Speculation.Balance.{
  splice_ids-append, balance_loop-append, balance_loop-Ends, plain-splice_ids,
}

-- The groups of the document are balanced as far as it is recorded.
pub record IsRecorded (p : Printer) : Type 0 where
  pub no_slots : p.slots ≡ []
  pub unresolved : p.pending_resolve ≡ false
  pub unread : p.rendered ≡ none
  pub plain : splice_ids p.commands ≡ []
  pub regions : All (λ cmds. splice_ids cmds ≡ []) p.speculation
  pub counted : balance_loop true (pos 0) p.commands ≡ ok p.open_groups
  pub nonneg : neg_part p.open_groups ≡ 0

-- Commands at the end of a document that is outside of any region.
extended :
    (cmds : List Cmd) (b : ℤ) (p p' : Printer)
    → IsRecorded p
    → splice_ids cmds ≡ []
    → balance_loop true p.open_groups cmds ≡ ok b
    → neg_part b ≡ 0
    → p' ≡ record p { commands = p.commands ++ cmds; open_groups = b; speculation = [] }
    → IsRecorded p'
extended cmds b p p' v e k h same = subst IsRecorded (sym same) (record {
  no_slots = v.no_slots;
  unresolved = v.unresolved;
  unread = v.unread;
  plain = splice_ids-append p.commands cmds v.plain e;
  regions = tt;
  counted = balance_loop-append (pos 0) p.open_groups p.commands cmds v.counted ∙ k;
  nonneg = h;
})

-- Commands at the end of a region, and other regions.
in_regions :
    (regions : List (List Cmd)) (p : Printer)
    → IsRecorded p
    → All (λ cmds. splice_ids cmds ≡ []) regions
    → IsRecorded (record p { speculation = regions })
in_regions regions p v h = record {
  no_slots = v.no_slots;
  unresolved = v.unresolved;
  unread = v.unread;
  plain = v.plain;
  regions = h;
  counted = v.counted;
  nonneg = v.nonneg;
}

-- Any error may end a call; none panics.
abbrev AnyError : PrinterError → Type 0
AnyError e = Unit

push_main-IsRecorded :
    (cmd : Cmd) (p : Printer)
    → IsPlain cmd
    → p.speculation ≡ []
    → IsRecorded p
    → Ends AnyError IsRecorded (push_main cmd p)
unfolding push_main balance_loop splice_ids is_nil
push_main-IsRecorded (text s) p k e v = returns (
    extended (text s ∷ []) p.open_groups p _ v refl refl v.nonneg
      (ap (λ l. record p { commands = p.commands ++ (text s ∷ []); speculation = l }) e))
push_main-IsRecorded (breakable s) p k e v = returns (
    extended (breakable s ∷ []) p.open_groups p _ v refl refl v.nonneg
      (ap (λ l. record p { commands = p.commands ++ (breakable s ∷ []); speculation = l }) e))
push_main-IsRecorded (if_break s) p k e v = returns (
    extended (if_break s ∷ []) p.open_groups p _ v refl refl v.nonneg
      (ap (λ l. record p { commands = p.commands ++ (if_break s ∷ []); speculation = l }) e))
push_main-IsRecorded hard_break p k e v = returns (
    extended (hard_break ∷ []) p.open_groups p _ v refl refl v.nonneg
      (ap (λ l. record p { commands = p.commands ++ (hard_break ∷ []); speculation = l }) e))
push_main-IsRecorded (begin_group i o) p k e v = returns (
    extended (begin_group i o ∷ []) (p.open_groups +ℤ pos 1) p _ v refl refl
      (more_open p.open_groups v.nonneg)
      (ap
        (λ l. record p {
          commands = p.commands ++ (begin_group i o ∷ []);
          open_groups = p.open_groups +ℤ pos 1;
          speculation = l;
        })
        e))
push_main-IsRecorded (end_group c) p k e v =
    Ends-if (is_nil p.slots && eqb_ℤ p.open_groups (pos 0)) (λ _. fails tt)
      (λ t.
        let t' = subst (λ l. is_nil l && eqb_ℤ p.open_groups (pos 0) ≡ false) v.no_slots t in
        let u = sym (same_test true p.open_groups (λ _. v.nonneg)) ∙ t' in
        returns (
          extended (end_group c ∷ []) (p.open_groups -ℤ pos 1) p _ v refl
            (ap (λ x. if x then err unbalanced_group else ok (p.open_groups -ℤ pos 1)) u)
            (less_open true p.open_groups u refl)
            (ap
              (λ l. record p {
                commands = p.commands ++ (end_group c ∷ []);
                open_groups = p.open_groups -ℤ pos 1;
                speculation = l;
              })
              e)))
push_main-IsRecorded (shift_indent d) p k e v = returns (
    extended (shift_indent d ∷ []) p.open_groups p _ v refl refl v.nonneg
      (ap (λ l. record p { commands = p.commands ++ (shift_indent d ∷ []); speculation = l }) e))
push_main-IsRecorded (comment s) p k e v = returns (
    extended (comment s ∷ []) p.open_groups p _ v refl refl v.nonneg
      (ap (λ l. record p { commands = p.commands ++ (comment s ∷ []); speculation = l }) e))
push_main-IsRecorded (splice id) p k e v = absurd k

pub dispatch-IsRecorded :
    (cmd : Cmd) (p : Printer)
    → IsPlain cmd
    → IsRecorded p
    → Ends AnyError IsRecorded (dispatch main cmd p)
unfolding dispatch
dispatch-IsRecorded cmd p k v =
    Ends-if p.sealed (λ _. fails tt)
      (λ _.
        Ends-list p.speculation _ _ (λ e. push_main-IsRecorded cmd p k e v)
          (λ buf outer e.
            let h = subst (All (λ cmds. splice_ids cmds ≡ [])) e v.regions in
            returns (
              in_regions ((buf ++ (cmd ∷ [])) ∷ outer) p v
                (splice_ids-append buf (cmd ∷ []) h.0 (plain-splice_ids cmd k), h.1))))

pub begin_speculative-IsRecorded :
    (p : Printer) → IsRecorded p → Ends AnyError IsRecorded (begin_speculative main p)
unfolding begin_speculative splice_ids
begin_speculative-IsRecorded p v =
    Ends-if p.sealed (λ _. fails tt)
      (λ _. returns (in_regions ([] ∷ p.speculation) p v (refl, v.regions)))

commit_main-IsRecorded :
    (regions : List (List Cmd)) (p : Printer)
    → All (λ cmds. splice_ids cmds ≡ []) regions
    → IsRecorded p
    → Ends AnyError IsRecorded (commit_main regions p)
unfolding commit_main is_nil
commit_main-IsRecorded [] p h v = fails tt
commit_main-IsRecorded (buf ∷ outer ∷ rest) p h v =
    returns (in_regions ((outer ++ buf) ∷ rest) p v (splice_ids-append outer buf h.1.0 h.0, h.1.1))
commit_main-IsRecorded (buf ∷ []) p h v =
    subst
      (λ l. Ends AnyError IsRecorded (do
        balance ← balance_loop (is_nil l) p.open_groups buf
        ok (record p {
          speculation = [];
          pending_resolve = if is_nil (splice_ids buf) then p.pending_resolve else true;
          open_groups = balance;
          commands = p.commands ++ buf;
        })))
      (sym v.no_slots)
      (Ends-bind (Ends-ok (balance_loop-Ends p.open_groups buf tt v.nonneg)) λ b k. returns (
        extended buf b p _ v h.0 k.0 k.1 (
          ap
            (λ l. record p {
              speculation = [];
              pending_resolve = if is_nil l then p.pending_resolve else true;
              open_groups = b;
              commands = p.commands ++ buf;
            })
            h.0)))

pub commit_speculative-IsRecorded :
    (p : Printer) → IsRecorded p → Ends AnyError IsRecorded (commit_speculative main p)
unfolding commit_speculative
commit_speculative-IsRecorded p v =
    Ends-if p.sealed (λ _. fails tt) (λ _. commit_main-IsRecorded p.speculation p v.regions v)

pub abort_speculative-IsRecorded :
    (p : Printer) → IsRecorded p → Ends AnyError IsRecorded (abort_speculative main p)
unfolding abort_speculative
abort_speculative-IsRecorded p v =
    Ends-if p.sealed (λ _. fails tt)
      (λ _.
        Ends-list p.speculation _ _ (λ _. fails tt)
          (λ buf rest e.
            let h = subst (All (λ cmds. splice_ids cmds ≡ [])) e v.regions in
            subst (Ends AnyError IsRecorded)
              (sym (kill_splices-plain buf (record p { speculation = rest }) h.0))
              (returns (in_regions rest p v h.1))))

pub set_max_width-IsRecorded :
    (max_width : ℕ) (p : Printer) → IsRecorded p → IsRecorded (set_max_width max_width p)
unfolding set_max_width
set_max_width-IsRecorded max_width p v = record {
  no_slots = v.no_slots;
  unresolved = v.unresolved;
  unread = refl;
  plain = v.plain;
  regions = v.regions;
  counted = v.counted;
  nonneg = v.nonneg;
}
