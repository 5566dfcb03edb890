-- ===== src/Printer/Speculation/Writes.antt =====
-- Commands written one after the other to the main output (hegel-c/src/native/printer.rs), in a region and outside.
use hegel_rust.Base.{
  ◌≡◌, refl, sym, ◌∙◌, ap, arith, Bool, true, false, ◌&&◌, if◌then◌else◌, List, [], ◌∷◌, ◌++◌,
}
use hegel_rust.Base.Int.{ℤ, pos, ◌+ℤ◌, ◌-ℤ◌, eqb_ℤ, ltb_ℤ, neg_part, -ℤ_parts, parts_cases}
use hegel_rust.Base.Outcomes.{ok, err, ◌>>=◌}
use hegel_rust.Printer.Commands.{
  PrinterError, unbalanced_group, Target, main, Cmd, text, breakable, if_break, hard_break,
  begin_group, end_group, shift_indent, comment, splice, splice_ids,
}
use hegel_rust.Printer.Renderer.{Rendering, is_nil}
use hegel_rust.Printer.Recorder.{Printer, push_main, dispatch}
use hegel_rust.Printer.Speculation.{balance_loop}

-- The commands written to a target, one after the other.
unfoldable pub dispatch_all : Target → List Cmd → Printer → Rendering Printer
dispatch_all target [] p = ok p
dispatch_all target (cmd ∷ cmds) p = do p' ← dispatch target cmd p; dispatch_all target cmds p'

append_one : (xs ys : List Cmd) (x : Cmd) → (xs ++ (x ∷ [])) ++ ys ≡ xs ++ (x ∷ ys)
append_one [] ys x = refl
append_one (y ∷ xs) ys x = ap (λ l. y ∷ l) (append_one xs ys x)

append_nil : (xs : List Cmd) → xs ++ [] ≡ xs
append_nil [] = refl
append_nil (x ∷ xs) = ap (λ l. x ∷ l) (append_nil xs)

-- A printer that is not sealed, with its stack of regions.
abbrev pub unsealed : List (List Cmd) → Printer → Printer
unsealed regions p = record p { speculation = regions; sealed = false }

pub eq-unsealed : (p : Printer) → p.sealed ≡ false → p ≡ unsealed p.speculation p
eq-unsealed p h = ap (λ b. record p { sealed = b }) h

-- In a region, the commands are put at the end of its buffer.
pub dispatch_all-region :
    (cmds buf : List Cmd) (rest : List (List Cmd)) (p : Printer)
    → dispatch_all main cmds (unsealed (buf ∷ rest) p) ≡ ok (unsealed ((buf ++ cmds) ∷ rest) p)
unfolding dispatch_all dispatch
dispatch_all-region [] buf rest p = ap (λ b. ok (unsealed (b ∷ rest) p)) (sym (append_nil buf))
dispatch_all-region (cmd ∷ cmds) buf rest p =
    dispatch_all-region cmds (buf ++ (cmd ∷ [])) rest p
    ∙ ap (λ b. ok (unsealed (b ∷ rest) p)) (append_one buf cmds cmd)

-- The printer with the commands at the end of its document.
abbrev pub written : List Cmd → ℤ → Printer → Printer
written cmds balance p = record p {
  commands = p.commands ++ cmds;
  open_groups = balance;
  pending_resolve = if is_nil (splice_ids cmds) then p.pending_resolve else true;
}

abbrev pub IsOpen : Printer → Type 0
IsOpen p = is_nil p.slots ≡ true → neg_part p.open_groups ≡ 0

pub same_test :
    (b : Bool) (n : ℤ)
    → (b ≡ true → neg_part n ≡ 0)
    → b && eqb_ℤ n (pos 0) ≡ b && ltb_ℤ (n -ℤ pos 1) (pos 0)
same_test b n h = ground (arith, h, -ℤ_parts n (pos 1))

guarded :
    {A B C : Type 0} (t : Bool) (e : PrinterError) (a : A) (f : A → Rendering B) (m : Rendering C)
    (g : C → Rendering B)
    → (t ≡ false → f a ≡ (m >>= g))
    → (if t then err e else ok a) >>= f ≡ (if t then err e else m) >>= g
guarded true e a f m g h = refl
guarded false e a f m g h = h refl

pub more_open : (n : ℤ) → neg_part n ≡ 0 → neg_part (n +ℤ pos 1) ≡ 0
unfolding ◌+ℤ◌
more_open n h = ground (arith, h)

pub less_open :
    (b : Bool) (n : ℤ)
    → b && ltb_ℤ (n -ℤ pos 1) (pos 0) ≡ false
    → b ≡ true
    → neg_part (n -ℤ pos 1) ≡ 0
less_open b n h e = ground (arith, h, e, parts_cases (n -ℤ pos 1))

either_true : (b : Bool) → (if b then true else true) ≡ true
either_true true = refl
either_true false = refl

-- Outside of any region, the commands are put at the end of the document, and the balance of its groups is
-- that of the loop of a commit.
pub dispatch_all-main :
    (cmds : List Cmd) (p : Printer)
    → IsOpen p
    → dispatch_all main cmds (unsealed [] p)
      ≡ balance_loop (is_nil p.slots) p.open_groups cmds >>= λ b.
          ok (unsealed [] (written cmds b p))
unfolding dispatch_all dispatch push_main balance_loop splice_ids is_nil
dispatch_all-main [] p h =
    ap (λ c. ok (unsealed [] (record p { commands = c }))) (sym (append_nil p.commands))
dispatch_all-main (text s ∷ cmds) p h =
    dispatch_all-main cmds (record p { commands = p.commands ++ (text s ∷ []) }) h
    ∙ ap
        (λ c. balance_loop (is_nil p.slots) (p.open_groups) cmds >>= λ b.
          ok (unsealed [] (record (written cmds b p) { commands = c })))
        (append_one p.commands cmds (text s))
dispatch_all-main (breakable s ∷ cmds) p h =
    dispatch_all-main cmds (record p { commands = p.commands ++ (breakable s ∷ []) }) h
    ∙ ap
        (λ c. balance_loop (is_nil p.slots) (p.open_groups) cmds >>= λ b.
          ok (unsealed [] (record (written cmds b p) { commands = c })))
        (append_one p.commands cmds (breakable s))
dispatch_all-main (if_break s ∷ cmds) p h =
    dispatch_all-main cmds (record p { commands = p.commands ++ (if_break s ∷ []) }) h
    ∙ ap
        (λ c. balance_loop (is_nil p.slots) (p.open_groups) cmds >>= λ b.
          ok (unsealed [] (record (written cmds b p) { commands = c })))
        (append_one p.commands cmds (if_break s))
dispatch_all-main (hard_break ∷ cmds) p h =
    dispatch_all-main cmds (record p { commands = p.commands ++ (hard_break ∷ []) }) h
    ∙ ap
        (λ c. balance_loop (is_nil p.slots) (p.open_groups) cmds >>= λ b.
          ok (unsealed [] (record (written cmds b p) { commands = c })))
        (append_one p.commands cmds hard_break)
dispatch_all-main (begin_group i o ∷ cmds) p h =
    dispatch_all-main cmds
      (record p {
        commands = p.commands ++ (begin_group i o ∷ []);
        open_groups = p.open_groups +ℤ pos 1;
      })
      (λ e. more_open p.open_groups (h e))
    ∙ ap
        (λ c. balance_loop (is_nil p.slots) (p.open_groups +ℤ pos 1) cmds >>= λ b.
          ok (unsealed [] (record (written cmds b p) { commands = c })))
        (append_one p.commands cmds (begin_group i o))
dispatch_all-main (end_group c ∷ cmds) p h =
    ap
      (λ t.
        (if t
          then err unbalanced_group
          else ok (record (unsealed [] p) {
            commands = p.commands ++ (end_group c ∷ []);
            open_groups = p.open_groups -ℤ pos 1;
          }))
        >>= dispatch_all main cmds)
      (same_test (is_nil p.slots) p.open_groups h)
    ∙ guarded (is_nil p.slots && ltb_ℤ (p.open_groups -ℤ pos 1) (pos 0)) unbalanced_group _
        (dispatch_all main cmds) (balance_loop (is_nil p.slots) (p.open_groups -ℤ pos 1) cmds)
        (λ b. ok (unsealed [] (written (end_group c ∷ cmds) b p)))
        (λ e.
          dispatch_all-main cmds
            (record p {
              commands = p.commands ++ (end_group c ∷ []);
              open_groups = p.open_groups -ℤ pos 1;
            })
            (less_open (is_nil p.slots) p.open_groups e)
          ∙ ap
              (λ k. balance_loop (is_nil p.slots) (p.open_groups -ℤ pos 1) cmds >>= λ b.
                ok (unsealed [] (record (written cmds b p) { commands = k })))
              (append_one p.commands cmds (end_group c)))
dispatch_all-main (shift_indent d ∷ cmds) p h =
    dispatch_all-main cmds (record p { commands = p.commands ++ (shift_indent d ∷ []) }) h
    ∙ ap
        (λ c. balance_loop (is_nil p.slots) (p.open_groups) cmds >>= λ b.
          ok (unsealed [] (record (written cmds b p) { commands = c })))
        (append_one p.commands cmds (shift_indent d))
dispatch_all-main (comment s ∷ cmds) p h =
    dispatch_all-main cmds (record p { commands = p.commands ++ (comment s ∷ []) }) h
    ∙ ap
        (λ c. balance_loop (is_nil p.slots) (p.open_groups) cmds >>= λ b.
          ok (unsealed [] (record (written cmds b p) { commands = c })))
        (append_one p.commands cmds (comment s))
dispatch_all-main (splice id ∷ cmds) p h =
    dispatch_all-main cmds
      (record p { commands = p.commands ++ (splice id ∷ []); pending_resolve = true }) h
    ∙ ap
        (λ k. balance_loop (is_nil p.slots) p.open_groups cmds >>= λ b. ok (
          unsealed [] (record (written cmds b p) {
            commands = p.commands ++ (splice id ∷ []) ++ cmds;
            pending_resolve = k;
          })))
        (either_true (is_nil (splice_ids cmds)))
    ∙ ap
        (λ k. balance_loop (is_nil p.slots) p.open_groups cmds >>= λ b.
          ok (unsealed [] (record (written cmds b p) { commands = k; pending_resolve = true })))
        (append_one p.commands cmds (splice id))
