-- ===== src/Printer/Speculation/Balance.antt =====
-- The balance of the groups, and the splices, of commands that are put together (hegel-c/src/native/printer.rs).
use hegel_rust.Base.{◌≡◌, refl, ap, Bool, true, false, ◌&&◌, if◌then◌else◌, List, [], ◌∷◌, ◌++◌}
use hegel_rust.Base.Int.{ℤ, pos, ◌+ℤ◌, ◌-ℤ◌, ltb_ℤ, neg_part}
use hegel_rust.Base.Outcomes.{ok, err, ok_injective}
use hegel_rust.Base.Ends.{Ends, returns, fails, Ends-if}
use hegel_rust.Printer.Commands.{
  PrinterError, unbalanced_group, Cmd, text, breakable, if_break, hard_break, begin_group,
  end_group, shift_indent, comment, splice, splice_ids,
}
use hegel_rust.Printer.Speculation.{balance_loop}
use hegel_rust.Printer.Speculation.Writes.{more_open, less_open}
use hegel_rust.Printer.Document.Execute.{IsPlain}

pub splice_ids-append :
    (xs ys : List Cmd) → splice_ids xs ≡ [] → splice_ids ys ≡ [] → splice_ids (xs ++ ys) ≡ []
unfolding splice_ids
splice_ids-append [] ys p q = q
splice_ids-append (text s ∷ xs) ys p q = splice_ids-append xs ys p q
splice_ids-append (breakable s ∷ xs) ys p q = splice_ids-append xs ys p q
splice_ids-append (if_break s ∷ xs) ys p q = splice_ids-append xs ys p q
splice_ids-append (hard_break ∷ xs) ys p q = splice_ids-append xs ys p q
splice_ids-append (begin_group i o ∷ xs) ys p q = splice_ids-append xs ys p q
splice_ids-append (end_group c ∷ xs) ys p q = splice_ids-append xs ys p q
splice_ids-append (shift_indent d ∷ xs) ys p q = splice_ids-append xs ys p q
splice_ids-append (comment s ∷ xs) ys p q = splice_ids-append xs ys p q
splice_ids-append (splice id ∷ xs) ys p q = absurd (cc p)

guarded_append :
    (t : Bool) (b : ℤ) (xs ys : List Cmd) (n : ℤ)
    → (if t then err unbalanced_group else balance_loop true n xs) ≡ ok b
    → (balance_loop true n xs ≡ ok b → balance_loop true n (xs ++ ys) ≡ balance_loop true b ys)
    → (if t then err unbalanced_group else balance_loop true n (xs ++ ys)) ≡ balance_loop true b ys
guarded_append true b xs ys n e k = absurd (cc e)
guarded_append false b xs ys n e k = k e

pub balance_loop-append :
    (n b : ℤ) (xs ys : List Cmd)
    → balance_loop true n xs ≡ ok b
    → balance_loop true n (xs ++ ys) ≡ balance_loop true b ys
unfolding balance_loop
balance_loop-append n b [] ys e = ap (λ m. balance_loop true m ys) (ok_injective n b e)
balance_loop-append n b (text s ∷ xs) ys e = balance_loop-append n b xs ys e
balance_loop-append n b (breakable s ∷ xs) ys e = balance_loop-append n b xs ys e
balance_loop-append n b (if_break s ∷ xs) ys e = balance_loop-append n b xs ys e
balance_loop-append n b (hard_break ∷ xs) ys e = balance_loop-append n b xs ys e
balance_loop-append n b (begin_group i o ∷ xs) ys e = balance_loop-append (n +ℤ pos 1) b xs ys e
balance_loop-append n b (end_group c ∷ xs) ys e =
    guarded_append (true && ltb_ℤ (n -ℤ pos 1) (pos 0)) b xs ys (n -ℤ pos 1) e
      (λ k. balance_loop-append (n -ℤ pos 1) b xs ys k)
balance_loop-append n b (shift_indent d ∷ xs) ys e = balance_loop-append n b xs ys e
balance_loop-append n b (comment s ∷ xs) ys e = balance_loop-append n b xs ys e
balance_loop-append n b (splice id ∷ xs) ys e = balance_loop-append n b xs ys e

-- The balance of a region that is committed.
pub balance_loop-Ends :
    {F : PrinterError → Type 0} (n : ℤ) (cmds : List Cmd)
    → F unbalanced_group
    → neg_part n ≡ 0
    → Ends F (λ b. neg_part b ≡ 0) (balance_loop true n cmds)
unfolding balance_loop
balance_loop-Ends n [] f h = returns h
balance_loop-Ends n (text s ∷ cmds) f h = balance_loop-Ends n cmds f h
balance_loop-Ends n (breakable s ∷ cmds) f h = balance_loop-Ends n cmds f h
balance_loop-Ends n (if_break s ∷ cmds) f h = balance_loop-Ends n cmds f h
balance_loop-Ends n (hard_break ∷ cmds) f h = balance_loop-Ends n cmds f h
balance_loop-Ends n (begin_group i o ∷ cmds) f h =
    balance_loop-Ends (n +ℤ pos 1) cmds f (more_open n h)
balance_loop-Ends n (end_group c ∷ cmds) f h =
    Ends-if (true && ltb_ℤ (n -ℤ pos 1) (pos 0)) (λ _. fails f)
      (λ e. balance_loop-Ends (n -ℤ pos 1) cmds f (less_open true n e refl))
balance_loop-Ends n (shift_indent d ∷ cmds) f h = balance_loop-Ends n cmds f h
balance_loop-Ends n (comment s ∷ cmds) f h = balance_loop-Ends n cmds f h
balance_loop-Ends n (splice id ∷ cmds) f h = balance_loop-Ends n cmds f h

pub plain-splice_ids : (cmd : Cmd) → IsPlain cmd → splice_ids (cmd ∷ []) ≡ []
unfolding splice_ids
plain-splice_ids (text s) p = refl
plain-splice_ids (breakable s) p = refl
plain-splice_ids (if_break s) p = refl
plain-splice_ids hard_break p = refl
plain-splice_ids (begin_group i o) p = refl
plain-splice_ids (end_group c) p = refl
plain-splice_ids (shift_indent d) p = refl
plain-splice_ids (comment s) p = refl
plain-splice_ids (splice id) p = absurd p
