-- ===== src/Printer/Document/Balanced.antt =====
-- `Printer::render` (hegel-c/src/native/printer.rs) on a document without slots that ends no group it has not begun.
use hegel_rust.Base.{
  ℕ, zero, suc, ◌+◌, ◌≤◌, ◌<◌, ◌≡◌, refl, sym, ◌∙◌, ap, subst, arith, true, false, ◌&&◌,
  if◌then◌else◌, List, [], ◌∷◌, All,
}
use hegel_rust.Base.Int.{ℤ, pos, ◌+ℤ◌, ◌-ℤ◌, ltb_ℤ, int_laws}
use hegel_rust.Base.Outcomes.{ok, err}
use hegel_rust.Base.Ends.{Ends, returns, Ends-bind, Ends-ok, Ends-value}
use hegel_rust.Printer.Commands.{
  unbalanced_group, Cmd, text, breakable, if_break, hard_break, begin_group, end_group,
  shift_indent, comment, splice, splice_ids,
}
use hegel_rust.Printer.Speculation.{balance_loop}
use hegel_rust.Printer.Renderer
use hegel_rust.Printer.Renderer.Sound.Loops.{flush-Stays}
use hegel_rust.Printer.Document.{finish, render}
use hegel_rust.Printer.Document.Marks.{SplicesIn, mark_comment_groups-Marked}
use hegel_rust.Printer.Document.Safe.{Allows, new-IsMarked, run-IsMarked}
use hegel_rust.Printer.Document.Execute.{opened, closed}

-- The commands ahead, at a height of the group stack, end no group that was not begun.
record IsBalanced (h : ℕ) (cmds : List Cmd) : Type 0 where
  depth : ℕ
  last : ℤ
  plain : splice_ids cmds ≡ []
  height : h ≡ suc depth
  balanced : balance_loop true (pos depth) cmds ≡ ok last

pos_plus : (n : ℕ) → pos n +ℤ pos 1 ≡ pos (suc n)
pos_plus n = grind int_laws

pos_minus : (n : ℕ) → pos (suc n) -ℤ pos 1 ≡ pos n
pos_minus n = grind int_laws

not_less : (n : ℕ) → true && ltb_ℤ (pos n) (pos 0) ≡ false
not_less n = ground arith

-- A command that begins and ends no group, and the end of a group.
same_height :
    (h h' : ℕ) (cmds : List Cmd) (depth : ℕ) (last : ℤ)
    → splice_ids cmds ≡ []
    → h ≡ suc depth
    → balance_loop true (pos depth) cmds ≡ ok last
    → h' + 0 ≡ 0 + h
    → IsBalanced h' cmds
same_height h h' cmds depth last p k l e = record {
  depth = depth;
  last = last;
  plain = p;
  height = omega (arith, e, k);
  balanced = l;
}

less_height :
    (h h' : ℕ) (c : List ℕ) (cmds : List Cmd) (depth : ℕ) (last : ℤ)
    → splice_ids cmds ≡ []
    → h ≡ suc depth
    → balance_loop true (pos depth) (end_group c ∷ cmds) ≡ ok last
    → h' + 1 ≡ 0 + h
    → IsBalanced h' cmds
unfolding balance_loop ◌-ℤ◌
less_height h h' c cmds zero last p k l e = absurd (cc l)
less_height h h' c cmds (suc depth) last p k l e = record {
  depth = depth;
  last = last;
  plain = p;
  height = omega (arith, e, k);
  balanced =
      subst
        (λ t. (if t then err unbalanced_group else balance_loop true (pos depth) cmds) ≡ ok last)
        (not_less depth)
        (subst
          (λ n.
            (if true && ltb_ℤ n (pos 0) then err unbalanced_group else balance_loop true n cmds)
            ≡ ok last)
          (pos_minus depth) l);
}

passed :
    (h h' : ℕ) (cmd : Cmd) (cmds : List Cmd)
    → IsBalanced h (cmd ∷ cmds)
    → h' + closed cmd ≡ opened cmd + h
    → IsBalanced h' cmds
unfolding splice_ids balance_loop
passed h h' (text s) cmds b e = same_height h h' cmds b.depth b.last b.plain b.height b.balanced e
passed h h' (breakable s) cmds b e =
    same_height h h' cmds b.depth b.last b.plain b.height b.balanced e
passed h h' (if_break s) cmds b e =
    same_height h h' cmds b.depth b.last b.plain b.height b.balanced e
passed h h' hard_break cmds b e = same_height h h' cmds b.depth b.last b.plain b.height b.balanced e
passed h h' (shift_indent d) cmds b e =
    same_height h h' cmds b.depth b.last b.plain b.height b.balanced e
passed h h' (comment s) cmds b e =
    same_height h h' cmds b.depth b.last b.plain b.height b.balanced e
passed h h' (begin_group i o) cmds b e = record {
  depth = suc b.depth;
  last = b.last;
  plain = b.plain;
  height = omega (arith, e, b.height);
  balanced = ap (λ n. balance_loop true n cmds) (sym (pos_plus b.depth)) ∙ b.balanced;
}
passed h h' (end_group c) cmds b e =
    less_height h h' c cmds b.depth b.last b.plain b.height b.balanced e
passed h h' (splice id) cmds b e = absurd (cc b.plain)

not_last :
    (h : ℕ) (cmd : Cmd) (cmds : List Cmd) → IsBalanced h (cmd ∷ cmds) → closed cmd ≡ 1 → h ≡ 1 → ⊥
unfolding splice_ids
not_last h (text s) cmds b k e = omega (arith, k)
not_last h (breakable s) cmds b k e = omega (arith, k)
not_last h (if_break s) cmds b k e = omega (arith, k)
not_last h hard_break cmds b k e = omega (arith, k)
not_last h (begin_group i o) cmds b k e = omega (arith, k)
not_last h (end_group c) cmds b k e =
    let b' = less_height h 0 c cmds b.depth b.last b.plain b.height b.balanced (omega (arith, e)) in
    omega (arith, b'.height)
not_last h (shift_indent d) cmds b k e = omega (arith, k)
not_last h (comment s) cmds b k e = omega (arith, k)
not_last h (splice id) cmds b k e = omega (arith, k)

-- The errors of a balanced document are none.
IsBalanced-Allows : Allows [] (λ e. ⊥) IsBalanced
unfolding splice_ids
IsBalanced-Allows = record {
  ended = λ h cmd cmds b c e. absurd (not_last h cmd cmds b c e);
  passed = λ h h' cmd cmds b p e. passed h h' cmd cmds b e;
  entered = λ h id s cmds b e. absurd (cc e);
  left = λ h h' id cmds b. absurd (cc b.plain);
}

splices_none : (cmds : List Cmd) → splice_ids cmds ≡ [] → SplicesIn 0 0 cmds
splices_none cmds e = subst (λ l. All (λ id. (0 ≤ id) × (id < 0)) l) (sym e) tt

-- A document without splices that never ends a group it has not begun lays out, at every width, with no error
-- and no panic.
pub render-balanced :
    (max_width : ℕ) (cmds : List Cmd) (balance : ℤ)
    → splice_ids cmds ≡ []
    → balance_loop true (pos 0) cmds ≡ ok balance
    → (document : List ℕ) × (render max_width [] cmds ≡ ok document)
unfolding render finish Renderer.new
render-balanced max_width cmds balance p e =
    let ends : Ends (λ e. ⊥) (λ document. Unit) (render max_width [] cmds) =
      Ends-bind
        (Ends-ok (
          mark_comment_groups-Marked [] (λ i s e. absurd (cc e)) 0 0 cmds (false ∷ []) []
            (omega arith) (splices_none cmds p) tt))
        λ m k.
          Ends-bind
            (run-IsMarked [] IsBalanced IsBalanced-Allows 0 cmds (false ∷ []) [] m m.0
              (Renderer.new max_width m.0) k.0 (omega arith) (new-IsMarked max_width m.0)
              (record { depth = 0; last = balance; plain = p; height = refl; balanced = e }))
            λ r v. Ends-bind (flush-Stays r v.valid) (λ r' s. returns tt) in
    let (document, same, _) = Ends-value (render max_width [] cmds) ends in (document, same)
