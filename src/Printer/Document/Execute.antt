-- ===== src/Printer/Document/Execute.antt =====
-- One command executed (hegel-c/src/native/printer.rs) keeps the counts of the renderer.
use hegel_rust.Base.{ℕ, ◌+◌, ◌≤◌, ◌≡◌, refl, arith, length}
use hegel_rust.Base.Ends.{Ends, returns, Ends-mono}
use hegel_rust.Printer.Commands.{
  PrinterError, unbalanced_group, Cmd, text, breakable, if_break, hard_break, begin_group,
  end_group, shift_indent, comment, splice,
}
use hegel_rust.Printer.Renderer.{Renderer}
use hegel_rust.Printer.Renderer.Sound.Loops.{IsValid}
use hegel_rust.Printer.Renderer.Sound.Writes.{
  text-Stays, newline-Stays, breakable-Stays, if_break-Stays, comment-Stays,
}
use hegel_rust.Printer.Renderer.Sound.Nesting.{begin_group-Moves, end_group-Moves}
use hegel_rust.Printer.Renderer.Sound.Places.{Moves, Stays-Moves}
use hegel_rust.Printer.Document.{execute}

-- The groups that a command begins, and those that it ends.
abbrev pub opened : Cmd → ℕ
opened (begin_group _ _) = 1
opened _ = 0

abbrev pub closed : Cmd → ℕ
closed (end_group _) = 1
closed _ = 0

abbrev pub IsPlain : Cmd → Type 0
IsPlain (splice _) = ⊥
IsPlain _ = Unit

-- A renderer is valid when its counts of pending breaks and its width are those of its buffer, and its tokens,
-- its queue and its stack name groups that it has. On a valid renderer with a mark left for each group that a
-- command begins, every command but a splice ends without a panic, in a valid renderer or in the error of
-- ending the outermost group; it adds the groups that it begins, and moves the stack by those that it
-- begins and ends.
pub execute-Moves :
    {F : PrinterError → Type 0} (cmd : Cmd) (r : Renderer)
    → IsPlain cmd
    → IsValid r
    → opened cmd + length r.groups ≤ length r.force_break
    → (closed cmd ≡ 1 → length r.group_stack ≡ 1 → F unbalanced_group)
    → Ends F (Moves (opened cmd) (closed cmd) r) (execute cmd r)
unfolding execute
execute-Moves (text s) r p v g h = Ends-mono (text-Stays s r v) (λ r' k. Stays-Moves r r' k)
execute-Moves (breakable s) r p v g h =
    Ends-mono (breakable-Stays s r v) (λ r' k. Stays-Moves r r' k)
execute-Moves (if_break s) r p v g h = Ends-mono (if_break-Stays s r v) (λ r' k. Stays-Moves r r' k)
execute-Moves hard_break r p v g h = Ends-mono (newline-Stays r v) (λ r' k. Stays-Moves r r' k)
execute-Moves (begin_group i o) r p v g h = begin_group-Moves i o r v (omega (arith, g))
execute-Moves (end_group c) r p v g h = end_group-Moves c r v (h refl)
execute-Moves (shift_indent d) r p v g h = returns (record {
  valid = record { sound = v.sound; widths = v.widths };
  more_groups = omega arith;
  moved_stack = omega arith;
  same_force = refl;
})
execute-Moves (comment s) r p v g h = returns (Stays-Moves r _ (comment-Stays s r v))
execute-Moves (splice id) r p v g h = absurd p
