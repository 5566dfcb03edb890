-- ===== src/Printer/Document.antt =====
-- hegel-c/src/native/printer.rs, `mark_comment_groups`, `Renderer::run` and `Printer::render`: the layout of a
-- recorded document. A slot's content splices only slots that were opened after it, so that the nesting of
-- splices is bounded by the number of slots: `depth` counts the levels that are left.
pub mod Marks
pub mod Execute
pub mod Safe
pub mod Balanced
use hegel_rust.Base.{ℕ, zero, suc, Bool, true, false, List, [], ◌∷◌, ◌++◌, length, drop}
use hegel_rust.Base.Int.{◌+ℤ◌, as_isize}
use hegel_rust.Base.Outcomes.{ok, panic, ◌>>=◌, at, write}
use hegel_rust.Printer.Commands.{
  Cmd, text, breakable, if_break, hard_break, begin_group, end_group, shift_indent, comment, splice,
  Slot,
}
use hegel_rust.Printer.Renderer
use hegel_rust.Printer.Renderer.{Renderer, Rendering, flush}
use hegel_rust.Printer.Renderer.Writes
use hegel_rust.Printer.Renderer.Writes.{newline}

unfoldable pub force_all : List ℕ → List Bool → Rendering (List Bool)
force_all [] force = ok force
force_all (id ∷ stack) force = do force' ← write force id true; force_all stack force'

-- `execute` of a command that splices nothing.
unfoldable pub execute : Cmd → Renderer → Rendering Renderer
unfolding as_isize
execute (text s) r = Writes.text s r
execute (breakable sep) r = Writes.breakable sep r
execute (if_break s) r = Writes.if_break s r
execute hard_break r = newline r
execute (begin_group indent opening) r = Writes.begin_group indent opening r
execute (end_group close) r = Writes.end_group close r
execute (shift_indent delta) r = ok (record r { indentation = as_isize (r.indentation +ℤ delta) })
execute (comment s) r = ok (Writes.comment s r)
execute (splice id) r = panic

module _ (slots : List Slot) where
  -- The groups that a comment breaks, and the stack of the open groups.
  unfoldable pub mark_comment_groups :
      ℕ → List Cmd → List Bool → List ℕ → Rendering (List Bool × List ℕ)
  unfolding force_all
  mark_comment_groups depth [] force stack = ok (force, stack)
  mark_comment_groups depth (begin_group _ _ ∷ cmds) force stack =
      mark_comment_groups depth cmds (force ++ (false ∷ [])) (length force ∷ stack)
  mark_comment_groups depth (end_group _ ∷ cmds) force stack =
      mark_comment_groups depth cmds force (drop 1 stack)
  mark_comment_groups depth (comment _ ∷ cmds) force stack = do
    force' ← force_all stack force
    mark_comment_groups depth cmds force' stack
  mark_comment_groups zero (splice id ∷ cmds) force stack = panic
  mark_comment_groups (suc depth) (splice id ∷ cmds) force stack = do
    s ← at slots id
    m ← mark_comment_groups depth s.commands force stack
    mark_comment_groups (suc depth) cmds m.0 m.1
  mark_comment_groups depth (text _ ∷ cmds) force stack = mark_comment_groups depth cmds force stack
  mark_comment_groups depth (breakable _ ∷ cmds) force stack =
      mark_comment_groups depth cmds force stack
  mark_comment_groups depth (if_break _ ∷ cmds) force stack =
      mark_comment_groups depth cmds force stack
  mark_comment_groups depth (hard_break ∷ cmds) force stack =
      mark_comment_groups depth cmds force stack
  mark_comment_groups depth (shift_indent _ ∷ cmds) force stack =
      mark_comment_groups depth cmds force stack

  unfoldable pub run : ℕ → List Cmd → Renderer → Rendering Renderer
  unfolding execute
  run depth [] r = ok r
  run zero (splice id ∷ cmds) r = panic
  run (suc depth) (splice id ∷ cmds) r = do
    s ← at slots id
    r' ← run depth s.commands r
    run (suc depth) cmds r'
  run depth (text s ∷ cmds) r = do r' ← execute (text s) r; run depth cmds r'
  run depth (breakable sep ∷ cmds) r = do r' ← execute (breakable sep) r; run depth cmds r'
  run depth (if_break s ∷ cmds) r = do r' ← execute (if_break s) r; run depth cmds r'
  run depth (hard_break ∷ cmds) r = do r' ← execute hard_break r; run depth cmds r'
  run depth (begin_group indent opening ∷ cmds) r = do
    r' ← execute (begin_group indent opening) r
    run depth cmds r'
  run depth (end_group close ∷ cmds) r = do r' ← execute (end_group close) r; run depth cmds r'
  run depth (shift_indent delta ∷ cmds) r = do
    r' ← execute (shift_indent delta) r
    run depth cmds r'
  run depth (comment s ∷ cmds) r = do r' ← execute (comment s) r; run depth cmds r'

unfoldable pub finish : Renderer → Rendering (List ℕ)
finish r = do r' ← flush r; ok (r'.out ++ r'.pending_comments)

unfoldable pub render : ℕ → List Slot → List Cmd → Rendering (List ℕ)
unfolding mark_comment_groups run finish
render max_width slots cmds = do
  m ← mark_comment_groups slots (length slots) cmds (false ∷ []) []
  r ← run slots (length slots) cmds (Renderer.new max_width m.0)
  finish r
