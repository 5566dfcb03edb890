-- ===== src/Printer/Document/Safe.antt =====
-- `Renderer::run` and `Printer::render` (hegel-c/src/native/printer.rs) on slots that nest.
use hegel_rust.Base.{
  ℕ, zero, suc, ◌+◌, ◌≤◌, ◌≡◌, refl, sym, ◌∙◌, ap, subst, arith, Bool, false, List, [], ◌∷◌, ◌++◌,
  length, drop, length-append,
}
use hegel_rust.Base.Outcomes.{Outcome, ok, at, ◌>>=◌, ok->>=, ok_injective}
use hegel_rust.Base.Ends.{Ends, returns, Ends-bind, Ends-ok}
use hegel_rust.Printer.Commands.{
  PrinterError, unbalanced_group, Cmd, text, breakable, if_break, hard_break, begin_group,
  end_group, shift_indent, comment, splice, Slot,
}
use hegel_rust.Printer.Renderer
use hegel_rust.Printer.Renderer.{Group, Renderer, Rendering, flush}
use hegel_rust.Printer.Renderer.Sound.{count, total_width}
use hegel_rust.Printer.Renderer.Sound.Loops.{IsValid, flush-Stays}
use hegel_rust.Printer.Document.{force_all, execute, mark_comment_groups, run, finish, render}
use hegel_rust.Printer.Document.Marks.{
  SplicesIn, IsNested, mark_comment_groups-Marked, length-mark_comment_groups, length-force_all,
}
use hegel_rust.Printer.Document.Execute.{IsPlain, closed, execute-Moves, opened}

-- A valid renderer with a group for each of `n` marks.
pub record IsMarked (n : ℕ) (force : List Bool) (r : Renderer) : Type 0 where
  pub valid : IsValid r
  pub marks : length r.groups ≡ n
  pub same_force : r.force_break ≡ force

at-one : (g x : Group) (i : ℕ) → at {E = PrinterError} (g ∷ []) i ≡ ok x → x ≡ g
at-one g x zero e = sym (ok_injective g x e)
at-one g x (suc i) e = absurd (cc e)

pub new-IsMarked :
    (max_width : ℕ) (force : List Bool) → IsMarked 1 force (Renderer.new max_width force)
unfolding Renderer.new count total_width
new-IsMarked max_width force = record {
  valid = record {
    sound = record {
      counted = λ g x e. ap (λ (y : Group). y.pending) (at-one _ x g e);
      leveled = λ g x e. omega (arith, ap (λ (y : Group). y.depth) (at-one _ x g e));
      tokens_in = tt;
      queue_in = ((omega arith, tt), tt);
      stack_in = (omega arith, tt);
      stack_ne = omega arith;
    };
    widths = refl;
  };
  marks = refl;
  same_force = refl;
}

-- What makes the errors of a run be of `F`, by the height of the group stack and the commands ahead.
pub record Allows (slots : List Slot) (F : PrinterError → Type 0) (Allowed : ℕ → List Cmd → Type 0)
    : Type 0 where
  pub ended :
      (h : ℕ) (cmd : Cmd) (cmds : List Cmd)
      → Allowed h (cmd ∷ cmds)
      → closed cmd ≡ 1
      → h ≡ 1
      → F unbalanced_group
  pub passed :
      (h h' : ℕ) (cmd : Cmd) (cmds : List Cmd)
      → Allowed h (cmd ∷ cmds)
      → IsPlain cmd
      → h' + closed cmd ≡ opened cmd + h
      → Allowed h' cmds
  pub entered :
      (h : ℕ) (id : ℕ) (s : Slot) (cmds : List Cmd)
      → Allowed h (splice id ∷ cmds)
      → at {E = PrinterError} slots id ≡ ok s
      → Allowed h s.commands
  pub left : (h h' : ℕ) (id : ℕ) (cmds : List Cmd) → Allowed h (splice id ∷ cmds) → Allowed h' cmds

module _ (slots : List Slot) {F : PrinterError → Type 0} (Allowed : ℕ → List Cmd → Type 0)
    (laws : Allows slots F Allowed) where
  execute_step :
      (depth : ℕ) (cmd : Cmd) (cmds : List Cmd) (n n' : ℕ) (force' : List Bool) (r : Renderer)
      (k : ℕ)
      → IsPlain cmd
      → n' ≡ opened cmd + n
      → n' ≤ k
      → k ≤ length force'
      → IsMarked n force' r
      → Allowed (length r.group_stack) (cmd ∷ cmds)
      → ((r' : Renderer)
          → IsMarked n' force' r'
          → Allowed (length r'.group_stack) cmds
          → Ends F (IsMarked k force') (run slots depth cmds r'))
      → Ends F (IsMarked k force') (execute cmd r >>= run slots depth cmds)
  execute_step depth cmd cmds n n' force' r k p q e h v a next =
      Ends-bind
        (execute-Moves cmd r p v.valid
          (omega (arith, q, e, h, v.marks, ap (λ (l : List Bool). length l) v.same_force))
          (λ c e'. laws.ended (length r.group_stack) cmd cmds a c e'))
        λ r' s.
          next r'
            (record {
              valid = s.valid;
              marks = omega (arith, q, s.more_groups, v.marks);
              same_force = s.same_force ∙ v.same_force;
            })
            (laws.passed (length r.group_stack) (length r'.group_stack) cmd cmds a p s.moved_stack)

  pub run-IsMarked :
      (depth : ℕ) (cmds : List Cmd) (force : List Bool) (stack : List ℕ) (m : List Bool × List ℕ)
      (force' : List Bool) (r : Renderer)
      → mark_comment_groups slots depth cmds force stack ≡ ok m
      → length m.0 ≤ length force'
      → IsMarked (length force) force' r
      → Allowed (length r.group_stack) cmds
      → Ends F (IsMarked (length m.0) force') (run slots depth cmds r)
  unfolding run mark_comment_groups
  run-IsMarked depth [] force stack m force' r e h v a = returns (
      subst (λ (k : List Bool × List ℕ). IsMarked (length k.0) force' r)
        (ok_injective (force, stack) m e) v)
  run-IsMarked zero (splice id ∷ cmds) force stack m force' r e h v a = absurd (cc e)
  run-IsMarked (suc depth) (splice id ∷ cmds) force stack m force' r e h v a =
      let (s, hs, e1) = ok->>= (at slots id) _ m e in
      let (m', hm, e2) = ok->>= (mark_comment_groups slots depth s.commands force stack) _ m e1 in
      let le = length-mark_comment_groups slots (suc depth) cmds m'.0 m'.1 m e2 in
      subst
        (λ (o : Outcome PrinterError Slot).
          Ends F (IsMarked (length m.0) force')
            (do s' ← o; r' ← run slots depth s'.commands r; run slots (suc depth) cmds r'))
        (sym hs)
        (Ends-bind
          (run-IsMarked depth s.commands force stack m' force' r hm (omega (arith, h, le)) v
            (laws.entered (length r.group_stack) id s cmds a hs))
          λ r' v'.
            run-IsMarked (suc depth) cmds m'.0 m'.1 m force' r' e2 h v'
              (laws.left (length r.group_stack) (length r'.group_stack) id cmds a))
  run-IsMarked depth (text s ∷ cmds) force stack m force' r e h v a =
      execute_step depth (text s) cmds (length force) (length force) force' r (length m.0) tt
        (omega arith) (length-mark_comment_groups slots depth cmds force stack m e) h v a
        λ r' v' a'. run-IsMarked depth cmds force stack m force' r' e h v' a'
  run-IsMarked depth (breakable sep ∷ cmds) force stack m force' r e h v a =
      execute_step depth (breakable sep) cmds (length force) (length force) force' r (length m.0) tt
        (omega arith) (length-mark_comment_groups slots depth cmds force stack m e) h v a
        λ r' v' a'. run-IsMarked depth cmds force stack m force' r' e h v' a'
  run-IsMarked depth (if_break s ∷ cmds) force stack m force' r e h v a =
      execute_step depth (if_break s) cmds (length force) (length force) force' r (length m.0) tt
        (omega arith) (length-mark_comment_groups slots depth cmds force stack m e) h v a
        λ r' v' a'. run-IsMarked depth cmds force stack m force' r' e h v' a'
  run-IsMarked depth (hard_break ∷ cmds) force stack m force' r e h v a =
      execute_step depth hard_break cmds (length force) (length force) force' r (length m.0) tt
        (omega arith) (length-mark_comment_groups slots depth cmds force stack m e) h v a
        λ r' v' a'. run-IsMarked depth cmds force stack m force' r' e h v' a'
  run-IsMarked depth (begin_group indent opening ∷ cmds) force stack m force' r e h v a =
      let n = length-append force (false ∷ []) in
      let le =
        length-mark_comment_groups slots depth cmds (force ++ (false ∷ [])) (length force ∷ stack) m
          e in
      execute_step depth (begin_group indent opening) cmds (length force)
        (length (force ++ (false ∷ []))) force' r (length m.0) tt (omega (arith, n)) le h v a
        λ r' v' a'.
          run-IsMarked depth cmds (force ++ (false ∷ [])) (length force ∷ stack) m force' r' e h v'
            a'
  run-IsMarked depth (end_group close ∷ cmds) force stack m force' r e h v a =
      execute_step depth (end_group close) cmds (length force) (length force) force' r (length m.0)
        tt (omega arith) (length-mark_comment_groups slots depth cmds force (drop 1 stack) m e) h v
        a λ r' v' a'. run-IsMarked depth cmds force (drop 1 stack) m force' r' e h v' a'
  run-IsMarked depth (shift_indent delta ∷ cmds) force stack m force' r e h v a =
      execute_step depth (shift_indent delta) cmds (length force) (length force) force' r
        (length m.0) tt (omega arith) (length-mark_comment_groups slots depth cmds force stack m e)
        h v a λ r' v' a'. run-IsMarked depth cmds force stack m force' r' e h v' a'
  run-IsMarked depth (comment s ∷ cmds) force stack m force' r e h v a =
      let (f, hf, e1) = ok->>= (force_all stack force) _ m e in
      let same = length-force_all stack force f hf in
      execute_step depth (comment s) cmds (length force) (length f) force' r (length m.0) tt
        (omega (arith, same)) (length-mark_comment_groups slots depth cmds f stack m e1) h v a
        λ r' v' a'. run-IsMarked depth cmds f stack m force' r' e1 h v' a'

-- Any error of a group's end, whatever the commands.
anything : (slots : List Slot) → Allows slots (λ e. e ≡ unbalanced_group) (λ h cmds. Unit)
anything slots = record {
  ended = λ h cmd cmds a c e. refl;
  passed = λ h h' cmd cmds a p e. tt;
  entered = λ h id s cmds a e. tt;
  left = λ h h' id cmds a. tt;
}

-- In a build without overflow checks, where the indentation wraps, and where the slots nest, each spliced only by
-- the document or by slots opened before it, no layout panics, be it by an index, an `unwrap` or a subtraction on
-- `usize`: it ends in a document, or in the error `UnbalancedGroup`.
pub render-safe :
    (max_width : ℕ) (slots : List Slot) (cmds : List Cmd)
    → IsNested slots
    → SplicesIn 0 (length slots) cmds
    → Ends (λ e. e ≡ unbalanced_group) (λ document. Unit) (render max_width slots cmds)
unfolding render finish
render-safe max_width slots cmds nested h =
    Ends-bind
      (Ends-ok (
        mark_comment_groups-Marked slots nested (length slots) 0 cmds (false ∷ []) [] (omega arith)
          h tt))
      λ m e.
        Ends-bind
          (run-IsMarked slots _ (anything slots) (length slots) cmds (false ∷ []) [] m m.0
            (Renderer.new max_width m.0) e.0 (omega arith) (new-IsMarked max_width m.0) tt)
          λ r v. Ends-bind (flush-Stays r v.valid) (λ r' s. returns tt)
