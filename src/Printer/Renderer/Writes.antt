-- ===== src/Printer/Renderer/Writes.antt =====
-- hegel-c/src/native/printer.rs, `Renderer`: the operations that the commands execute.
use hegel_rust.Base.{
  ℕ, zero, suc, ◌+◌, ◌==◌, ◌&&◌, if◌then◌else◌, List, [], ◌∷◌, ◌++◌, length, drop,
}
use hegel_rust.Base.Int.{pos, ◌+ℤ◌, ◌-ℤ◌, as_isize}
use hegel_rust.Base.Outcomes.{ok, err, ◌>>=◌, at, write}
use hegel_rust.Printer.Commands.{unbalanced_group, trim_start}
use hegel_rust.Printer.Renderer.{
  Token, text_token, breakable_token, if_break_token, comment_token, Group, Renderer, Rendering,
  is_nil, emit, start_line, queue_remove, flush,
}
use hegel_rust.Printer.Renderer.Breaks.{break_outer_groups}

-- `buffer.back_mut()` and the push.
unfoldable pub append_text : Token → List ℕ → List Token
append_text (text_token content w) s = text_token (content ++ s) (w + length s) ∷ []
append_text t s = t ∷ text_token s (length s) ∷ []

unfoldable pub push_text : List ℕ → List Token → List Token
unfolding append_text
push_text s [] = text_token s (length s) ∷ []
push_text s (t ∷ []) = append_text t s
push_text s (t ∷ u ∷ tokens) = t ∷ push_text s (u ∷ tokens)

unfoldable pub text : List ℕ → Renderer → Rendering Renderer
unfolding is_nil emit push_text break_outer_groups
text s r =
    if is_nil r.buffer
    then ok (emit s (length s) r)
    else break_outer_groups
        (record r { buffer = push_text s r.buffer; buffer_width = r.buffer_width + length s })

unfoldable pub newline : Renderer → Rendering Renderer
unfolding flush start_line
newline r = do r' ← flush r; ok (start_line r'.indentation r')

-- `*self.group_stack.last().unwrap()`
unfoldable pub innermost : Renderer → Rendering ℕ
innermost r = at r.group_stack 0

unfoldable pub breakable : List ℕ → Renderer → Rendering Renderer
unfolding innermost newline break_outer_groups
breakable sep r = do
  group ← innermost r
  g ← at r.groups group
  if g.want_break then newline r else (do
    groups ← write r.groups group (record g { pending = g.pending + 1 })
    break_outer_groups (record r {
      buffer = r.buffer ++ (breakable_token sep (length sep) r.indentation group ∷ []);
      groups = groups;
      buffer_width = r.buffer_width + length sep;
    }))

unfoldable pub if_break : List ℕ → Renderer → Rendering Renderer
unfolding innermost text
if_break s r = do
  group ← innermost r
  g ← at r.groups group
  if g.want_break
      then text s r
      else ok (record r { buffer = r.buffer ++ (if_break_token s group ∷ []) })

unfoldable pub comment : List ℕ → Renderer → Renderer
unfolding is_nil
comment s r =
    if is_nil r.buffer
    then record r { pending_comments = r.pending_comments ++ s }
    else record r { buffer = r.buffer ++ (comment_token s ∷ []) }

-- The queue grown to the depth, and the group at the end of its level.
unfoldable pub push_level : ℕ → ℕ → List (List ℕ) → List (List ℕ)
push_level zero id [] = (id ∷ []) ∷ []
push_level zero id (level ∷ queue) = (level ++ (id ∷ [])) ∷ queue
push_level (suc depth) id [] = [] ∷ push_level depth id []
push_level (suc depth) id (level ∷ queue) = level ∷ push_level depth id queue

unfoldable pub begin_group : ℕ → List ℕ → Renderer → Rendering Renderer
unfolding is_nil text innermost push_level as_isize
begin_group indent opening r = do
  r' ← if is_nil opening then ok r else text opening r
  top ← innermost r'
  outer ← at r'.groups top
  let id = length r'.groups
  comment ← at r'.force_break id
  let g : Group = record {
    depth = outer.depth + 1;
    indent = indent;
    pending = 0;
    want_break = comment;
    comment = comment;
  }
  ok (record r' {
    groups = r'.groups ++ (g ∷ []);
    group_stack = id ∷ r'.group_stack;
    group_queue = push_level (outer.depth + 1) id r'.group_queue;
    indentation = as_isize (r'.indentation +ℤ as_isize (pos indent));
  })

-- The close of a group that a comment breaks.
unfoldable pub fresh_line : Renderer → Rendering Renderer
unfolding is_nil newline
fresh_line r = if is_nil r.buffer && r.at_line_start then ok r else newline r

unfoldable pub end_group : List ℕ → Renderer → Rendering Renderer
unfolding is_nil fresh_line queue_remove text trim_start as_isize
end_group close r = if length r.group_stack == 1 then err unbalanced_group else (do
  id ← innermost r
  g ← at r.groups id
  let r1 = record r {
    group_stack = drop 1 r.group_stack;
    indentation = as_isize (r.indentation -ℤ as_isize (pos g.indent));
  }
  r2 ← if g.comment then fresh_line r1 else ok r1
  let close' = if g.comment then trim_start close else close
  g' ← at r2.groups id
  r3 ← if g'.pending == 0 then queue_remove id r2 else ok r2
  if is_nil close' then ok r3 else text close' r3)
