-- ===== src/Printer/Renderer.antt =====
-- hegel-c/src/native/printer.rs, `Renderer`: the layout of commands as they come. The front of the buffer
-- and the top of the group stack stand first. A subtraction on `usize` that underflows is a panic; an
-- `isize` wraps, as in a build without overflow checks.
pub mod Breaks
pub mod Writes
pub mod Sound
use hegel_rust.Base.{
  ℕ, zero, suc, ◌+◌, ◌-◌, Bool, true, false, not, ltb, leb, ◌==◌, ◌&&◌, ◌||◌, if◌then◌else◌, List,
  [], ◌∷◌, ◌++◌, length, drop, Option, none, some,
}
use hegel_rust.Base.Int.{ℤ, pos, ◌+ℤ◌, ◌-ℤ◌, pos_part}
use hegel_rust.Base.Outcomes.{Outcome, ok, err, panic, ◌>>=◌, at, write, checked_sub}
use hegel_rust.Printer.Commands.{PrinterError, unbalanced_group, newline_char, spaces, trim_start}

pub data Token : Type 0 where
  text_token : List ℕ → ℕ → Token
  breakable_token : List ℕ → ℕ → ℤ → ℕ → Token
  if_break_token : List ℕ → ℕ → Token
  comment_token : List ℕ → Token

unfoldable pub width : Token → ℕ
width (text_token _ w) = w
width (breakable_token _ w _ _) = w
width (if_break_token _ _) = 0
width (comment_token _) = 0

pub record Group : Type 0 where
  pub depth : ℕ
  pub indent : ℕ
  pub pending : ℕ
  pub want_break : Bool
  pub comment : Bool

pub record Renderer : Type 0 where
  pub max_width : ℕ
  pub force_break : List Bool
  pub out : List ℕ
  pub output_width : ℕ
  pub at_line_start : Bool
  pub buffer : List Token
  pub buffer_width : ℕ
  pub pending_comments : List ℕ
  pub indentation : ℤ
  pub groups : List Group
  pub group_stack : List ℕ
  pub group_queue : List (List ℕ)

abbrev pub Rendering : Type 0 → Type 0
Rendering A = Outcome PrinterError A

unfoldable pub new : ℕ → List Bool → Renderer
new max_width force_break = record {
  max_width = max_width;
  force_break = force_break;
  out = [];
  output_width = 0;
  at_line_start = true;
  buffer = [];
  buffer_width = 0;
  pending_comments = [];
  indentation = pos 0;
  groups = record { depth = 0; indent = 0; pending = 0; want_break = false; comment = false } ∷ [];
  group_stack = 0 ∷ [];
  group_queue = (0 ∷ []) ∷ [];
}

unfoldable pub is_nil : {A : Type 0} → List A → Bool
is_nil [] = true
is_nil (_ ∷ _) = false

unfoldable pub emit_pending_comments : Renderer → Renderer
emit_pending_comments r = record r { out = r.out ++ r.pending_comments; pending_comments = [] }

-- `out.push_str(s)` with its width.
unfoldable pub emit : List ℕ → ℕ → Renderer → Renderer
emit s w r = record r {
  out = r.out ++ s;
  output_width = r.output_width + w;
  at_line_start = if ltb 0 w then false else r.at_line_start;
}

-- A newline with the spaces that follow it.
unfoldable pub start_line : ℤ → Renderer → Renderer
unfolding emit_pending_comments spaces
start_line indent r =
    let r' = emit_pending_comments r in
    record r' {
      out = r'.out ++ (newline_char ∷ spaces indent);
      output_width = pos_part indent;
      at_line_start = true;
    }

unfoldable pub remove_id : ℕ → List ℕ → List ℕ
remove_id id [] = []
remove_id id (g ∷ level) = let rest = remove_id id level in if g == id then level else g ∷ rest

unfoldable pub queue_remove : ℕ → Renderer → Rendering Renderer
unfolding remove_id
queue_remove id r = do
  g ← at r.groups id
  level ← at r.group_queue g.depth
  queue ← write r.group_queue g.depth (remove_id id level)
  ok (record r { group_queue = queue })

unfoldable pub output_token : Token → Renderer → Rendering Renderer
unfolding emit start_line queue_remove
output_token (text_token content w) r = ok (emit content w r)
output_token (if_break_token content group) r = do
  g ← at r.groups group
  ok (if g.want_break then emit content (length content) r else r)
output_token (comment_token content) r =
    ok (record r { pending_comments = r.pending_comments ++ content })
output_token (breakable_token sep w indent group) r = do
  g ← at r.groups group
  pending ← checked_sub g.pending 1
  groups ← write r.groups group (record g { pending = pending })
  let r' = record r { groups = groups }
  if g.want_break
      then ok (start_line indent r')
      else (do r'' ← if pending == 0 then queue_remove group r' else ok r'; ok (emit sep w r''))

unfoldable pub flush_loop : List Token → Renderer → Rendering Renderer
unfolding output_token
flush_loop [] r = ok (record r { buffer = []; buffer_width = 0 })
flush_loop (t ∷ tokens) r = do r' ← output_token t r; flush_loop tokens r'

unfoldable pub flush : Renderer → Rendering Renderer
unfolding flush_loop
flush r = flush_loop r.buffer r
