-- ===== src/Printer/Renderer/Breaks.antt =====
-- hegel-c/src/native/printer.rs, `Renderer`: which groups break, and the tokens that are output then.
use hegel_rust.Base.{
  ℕ, zero, suc, ◌+◌, Bool, true, false, ltb, if◌then◌else◌, List, [], ◌∷◌, length, Option, none,
  some,
}
use hegel_rust.Base.Outcomes.{ok, panic, ◌>>=◌, at, write, checked_sub}
use hegel_rust.Printer.Renderer.{
  Token, breakable_token, width, Group, Renderer, Rendering, output_token,
}

-- Every group of the ids is to break.
unfoldable pub want_break_all : List ℕ → List Group → Rendering (List Group)
want_break_all [] groups = ok groups
want_break_all (id ∷ level) groups = do
  g ← at groups id
  groups' ← write groups id (record g { want_break = true })
  want_break_all level groups'

-- The first group of a level with a break pending, and the rest of the level.
unfoldable pub take_pending : List Group → List ℕ → Rendering (Option (ℕ × List ℕ))
take_pending groups [] = ok none
take_pending groups (id ∷ level) = do
  g ← at groups id
  if ltb 0 g.pending then ok (some (id, level)) else (do
    rest ← take_pending groups level
    elim rest [ some (found, level') ↦ ok (some (found, id ∷ level')) | none ↦ ok none ])

-- The loop of `deq` over the levels: the group found, the groups, and the queue.
unfoldable pub deq_loop :
    List (List ℕ) → List Group → Rendering (Option ℕ × List Group × List (List ℕ))
unfolding take_pending want_break_all
deq_loop [] groups = ok (none, groups, [])
deq_loop (level ∷ levels) groups = do
  found ← take_pending groups level
  elim found [
    | some (id, level') ↦ do
      groups' ← want_break_all (id ∷ []) groups
      ok (some id, groups', level' ∷ levels)
    | none ↦ do
      groups' ← want_break_all level groups
      rest ← deq_loop levels groups'
      ok (rest.0, rest.1, [] ∷ rest.2)
  ]

-- `while self.groups[id].pending > 0`, on the buffer.
unfoldable pub drain_pending : ℕ → List Token → Renderer → Rendering Renderer
unfolding output_token width
drain_pending id [] r = do
  g ← at r.groups id
  if ltb 0 g.pending then panic else ok (record r { buffer = [] })
drain_pending id (t ∷ tokens) r = do
  g ← at r.groups id
  let more = (do
    w ← checked_sub r.buffer_width (width t)
    r' ← output_token t (record r { buffer_width = w })
    drain_pending id tokens r')
  if ltb 0 g.pending then more else ok (record r { buffer = t ∷ tokens })

unfoldable pub is_breakable : Token → Bool
is_breakable (breakable_token _ _ _ _) = true
is_breakable _ = false

-- The loop that follows it, up to the next break point.
unfoldable pub drain_rest : List Token → Renderer → Rendering Renderer
unfolding output_token width is_breakable
drain_rest [] r = ok (record r { buffer = [] })
drain_rest (t ∷ tokens) r =
    let more = (do
      w ← checked_sub r.buffer_width (width t)
      r' ← output_token t (record r { buffer_width = w })
      drain_rest tokens r') in
    if is_breakable t then ok (record r { buffer = t ∷ tokens }) else more

-- The rounds that are left: each takes a group out of the queue.
unfoldable pub break_loop : ℕ → Renderer → Rendering Renderer
unfolding deq_loop drain_pending drain_rest
break_loop zero r = panic
break_loop (suc rounds) r =
    let more = (do
      d ← deq_loop r.group_queue r.groups
      let r' = record r { groups = d.1; group_queue = d.2 }
      elim d.0 [
        | some id ↦ do
          r1 ← drain_pending id r'.buffer r'
          r2 ← drain_rest r1.buffer r1
          break_loop rounds r2
        | none ↦ ok r'
      ]) in
    if ltb r.max_width (r.output_width + r.buffer_width) then more else ok r

unfoldable pub queue_size : List (List ℕ) → ℕ
queue_size [] = 0
queue_size (level ∷ queue) = length level + queue_size queue

unfoldable pub break_outer_groups : Renderer → Rendering Renderer
unfolding break_loop queue_size
break_outer_groups r = break_loop (suc (queue_size r.group_queue)) r
