-- ===== src/Printer/Renderer/Sound/Loops.antt =====
-- The loops of the renderer (hegel-c/src/native/printer.rs) end, and keep its counts.
use hegel_rust.Base.{
  ℕ, zero, suc, ◌+◌, ◌-◌, ◌≤◌, ◌<◌, ◌≡◌, refl, ◌∙◌, arith, ltb, List, [], ◌∷◌, length,
}
use hegel_rust.Base.Outcomes.{◌>>=◌, checked_sub}
use hegel_rust.Base.Ends.{
  Ends-sub, Ends, returns, Ends-bind, Ends-mono, Ends-if, Ends-elim, Ends-at,
}
use hegel_rust.Printer.Commands.{PrinterError}
use hegel_rust.Printer.Renderer.{Token, width, Renderer, Rendering, output_token, flush_loop, flush}
use hegel_rust.Printer.Renderer.Breaks.{
  queue_size, drain_pending, is_breakable, drain_rest, break_loop, break_outer_groups,
}
use hegel_rust.Printer.Renderer.Sound.{count, total_width, IsSound}
use hegel_rust.Printer.Renderer.Sound.Tokens.{
  Leaves, Leaves-trans, Leaves-refl, output_token-Leaves,
}
use hegel_rust.Printer.Renderer.Sound.Dequeue.{deq_loop-Dequeued, IsSound-same}

-- A renderer whose buffer and counts agree.
pub record IsValid (r : Renderer) : Type 0 where
  pub sound : IsSound r.buffer r.groups r.group_queue r.group_stack
  pub widths : r.buffer_width ≡ total_width r.buffer

-- What an operation of the renderer that begins and ends no group leaves.
pub record Stays (r r' : Renderer) : Type 0 where
  pub valid : IsValid r'
  pub same_groups : length r'.groups ≡ length r.groups
  pub same_stack : r'.group_stack ≡ r.group_stack
  pub same_force : r'.force_break ≡ r.force_break
  pub queue_le : queue_size r'.group_queue ≤ queue_size r.group_queue

pub flush_loop-Stays :
    {F : PrinterError → Type 0} (tokens : List Token) (r0 r : Renderer)
    → Leaves tokens r0 r
    → Ends F (Stays r0) (flush_loop tokens r)
unfolding flush_loop total_width
flush_loop-Stays [] r0 r v = returns (record {
  valid = record { sound = v.sound; widths = refl };
  same_groups = v.same_groups;
  same_stack = v.same_stack;
  same_force = v.same_force;
  queue_le = v.queue_le;
})
flush_loop-Stays (t ∷ tokens) r0 r v =
    Ends-bind (output_token-Leaves t tokens r v.sound)
      λ r' k. flush_loop-Stays tokens r0 r' (Leaves-trans tokens (t ∷ tokens) r0 r r' v k)

pub flush-Stays :
    {F : PrinterError → Type 0} (r : Renderer) → IsValid r → Ends F (Stays r) (flush r)
unfolding flush
flush-Stays r v = flush_loop-Stays r.buffer r r (Leaves-refl r.buffer r v.sound)

pub Stays-trans : (r r' r'' : Renderer) → Stays r r' → Stays r' r'' → Stays r r''
Stays-trans r r' r'' a b = record {
  valid = b.valid;
  same_groups = omega (arith, a.same_groups, b.same_groups);
  same_stack = cc (a.same_stack, b.same_stack);
  same_force = cc (a.same_force, b.same_force);
  queue_le = omega (arith, a.queue_le, b.queue_le);
}

-- The first token is output, and a loop goes on.
drain_step :
    {F : PrinterError → Type 0} (t : Token) (tokens : List Token) (r : Renderer)
    (loop : Renderer → Rendering Renderer)
    → IsSound (t ∷ tokens) r.groups r.group_queue r.group_stack
    → r.buffer_width ≡ total_width (t ∷ tokens)
    → ((r' : Renderer)
        → length r'.groups ≡ length r.groups
        → IsSound tokens r'.groups r'.group_queue r'.group_stack
        → r'.buffer_width ≡ total_width tokens
        → Ends F (Stays r') (loop r'))
    → Ends F (Stays r) (
        checked_sub r.buffer_width (width t)
        >>= (λ w. output_token t (record r { buffer_width = w }) >>= loop))
unfolding total_width
drain_step t tokens r loop v w k = Ends-sub r.buffer_width (width t) _ (omega (arith, w)) (
    Ends-bind
      (output_token-Leaves t tokens (record r { buffer_width = r.buffer_width - width t }) v)
      λ r' l. Ends-mono (k r' l.same_groups l.sound (omega (arith, w, l.same_width))) λ r'' s.
        record {
          valid = s.valid;
          same_groups = omega (arith, s.same_groups, l.same_groups);
          same_stack = s.same_stack ∙ l.same_stack;
          same_force = s.same_force ∙ l.same_force;
          queue_le = omega (arith, s.queue_le, l.queue_le);
        })

-- The loop stops, and the tokens that are left are the buffer.
stop_loop :
    (tokens : List Token) (r : Renderer)
    → IsSound tokens r.groups r.group_queue r.group_stack
    → r.buffer_width ≡ total_width tokens
    → Stays r (record r { buffer = tokens })
stop_loop tokens r v w = record {
  valid = record { sound = v; widths = w };
  same_groups = refl;
  same_stack = refl;
  same_force = refl;
  queue_le = omega arith;
}

drain_pending-Stays :
    {F : PrinterError → Type 0} (id : ℕ) (tokens : List Token) (r : Renderer)
    → IsSound tokens r.groups r.group_queue r.group_stack
    → r.buffer_width ≡ total_width tokens
    → id < length r.groups
    → Ends F (Stays r) (drain_pending id tokens r)
unfolding drain_pending count
drain_pending-Stays id [] r v w h = Ends-bind (Ends-at r.groups id h) λ g hg.
    Ends-if (ltb 0 g.pending) (λ e. absurd (ground (arith, v.counted id g hg)))
      (λ _. returns (stop_loop [] r v w))
drain_pending-Stays id (t ∷ tokens) r v w h = Ends-bind (Ends-at r.groups id h) λ g hg.
    Ends-if (ltb 0 g.pending)
      (λ _.
        drain_step t tokens r (drain_pending id tokens) v w
          λ r' n v' w'. drain_pending-Stays id tokens r' v' w' (omega arith))
      (λ _. returns (stop_loop (t ∷ tokens) r v w))

drain_rest-Stays :
    {F : PrinterError → Type 0} (tokens : List Token) (r : Renderer)
    → IsSound tokens r.groups r.group_queue r.group_stack
    → r.buffer_width ≡ total_width tokens
    → Ends F (Stays r) (drain_rest tokens r)
unfolding drain_rest
drain_rest-Stays [] r v w = returns (stop_loop [] r v w)
drain_rest-Stays (t ∷ tokens) r v w =
    Ends-if (is_breakable t) (λ _. returns (stop_loop (t ∷ tokens) r v w))
      (λ _.
        drain_step t tokens r (drain_rest tokens) v w
          λ r' n v' w'. drain_rest-Stays tokens r' v' w')

break_loop-Stays :
    {F : PrinterError → Type 0} (rounds : ℕ) (r : Renderer)
    → IsValid r
    → queue_size r.group_queue < rounds
    → Ends F (Stays r) (break_loop rounds r)
unfolding break_loop
break_loop-Stays zero r v h = absurd (omega (arith, h))
break_loop-Stays (suc rounds) r v h =
    Ends-if (ltb r.max_width (r.output_width + r.buffer_width))
      (λ _. Ends-bind (deq_loop-Dequeued r.group_queue r.groups v.sound.queue_in) λ d q.
        let r' : Renderer = record r { groups = d.1; group_queue = d.2 } in
        let v' =
          IsSound-same r.buffer r.groups d.1 r.group_queue d.2 r.group_stack v.sound q.same q.levels
            q.in_range in
        let base : Stays r r' = record {
          valid = record { sound = v'; widths = v.widths };
          same_groups = q.same.same_length;
          same_stack = refl;
          same_force = refl;
          queue_le = q.size_le;
        } in
        Ends-elim d.0 _ _
          (λ id e.
            let f = q.found id e in
            Ends-bind
              (drain_pending-Stays id r.buffer r' v' v.widths
                (omega (arith, f.0, q.same.same_length)))
              λ r1 s1.
                Ends-bind (drain_rest-Stays r1.buffer r1 s1.valid.sound s1.valid.widths) λ r2 s2.
                  Ends-mono
                    (break_loop-Stays rounds r2 s2.valid
                      (omega (arith, f.1, s1.queue_le, s2.queue_le)))
                    (λ r3 s3.
                      Stays-trans r r' r3 base
                        (Stays-trans r' r1 r3 s1 (Stays-trans r1 r2 r3 s2 s3))))
          (λ _. returns base))
      (λ _. returns (stop_loop r.buffer r v.sound v.widths))

pub break_outer_groups-Stays :
    {F : PrinterError → Type 0} (r : Renderer) → IsValid r → Ends F (Stays r) (break_outer_groups r)
unfolding break_outer_groups
break_outer_groups-Stays r v = break_loop-Stays (suc (queue_size r.group_queue)) r v (omega arith)

pub Stays-refl : (r : Renderer) → IsValid r → Stays r r
Stays-refl r v = stop_loop r.buffer r v.sound v.widths
