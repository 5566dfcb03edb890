-- ===== src/Printer/Renderer/Sound/Writes.antt =====
-- The writes of the renderer (hegel-c/src/native/printer.rs) that begin and end no group keep its counts.
use hegel_rust.Base.{
  ℕ, ◌+◌, ◌<◌, ◌≡◌, refl, sym, subst, inl, inr, arith, List, [], ◌∷◌, ◌++◌, length, All,
}
use hegel_rust.Base.Int.{ℤ}
use hegel_rust.Base.Outcomes.{ok, at, write}
use hegel_rust.Base.Ends.{
  Ends, returns, Ends-bind, Ends-mono, Ends-if, Ends-at, Ends-write, length-write, at-write_cases,
}
use hegel_rust.Printer.Commands.{PrinterError}
use hegel_rust.Printer.Renderer.{
  Token, breakable_token, if_break_token, comment_token, width, Group, Renderer, is_nil, emit,
  start_line,
}
use hegel_rust.Printer.Renderer.Writes.{
  push_text, text, newline, innermost, breakable, if_break, comment,
}
use hegel_rust.Printer.Renderer.Sound.{
  count, total_width, InGroups, IsSound, All-at, All-append, if_either,
}
use hegel_rust.Printer.Renderer.Sound.Buffer.{
  count-append, total_width-append, total_width-push_text, IsSound-tokens, push_text-IsSound,
}
use hegel_rust.Printer.Renderer.Sound.Loops.{
  IsValid, Stays, Stays-trans, flush-Stays, break_outer_groups-Stays,
}

-- Another buffer with the same break points.
Stays-buffer :
    (r : Renderer) (tokens : List Token) (w : ℕ)
    → IsSound tokens r.groups r.group_queue r.group_stack
    → w ≡ total_width tokens
    → Stays r (record r { buffer = tokens; buffer_width = w })
Stays-buffer r tokens w v e = record {
  valid = record { sound = v; widths = e };
  same_groups = refl;
  same_stack = refl;
  same_force = refl;
  queue_le = omega arith;
}

Stays-emit : (s : List ℕ) (w : ℕ) (r : Renderer) → IsValid r → Stays r (emit s w r)
unfolding emit
Stays-emit s w r v = record {
  valid = record { sound = v.sound; widths = v.widths };
  same_groups = refl;
  same_stack = refl;
  same_force = refl;
  queue_le = omega arith;
}

Stays-start_line : (indent : ℤ) (r : Renderer) → IsValid r → Stays r (start_line indent r)
unfolding start_line
Stays-start_line indent r v = record {
  valid = record { sound = v.sound; widths = v.widths };
  same_groups = refl;
  same_stack = refl;
  same_force = refl;
  queue_le = omega arith;
}

pub text-Stays :
    {F : PrinterError → Type 0} (s : List ℕ) (r : Renderer)
    → IsValid r
    → Ends F (Stays r) (text s r)
unfolding text
text-Stays s r v =
    Ends-if (is_nil r.buffer) (λ _. returns (Stays-emit s (length s) r v))
      (λ _.
        let r' : Renderer = record r {
          buffer = push_text s r.buffer;
          buffer_width = r.buffer_width + length s;
        } in
        let base : Stays r r' =
          Stays-buffer r (push_text s r.buffer) (r.buffer_width + length s)
            (push_text-IsSound r.groups r.group_queue r.group_stack s r.buffer v.sound)
            (omega (arith, v.widths, total_width-push_text s r.buffer)) in
        Ends-mono (break_outer_groups-Stays r' base.valid) (λ r'' k. Stays-trans r r' r'' base k))

pub newline-Stays :
    {F : PrinterError → Type 0} (r : Renderer) → IsValid r → Ends F (Stays r) (newline r)
unfolding newline
newline-Stays r v =
    Ends-bind (flush-Stays r v)
      λ r' k. returns (Stays-trans r r' _ k (Stays-start_line r'.indentation r' k.valid))

-- The innermost group is a place of the groups.
pub innermost-InGroups :
    {F : PrinterError → Type 0} (r : Renderer)
    → IsValid r
    → Ends F (λ id. id < length r.groups) (innermost r)
unfolding innermost
innermost-InGroups r v =
    Ends-mono (Ends-at r.group_stack 0 v.sound.stack_ne)
      λ id e. All-at (λ i. i < length r.groups) r.group_stack 0 id v.sound.stack_in e

-- One more break point of group `id`, at the end of the buffer.
counted-push :
    (tokens : List Token) (sep : List ℕ) (w : ℕ) (indent : ℤ) (id : ℕ) (groups : List Group)
    (queue : List (List ℕ)) (stack : List ℕ) (g : Group) (groups' : List Group)
    → IsSound tokens groups queue stack
    → at {E = PrinterError} groups id ≡ ok g
    → write {E = PrinterError} groups id (record g { pending = g.pending + 1 }) ≡ ok groups'
    → id < length groups
    → IsSound (tokens ++ (breakable_token sep w indent id ∷ [])) groups' queue stack
unfolding count
counted-push tokens sep w indent id groups queue stack g groups' v hg hs h =
    let same = length-write groups id (record g { pending = g.pending + 1 }) groups' hs in
    let last = breakable_token sep w indent id ∷ [] in
    record {
      counted = λ k x e. elim (at-write_cases groups id k _ groups' x hs e) [
        | inl (p, q) ↦ ground (arith, v.counted id g hg, count-append k tokens last)
        | inr (p, q) ↦ ground (arith, v.counted k x q, count-append k tokens last)
      ];
      leveled = λ k x e. elim (at-write_cases groups id k _ groups' x hs e) [
        | inl (p, q) ↦ subst (λ y. y.depth < length queue) (sym q) (v.leveled id g hg)
        | inr (p, q) ↦ v.leveled k x q
      ];
      tokens_in =
          subst (λ n. All (InGroups n) (tokens ++ last)) (sym same)
            (All-append _ tokens last v.tokens_in (h, tt));
      queue_in = subst (λ n. All (λ level. All (λ i. i < n) level) queue) (sym same) v.queue_in;
      stack_in = subst (λ n. All (λ i. i < n) stack) (sym same) v.stack_in;
      stack_ne = v.stack_ne;
    }

pub breakable-Stays :
    {F : PrinterError → Type 0} (sep : List ℕ) (r : Renderer)
    → IsValid r
    → Ends F (Stays r) (breakable sep r)
unfolding breakable total_width width
breakable-Stays sep r v = Ends-bind (innermost-InGroups r v) λ id h.
    Ends-bind (Ends-at r.groups id h) λ g hg.
      Ends-if g.want_break (λ _. newline-Stays r v)
        (λ _.
          Ends-bind (Ends-write r.groups id (record g { pending = g.pending + 1 }) h) λ groups hs.
            let last = breakable_token sep (length sep) r.indentation id ∷ [] in
            let r' : Renderer = record r {
              buffer = r.buffer ++ last;
              groups = groups;
              buffer_width = r.buffer_width + length sep;
            } in
            let base : Stays r r' = record {
              valid = record {
                sound =
                    counted-push r.buffer sep (length sep) r.indentation id r.groups r.group_queue
                      r.group_stack g groups v.sound hg hs h;
                widths = omega (arith, v.widths, total_width-append r.buffer last);
              };
              same_groups =
                  length-write r.groups id (record g { pending = g.pending + 1 }) groups hs;
              same_stack = refl;
              same_force = refl;
              queue_le = omega arith;
            } in
            Ends-mono (break_outer_groups-Stays r' base.valid)
              (λ r'' k. Stays-trans r r' r'' base k))

-- A token of no width and no break point, at the end of the buffer.
Stays-push :
    (r : Renderer) (t : Token)
    → IsValid r
    → ((g : ℕ) → count g (t ∷ []) ≡ 0)
    → width t ≡ 0
    → InGroups (length r.groups) t
    → Stays r (record r { buffer = r.buffer ++ (t ∷ []) })
unfolding total_width
Stays-push r t v c w h =
    Stays-buffer r (r.buffer ++ (t ∷ [])) r.buffer_width
      (IsSound-tokens r.groups r.group_queue r.group_stack r.buffer (r.buffer ++ (t ∷ [])) v.sound
        (λ g. omega (arith, count-append g r.buffer (t ∷ []), c g))
        (All-append _ r.buffer (t ∷ []) v.sound.tokens_in (h, tt)))
      (omega (arith, v.widths, total_width-append r.buffer (t ∷ []), w))

pub if_break-Stays :
    {F : PrinterError → Type 0} (s : List ℕ) (r : Renderer)
    → IsValid r
    → Ends F (Stays r) (if_break s r)
unfolding if_break count width
if_break-Stays s r v = Ends-bind (innermost-InGroups r v) λ id h.
    Ends-bind (Ends-at r.groups id h) λ g hg.
      Ends-if g.want_break (λ _. text-Stays s r v)
        (λ _. returns (Stays-push r (if_break_token s id) v (λ g. refl) refl h))

pub comment-Stays : (s : List ℕ) (r : Renderer) → IsValid r → Stays r (comment s r)
unfolding comment count width
comment-Stays s r v =
    if_either (Stays r) (is_nil r.buffer) _ _
      (record {
        valid = record { sound = v.sound; widths = v.widths };
        same_groups = refl;
        same_stack = refl;
        same_force = refl;
        queue_le = omega arith;
      })
      (Stays-push r (comment_token s) v (λ g. refl) refl tt)
