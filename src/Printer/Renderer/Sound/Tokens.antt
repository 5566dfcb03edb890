-- ===== src/Printer/Renderer/Sound/Tokens.antt =====
-- The output of one token keeps the counts of the renderer (hegel-c/src/native/printer.rs).
use hegel_rust.Base.{
  ℕ, ◌-◌, ◌≤◌, ◌<◌, ◌≡◌, refl, sym, ◌∙◌, subst, inl, inr, arith, ◌==◌, List, ◌∷◌, length, All,
}
use hegel_rust.Base.Int.{ℤ}
use hegel_rust.Base.Outcomes.{ok, at, write}
use hegel_rust.Base.Ends.{
  Ends, returns, Ends-bind, Ends-mono, Ends-if, Ends-sub, Ends-at, Ends-write, length-write,
  at-write_cases,
}
use hegel_rust.Printer.Commands.{PrinterError}
use hegel_rust.Printer.Renderer.{
  Token, text_token, breakable_token, if_break_token, comment_token, Group, Renderer, remove_id,
  queue_remove, output_token, emit, start_line,
}
use hegel_rust.Printer.Renderer.Breaks.{queue_size}
use hegel_rust.Printer.Renderer.Sound.{
  count, InGroups, IsSound, All-at, All-write, queue_size-write, length-remove_id, if_either,
  All-remove_id,
}

-- What the output of tokens leaves: the counts of the tokens that remain, and fields that it does not change.
pub record Leaves (tokens : List Token) (r r' : Renderer) : Type 0 where
  pub sound : IsSound tokens r'.groups r'.group_queue r'.group_stack
  pub same_groups : length r'.groups ≡ length r.groups
  pub same_stack : r'.group_stack ≡ r.group_stack
  pub same_force : r'.force_break ≡ r.force_break
  pub same_width : r'.buffer_width ≡ r.buffer_width
  pub same_buffer : r'.buffer ≡ r.buffer
  pub queue_le : queue_size r'.group_queue ≤ queue_size r.group_queue

pub Leaves-trans :
    (tokens tokens' : List Token) (r r' r'' : Renderer)
    → Leaves tokens' r r'
    → Leaves tokens r' r''
    → Leaves tokens r r''
Leaves-trans tokens tokens' r r' r'' a b = record {
  sound = b.sound;
  same_groups = omega (arith, a.same_groups, b.same_groups);
  same_stack = cc (a.same_stack, b.same_stack);
  same_force = cc (a.same_force, b.same_force);
  same_width = omega (arith, a.same_width, b.same_width);
  same_buffer = cc (a.same_buffer, b.same_buffer);
  queue_le = omega (arith, a.queue_le, b.queue_le);
}

-- A change of the output alone.
pub Leaves-emit :
    (tokens : List Token) (s : List ℕ) (w : ℕ) (r0 r : Renderer)
    → Leaves tokens r0 r
    → Leaves tokens r0 (emit s w r)
unfolding emit
Leaves-emit tokens s w r0 r v = record {
  sound = v.sound;
  same_groups = v.same_groups;
  same_stack = v.same_stack;
  same_force = v.same_force;
  same_width = v.same_width;
  same_buffer = v.same_buffer;
  queue_le = v.queue_le;
}

pub Leaves-start_line :
    (tokens : List Token) (indent : ℤ) (r0 r : Renderer)
    → Leaves tokens r0 r
    → Leaves tokens r0 (start_line indent r)
unfolding start_line
Leaves-start_line tokens indent r0 r v = record {
  sound = v.sound;
  same_groups = v.same_groups;
  same_stack = v.same_stack;
  same_force = v.same_force;
  same_width = v.same_width;
  same_buffer = v.same_buffer;
  queue_le = v.queue_le;
}

-- The same renderer, with counts for other tokens.
pub Leaves-refl :
    (tokens : List Token) (r : Renderer)
    → IsSound tokens r.groups r.group_queue r.group_stack
    → Leaves tokens r r
Leaves-refl tokens r v = record {
  sound = v;
  same_groups = refl;
  same_stack = refl;
  same_force = refl;
  same_width = refl;
  same_buffer = refl;
  queue_le = omega arith;
}

pub queue_remove-Leaves :
    {F : PrinterError → Type 0} (tokens : List Token) (id : ℕ) (r : Renderer)
    → IsSound tokens r.groups r.group_queue r.group_stack
    → id < length r.groups
    → Ends F (Leaves tokens r) (queue_remove id r)
unfolding queue_remove
queue_remove-Leaves tokens id r v h = Ends-bind (Ends-at r.groups id h) λ g hg.
    Ends-bind (Ends-at r.group_queue g.depth (v.leveled id g hg)) λ level hl.
      Ends-bind (Ends-write r.group_queue g.depth (remove_id id level) (v.leveled id g hg))
        λ queue hq. returns (record {
          sound = record {
            counted = v.counted;
            leveled = λ k x e. omega (
              arith,
              v.leveled k x e,
              length-write r.group_queue g.depth (remove_id id level) queue hq,
            );
            tokens_in = v.tokens_in;
            queue_in =
                All-write _ r.group_queue g.depth _ queue v.queue_in
                  (All-remove_id _ id level (All-at _ r.group_queue g.depth level v.queue_in hl))
                  hq;
            stack_in = v.stack_in;
            stack_ne = v.stack_ne;
          };
          same_groups = refl;
          same_stack = refl;
          same_force = refl;
          same_width = refl;
          same_buffer = refl;
          queue_le = omega (
            arith,
            queue_size-write r.group_queue g.depth level (remove_id id level) queue hl hq,
            length-remove_id id level,
          );
        })

-- The counts once a break point of group `id` is taken from the front.
counted-write :
    (tokens : List Token) (sep : List ℕ) (w : ℕ) (indent : ℤ) (id : ℕ) (groups : List Group)
    (queue : List (List ℕ)) (stack : List ℕ) (g : Group) (groups' : List Group)
    → IsSound (breakable_token sep w indent id ∷ tokens) groups queue stack
    → at {E = PrinterError} groups id ≡ ok g
    → write {E = PrinterError} groups id (record g { pending = g.pending - 1 }) ≡ ok groups'
    → IsSound tokens groups' queue stack
unfolding count
counted-write tokens sep w indent id groups queue stack g groups' v hg hs =
    let same = length-write groups id (record g { pending = g.pending - 1 }) groups' hs in
    record {
      counted = λ k x e. elim (at-write_cases groups id k _ groups' x hs e) [
        | inl (p, q) ↦
            subst (λ j. x.pending ≡ count j tokens) (sym p) (ground (arith, v.counted id g hg))
        | inr (p, q) ↦ ground (arith, v.counted k x q)
      ];
      leveled = λ k x e. elim (at-write_cases groups id k _ groups' x hs e) [
        | inl (p, q) ↦ subst (λ y. y.depth < length queue) (sym q) (v.leveled id g hg)
        | inr (p, q) ↦ v.leveled k x q
      ];
      tokens_in = subst (λ n. All (InGroups n) tokens) (sym same) v.tokens_in.1;
      queue_in = subst (λ n. All (λ level. All (λ i. i < n) level) queue) (sym same) v.queue_in;
      stack_in = subst (λ n. All (λ i. i < n) stack) (sym same) v.stack_in;
      stack_ne = v.stack_ne;
    }

-- A token that is no break point can be left off.
pub IsSound-tail :
    (t : Token) (tokens : List Token) (groups : List Group) (queue : List (List ℕ)) (stack : List ℕ)
    → ((g : ℕ) → count g (t ∷ tokens) ≡ count g tokens)
    → IsSound (t ∷ tokens) groups queue stack
    → IsSound tokens groups queue stack
IsSound-tail t tokens groups queue stack e v = record {
  counted = λ k x h. v.counted k x h ∙ e k;
  leveled = v.leveled;
  tokens_in = v.tokens_in.1;
  queue_in = v.queue_in;
  stack_in = v.stack_in;
  stack_ne = v.stack_ne;
}

pub output_token-Leaves :
    {F : PrinterError → Type 0} (t : Token) (tokens : List Token) (r : Renderer)
    → IsSound (t ∷ tokens) r.groups r.group_queue r.group_stack
    → Ends F (Leaves tokens r) (output_token t r)
unfolding output_token count
output_token-Leaves (text_token s w) tokens r v =
    returns (
      Leaves-emit tokens s w r r (Leaves-refl tokens r (IsSound-tail _ tokens _ _ _ (λ g. refl) v)))
output_token-Leaves (comment_token s) tokens r v = returns (record {
  sound = IsSound-tail _ tokens _ _ _ (λ g. refl) v;
  same_groups = refl;
  same_stack = refl;
  same_force = refl;
  same_width = refl;
  same_buffer = refl;
  queue_le = omega arith;
})
output_token-Leaves (if_break_token s id) tokens r v =
    let kept = Leaves-refl tokens r (IsSound-tail _ tokens _ _ _ (λ g. refl) v) in
    Ends-bind (Ends-at r.groups id v.tokens_in.0) λ g hg.
      returns (
        if_either (Leaves tokens r) g.want_break _ _ (Leaves-emit tokens s (length s) r r kept)
          kept)
output_token-Leaves (breakable_token sep w indent id) tokens r v =
    Ends-bind (Ends-at r.groups id v.tokens_in.0) λ g hg.
      Ends-sub g.pending 1 _ (ground (arith, v.counted id g hg)) (
        Ends-bind (Ends-write r.groups id (record g { pending = g.pending - 1 }) v.tokens_in.0)
          λ groups hs.
            let sound =
              counted-write tokens sep w indent id r.groups r.group_queue r.group_stack g groups v
                hg hs in
            let same = length-write r.groups id (record g { pending = g.pending - 1 }) groups hs in
            let r' : Renderer = record r { groups = groups } in
            let kept : Leaves tokens r r' = record {
              sound = sound;
              same_groups = same;
              same_stack = refl;
              same_force = refl;
              same_width = refl;
              same_buffer = refl;
              queue_le = omega arith;
            } in
            Ends-if g.want_break (λ _. returns (Leaves-start_line tokens indent r r' kept))
              (λ _.
                Ends-bind
                  (Ends-if (g.pending - 1 == 0)
                    (λ _.
                      Ends-mono (queue_remove-Leaves tokens id r' sound (omega arith))
                        (λ r'' k. Leaves-trans tokens tokens r r' r'' kept k))
                    (λ _. returns kept))
                  (λ r'' k. returns (Leaves-emit tokens sep w r r'' k))))
