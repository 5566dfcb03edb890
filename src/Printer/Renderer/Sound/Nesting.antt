-- ===== src/Printer/Renderer/Sound/Nesting.antt =====
-- The begin and the end of a group in the renderer (hegel-c/src/native/printer.rs) keep its counts.
use hegel_rust.Base.{
  ℕ, ◌+◌, ◌<◌, ◌≡◌, refl, sym, ap, subst, arith, Bool, ◌==◌, ◌&&◌, if◌then◌else◌, List, [], ◌∷◌,
  length, drop,
}
use hegel_rust.Base.Int.{pos, ◌-ℤ◌, as_isize}
use hegel_rust.Base.{length-append}
use hegel_rust.Base.Outcomes.{ok, at, ◌>>=◌}
use hegel_rust.Base.Ends.{Ends, returns, fails, Ends-bind, Ends-mono, Ends-if, Ends-at}
use hegel_rust.Printer.Commands.{PrinterError, unbalanced_group, trim_start}
use hegel_rust.Printer.Renderer.{Token, Group, Renderer, is_nil, queue_remove}
use hegel_rust.Printer.Renderer.Writes.{text, begin_group, fresh_line, end_group}
use hegel_rust.Printer.Renderer.Sound.{IsSound}
use hegel_rust.Printer.Renderer.Sound.Tokens.{queue_remove-Leaves}
use hegel_rust.Printer.Renderer.Sound.Loops.{IsValid, Stays, Stays-trans, Stays-refl}
use hegel_rust.Printer.Renderer.Sound.Writes.{text-Stays, newline-Stays, innermost-InGroups}
use hegel_rust.Printer.Renderer.Sound.Places.{IsSound-begin, Moves}

pub begin_group-Moves :
    {F : PrinterError → Type 0} (indent : ℕ) (opening : List ℕ) (r : Renderer)
    → IsValid r
    → length r.groups < length r.force_break
    → Ends F (Moves 1 0 r) (begin_group indent opening r)
unfolding begin_group
begin_group-Moves indent opening r v h =
    Ends-bind
      (Ends-if (is_nil opening) (λ _. returns (Stays-refl r v)) (λ _. text-Stays opening r v))
      λ r' s. Ends-bind (innermost-InGroups r' s.valid) λ top ht.
        Ends-bind (Ends-at r'.groups top ht) λ outer ho.
          Ends-bind
            (Ends-at r'.force_break (length r'.groups)
              (omega (arith, h, s.same_groups, ap (λ (l : List Bool). length l) s.same_force)))
            λ comment hc.
              let g : Group = record {
                depth = outer.depth + 1;
                indent = indent;
                pending = 0;
                want_break = comment;
                comment = comment;
              } in
              returns (record {
                valid = record {
                  sound =
                      IsSound-begin r'.buffer r'.groups r'.group_queue r'.group_stack g
                        s.valid.sound refl;
                  widths = s.valid.widths;
                };
                more_groups = omega (arith, length-append r'.groups (g ∷ []), s.same_groups);
                moved_stack = omega (arith, ap (λ (l : List ℕ). length l) s.same_stack);
                same_force = s.same_force;
              })

fresh_line-Stays :
    {F : PrinterError → Type 0} (r : Renderer) → IsValid r → Ends F (Stays r) (fresh_line r)
unfolding fresh_line
fresh_line-Stays r v =
    Ends-if (is_nil r.buffer && r.at_line_start) (λ _. returns (Stays-refl r v))
      (λ _. newline-Stays r v)

queue_remove-Stays :
    {F : PrinterError → Type 0} (id : ℕ) (r : Renderer)
    → IsValid r
    → id < length r.groups
    → Ends F (Stays r) (queue_remove id r)
queue_remove-Stays id r v h = Ends-mono (queue_remove-Leaves r.buffer id r v.sound h) λ r' l.
    record {
      valid = record {
        sound =
            subst (λ b. IsSound b r'.groups r'.group_queue r'.group_stack) (sym l.same_buffer)
              l.sound;
        widths = cc (l.same_width, l.same_buffer, v.widths);
      };
      same_groups = l.same_groups;
      same_stack = l.same_stack;
      same_force = l.same_force;
      queue_le = l.queue_le;
    }

-- The rest of `end_group`, the group taken off the stack.
close-Stays :
    {F : PrinterError → Type 0} (id : ℕ) (comment : Bool) (close : List ℕ) (r : Renderer)
    → IsValid r
    → id < length r.groups
    → Ends F (Stays r) (do
      r2 ← if comment then fresh_line r else ok r
      let close' = if comment then trim_start close else close
      g' ← at r2.groups id
      r3 ← if g'.pending == 0 then queue_remove id r2 else ok r2
      if is_nil close' then ok r3 else text close' r3)
close-Stays id comment close r v h =
    Ends-bind (Ends-if comment (λ _. fresh_line-Stays r v) (λ _. returns (Stays-refl r v))) λ r2 s2.
      let close' = if comment then trim_start close else close in
      Ends-bind (Ends-at r2.groups id (omega (arith, h, s2.same_groups))) λ g' hg.
        Ends-bind
          (Ends-if (g'.pending == 0)
            (λ _.
              Ends-mono (queue_remove-Stays id r2 s2.valid (omega (arith, h, s2.same_groups)))
                (λ r3 s3. Stays-trans r r2 r3 s2 s3))
            (λ _. returns s2))
          λ r3 s3.
            Ends-if (is_nil close') (λ _. returns s3)
              (λ _. Ends-mono (text-Stays close' r3 s3.valid) (λ r4 s4. Stays-trans r r3 r4 s3 s4))

-- The stack without its top.
popped :
    (tokens : List Token) (groups : List Group) (queue : List (List ℕ)) (stack : List ℕ)
    → IsSound tokens groups queue stack
    → (length stack ≡ 1 → ⊥)
    → IsSound tokens groups queue (drop 1 stack) × (length (drop 1 stack) + 1 ≡ length stack)
popped tokens groups queue [] v h = absurd (omega (arith, v.stack_ne))
popped tokens groups queue (id ∷ stack) v h = (
  record {
    counted = v.counted;
    leveled = v.leveled;
    tokens_in = v.tokens_in;
    queue_in = v.queue_in;
    stack_in = v.stack_in.1;
    stack_ne = ground (arith, h);
  },
  omega arith,
)

pub end_group-Moves :
    {F : PrinterError → Type 0} (close : List ℕ) (r : Renderer)
    → IsValid r
    → (length r.group_stack ≡ 1 → F unbalanced_group)
    → Ends F (Moves 0 1 r) (end_group close r)
unfolding end_group
end_group-Moves close r v h =
    Ends-if (length r.group_stack == 1) (λ e. fails (h (ground (arith, e))))
      (λ e. Ends-bind (innermost-InGroups r v) λ id hi. Ends-bind (Ends-at r.groups id hi) λ g hg.
        let (sound, moved) =
          popped r.buffer r.groups r.group_queue r.group_stack v.sound
            (λ k. absurd (ground (arith, e, k))) in
        let r1 : Renderer = record r {
          group_stack = drop 1 r.group_stack;
          indentation = as_isize (r.indentation -ℤ as_isize (pos g.indent));
        } in
        Ends-mono
          (close-Stays id g.comment close r1 (record { sound = sound; widths = v.widths }) hi)
          λ r' s. record {
            valid = s.valid;
            more_groups = omega (arith, s.same_groups);
            moved_stack = omega (arith, ap (λ (l : List ℕ). length l) s.same_stack, moved);
            same_force = s.same_force;
          })
