-- ===== src/Printer/Renderer/Sound/Places.antt =====
-- The places of the groups, the tokens and the queue (hegel-c/src/native/printer.rs) when a group begins.
use hegel_rust.Base.{
  ℕ, zero, suc, ◌+◌, ◌≤◌, ◌<◌, ◌≡◌, ◌⊎◌, refl, sym, ◌∙◌, ap, inl, inr, arith, List, [], ◌∷◌, ◌++◌,
  length, All,
}
use hegel_rust.Base.{length-append}
use hegel_rust.Base.Outcomes.{ok, at, ok_injective}
use hegel_rust.Printer.Commands.{PrinterError}
use hegel_rust.Printer.Renderer.{
  Token, text_token, breakable_token, if_break_token, comment_token, Group, Renderer,
}
use hegel_rust.Printer.Renderer.Writes.{push_level}
use hegel_rust.Printer.Renderer.Sound.{count, InGroups, IsSound, All-mono, All-append}
use hegel_rust.Printer.Renderer.Sound.Loops.{IsValid, Stays}

-- What an operation leaves that begins and ends so many groups.
pub record Moves (opened closed : ℕ) (r r' : Renderer) : Type 0 where
  pub valid : IsValid r'
  pub more_groups : length r'.groups ≡ opened + length r.groups
  pub moved_stack : length r'.group_stack + closed ≡ opened + length r.group_stack
  pub same_force : r'.force_break ≡ r.force_break

pub Stays-Moves : (r r' : Renderer) → Stays r r' → Moves 0 0 r r'
Stays-Moves r r' s = record {
  valid = s.valid;
  more_groups = omega (arith, s.same_groups);
  moved_stack = omega (arith, ap (λ (l : List ℕ). length l) s.same_stack);
  same_force = s.same_force;
}

count-InGroups : (n : ℕ) (tokens : List Token) → All (InGroups n) tokens → count n tokens ≡ 0
unfolding count
count-InGroups n [] h = refl
count-InGroups n (text_token s w ∷ tokens) h = count-InGroups n tokens h.1
count-InGroups n (breakable_token s w i id ∷ tokens) h =
    ground (arith, count-InGroups n tokens h.1, h.0)
count-InGroups n (if_break_token s id ∷ tokens) h = count-InGroups n tokens h.1
count-InGroups n (comment_token s ∷ tokens) h = count-InGroups n tokens h.1

InGroups-mono : (n m : ℕ) → n ≤ m → (t : Token) → InGroups n t → InGroups m t
InGroups-mono n m h (text_token s w) k = tt
InGroups-mono n m h (breakable_token s w i id) k = omega (arith, h, k)
InGroups-mono n m h (if_break_token s id) k = omega (arith, h, k)
InGroups-mono n m h (comment_token s) k = tt

length-push_level :
    (d id : ℕ) (queue : List (List ℕ))
    → (d < length (push_level d id queue)) × (length queue ≤ length (push_level d id queue))
unfolding push_level
length-push_level zero id [] = (omega arith, omega arith)
length-push_level zero id (level ∷ queue) = (omega arith, omega arith)
length-push_level (suc d) id [] =
    let (p, q) = length-push_level d id [] in (omega (arith, p), omega (arith, q))
length-push_level (suc d) id (level ∷ queue) =
    let (p, q) = length-push_level d id queue in (omega (arith, p), omega (arith, q))

All-push_level :
    (P : ℕ → Type 0) (d id : ℕ) (queue : List (List ℕ))
    → All (All P) queue
    → P id
    → All (All P) (push_level d id queue)
unfolding push_level
All-push_level P zero id [] h p = ((p, tt), tt)
All-push_level P zero id (level ∷ queue) h p = (All-append P level (id ∷ []) h.0 (p, tt), h.1)
All-push_level P (suc d) id [] h p = (tt, All-push_level P d id [] h p)
All-push_level P (suc d) id (level ∷ queue) h p = (h.0, All-push_level P d id queue h.1 p)

-- A place of a list that has grown by one.
pub at-append_cases :
    {A : Type 0} (l : List A) (g : A) (i : ℕ) (x : A)
    → at {E = PrinterError} (l ++ (g ∷ [])) i ≡ ok x
    → (at {E = PrinterError} l i ≡ ok x) ⊎ ((i ≡ length l) × (x ≡ g))
at-append_cases [] g zero x e = inr (refl, sym (ok_injective g x e))
at-append_cases [] g (suc i) x e = absurd (cc e)
at-append_cases (y ∷ l) g zero x e = inl e
at-append_cases (y ∷ l) g (suc i) x e = elim (at-append_cases l g i x e) [
  | inl k ↦ inl k
  | inr (p, q) ↦ inr (ap suc p, q)
]

pub IsSound-begin :
    (tokens : List Token) (groups : List Group) (queue : List (List ℕ)) (stack : List ℕ) (g : Group)
    → IsSound tokens groups queue stack
    → g.pending ≡ 0
    → IsSound tokens
        (groups ++ (g ∷ []))
        (push_level g.depth (length groups) queue)
        (length groups ∷ stack)
IsSound-begin tokens groups queue stack g v e =
    let n = length-append groups (g ∷ []) in
    let (deep, longer) = length-push_level g.depth (length groups) queue in
    record {
      counted = λ k x h. elim (at-append_cases groups g k x h) [
        | inl p ↦ v.counted k x p
        | inr (p, q) ↦
            ap (λ (y : Group). y.pending) q
            ∙ e
            ∙ sym (ap (λ i. count i tokens) p ∙ count-InGroups (length groups) tokens v.tokens_in)
      ];
      leveled = λ k x h. elim (at-append_cases groups g k x h) [
        | inl p ↦ omega (arith, v.leveled k x p, longer)
        | inr (p, q) ↦ omega (arith, ap (λ (y : Group). y.depth) q, deep)
      ];
      tokens_in =
          All-mono (InGroups (length groups)) (InGroups (length (groups ++ (g ∷ [])))) tokens
            (λ t k.
              InGroups-mono (length groups) (length (groups ++ (g ∷ []))) (omega (arith, n)) t k)
            v.tokens_in;
      queue_in =
          All-push_level (λ i. i < length (groups ++ (g ∷ []))) g.depth (length groups) queue
            (All-mono _ _ queue (λ level k. All-mono _ _ level (λ i h. omega (arith, h, n)) k)
              v.queue_in)
            (omega (arith, n));
      stack_in = (omega (arith, n), All-mono _ _ stack (λ i h. omega (arith, h, n)) v.stack_in);
      stack_ne = omega arith;
    }
