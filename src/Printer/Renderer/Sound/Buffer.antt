-- ===== src/Printer/Renderer/Sound/Buffer.antt =====
-- What a push on the buffer of the renderer (hegel-c/src/native/printer.rs) does to its counts.
use hegel_rust.Base.{ℕ, ◌+◌, ◌≡◌, refl, sym, ◌∙◌, arith, List, [], ◌∷◌, ◌++◌, length, All}
use hegel_rust.Base.{length-append}
use hegel_rust.Printer.Renderer.{
  Token, text_token, breakable_token, if_break_token, comment_token, width, Group,
}
use hegel_rust.Printer.Renderer.Writes.{append_text, push_text}
use hegel_rust.Printer.Renderer.Sound.{count, total_width, InGroups, IsSound}

pub count-append :
    (g : ℕ) (tokens tokens' : List Token)
    → count g (tokens ++ tokens') ≡ count g tokens + count g tokens'
unfolding count
count-append g [] tokens' = omega arith
count-append g (text_token s w ∷ tokens) tokens' = count-append g tokens tokens'
count-append g (breakable_token s w i id ∷ tokens) tokens' =
    ground (arith, count-append g tokens tokens')
count-append g (if_break_token s id ∷ tokens) tokens' = count-append g tokens tokens'
count-append g (comment_token s ∷ tokens) tokens' = count-append g tokens tokens'

pub total_width-append :
    (tokens tokens' : List Token)
    → total_width (tokens ++ tokens') ≡ total_width tokens + total_width tokens'
unfolding total_width
total_width-append [] tokens' = omega arith
total_width-append (t ∷ tokens) tokens' = omega (arith, total_width-append tokens tokens')

count-push_text :
    (g : ℕ) (s : List ℕ) (tokens : List Token) → count g (push_text s tokens) ≡ count g tokens
unfolding count push_text append_text
count-push_text g s [] = refl
count-push_text g s (text_token c w ∷ []) = refl
count-push_text g s (breakable_token c w i id ∷ []) = refl
count-push_text g s (if_break_token c id ∷ []) = refl
count-push_text g s (comment_token c ∷ []) = refl
count-push_text g s (text_token c w ∷ u ∷ tokens) = count-push_text g s (u ∷ tokens)
count-push_text g s (breakable_token c w i id ∷ u ∷ tokens) =
    ground (arith, count-push_text g s (u ∷ tokens))
count-push_text g s (if_break_token c id ∷ u ∷ tokens) = count-push_text g s (u ∷ tokens)
count-push_text g s (comment_token c ∷ u ∷ tokens) = count-push_text g s (u ∷ tokens)

pub total_width-push_text :
    (s : List ℕ) (tokens : List Token)
    → total_width (push_text s tokens) ≡ total_width tokens + length s
unfolding total_width push_text append_text width
total_width-push_text s [] = omega arith
total_width-push_text s (text_token c w ∷ []) = omega (arith, length-append c s)
total_width-push_text s (breakable_token c w i id ∷ []) = omega arith
total_width-push_text s (if_break_token c id ∷ []) = omega arith
total_width-push_text s (comment_token c ∷ []) = omega arith
total_width-push_text s (t ∷ u ∷ tokens) = omega (arith, total_width-push_text s (u ∷ tokens))

All-push_text :
    (n : ℕ) (s : List ℕ) (tokens : List Token)
    → All (InGroups n) tokens
    → All (InGroups n) (push_text s tokens)
unfolding push_text append_text
All-push_text n s [] h = (tt, tt)
All-push_text n s (text_token c w ∷ []) h = (tt, tt)
All-push_text n s (breakable_token c w i id ∷ []) h = (h.0, (tt, tt))
All-push_text n s (if_break_token c id ∷ []) h = (h.0, (tt, tt))
All-push_text n s (comment_token c ∷ []) h = (tt, (tt, tt))
All-push_text n s (t ∷ u ∷ tokens) h = (h.0, All-push_text n s (u ∷ tokens) h.1)

-- Other tokens with the same break points.
module _ (groups : List Group) (queue : List (List ℕ)) (stack : List ℕ) where
  pub IsSound-tokens :
      (tokens tokens' : List Token)
      → IsSound tokens groups queue stack
      → ((g : ℕ) → count g tokens' ≡ count g tokens)
      → All (InGroups (length groups)) tokens'
      → IsSound tokens' groups queue stack
  IsSound-tokens tokens tokens' v e h = record {
    counted = λ g x k. v.counted g x k ∙ sym (e g);
    leveled = v.leveled;
    tokens_in = h;
    queue_in = v.queue_in;
    stack_in = v.stack_in;
    stack_ne = v.stack_ne;
  }

  pub push_text-IsSound :
      (s : List ℕ) (tokens : List Token)
      → IsSound tokens groups queue stack
      → IsSound (push_text s tokens) groups queue stack
  push_text-IsSound s tokens v =
      IsSound-tokens tokens (push_text s tokens) v (λ g. count-push_text g s tokens)
        (All-push_text (length groups) s tokens v.tokens_in)
