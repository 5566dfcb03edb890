-- ===== src/Printer/Renderer/Sound.antt =====
-- The counts that the renderer of hegel-c/src/native/printer.rs keeps of its buffer, and the places of its groups.
pub mod Tokens
pub mod Dequeue
pub mod Loops
pub mod Buffer
pub mod Writes
pub mod Places
pub mod Nesting
use hegel_rust.Base.{
  ℕ, zero, suc, ◌+◌, ◌-◌, ◌≤◌, ◌<◌, ◌≡◌, ◌≢◌, refl, sym, ap, subst, inl, inr, arith, Bool, true,
  false, ◌==◌, if◌then◌else◌, List, [], ◌∷◌, ◌++◌, length, All,
}
use hegel_rust.Base.Outcomes.{Outcome, ok, at, write, ok->>=, ok_injective, ◌>>=◌}
use hegel_rust.Printer.Commands.{PrinterError, unbalanced_group}
use hegel_rust.Printer.Renderer.{
  Token, text_token, breakable_token, if_break_token, comment_token, width, Group, Renderer,
  Rendering, remove_id,
}
use hegel_rust.Printer.Renderer.Breaks.{queue_size}

-- How many break points of a group the tokens have.
unfoldable pub count : ℕ → List Token → ℕ
count g [] = 0
count g (text_token _ _ ∷ tokens) = count g tokens
count g (breakable_token _ _ _ id ∷ tokens) =
    let rest = count g tokens in if id == g then suc rest else rest
count g (if_break_token _ _ ∷ tokens) = count g tokens
count g (comment_token _ ∷ tokens) = count g tokens

unfoldable pub total_width : List Token → ℕ
unfolding width
total_width [] = 0
total_width (t ∷ tokens) = width t + total_width tokens

abbrev pub InGroups : ℕ → Token → Type 0
InGroups n (text_token _ _) = Unit
InGroups n (breakable_token _ _ _ id) = id < n
InGroups n (if_break_token _ id) = id < n
InGroups n (comment_token _) = Unit

pub record IsSound (tokens : List Token) (groups : List Group) (queue : List (List ℕ))
    (stack : List ℕ) : Type 0 where
  pub counted :
      (g : ℕ) (x : Group) → at {E = PrinterError} groups g ≡ ok x → x.pending ≡ count g tokens
  pub leveled : (g : ℕ) (x : Group) → at {E = PrinterError} groups g ≡ ok x → x.depth < length queue
  pub tokens_in : All (InGroups (length groups)) tokens
  pub queue_in : All (λ level. All (λ id. id < length groups) level) queue
  pub stack_in : All (λ id. id < length groups) stack
  pub stack_ne : 0 < length stack

pub All-at {ℓ} :
    {A : Type 0} (P : A → Type ℓ) (l : List A) (i : ℕ) (x : A)
    → All P l
    → at {E = PrinterError} l i ≡ ok x
    → P x
All-at P [] i x h e = absurd (cc e)
All-at P (y ∷ l) zero x h e = subst P (ok_injective y x e) h.0
All-at P (y ∷ l) (suc i) x h e = All-at P l i x h.1 e

pub All-write :
    {A : Type 0} (P : A → Type 0) (l : List A) (i : ℕ) (v : A) (l' : List A)
    → All P l
    → P v
    → write {E = PrinterError} l i v ≡ ok l'
    → All P l'
All-write P [] i v l' h p e = absurd (cc e)
All-write P (y ∷ l) zero v l' h p e = subst (All P) (ok_injective (v ∷ l) l' e) (p, h.1)
All-write P (y ∷ l) (suc i) v l' h p e =
    let (rest, hr, e1) = ok->>= (write l i v) _ l' e in
    subst (All P) (ok_injective (y ∷ rest) l' e1) (h.0, All-write P l i v rest h.1 p hr)

pub All-append : {A : Type 0} (P : A → Type 0) (l m : List A) → All P l → All P m → All P (l ++ m)
All-append P [] m h k = k
All-append P (x ∷ l) m h k = (h.0, All-append P l m h.1 k)

pub All-mono :
    {A : Type 0} (P Q : A → Type 0) (l : List A) → ((x : A) → P x → Q x) → All P l → All Q l
All-mono P Q [] k h = h
All-mono P Q (x ∷ l) k h = (k x h.0, All-mono P Q l k h.1)

pub queue_size-write :
    (queue : List (List ℕ)) (d : ℕ) (level level' : List ℕ) (queue' : List (List ℕ))
    → at {E = PrinterError} queue d ≡ ok level
    → write {E = PrinterError} queue d level' ≡ ok queue'
    → queue_size queue' + length level ≡ queue_size queue + length level'
unfolding queue_size
queue_size-write [] d level level' queue' h e = absurd (cc h)
queue_size-write (l ∷ queue) zero level level' queue' h e =
    subst (λ q. queue_size q + length level ≡ length l + queue_size queue + length level')
      (ok_injective (level' ∷ queue) queue' e) (omega (arith, ap length (ok_injective l level h)))
queue_size-write (l ∷ queue) (suc d) level level' queue' h e =
    let (rest, hr, e1) = ok->>= (write queue d level') _ queue' e in
    subst (λ q. queue_size q + length level ≡ length l + queue_size queue + length level')
      (ok_injective (l ∷ rest) queue' e1)
      (omega (arith, queue_size-write queue d level level' rest h hr))

pub length-remove_id : (id : ℕ) (l : List ℕ) → length (remove_id id l) ≤ length l
unfolding remove_id
length-remove_id id [] = omega arith
length-remove_id id (x ∷ l) = ground (arith, length-remove_id id l)

pub if_either :
    {A : Type 0} (P : A → Type 0) (b : Bool) (x y : A) → P x → P y → P (if b then x else y)
if_either P true x y p q = p
if_either P false x y p q = q

pub All-remove_id : (P : ℕ → Type 0) (id : ℕ) (l : List ℕ) → All P l → All P (remove_id id l)
unfolding remove_id
All-remove_id P id [] h = h
All-remove_id P id (x ∷ l) h =
    if_either (All P) (x == id) l (x ∷ remove_id id l) h.1 (h.0, All-remove_id P id l h.1)
