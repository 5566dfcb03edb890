-- ===== src/Printer/Document/Marks.antt =====
-- `mark_comment_groups` (hegel-c/src/native/printer.rs) on slots that nest.
use hegel_rust.Base.{
  ℕ, zero, suc, ◌+◌, ◌≤◌, ◌<◌, ◌≡◌, refl, sym, ◌∙◌, ap, subst, arith, Bool, true, false, List, [],
  ◌∷◌, ◌++◌, length, All, drop, length-append,
}
use hegel_rust.Base.Outcomes.{ok, at, write, ok->>=, ok_injective}
use hegel_rust.Base.Ends.{Ends, returns, Ends-bind, Ends-mono, Ends-at, Ends-write, length-write}
use hegel_rust.Printer.Commands.{
  PrinterError, Cmd, text, breakable, if_break, hard_break, begin_group, end_group, shift_indent,
  comment, splice, Slot, splice_ids,
}
use hegel_rust.Printer.Renderer.Sound.{All-mono}
use hegel_rust.Printer.Document.{force_all, mark_comment_groups}

-- The splices of the commands are of slots in a range.
abbrev pub SplicesIn : ℕ → ℕ → List Cmd → Type 0
SplicesIn low high cmds = All (λ id. (low ≤ id) × (id < high)) (splice_ids cmds)

-- A slot's content splices slots that were opened after it.
abbrev pub IsNested : List Slot → Type 0
IsNested slots =
    (i : ℕ) (s : Slot)
    → at {E = PrinterError} slots i ≡ ok s
    → SplicesIn (suc i) (length slots) s.commands

force_all-Ends :
    {F : PrinterError → Type 0} (stack : List ℕ) (force : List Bool)
    → All (λ id. id < length force) stack
    → Ends F (λ force'. length force' ≡ length force) (force_all stack force)
unfolding force_all
force_all-Ends [] force h = returns refl
force_all-Ends (id ∷ stack) force h = Ends-bind (Ends-write force id true h.0) λ force' e.
    let same = length-write force id true force' e in
    Ends-mono (force_all-Ends stack force' (subst (λ n. All (λ i. i < n) stack) (sym same) h.1))
      (λ f k. k ∙ same)

-- The marks: one for each group begun so far, of which the open ones are on the stack.
abbrev pub Marked : ℕ → List Bool × List ℕ → Type 0
Marked n m = (n ≤ length m.0) × All (λ id. id < length m.0) m.1

drop-All : (P : ℕ → Type 0) (l : List ℕ) → All P l → All P (drop 1 l)
drop-All P [] h = h
drop-All P (x ∷ l) h = h.1

module _ (slots : List Slot) (nested : IsNested slots) {F : PrinterError → Type 0} where
  pub mark_comment_groups-Marked :
      (depth low : ℕ) (cmds : List Cmd) (force : List Bool) (stack : List ℕ)
      → length slots ≤ low + depth
      → SplicesIn low (length slots) cmds
      → All (λ id. id < length force) stack
      → Ends F (Marked (length force)) (mark_comment_groups slots depth cmds force stack)
  unfolding mark_comment_groups splice_ids
  mark_comment_groups-Marked depth low [] force stack d h k = returns (omega arith, k)
  mark_comment_groups-Marked depth low (begin_group i o ∷ cmds) force stack d h k =
      let n = length-append force (false ∷ []) in
      Ends-mono
        (mark_comment_groups-Marked depth low cmds (force ++ (false ∷ [])) (length force ∷ stack) d
          h (omega (arith, n), All-mono _ _ stack (λ i e. omega (arith, e, n)) k))
        (λ m e. (omega (arith, n, e.0), e.1))
  mark_comment_groups-Marked depth low (end_group c ∷ cmds) force stack d h k =
      mark_comment_groups-Marked depth low cmds force (drop 1 stack) d h (drop-All _ stack k)
  mark_comment_groups-Marked depth low (comment s ∷ cmds) force stack d h k =
      Ends-bind (force_all-Ends stack force k) λ force' e.
        Ends-mono
          (mark_comment_groups-Marked depth low cmds force' stack d h
            (subst (λ n. All (λ i. i < n) stack) (sym e) k))
          (λ m p. (omega (arith, e, p.0), p.1))
  mark_comment_groups-Marked zero low (splice id ∷ cmds) force stack d h k =
      absurd (omega (arith, d, h.0.0, h.0.1))
  mark_comment_groups-Marked (suc depth) low (splice id ∷ cmds) force stack d h k =
      Ends-bind (Ends-at slots id h.0.1) λ s e.
        Ends-bind
          (mark_comment_groups-Marked depth (suc id) s.commands force stack
            (omega (arith, d, h.0.0)) (nested id s e) k)
          λ m p.
            Ends-mono (mark_comment_groups-Marked (suc depth) low cmds m.0 m.1 d h.1 p.1)
              (λ m' q. (omega (arith, p.0, q.0), q.1))
  mark_comment_groups-Marked depth low (text s ∷ cmds) force stack d h k =
      mark_comment_groups-Marked depth low cmds force stack d h k
  mark_comment_groups-Marked depth low (breakable s ∷ cmds) force stack d h k =
      mark_comment_groups-Marked depth low cmds force stack d h k
  mark_comment_groups-Marked depth low (if_break s ∷ cmds) force stack d h k =
      mark_comment_groups-Marked depth low cmds force stack d h k
  mark_comment_groups-Marked depth low (hard_break ∷ cmds) force stack d h k =
      mark_comment_groups-Marked depth low cmds force stack d h k
  mark_comment_groups-Marked depth low (shift_indent i ∷ cmds) force stack d h k =
      mark_comment_groups-Marked depth low cmds force stack d h k

pub length-force_all :
    (stack : List ℕ) (force force' : List Bool)
    → force_all stack force ≡ ok force'
    → length force' ≡ length force
unfolding force_all
length-force_all [] force force' e = ap length (sym (ok_injective force force' e))
length-force_all (id ∷ stack) force force' e =
    let (f, h, k) = ok->>= (write force id true) _ force' e in
    length-force_all stack f force' k ∙ length-write force id true f h

module _ (slots : List Slot) where
  pub length-mark_comment_groups :
      (depth : ℕ) (cmds : List Cmd) (force : List Bool) (stack : List ℕ) (m : List Bool × List ℕ)
      → mark_comment_groups slots depth cmds force stack ≡ ok m
      → length force ≤ length m.0
  unfolding mark_comment_groups
  length-mark_comment_groups depth [] force stack m e =
      omega (arith, ap (λ (k : List Bool × List ℕ). length k.0) (ok_injective (force, stack) m e))
  length-mark_comment_groups depth (begin_group i o ∷ cmds) force stack m e = omega (
    arith,
    length-append force (false ∷ []),
    length-mark_comment_groups depth cmds (force ++ (false ∷ [])) (length force ∷ stack) m e,
  )
  length-mark_comment_groups depth (end_group c ∷ cmds) force stack m e =
      length-mark_comment_groups depth cmds force (drop 1 stack) m e
  length-mark_comment_groups depth (comment s ∷ cmds) force stack m e =
      let (f, h, k) = ok->>= (force_all stack force) _ m e in
      omega
        (arith, length-force_all stack force f h, length-mark_comment_groups depth cmds f stack m k)
  length-mark_comment_groups zero (splice id ∷ cmds) force stack m e = absurd (cc e)
  length-mark_comment_groups (suc depth) (splice id ∷ cmds) force stack m e =
      let (s, h, k) = ok->>= (at slots id) _ m e in
      let (m', h', k') = ok->>= (mark_comment_groups slots depth s.commands force stack) _ m k in
      omega (
        arith,
        length-mark_comment_groups depth s.commands force stack m' h',
        length-mark_comment_groups (suc depth) cmds m'.0 m'.1 m k',
      )
  length-mark_comment_groups depth (text s ∷ cmds) force stack m e =
      length-mark_comment_groups depth cmds force stack m e
  length-mark_comment_groups depth (breakable s ∷ cmds) force stack m e =
      length-mark_comment_groups depth cmds force stack m e
  length-mark_comment_groups depth (if_break s ∷ cmds) force stack m e =
      length-mark_comment_groups depth cmds force stack m e
  length-mark_comment_groups depth (hard_break ∷ cmds) force stack m e =
      length-mark_comment_groups depth cmds force stack m e
  length-mark_comment_groups depth (shift_indent i ∷ cmds) force stack m e =
      length-mark_comment_groups depth cmds force stack m e
