-- ===== src/Printer/Recorder/Links.antt =====
-- The splices of a printer (hegel-c/src/native/printer.rs): each is of a slot opened before it, and a slot's own are
-- of slots opened after it. Every call keeps this.
use hegel_rust.Base.{
  ℕ, suc, ◌+◌, ◌≤◌, ◌<◌, ◌≡◌, refl, sym, subst, inl, inr, arith, ◌&&◌, List, [], ◌∷◌, ◌++◌, length,
  All, length-append,
}
use hegel_rust.Base.Int.{pos, eqb_ℤ}
use hegel_rust.Base.Outcomes.{ok, write}
use hegel_rust.Base.Ends.{
  Ends, returns, fails, Ends-bind, Ends-mono, Ends-if, Ends-list, Ends-at, Ends-write, length-write,
  at-write_cases,
}
use hegel_rust.Printer.Commands.{
  PrinterError, Target, main, slot, Cmd, text, breakable, if_break, hard_break, begin_group,
  end_group, shift_indent, comment, splice, Slot, new_slot, splice_ids,
}
use hegel_rust.Printer.Renderer.{is_nil}
use hegel_rust.Printer.Renderer.Sound.{All-mono}
use hegel_rust.Printer.Renderer.Sound.Places.{at-append_cases}
use hegel_rust.Printer.Recorder.{Printer, push_main, push_slot, dispatch, deferred}
use hegel_rust.Printer.Document.Marks.{SplicesIn}
use hegel_rust.Printer.Speculation.Visits.{IsLinkedAt, AreLinked}

pub record IsLinked (commands : List Cmd) (speculation : List (List Cmd)) (slots : List Slot)
    : Type 0 where
  pub main_in : SplicesIn 0 (length slots) commands
  pub regions_in : All (SplicesIn 0 (length slots)) speculation
  pub linked : AreLinked slots

abbrev pub Links : Printer → Type 0
Links p = IsLinked p.commands p.speculation p.slots

-- Any error may end a call; none panics.
abbrev pub AnyError : PrinterError → Type 0
AnyError e = Unit

-- The slot of a target exists, and the first slot that it may splice.
abbrev pub HasTarget : Target → Printer → Type 0
HasTarget main p = Unit
HasTarget (slot id) p = id < length p.slots

abbrev pub first_slot : Target → ℕ
first_slot main = 0
first_slot (slot id) = suc id

pub SplicesIn-append :
    (low high : ℕ) (xs ys : List Cmd)
    → SplicesIn low high xs
    → SplicesIn low high ys
    → SplicesIn low high (xs ++ ys)
unfolding splice_ids
SplicesIn-append low high [] ys p q = q
SplicesIn-append low high (text s ∷ xs) ys p q = SplicesIn-append low high xs ys p q
SplicesIn-append low high (breakable s ∷ xs) ys p q = SplicesIn-append low high xs ys p q
SplicesIn-append low high (if_break s ∷ xs) ys p q = SplicesIn-append low high xs ys p q
SplicesIn-append low high (hard_break ∷ xs) ys p q = SplicesIn-append low high xs ys p q
SplicesIn-append low high (begin_group i o ∷ xs) ys p q = SplicesIn-append low high xs ys p q
SplicesIn-append low high (end_group c ∷ xs) ys p q = SplicesIn-append low high xs ys p q
SplicesIn-append low high (shift_indent d ∷ xs) ys p q = SplicesIn-append low high xs ys p q
SplicesIn-append low high (comment s ∷ xs) ys p q = SplicesIn-append low high xs ys p q
SplicesIn-append low high (splice id ∷ xs) ys p q = (p.0, SplicesIn-append low high xs ys p.1 q)

SplicesIn-more :
    (low high high' : ℕ) (cmds : List Cmd)
    → high ≤ high'
    → SplicesIn low high cmds
    → SplicesIn low high' cmds
SplicesIn-more low high high' cmds h p =
    All-mono _ _ (splice_ids cmds) (λ id k. (k.0, omega (arith, h, k.1))) p

pub AreLinked-write :
    (slots : List Slot) (id : ℕ) (s : Slot) (slots' : List Slot)
    → AreLinked slots
    → write {E = PrinterError} slots id s ≡ ok slots'
    → IsLinkedAt (length slots) id s
    → AreLinked slots'
AreLinked-write slots id s slots' h e k i x f =
    subst (λ n. IsLinkedAt n i x) (sym (length-write slots id s slots' e))
      (elim (at-write_cases slots id i s slots' x e f) [
        | inl (p, q) ↦
            subst (λ y. IsLinkedAt (length slots) i y) (sym q)
              (subst (λ j. IsLinkedAt (length slots) j s) (sym p) k)
        | inr (p, q) ↦ h i x q
      ])

-- A write on a slot.
pub Links-write :
    (p : Printer) (id : ℕ) (s : Slot) (slots' : List Slot)
    → Links p
    → write {E = PrinterError} p.slots id s ≡ ok slots'
    → IsLinkedAt (length p.slots) id s
    → Links (record p { slots = slots' })
Links-write p id s slots' v e k =
    let same = sym (length-write p.slots id s slots' e) in
    record {
      main_in = subst (λ n. SplicesIn 0 n p.commands) same v.main_in;
      regions_in = subst (λ n. All (SplicesIn 0 n) p.speculation) same v.regions_in;
      linked = AreLinked-write p.slots id s slots' v.linked e k;
    }

pub Links-regions :
    (p : Printer) (regions : List (List Cmd))
    → Links p
    → All (SplicesIn 0 (length p.slots)) regions
    → Links (record p { speculation = regions })
Links-regions p regions v h = record { main_in = v.main_in; regions_in = h; linked = v.linked }

pub Links-commands :
    (p : Printer) (cmds : List Cmd)
    → Links p
    → SplicesIn 0 (length p.slots) cmds
    → IsLinked (p.commands ++ cmds) p.speculation p.slots
Links-commands p cmds v h = record {
  main_in = SplicesIn-append 0 (length p.slots) p.commands cmds v.main_in h;
  regions_in = v.regions_in;
  linked = v.linked;
}

push_main-Links :
    (cmd : Cmd) (p : Printer)
    → SplicesIn 0 (length p.slots) (cmd ∷ [])
    → Links p
    → Ends AnyError (λ p'. Links p' × (p'.slots ≡ p.slots)) (push_main cmd p)
unfolding push_main
push_main-Links (text s) p h v = returns (Links-commands p (text s ∷ []) v h, refl)
push_main-Links (breakable s) p h v = returns (Links-commands p (breakable s ∷ []) v h, refl)
push_main-Links (if_break s) p h v = returns (Links-commands p (if_break s ∷ []) v h, refl)
push_main-Links hard_break p h v = returns (Links-commands p (hard_break ∷ []) v h, refl)
push_main-Links (begin_group i o) p h v =
    returns (Links-commands p (begin_group i o ∷ []) v h, refl)
push_main-Links (end_group c) p h v =
    Ends-if (is_nil p.slots && eqb_ℤ p.open_groups (pos 0)) (λ _. fails tt)
      (λ _. returns (Links-commands p (end_group c ∷ []) v h, refl))
push_main-Links (shift_indent d) p h v = returns (Links-commands p (shift_indent d ∷ []) v h, refl)
push_main-Links (comment s) p h v = returns (Links-commands p (comment s ∷ []) v h, refl)
push_main-Links (splice id) p h v = returns (Links-commands p (splice id ∷ []) v h, refl)

push_slot-IsLinkedAt :
    (cmd : Cmd) (s : Slot) (n i : ℕ)
    → SplicesIn (suc i) n (cmd ∷ [])
    → IsLinkedAt n i s
    → IsLinkedAt n i (push_slot cmd s)
unfolding push_slot
push_slot-IsLinkedAt cmd s n i h v = pushed s.speculation v.1
  where
    pushed :
        (l : List (List Cmd))
        → All (SplicesIn (suc i) n) l
        → IsLinkedAt n i (elim l [
          | [] ↦ record s { commands = s.commands ++ (cmd ∷ []) }
          | buf ∷ outer ↦ record s { speculation = (buf ++ (cmd ∷ [])) ∷ outer }
        ])
    pushed [] k = (SplicesIn-append (suc i) n s.commands (cmd ∷ []) v.0 h, v.1)
    pushed (buf ∷ outer) k = (v.0, (SplicesIn-append (suc i) n buf (cmd ∷ []) k.0 h, k.1))

pub dispatch-Links :
    (target : Target) (cmd : Cmd) (p : Printer)
    → HasTarget target p
    → SplicesIn (first_slot target) (length p.slots) (cmd ∷ [])
    → Links p
    → Ends AnyError Links (dispatch target cmd p)
unfolding dispatch
dispatch-Links main cmd p t h v =
    Ends-if p.sealed (λ _. fails tt)
      (λ _.
        Ends-list p.speculation _ _ (λ e. Ends-mono (push_main-Links cmd p h v) (λ p' k. k.0))
          (λ buf outer e.
            let k = subst (All (SplicesIn 0 (length p.slots))) e v.regions_in in
            returns (
              Links-regions p ((buf ++ (cmd ∷ [])) ∷ outer) v
                (SplicesIn-append 0 (length p.slots) buf (cmd ∷ []) k.0 h, k.1))))
dispatch-Links (slot id) cmd p t h v =
    Ends-if p.sealed (λ _. fails tt)
      (λ _. Ends-bind (Ends-at p.slots id t) λ s e.
        Ends-if s.dead (λ _. fails tt)
          (λ _. Ends-bind (Ends-write p.slots id (push_slot cmd s) t) λ slots' w. returns (
            Links-write p id (push_slot cmd s) slots' v w
              (push_slot-IsLinkedAt cmd s (length p.slots) id h (v.linked id s e)))))

-- A slot more.
Links-grown : (p : Printer) → Links p → Links (record p { slots = p.slots ++ (new_slot ∷ []) })
unfolding splice_ids
Links-grown p v =
    let n = length-append p.slots (new_slot ∷ []) in
    let more = length p.slots + 1 in
    record {
      main_in = SplicesIn-more 0 (length p.slots) _ p.commands (omega (arith, n)) v.main_in;
      regions_in =
          All-mono _ _ p.speculation
            (λ cmds k. SplicesIn-more 0 (length p.slots) _ cmds (omega (arith, n)) k) v.regions_in;
      linked = λ i s e. elim (at-append_cases p.slots new_slot i s e) [
        | inl f ↦
            let (a, b) = v.linked i s f in
            (
              SplicesIn-more (suc i) (length p.slots) _ s.commands (omega (arith, n)) a,
              All-mono _ _ s.speculation
                  (λ cmds k. SplicesIn-more (suc i) (length p.slots) _ cmds (omega (arith, n)) k) b,
            )
        | inr (f, g) ↦ subst (IsLinkedAt (length (p.slots ++ (new_slot ∷ []))) i) (sym g) (tt, tt)
      ];
    }

pub deferred-Links :
    (target : Target) (p : Printer)
    → HasTarget target p
    → Links p
    → Ends AnyError (λ r. Links r.0) (deferred target p)
unfolding deferred splice_ids
deferred-Links main p t v =
    Ends-if p.sealed (λ _. fails tt)
      (λ _.
        Ends-bind
          (dispatch-Links main (splice (length p.slots))
            (record p { slots = p.slots ++ (new_slot ∷ []) }) tt
            ((omega arith, omega (arith, length-append p.slots (new_slot ∷ []))), tt)
            (Links-grown p v))
          λ p' k. returns k)
deferred-Links (slot id) p t v =
    Ends-if p.sealed (λ _. fails tt)
      (λ _. Ends-bind (Ends-at p.slots id t) λ s e.
        Ends-if s.dead (λ _. fails tt)
          (λ _.
            let n = length-append p.slots (new_slot ∷ []) in
            Ends-bind
              (dispatch-Links (slot id) (splice (length p.slots))
                (record p { slots = p.slots ++ (new_slot ∷ []) }) (omega (arith, n, t))
                ((omega (arith, t), omega (arith, n)), tt) (Links-grown p v))
              λ p' k. returns k))
