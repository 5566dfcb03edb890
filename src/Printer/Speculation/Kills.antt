-- ===== src/Printer/Speculation/Kills.antt =====
-- `kill_splices` (hegel-c/src/native/printer.rs) on slots that nest: it ends, and changes no content.
use mathlib.Core.List.{reverse}
use hegel_rust.Base.{
  ℕ, zero, suc, ◌≤◌, ◌<◌, ◌≡◌, refl, sym, ◌∙◌, ap, subst, inl, inr, arith, true, List, [], ◌∷◌,
  ◌++◌, length, All,
}
use hegel_rust.Base.Outcomes.{ok, at, write}
use hegel_rust.Base.Ends.{
  Ends, returns, Ends-bind, Ends-at, Ends-write, length-write, at-write_cases,
}
use hegel_rust.Printer.Commands.{PrinterError, Cmd, Slot, splice_ids}
use hegel_rust.Printer.Recorder.{Printer}
use hegel_rust.Printer.Renderer.Sound.{All-append, All-mono}
use hegel_rust.Printer.Document.Marks.{SplicesIn}
use hegel_rust.Printer.Speculation.{region_ids, content_ids, visits, kill_loop, kill_splices}
use hegel_rust.Printer.Speculation.Visits.{
  All-reverse, AreLinked, at_some, content_ids-IsLinked, visits-append, visits_next,
}

-- Slots that differ only in whether they are dead.
pub record SameContents (slots slots' : List Slot) : Type 0 where
  pub same_length : length slots' ≡ length slots
  pub same_contents :
      (i : ℕ) (s' : Slot)
      → at {E = PrinterError} slots' i ≡ ok s'
      → (s : Slot) × (at {E = PrinterError} slots i ≡ ok s)
        × (s'.commands ≡ s.commands)
        × (s'.speculation ≡ s.speculation)

SameContents-refl : (slots : List Slot) → SameContents slots slots
SameContents-refl slots = record { same_length = refl; same_contents = λ i s e. (s, e, refl, refl) }

SameContents-write :
    (slots slots' : List Slot) (id : ℕ) (s : Slot) (slots'' : List Slot)
    → SameContents slots slots'
    → at {E = PrinterError} slots' id ≡ ok s
    → write {E = PrinterError} slots' id (record s { dead = true }) ≡ ok slots''
    → SameContents slots slots''
SameContents-write slots slots' id s slots'' v e w = record {
  same_length =
      omega (arith, length-write slots' id (record s { dead = true }) slots'' w, v.same_length);
  same_contents = λ i s' e'. elim (at-write_cases slots' id i _ slots'' s' w e') [
    | inl (p, q) ↦
        let (t, f, c, d) = v.same_contents id s e in
        (
          t,
          subst (λ j. at {E = PrinterError} slots j ≡ ok t) (sym p) f,
          ap (λ (x : Slot). x.commands) q ∙ c,
          ap (λ (x : Slot). x.speculation) q ∙ d,
        )
    | inr (p, q) ↦ v.same_contents i s' q
  ];
}

pub SameContents-AreLinked :
    (slots slots' : List Slot) → SameContents slots slots' → AreLinked slots → AreLinked slots'
SameContents-AreLinked slots slots' v h i s' e =
    let (s, e', c, d) = v.same_contents i s' e in
    let (p, q) = h i s e' in
    let n = sym v.same_length in
    (
      subst (λ k. SplicesIn (suc i) k s'.commands) n
          (subst (SplicesIn (suc i) (length slots)) (sym c) p),
      subst (λ k. All (SplicesIn (suc i) k) s'.speculation) n
          (subst (All (SplicesIn (suc i) (length slots))) (sym d) q),
    )

content_ids-same :
    (s s' : Slot)
    → s'.commands ≡ s.commands
    → s'.speculation ≡ s.speculation
    → content_ids s' ≡ content_ids s
unfolding content_ids
content_ids-same s s' c d =
    ap (λ cmds. reverse (splice_ids cmds ++ region_ids (reverse s'.speculation))) c
    ∙ ap (λ regions. reverse (splice_ids s.commands ++ region_ids (reverse regions))) d

module _ (slots : List Slot) (linked : AreLinked slots) {F : PrinterError → Type 0} where
  kill_loop-SameContents :
      (rounds : ℕ) (work : List ℕ) (slots' : List Slot)
      → SameContents slots slots'
      → All (λ id. id < length slots) work
      → visits slots (length slots) work ≤ rounds
      → Ends F (SameContents slots) (kill_loop rounds work slots')
  unfolding kill_loop
  kill_loop-SameContents rounds [] slots' v h r = returns v
  kill_loop-SameContents zero (id ∷ work) slots' v h r =
      let (s, e) = at_some slots id h.0 in
      absurd (omega (arith, r, visits_next slots linked (length slots) id s work (omega arith) e))
  kill_loop-SameContents (suc rounds) (id ∷ work) slots' v h r =
      Ends-bind (Ends-at slots' id (omega (arith, h.0, v.same_length))) λ s' e'.
        Ends-bind
          (Ends-write slots' id (record s' { dead = true }) (omega (arith, h.0, v.same_length)))
          λ slots'' w.
            let (s, e, c, d) = v.same_contents id s' e' in
            let same = content_ids-same s s' c d in
            let inside =
              All-mono (λ i. (suc id ≤ i) × (i < length slots)) (λ i. i < length slots)
                (content_ids s) (λ i k. k.1)
                (content_ids-IsLinked (length slots) id s (linked id s e)) in
            subst (λ ids. Ends F (SameContents slots) (kill_loop rounds (ids ++ work) slots''))
              (sym same)
              (kill_loop-SameContents rounds (content_ids s ++ work) slots''
                (SameContents-write slots slots' id s' slots'' v e' w)
                (All-append _ (content_ids s) work inside h.1)
                (omega (
                  arith,
                  r,
                  visits_next slots linked (length slots) id s work (omega arith) e,
                  visits-append slots (length slots) (content_ids s) work inside,
                )))

-- What `kill_splices` leaves: a printer whose slots differ only in whether they are dead.
pub record IsKilled (p p' : Printer) : Type 0 where
  pub slots : SameContents p.slots p'.slots
  pub rest : p' ≡ record p { slots = p'.slots }

-- On slots that nest, the worklist of `kill_splices` ends within the rounds that it is given, with no panic, and
-- changes nothing but which slots are dead.
pub kill_splices-IsKilled :
    {F : PrinterError → Type 0} (cmds : List Cmd) (p : Printer)
    → AreLinked p.slots
    → SplicesIn 0 (length p.slots) cmds
    → Ends F (IsKilled p) (kill_splices cmds p)
unfolding kill_splices
kill_splices-IsKilled cmds p linked h =
    Ends-bind
      (kill_loop-SameContents p.slots linked _ (reverse (splice_ids cmds)) p.slots
        (SameContents-refl p.slots)
        (All-mono (λ i. (0 ≤ i) × (i < length p.slots)) (λ i. i < length p.slots) _ (λ i k. k.1)
          (All-reverse _ (splice_ids cmds) h))
        (omega arith))
      λ slots v. returns (record { slots = v; rest = refl })
