-- ===== src/Printer/Speculation/Visits.antt =====
-- How many slots the worklist of `kill_splices` takes (hegel-c/src/native/printer.rs).
use mathlib.Core.List.{reverse, reverse-cons}
use hegel_rust.Base.{
  ℕ, zero, suc, ◌+◌, ◌≤◌, ◌<◌, ◌≡◌, refl, sym, ap, subst, arith, List, [], ◌∷◌, ◌++◌, length, All,
}
use hegel_rust.Base.Outcomes.{Outcome, ok, err, panic, at}
use hegel_rust.Base.Ends.{at-lt}
use hegel_rust.Printer.Commands.{PrinterError, Cmd, Slot, splice_ids}
use hegel_rust.Printer.Renderer.Sound.{All-append}
use hegel_rust.Printer.Document.Marks.{SplicesIn}
use hegel_rust.Printer.Speculation.{region_ids, content_ids, visits}

-- A slot whose content, and whose regions, splice slots that were opened after it.
abbrev pub IsLinkedAt : ℕ → ℕ → Slot → Type 0
IsLinkedAt n i s = SplicesIn (suc i) n s.commands × All (SplicesIn (suc i) n) s.speculation

abbrev pub AreLinked : List Slot → Type 0
AreLinked slots =
    (i : ℕ) (s : Slot) → at {E = PrinterError} slots i ≡ ok s → IsLinkedAt (length slots) i s

pub All-reverse : {A : Type 0} (P : A → Type 0) (l : List A) → All P l → All P (reverse l)
All-reverse P [] h = tt
All-reverse P (x ∷ l) h =
    subst (All P) (sym (reverse-cons x l))
      (All-append P (reverse l) (x ∷ []) (All-reverse P l h.1) (h.0, tt))

All-region_ids :
    (P : ℕ → Type 0) (regions : List (List Cmd))
    → All (λ cmds. All P (splice_ids cmds)) regions
    → All P (region_ids regions)
unfolding region_ids
All-region_ids P [] h = tt
All-region_ids P (buf ∷ regions) h =
    All-append P (splice_ids buf) (region_ids regions) h.0 (All-region_ids P regions h.1)

pub content_ids-IsLinked :
    (n i : ℕ) (s : Slot) → IsLinkedAt n i s → All (λ id. (suc i ≤ id) × (id < n)) (content_ids s)
unfolding content_ids
content_ids-IsLinked n i s h =
    All-reverse _ (splice_ids s.commands ++ region_ids (reverse s.speculation)) (
      All-append _ (splice_ids s.commands) (region_ids (reverse s.speculation)) h.0
        (All-region_ids _ (reverse s.speculation) (All-reverse _ s.speculation h.1)))

pub at_some :
    (slots : List Slot) (id : ℕ)
    → id < length slots
    → (s : Slot) × (at {E = PrinterError} slots id ≡ ok s)
at_some [] id h = absurd (omega (arith, h))
at_some (s ∷ slots) zero h = (s, refl)
at_some (s ∷ slots) (suc id) h = at_some slots id (omega (arith, h))

module _ (slots : List Slot) where
  visits-cons :
      (depth id : ℕ) (s : Slot) (work : List ℕ)
      → at {E = PrinterError} slots id ≡ ok s
      → visits slots (suc depth) (id ∷ work)
        ≡ suc (visits slots depth (content_ids s) + visits slots (suc depth) work)
  unfolding visits
  visits-cons depth id s work e =
      ap
        (λ (o : Outcome PrinterError Slot). elim o [
          | ok t ↦ suc (visits slots depth (content_ids t) + visits slots (suc depth) work)
          | err _ ↦ visits slots (suc depth) work
          | panic ↦ visits slots (suc depth) work
        ])
        e

  visits-zero : (work : List ℕ) → visits slots 0 work ≡ 0
  unfolding visits
  visits-zero [] = refl
  visits-zero (id ∷ work) = refl

  pub visits-append :
      (depth : ℕ) (xs ys : List ℕ)
      → All (λ id. id < length slots) xs
      → visits slots depth (xs ++ ys) ≡ visits slots depth xs + visits slots depth ys
  unfolding visits
  visits-append zero [] ys h = omega arith
  visits-append (suc depth) [] ys h = omega arith
  visits-append zero (id ∷ xs) ys h = omega (arith, visits-zero ys)
  visits-append (suc depth) (id ∷ xs) ys h =
      let (s, e) = at_some slots id h.0 in
      omega (
        arith,
        visits-cons depth id s (xs ++ ys) e,
        visits-cons depth id s xs e,
        visits-append (suc depth) xs ys h.1,
      )

  module _ (linked : AreLinked slots) where
    -- Enough depth is as good as more.
    visits_stable :
        (depth low : ℕ) (work : List ℕ)
        → length slots ≤ low + depth
        → All (λ id. (low ≤ id) × (id < length slots)) work
        → visits slots depth work ≡ visits slots (suc depth) work
    unfolding visits
    visits_stable zero low [] d h = refl
    visits_stable zero low (id ∷ work) d h = absurd (omega (arith, d, h.0.0, h.0.1))
    visits_stable (suc depth) low [] d h = refl
    visits_stable (suc depth) low (id ∷ work) d h =
        let (s, e) = at_some slots id h.0.1 in
        omega (
          arith,
          visits-cons depth id s work e,
          visits-cons (suc depth) id s work e,
          visits_stable depth (suc id) (content_ids s) (omega (arith, d, h.0.0))
              (content_ids-IsLinked (length slots) id s (linked id s e)),
          visits_stable (suc depth) low work d h.1,
        )

    pub visits_next :
        (n id : ℕ) (s : Slot) (work : List ℕ)
        → length slots ≤ n
        → at {E = PrinterError} slots id ≡ ok s
        → visits slots n (id ∷ work) ≡ suc (visits slots n (content_ids s) + visits slots n work)
    visits_next zero id s work d e = absurd (omega (arith, d, at-lt slots id s e))
    visits_next (suc n) id s work d e = omega (
      arith,
      visits-cons n id s work e,
      visits_stable n (suc id) (content_ids s) (omega (arith, d))
          (content_ids-IsLinked (length slots) id s (linked id s e)),
    )
