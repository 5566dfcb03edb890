-- ===== src/Choices/Shortlex/Positional.antt =====
-- A sequence of a given length as a number in base `base`.
use hegel_rust.Base.{
  ℕ, zero, suc, ◌+◌, ◌*◌, ◌/◌, ◌%◌, ◌^◌, ◌<◌, ◌≡◌, refl, sym, ap, ◌∙◌, arith, length, All, List, [],
  ◌∷◌, ◌++◌,
}
use hegel_rust.Base.Results.{Result, ok}
use hegel_rust.Choices.Shortlex.{position_loop, digits_loop}
use native.Mathlib.Nat.{
  pow-suc, add-mul-mod_self_left, mod-eq_of_lt, add-mul-div_left, div-eq_of_lt, zero-add,
  div-lt_iff_lt-mul, mod-lt, pow-zero, mod-add-div,
}
use mathlib.Core.List.{reverse, reverse-append, reverse-reverse}

-- What the two places of an alphabet promise each other on its members.
pub record IsAlphabet {A : Type 0} (base : ℕ) (rank : A → ℕ) (at_rank : ℕ → Result A)
    (IsMember : A → Type 0) : Type 0 where
  pub rank-lt : (a : A) → IsMember a → rank a < base
  pub at_rank-rank : (a : A) → IsMember a → at_rank (rank a) ≡ ok a
  pub element : ℕ → A
  pub element-IsMember : (r : ℕ) → r < base → IsMember (element r)
  pub at_rank-element : (r : ℕ) → r < base → at_rank r ≡ ok (element r)
  pub rank-element : (r : ℕ) → r < base → rank (element r) ≡ r

module _ {A : Type 0} (base : ℕ) (rank : A → ℕ) where
  -- The number of a sequence, least significant element first.
  abbrev pub number : List A → ℕ
  number [] = 0
  number (a ∷ l) = rank a + base * number l

  pub position_loop-append :
      (l m : List A) (p : ℕ)
      → position_loop base rank (l ++ m) p ≡ position_loop base rank m (position_loop base rank l p)
  unfolding position_loop
  position_loop-append [] m p = refl
  position_loop-append (a ∷ l) m p = position_loop-append l m (p * base + rank a)

  pub position_loop-reverse : (l : List A) → position_loop base rank (reverse l) 0 ≡ number l
  unfolding position_loop
  position_loop-reverse [] = refl
  position_loop-reverse (a ∷ l) =
      rw
        (
          reverse-append (a ∷ []) l,
          position_loop-append (reverse l) (a ∷ []) 0,
          position_loop-reverse l,
        )
        (omega arith)

  pub position_loop-number : (l : List A) → position_loop base rank l 0 ≡ number (reverse l)
  position_loop-number l =
      ap (λ m. position_loop base rank m 0) (sym (reverse-reverse l))
      ∙ position_loop-reverse (reverse l)

-- base * n + r for r < base and n < m stays below base * m.
digit_bound : (b n m r : ℕ) → r < b → n < m → r + b * n < m * b
digit_bound b n m r h k = grind arith

positive_base : (b n i : ℕ) → i < b ^ suc n → 0 < b
positive_base b n i h = grind (arith, pow-suc b n)

module _ {A : Type 0} {base : ℕ} {rank : A → ℕ} {at_rank : ℕ → Result A} {IsMember : A → Type 0}
    (alphabet : IsAlphabet base rank at_rank IsMember) where
  pub number-lt : (l : List A) → All IsMember l → number base rank l < base ^ length l
  number-lt [] h = omega (arith, pow-zero base)
  number-lt (a ∷ l) (h, hs) = rw (pow-suc base (length l)) (
      digit_bound base (number base rank l) (base ^ length l) (rank a) (alphabet.rank-lt a h)
        (number-lt l hs))

  pub digits_loop-number :
      (l : List A)
      → All IsMember l
      → digits_loop base at_rank (length l) (number base rank l) ≡ ok l
  unfolding digits_loop
  digits_loop-number [] h = refl
  digits_loop-number (a ∷ l) (h, hs) =
      let lt = alphabet.rank-lt a h in
      let positive : 0 < base = omega (arith, lt) in
      rw (
        add-mul-mod_self_left (rank a) base (number base rank l),
        mod-eq_of_lt lt,
        alphabet.at_rank-rank a h,
        add-mul-div_left (rank a) (number base rank l) positive,
        div-eq_of_lt lt,
        zero-add,
        digits_loop-number l hs,
      )

  -- Every number below `base ^ n` is the number of a sequence of `n` members.
  pub digits_loop_total :
      (n i : ℕ)
      → i < base ^ n
      → (l : List A) × (digits_loop base at_rank n i ≡ ok l)
        × All IsMember l
        × (length l ≡ n)
        × (number base rank l ≡ i)
  unfolding digits_loop
  digits_loop_total zero i h = ([], refl, tt, refl, omega (arith, pow-zero base))
  digits_loop_total (suc n) i h =
      let positive : 0 < base = positive_base base n i h in
      let r = mod-lt i positive in
      let (l, digits, members, len, num) =
        digits_loop_total n (i / base) ((div-lt_iff_lt-mul positive).1 (rw pow-suc at h)) in
      (
        alphabet.element (i % base) ∷ l,
        rw (alphabet.at_rank-element (i % base) r, digits),
        (alphabet.element-IsMember (i % base) r, members),
        omega arith,
        rw (alphabet.rank-element (i % base) r, num) (mod-add-div i base),
      )
