-- ===== src/Choices/Shortlex/Order.antt =====
-- The indices follow the shortlex order: by length, then element by element.
use hegel_rust.Base.{
  ℕ, ◌+◌, ◌*◌, ◌^◌, ◌≤◌, ◌<◌, ◌≡◌, ◌⊎◌, inl, inr, arith, List, [], ◌∷◌, length, All,
}
use hegel_rust.Base.Results.{Result}
use hegel_rust.Choices.Shortlex.{position_loop, to_index}
use hegel_rust.Choices.Shortlex.Positional.{IsAlphabet}
use hegel_rust.Choices.Shortlex.RoundTrip.{to_index_shorter}

module _ {A : Type 0} (rank : A → ℕ) where
  abbrev pub LexLt : List A → List A → Type 0
  LexLt [] w = ⊥
  LexLt (x ∷ v) [] = ⊥
  LexLt (x ∷ v) (y ∷ w) = (rank x < rank y) ⊎ ((rank x ≡ rank y) × LexLt v w)

  abbrev pub ShortlexLt : List A → List A → Type 0
  ShortlexLt v w = (length v < length w) ⊎ ((length v ≡ length w) × LexLt v w)

digit_mono : (b p q r s : ℕ) → r < b → p < q → p * b + r < q * b + s
digit_mono b p q r s h k = grind arith

module _ {A : Type 0} {base : ℕ} {rank : A → ℕ} {at_rank : ℕ → Result A} {IsMember : A → Type 0}
    (alphabet : IsAlphabet base rank at_rank IsMember) where
  position_loop_mono :
      (v w : List A) (p q : ℕ)
      → All IsMember v
      → length v ≡ length w
      → p < q
      → position_loop base rank v p < position_loop base rank w q
  unfolding position_loop
  position_loop_mono [] [] p q h e lt = lt
  position_loop_mono [] (y ∷ w) p q h e lt = absurd (omega arith)
  position_loop_mono (x ∷ v) [] p q h e lt = absurd (omega arith)
  position_loop_mono (x ∷ v) (y ∷ w) p q (h, hs) e lt =
      position_loop_mono v w _ _ hs (omega arith)
        (digit_mono base p q (rank x) (rank y) (alphabet.rank-lt x h) lt)

  position_loop_lex :
      (v w : List A) (p : ℕ)
      → All IsMember v
      → length v ≡ length w
      → LexLt rank v w
      → position_loop base rank v p < position_loop base rank w p
  unfolding position_loop
  position_loop_lex [] w p h e lt = absurd lt
  position_loop_lex (x ∷ v) [] p h e lt = absurd lt
  position_loop_lex (x ∷ v) (y ∷ w) p (h, hs) e (inl lt) =
      position_loop_mono v w _ _ hs (omega arith) (omega arith)
  position_loop_lex (x ∷ v) (y ∷ w) p (h, hs) e (inr (eq, lt)) =
      rw eq (position_loop_lex v w _ hs (omega arith) lt)

  pub to_index_shortlex :
      (min_size : ℕ) (v w : List A)
      → All IsMember v
      → min_size ≤ length v
      → ShortlexLt rank v w
      → length w < 2 ^ 32
      → to_index base rank min_size v < to_index base rank min_size w
  to_index_shortlex min_size v w h lo (inl lt) fits =
      to_index_shorter alphabet min_size (length w) v w h lo lt fits
  to_index_shortlex min_size v w h lo (inr (e, lt)) fits =
      unfold to_index in rw e (omega (arith, position_loop_lex v w 0 h e lt))
