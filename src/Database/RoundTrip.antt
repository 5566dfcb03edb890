-- ===== src/Database/RoundTrip.antt =====
-- What hegel-c/src/native/database.rs writes, it reads back.
use hegel_rust.Base.{
  ℕ, zero, suc, ◌*◌, ◌^◌, ◌<◌, ◌≡◌, refl, ap, subst, true, false, List, [], ◌∷◌, ◌++◌, length,
  Option, some, All,
}
use hegel_rust.Base.Int.{ℤ}
use hegel_rust.Base.Options.{◌>>=◌}
use hegel_rust.BigInts.{UbigBytes, to_signed_bytes_le}
use hegel_rust.BigInts.Signed.{IsUbigBytes, from-to_signed_bytes_le}
use hegel_rust.Database.{
  ChoiceValue, ChoiceValues, integer, boolean, float, bytes, string, clone, nil, cons, count,
  to_le_bytes, string_bytes, serialize_any_integer, serialize_one_choice, serialize_each,
  serialize_choices, deserialize_any_integer, deserialize_one, choices_loop,
  deserialize_choice_list, deserialize_choices,
}
use hegel_rust.Database.Numbers.{
  length-to_le_bytes, from-to_le_bytes, take_bytes-append, take_bytes-append_of, read_u32-append,
  length-string_bytes, codepoints-string_bytes,
}
use mathlib.Core.List.{append_assoc, append-nil}

-- A chain goes on from the value of its first step.
bind_eq :
    {A B : Type 0} (m : Option A) (f : A → Option B) (a : A) (c : Option B)
    → m ≡ some a
    → f a ≡ c
    → (m >>= f) ≡ c
bind_eq m f a c h k = rw h k

module _ (big : UbigBytes) where
  -- Counts and codepoints fit 32 bits, floats 64 bits, and clones nest at most `depths` deep.
  unfoldable mutual
    pub Fits : ℕ → ChoiceValue → Type 0
    Fits depths (integer v) = length (to_signed_bytes_le big v) < 2 ^ 32
    Fits depths (boolean b) = Unit
    Fits depths (float bits) = bits < 2 ^ 64
    Fits depths (bytes v) = length v < 2 ^ 32
    Fits depths (string v) = (length v < 2 ^ 32) × All (λ cp. cp < 2 ^ 32) v
    Fits zero (clone children) = ⊥
    Fits (suc depths) (clone children) = (count children < 2 ^ 32) × FitEach depths children

    pub FitEach : ℕ → ChoiceValues → Type 0
    FitEach depths nil = Unit
    FitEach depths (cons v vs) = Fits depths v × FitEach depths vs

  module _ (lawful : IsUbigBytes big) where
    deserialize-serialize_integer :
        (v : ℤ) (s : List ℕ)
        → length (to_signed_bytes_le big v) < 2 ^ 32
        → deserialize_any_integer big (serialize_any_integer big v ++ s) ≡ some (v, s)
    unfolding deserialize_any_integer serialize_any_integer
    deserialize-serialize_integer v s h =
        bind_eq _ _ (length (to_signed_bytes_le big v), to_signed_bytes_le big v ++ s) _
          (read_u32-append (length (to_signed_bytes_le big v)) (to_signed_bytes_le big v ++ s) h)
          (bind_eq _ _ (to_signed_bytes_le big v, s) _
            (take_bytes-append (to_signed_bytes_le big v) s)
            (ap (λ w. some (w, s)) (from-to_signed_bytes_le big lawful v)))

    mutual
      unfolding Fits FitEach count serialize_one_choice serialize_each deserialize_one choices_loop
          deserialize_choice_list

      deserialize-serialize_one :
          (v : ChoiceValue) (depths : ℕ) (s : List ℕ)
          → Fits depths v
          → deserialize_one big
              (deserialize_choice_list big depths)
              (serialize_one_choice big v ++ s)
            ≡ some (v, s)
      deserialize-serialize_one (integer v) depths s h =
          bind_eq _ _ (v, s) _ (deserialize-serialize_integer v s h) refl
      deserialize-serialize_one (boolean true) depths s h =
          bind_eq _ _ (1 ∷ [], s) _ (take_bytes-append (1 ∷ []) s) refl
      deserialize-serialize_one (boolean false) depths s h =
          bind_eq _ _ (0 ∷ [], s) _ (take_bytes-append (0 ∷ []) s) refl
      deserialize-serialize_one (float bits) depths s h =
          bind_eq _ _ (to_le_bytes 8 bits, s) _
            (take_bytes-append_of 8 (to_le_bytes 8 bits) s (length-to_le_bytes 8 bits))
            (ap (λ n. some (float n, s)) (from-to_le_bytes 8 bits h))
      deserialize-serialize_one (bytes v) depths s h =
          bind_eq _ _ (length v, v ++ s) _ (read_u32-append (length v) (v ++ s) h)
            (bind_eq _ _ (v, s) _ (take_bytes-append v s) refl)
      deserialize-serialize_one (string v) depths s h =
          bind_eq _ _ (length v, string_bytes v ++ s) _
            (read_u32-append (length v) (string_bytes v ++ s) h.0)
            (bind_eq _ _ (string_bytes v, s) _
              (take_bytes-append_of (length v * 4) (string_bytes v) s (length-string_bytes v))
              (ap (λ l. some (string l, s)) (codepoints-string_bytes v h.1)))
      deserialize-serialize_one (clone children) zero s h = elim h [ ]
      deserialize-serialize_one (clone children) (suc depths) s h =
          bind_eq _ _ (children, s) _
            (bind_eq _ _ (count children, serialize_each big children ++ s) _
              (read_u32-append (count children) (serialize_each big children ++ s) h.0)
              (deserialize-serialize_each children depths s h.1))
            refl

      deserialize-serialize_each :
          (vs : ChoiceValues) (depths : ℕ) (s : List ℕ)
          → FitEach depths vs
          → choices_loop big
              (deserialize_choice_list big depths)
              (count vs)
              (serialize_each big vs ++ s)
            ≡ some (vs, s)
      deserialize-serialize_each nil depths s h = refl
      deserialize-serialize_each (cons v vs) depths s h =
          rw (append_assoc (serialize_one_choice big v) (serialize_each big vs) s) (
            bind_eq _ _ (v, serialize_each big vs ++ s) _
              (deserialize-serialize_one v depths (serialize_each big vs ++ s) h.0)
              (bind_eq _ _ (vs, s) _ (deserialize-serialize_each vs depths s h.1) refl))

    deserialize-serialize_list :
        (depths : ℕ) (choices : ChoiceValues)
        → count choices < 2 ^ 32
        → FitEach depths choices
        → deserialize_choice_list big (suc depths) (serialize_choices big choices)
          ≡ some (choices, [])
    unfolding deserialize_choice_list serialize_choices
    deserialize-serialize_list depths choices h fits =
        bind_eq _ _ (count choices, serialize_each big choices) _
          (read_u32-append (count choices) (serialize_each big choices) h)
          (subst
            (λ l.
              choices_loop big (deserialize_choice_list big depths) (count choices) l
              ≡ some (choices, []))
            (append-nil (serialize_each big choices))
            (deserialize-serialize_each choices depths [] fits))

    -- A choice sequence that is serialized and read back is itself, where counts, lengths and codepoints fit 32 bits,
    -- floats 64 bits, and clones nest at most 100 deep. Of the library of big numbers it is assumed that the bytes
    -- of a magnitude are bytes and stand for it, least significant first, and that it reads bytes as the number they
    -- stand for; the sign and the complement are those of the code.
    pub deserialize-serialize_choices :
        (choices : ChoiceValues)
        → count choices < 2 ^ 32
        → FitEach 100 choices
        → deserialize_choices big (serialize_choices big choices) ≡ some choices
    unfolding deserialize_choices
    deserialize-serialize_choices choices h fits =
        bind_eq (deserialize_choice_list big (suc 100) (serialize_choices big choices)) _
          (choices, []) _ (deserialize-serialize_list 100 choices h fits) refl
