-- ===== src/Choices/Strings/Fallbacks.antt =====
-- The simplest string of an alphabet of hegel-c/src/native/core/choices.rs and its unit are strings of the
-- choice.
use hegel_rust.Base.{
  ℕ, zero, suc, ◌+◌, ◌<◌, ◌≤◌, ◌≡◌, ◌==◌, refl, ap, ◌∙◌, subst, if◌then◌else◌, arith, true, ltb,
  leb, Bool-cases, Option-cases, inl, inr, List, [], ◌∷◌, length, replicate, length-replicate, All,
  Option, none, some,
}
use hegel_rust.Base.Results.{Result, ok, internal_error, ◌>>=◌}
use hegel_rust.Choices.Bytes.{set_last}
use hegel_rust.Choices.Bytes.Index.{length-set_last}
use hegel_rust.Choices.Strings.{
  StringChoice, simplest_codepoint, key_to_codepoint, simplest, unit_from, unit, validate,
}
use hegel_rust.Choices.Strings.Alphabet.{IsWellFormed, IsMember}
use hegel_rust.Choices.Strings.Index.{parts-validate}
use hegel_rust.IntervalSet.ShrinkOrder.{char_in_shrink_order}
use hegel_rust.IntervalSet.ShrinkOrder.Bijection.{index-char_in_shrink_order}

-- The two halves of a chain that ended well.
returned :
    {A B : Type 0} (m : Result A) (f : A → Result B) (b : B)
    → (m >>= f) ≡ ok b
    → (a : A) × (m ≡ ok a) × (f a ≡ ok b)
returned (ok a) f b h = (a, refl, h)
returned internal_error f b h = absurd (cc h)

All-replicate : (P : ℕ → Type 0) (n cp : ℕ) → P cp → All P (replicate n cp)
All-replicate P zero cp h = tt
All-replicate P (suc n) cp h = (h, All-replicate P n cp h)

All-set_last : (P : ℕ → Type 0) (l : List ℕ) (cp : ℕ) → All P l → P cp → All P (set_last l cp)
All-set_last P [] cp a h = tt
All-set_last P (x ∷ []) cp a h = (h, tt)
All-set_last P (x ∷ y ∷ l) cp a h = (a.0, All-set_last P (y ∷ l) cp a.1 h)

module _ (c : StringChoice) (w : IsWellFormed c.intervals) where
  char-IsMember :
      (i cp : ℕ)
      → i < c.intervals.size
      → char_in_shrink_order c.intervals i ≡ some cp
      → IsMember c cp
  char-IsMember i cp lt h =
      let (cp', found, m, back) =
        index-char_in_shrink_order c.intervals w.valid w.pivots w.chars i lt in
      let e : cp' ≡ cp = cc (found, h) in ground (arith, m, e)

  simplest_codepoint-IsMember : (cp : ℕ) → simplest_codepoint c ≡ ok cp → IsMember c cp
  unfolding simplest_codepoint
  simplest_codepoint-IsMember cp h = elim (Bool-cases (c.intervals.size == 0)) [
    | inl e ↦ absurd (cc (rw (e, simplest_codepoint) at h))
    | inr e ↦ elim (Option-cases (char_in_shrink_order c.intervals 0)) [
      | inl f ↦ absurd (cc (rw (e, f, simplest_codepoint) at h))
      | inr (x, f) ↦
          let g : ok x ≡ ok cp = rw (e, f, simplest_codepoint) at h in
          char-IsMember 0 cp (ground arith) (cc (f, g))
    ]
  ]

  key_to_codepoint-IsMember : (key cp : ℕ) → key_to_codepoint c key ≡ ok (some cp) → IsMember c cp
  unfolding key_to_codepoint
  key_to_codepoint-IsMember key cp h = elim (Bool-cases (leb c.intervals.size key)) [
    | inl e ↦ absurd (cc (rw (e, key_to_codepoint) at h))
    | inr e ↦ elim (Option-cases (char_in_shrink_order c.intervals key)) [
      | inl f ↦ absurd (cc (rw (e, f, key_to_codepoint) at h))
      | inr (x, f) ↦
          let g : ok (some x) ≡ ok (some cp) = rw (e, f, key_to_codepoint) at h in
          char-IsMember key cp (ground arith) (cc (f, g))
    ]
  ]

  module _ (size : c.min_size ≤ c.max_size) where
    replicate-validate :
        (n cp : ℕ)
        → IsMember c cp
        → c.min_size ≤ n
        → n ≤ c.max_size
        → validate c (replicate n cp) ≡ true
    replicate-validate n cp m lo hi =
        parts-validate c w (replicate n cp) (All-replicate (IsMember c) n cp m) (
          omega (arith, length-replicate {0} {A = ℕ} n cp),
          omega (arith, length-replicate {0} {A = ℕ} n cp),
        )

    simplest-All : (v : List ℕ) → simplest c ≡ ok v → All (IsMember c) v × (length v ≡ c.min_size)
    unfolding simplest
    simplest-All v h = elim (Bool-cases (c.min_size == 0)) [
      | inl e ↦
          let g : ok [] ≡ ok v = rw (e, simplest) at h in
          let q : [] ≡ v = cc g in
          subst (λ u. All (IsMember c) u × (length u ≡ c.min_size)) q (tt, ground arith)
      | inr e ↦
          let (cp, f, k) = returned (simplest_codepoint c) _ v (rw (e, simplest) at h) in
          let q : replicate c.min_size cp ≡ v = cc k in
          subst (λ u. All (IsMember c) u × (length u ≡ c.min_size)) q
            (
              All-replicate (IsMember c) c.min_size cp (simplest_codepoint-IsMember cp f),
              length-replicate {0} {A = ℕ} c.min_size cp,
            )
    ]

    pub simplest-validate : (v : List ℕ) → simplest c ≡ ok v → validate c v ≡ true
    simplest-validate v h =
        let (a, l) = simplest-All v h in parts-validate c w v a (omega arith, omega arith)

    longer-validate :
        (cp : ℕ) (v : List ℕ)
        → IsMember c cp
        → (if ltb c.min_size c.max_size then ok (replicate (c.min_size + 1) cp) else simplest c)
          ≡ ok v
        → validate c v ≡ true
    longer-validate cp v m h = elim (Bool-cases (ltb c.min_size c.max_size)) [
      | inl e ↦
          let g : ok (replicate (c.min_size + 1) cp) ≡ ok v = rw e at h in
          let q : replicate (c.min_size + 1) cp ≡ v = cc g in
          subst (λ u. validate c u ≡ true) q
            (replicate-validate (c.min_size + 1) cp m (omega arith) (ground arith))
      | inr e ↦ simplest-validate v (rw e at h)
    ]

    -- The second branch of `unit` that has another codepoint at hand.
    other-validate :
        (cp : ℕ) (v : List ℕ)
        → IsMember c cp
        → (if ltb 0 c.min_size
            then (do u ← simplest c; ok (set_last u cp))
            else if ltb 0 c.max_size
            then ok (cp ∷ [])
            else simplest c)
          ≡ ok v
        → validate c v ≡ true
    other-validate cp v m h = elim (Bool-cases (ltb 0 c.min_size)) [
      | inl e ↦
          let (u, f, k) = returned (simplest c) _ v (rw e at h) in
          let q : set_last u cp ≡ v = cc k in
          let (a, l) = simplest-All u f in
          subst (λ x. validate c x ≡ true) q
            (parts-validate c w (set_last u cp) (All-set_last (IsMember c) u cp a m)
              (omega (arith, length-set_last u cp), omega (arith, length-set_last u cp)))
      | inr e ↦ elim (Bool-cases (ltb 0 c.max_size)) [
        | inl f ↦
            let g : ok (cp ∷ []) ≡ ok v = rw (e, f) at h in
            let q : cp ∷ [] ≡ v = cc g in
            subst (λ x. validate c x ≡ true) q
              (parts-validate c w (cp ∷ []) (m, tt) (ground arith, ground arith))
        | inr f ↦ simplest-validate v (rw (e, f) at h)
      ]
    ]

    unit_from-validate :
        (cp : ℕ) (second : Option ℕ) (v : List ℕ)
        → IsMember c cp
        → ((x : ℕ) → second ≡ some x → IsMember c x)
        → unit_from c cp second ≡ ok v
        → validate c v ≡ true
    unfolding unit_from
    unit_from-validate cp none v m k h = longer-validate cp v m h
    unit_from-validate cp (some x) v m k h = elim (Bool-cases (x == cp)) [
      | inl e ↦ longer-validate cp v m (rw e at h)
      | inr e ↦ other-validate x v (k x refl) (rw e at h)
    ]

    pub unit-validate : (v : List ℕ) → unit c ≡ ok v → validate c v ≡ true
    unfolding unit
    unit-validate v h = elim (Bool-cases (c.intervals.size == 0)) [
      | inl e ↦ simplest-validate v (rw (e, unit) at h)
      | inr e ↦
          let (cp, f, k) = returned (simplest_codepoint c) _ v (rw (e, unit) at h) in
          let (second, f2, k2) = returned (key_to_codepoint c 1) _ v k in
          unit_from-validate cp second v (simplest_codepoint-IsMember cp f)
            (λ x q. key_to_codepoint-IsMember 1 x (f2 ∙ ap ok q)) k2
    ]
