-- ===== src/Database/Numbers.antt =====
-- The little-endian numbers of hegel-c/src/native/database.rs, read back.
use hegel_rust.Base.{
  ℕ, zero, suc, ◌*◌, ◌/◌, ◌^◌, ◌<◌, ◌≡◌, refl, ap, subst, arith, List, [], ◌∷◌, ◌++◌, length,
  length-append, take, drop, some, All,
}
use hegel_rust.Database.{to_le_bytes, from_le_bytes, take_bytes, read_u32, string_bytes, codepoints}
use native.Mathlib.Nat.{pow-suc}

pub length-to_le_bytes : (width n : ℕ) → length (to_le_bytes width n) ≡ width
unfolding to_le_bytes
length-to_le_bytes zero n = refl
length-to_le_bytes (suc width) n = ap suc (length-to_le_bytes width (n / 256))

shifted-lt : (width n : ℕ) → n < 256 ^ suc width → n / 256 < 256 ^ width
shifted-lt width n h = omega (arith, h, pow-suc 256 width)

pub from-to_le_bytes : (width n : ℕ) → n < 256 ^ width → from_le_bytes (to_le_bytes width n) ≡ n
unfolding to_le_bytes from_le_bytes
from-to_le_bytes zero n h = omega arith
from-to_le_bytes (suc width) n h =
    omega (arith, from-to_le_bytes width (n / 256) (shifted-lt width n h))

pub take-append : {A : Type 0} (xs ys : List A) → take (length xs) (xs ++ ys) ≡ xs
take-append [] ys = refl
take-append (x ∷ xs) ys = ap (λ l. x ∷ l) (take-append xs ys)

pub drop-append : {A : Type 0} (xs ys : List A) → drop (length xs) (xs ++ ys) ≡ ys
drop-append [] ys = refl
drop-append (x ∷ xs) ys = drop-append xs ys

pub take_bytes-append : (xs ys : List ℕ) → take_bytes (length xs) (xs ++ ys) ≡ some (xs, ys)
unfolding take_bytes
take_bytes-append xs ys =
    rw (take-append xs ys, drop-append xs ys) (ground (arith, length-append xs ys))

pub take_bytes-append_of :
    (n : ℕ) (xs ys : List ℕ) → length xs ≡ n → take_bytes n (xs ++ ys) ≡ some (xs, ys)
take_bytes-append_of n xs ys h =
    subst (λ k. take_bytes k (xs ++ ys) ≡ some (xs, ys)) h (take_bytes-append xs ys)

pub read_u32-append :
    (n : ℕ) (s : List ℕ) → n < 2 ^ 32 → read_u32 (to_le_bytes 4 n ++ s) ≡ some (n, s)
unfolding read_u32
read_u32-append n s h =
    rw (take_bytes-append_of 4 (to_le_bytes 4 n) s (length-to_le_bytes 4 n))
      (ap (λ k. some (k, s)) (from-to_le_bytes 4 n h))

pub length-string_bytes : (v : List ℕ) → length (string_bytes v) ≡ length v * 4
unfolding string_bytes
length-string_bytes [] = refl
length-string_bytes (cp ∷ v) = omega (
  arith,
  length-append (to_le_bytes 4 cp) (string_bytes v),
  length-to_le_bytes 4 cp,
  length-string_bytes v,
)

cons_eq : {a b : ℕ} {l m : List ℕ} → a ≡ b → l ≡ m → a ∷ l ≡ b ∷ m
cons_eq e f = cc (e, f)

pub codepoints-string_bytes :
    (v : List ℕ) → All (λ cp. cp < 2 ^ 32) v → codepoints (length v) (string_bytes v) ≡ v
unfolding string_bytes codepoints
codepoints-string_bytes [] h = refl
codepoints-string_bytes (cp ∷ v) h =
    cons_eq (from-to_le_bytes 4 cp h.0) (codepoints-string_bytes v h.1)
