-- ===== src/Base64.antt =====
-- hegel-c/src/native/base64.rs: padded base64. A byte is a number below 256 and a character its code; the
-- operands of `|` have no bit in common, so `|` is written as a sum.
pub mod RoundTrip
use Prim.Native.Char.{code}
use Prim.Native.String.{String}
use hegel_rust.Base.{
  ℕ, zero, suc, ◌+◌, ◌-◌, ◌*◌, ◌/◌, ◌%◌, ◌^◌, Bool, true, false, not, leb, ◌==◌, ◌&&◌, ◌||◌,
  if◌then◌else◌, List, [], ◌∷◌, ◌++◌, length, get_or, Option, none, some,
}
use hegel_rust.Base.Options.{◌>>=◌}

abbrev codes : String → List ℕ
codes String.[] = []
codes (String.◌∷◌ c s) = code c ∷ codes s

abbrev pub b64_alphabet : List ℕ
b64_alphabet = codes "ABCDEFGHIJKLMNOPQRSTUVWXYZabcdefghijklmnopqrstuvwxyz0123456789+/"

abbrev pub pad : ℕ
pad = b'='

-- `B64_ALPHABET[i & 0x3f]`
unfoldable pub digit : ℕ → ℕ
digit i = get_or b64_alphabet (i % 64) 0

-- `n` of a chunk of three bytes.
abbrev pub word : ℕ → ℕ → ℕ → ℕ
word b0 b1 b2 = b0 * 2 ^ 16 + b1 * 2 ^ 8 + b2

-- One clause for each length of `data.chunks(3)`.
unfoldable pub base64_encode : List ℕ → List ℕ
base64_encode [] = []
base64_encode (b0 ∷ []) =
    let n = word b0 0 0 in digit (n / 2 ^ 18) ∷ digit (n / 2 ^ 12) ∷ pad ∷ pad ∷ []
base64_encode (b0 ∷ b1 ∷ []) =
    let n = word b0 b1 0 in digit (n / 2 ^ 18) ∷ digit (n / 2 ^ 12) ∷ digit (n / 2 ^ 6) ∷ pad ∷ []
base64_encode (b0 ∷ b1 ∷ b2 ∷ data') =
    let n = word b0 b1 b2 in
    digit (n / 2 ^ 18) ∷ digit (n / 2 ^ 12) ∷ digit (n / 2 ^ 6) ∷ digit n ∷ base64_encode data'

unfoldable pub base64_value : ℕ → Option ℕ
base64_value c =
    if leb b'A' c && leb c b'Z'
    then some (c - b'A')
    else if leb b'a' c && leb c b'z'
    then some (c - b'a' + 26)
    else if leb b'0' c && leb c b'9'
    then some (c - b'0' + 52)
    else if c == b'+'
    then some 62
    else if c == b'/'
    then some 63
    else none

unfoldable pub is_nil : List ℕ → Bool
is_nil [] = true
is_nil (_ ∷ _) = false

-- The body of the loop for one chunk: the bytes that it pushes.
unfoldable pub decode_chunk : Bool → ℕ → ℕ → ℕ → ℕ → Option (List ℕ)
unfolding base64_value
decode_chunk last d0 d1 d2 d3 = do
  c0 ← base64_value d0
  c1 ← base64_value d1
  let pad2 = d2 == pad
  let pad3 = d3 == pad
  if (pad2 || pad3) && not last then none else if pad2 && not pad3 then none else (do
    c2 ← if pad2 then some 0 else base64_value d2
    c3 ← if pad3 then some 0 else base64_value d3
    let n = c0 * 2 ^ 18 + c1 * 2 ^ 12 + c2 * 2 ^ 6 + c3
    some (
        n / 2 ^ 16 % 256 ∷ (if pad2 then [] else n / 2 ^ 8 % 256 ∷ [])
        ++ (if pad3 then [] else n % 256 ∷ [])))

-- `s.chunks(4)`: a chunk is the last one when nothing follows it.
unfoldable pub decode_loop : List ℕ → Option (List ℕ)
unfolding decode_chunk is_nil
decode_loop (d0 ∷ d1 ∷ d2 ∷ d3 ∷ s) = do
  out ← decode_chunk (is_nil s) d0 d1 d2 d3
  rest ← decode_loop s
  some (out ++ rest)
decode_loop s = some []

unfoldable pub base64_decode : List ℕ → Option (List ℕ)
unfolding decode_loop
base64_decode s = if not (length s % 4 == 0) then none else decode_loop s
