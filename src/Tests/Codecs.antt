-- ===== src/Tests/Codecs.antt =====
-- Base64 (hegel-c/src/native/base64.rs) at concrete bytes.
use hegel_rust.Base.{◌≡◌, refl, arith, [], ◌∷◌, some}
use hegel_rust.Base64.{base64_encode, base64_decode, digit}
use hegel_rust.Base64.RoundTrip.{base64_decode-encode}

-- "Man" is "TWFu", and "Ma" is "TWE=".
encode_run :
    base64_encode (77 ∷ 97 ∷ 110 ∷ 77 ∷ 97 ∷ []) ≡ 84 ∷ 87 ∷ 70 ∷ 117 ∷ 84 ∷ 87 ∷ 69 ∷ 61 ∷ []
unfolding base64_encode digit
encode_run = refl

base64_decode-encode_example :
    base64_decode (base64_encode (77 ∷ 97 ∷ 110 ∷ 255 ∷ [])) ≡ some (77 ∷ 97 ∷ 110 ∷ 255 ∷ [])
base64_decode-encode_example = base64_decode-encode (77 ∷ 97 ∷ 110 ∷ 255 ∷ []) (omega arith)
