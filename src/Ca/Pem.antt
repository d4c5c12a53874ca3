-- ===== src/Ca/Pem.antt =====
-- launcher/xlpod-server/src/ca.rs, `pem_to_der` and `sha1_hex`.
pub mod RoundTrip
use Prim.Native.String
use xlpod.Common.{
  ℕ, ◌+◌, ◌/◌, ◌%◌, ltb, Bool, true, false, String, List, [], ◌∷◌, ◌++◌, Option, none, some,
  if◌then◌else◌,
}
use xlpod.Common.Unicode.{starts_with, as_bytes, trim, lines}
use xlpod.Ca.Base64.{decode_b64}

-- The loop of `pem_to_der` over the lines.
unfoldable pub pem_body : (in_block : Bool) → List String → List ℕ
pem_body in_block [] = []
pem_body in_block (line ∷ more) =
    let begun = pem_body true more in
    let rest = pem_body in_block more in
    if starts_with line "-----BEGIN"
    then begun
    else if starts_with line "-----END"
    then []
    else if in_block
    then as_bytes (trim line) ++ rest
    else rest

-- `pem_to_der`; `none` is its error, of the kind `InvalidData` with the decoder's text.
unfoldable pub pem_to_der : String → Option (List ℕ)
pem_to_der pem = decode_b64 (pem_body false (lines pem))

-- `format!("{b:02X}")`: two hexadecimal digits.
abbrev pub hex_digit : ℕ → ℕ
hex_digit d = if ltb d 10 then 48 + d else 55 + d

unfoldable pub hex : List ℕ → List ℕ
hex [] = []
hex (b ∷ bytes) = hex_digit (b / 16) ∷ hex_digit (b % 16) ∷ hex bytes

-- `sha1_hex`, with the digest of the package `sha1`; a text of ASCII digits as its bytes.
unfoldable pub sha1_hex : (List ℕ → List ℕ) → List ℕ → List ℕ
sha1_hex digest der = hex (digest der)
