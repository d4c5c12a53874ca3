-- ===== src/Ca/Base64.antt =====
-- launcher/xlpod-server/src/ca.rs, `base64_decode`: the decoder of certificates. A byte is a number
-- below 256; the buffer is a 32-bit word whose shifts are written as arithmetic.
pub mod RoundTrip
pub mod Input
use xlpod.Common.{
  ℕ, ◌+◌, ◌-◌, ◌*◌, ◌/◌, ◌%◌, ◌^◌, leb, ltb, nat_beq, Bool, true, false, ◌&&◌, ◌||◌, List, [], ◌∷◌,
  Option, none, some, if◌then◌else◌,
}

-- `TABLE`: the value of a byte below 128, `none` for its -1.
unfoldable pub table : ℕ → Option ℕ
table c =
    if leb 65 c && leb c 90
    then some (c - 65)
    else if leb 97 c && leb c 122
    then some (c - 97 + 26)
    else if leb 48 c && leb c 57
    then some (c - 48 + 52)
    else if nat_beq c 43
    then some 62
    else if nat_beq c 47
    then some 63
    else none

-- `c == b'=' || c == b'\r' || c == b'\n' || c == b' '`.
unfoldable pub is_skipped : ℕ → Bool
is_skipped c = nat_beq c 61 || nat_beq c 13 || nat_beq c 10 || nat_beq c 32

-- The value of a byte, `none` where the decoder fails.
unfoldable pub value_of : ℕ → Option ℕ
value_of c = if leb 128 c then none else table c

-- `buf = (buf << 6) | v`.
unfoldable pub shift_in : (buf v : ℕ) → ℕ
shift_in buf v = buf * 64 % 2 ^ 32 + v

-- `out.push(…)` in front of what is decoded later.
abbrev pub push : ℕ → Option (List ℕ) → Option (List ℕ)
push b none = none
push b (some out) = some (b ∷ out)

-- The loop of `decode_b64`; `none` is its error "invalid base64 char".
unfoldable pub decode_from : (buf bits : ℕ) → List ℕ → Option (List ℕ)
decode_from buf bits [] = some []
decode_from buf bits (c ∷ input) =
    let skipped = decode_from buf bits input in
    elim (value_of c) [
      | none ↦ if is_skipped c then skipped else none
      | some v ↦
          let word = shift_in buf v in
          let longer = decode_from word (bits + 6) input in
          let left = bits + 6 - 8 in
          let rest = decode_from (word % 2 ^ left) left input in
          if is_skipped c
          then skipped
          else if leb 8 (bits + 6)
          then push (word / 2 ^ left % 256) rest
          else longer
    ]

-- `decode_b64`.
unfoldable pub decode_b64 : List ℕ → Option (List ℕ)
decode_b64 input = decode_from 0 0 input

-- The letter of a value below 64, by RFC 4648.
unfoldable pub letter : ℕ → ℕ
letter v =
    if ltb v 26
    then 65 + v
    else if ltb v 52
    then 97 + (v - 26)
    else if ltb v 62
    then 48 + (v - 52)
    else if nat_beq v 62
    then 43
    else 47

-- The encoder of RFC 4648, which the decoder is measured by: three bytes give four letters, and a
-- rest of one or two bytes is padded with `=`.
unfoldable pub encode_b64 : List ℕ → List ℕ
encode_b64 [] = []
encode_b64 (a ∷ []) = letter (a / 4) ∷ letter (a % 4 * 16) ∷ 61 ∷ 61 ∷ []
encode_b64 (a ∷ b ∷ []) =
    letter (a / 4) ∷ letter (a % 4 * 16 + b / 16) ∷ letter (b % 16 * 4) ∷ 61 ∷ []
encode_b64 (a ∷ b ∷ c ∷ rest) =
    letter (a / 4)
    ∷ letter (a % 4 * 16 + b / 16)
    ∷ letter (b % 16 * 4 + c / 64)
    ∷ letter (c % 64)
    ∷ encode_b64 rest
