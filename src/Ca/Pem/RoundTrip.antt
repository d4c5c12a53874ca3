-- ===== src/Ca/Pem/RoundTrip.antt =====
-- Reading back a certificate in PEM form with `pem_to_der` of launcher/xlpod-server/src/ca.rs.
use Prim.Native.Char.{code}
use Prim.Native.String.{[] as empty, ◌∷◌ as chr}
use xlpod.Common.{
  ℕ, ◌<◌, ◌≤◌, ◌≡◌, refl, ap, ◌⊎◌, true, false, String, List, [], ◌∷◌, ◌++◌, All, some, arith,
}
use xlpod.Common.Unicode.{
  in_front, utf8, as_bytes, is_whitespace, trim_start, trim_end, trim, lines, starts_with,
}
use xlpod.Ca.Base64.{encode_b64}
use xlpod.Ca.Base64.RoundTrip.{IsByte}
use xlpod.Ca.Base64.Input.{letters, decode_b64-of_letters}
use xlpod.Ca.Pem.{pem_body, pem_to_der}

-- A character of base64, the padding included.
abbrev pub IsLetter : ℕ → Type 0
IsLetter n =
    (47 ≤ n) × (n ≤ 57) ⊎ ((65 ≤ n) × (n ≤ 90) ⊎ ((97 ≤ n) × (n ≤ 122) ⊎ ((n ≡ 43) ⊎ (n ≡ 61))))

-- A row of characters of base64.
abbrev pub IsRow : String → Type 0
IsRow empty = Unit
IsRow (chr c s) = IsLetter (code c) × IsRow s

-- The codes of the characters of a row.
abbrev pub codes : String → List ℕ
codes empty = []
codes (chr c s) = code c ∷ codes s

as_bytes-row : (s : String) → IsRow s → as_bytes s ≡ codes s
unfolding as_bytes utf8
as_bytes-row empty h = refl
as_bytes-row (chr c s) h = ground (arith, as_bytes-row s h.1)

is_whitespace-letter : (n : ℕ) → IsLetter n → is_whitespace n ≡ false
unfolding is_whitespace
is_whitespace-letter n h = ground arith

trim_start-row : (s : String) → IsRow s → trim_start s ≡ s
trim_start-row empty h = refl
trim_start-row (chr c s) h = rw (is_whitespace-letter (code c) h.0) refl

trim_end-row : (s : String) → IsRow s → trim_end s ≡ s
trim_end-row empty h = refl
trim_end-row (chr c s) h = rw (is_whitespace-letter (code c) h.0, trim_end-row s h.1) refl

trim-row : (s : String) → IsRow s → trim s ≡ s
unfolding trim
trim-row s h = rw (trim_start-row s h) (trim_end-row s h)

-- A row is not taken for a border of the block.
starts_with-row :
    (s : String)
    → IsRow s
    → (starts_with s "-----BEGIN" ≡ false) × (starts_with s "-----END" ≡ false)
starts_with-row empty h = (refl, refl)
starts_with-row (chr c s) h = (ground arith, ground arith)

-- The line ends of Unix and of Windows.
pub data LineEnd : Type 0 where
  lf crlf : LineEnd

abbrev pub end_text : LineEnd → String
end_text lf = "\n"
end_text crlf = "\r\n"

-- A line with its end, in front of what follows.
abbrev pub ended : LineEnd → String → String → String
ended e line t = in_front line (in_front (end_text e) t)

-- A line of characters above the carriage return.
abbrev pub IsLine : String → Type 0
IsLine empty = Unit
IsLine (chr c s) = (13 < code c) × IsLine s

IsLine-row : (s : String) → IsRow s → IsLine s
IsLine-row empty h = tt
IsLine-row (chr c s) h = (omega (arith, h.0), IsLine-row s h.1)

-- A line that ends is the first line.
lines-ended : (e : LineEnd) (s t : String) → IsLine s → lines (ended e s t) ≡ s ∷ lines t
unfolding lines
lines-ended lf empty t h = refl
lines-ended crlf empty t h = refl
lines-ended lf (chr c s) t h = ground (arith, lines-ended lf s t h.1)
lines-ended crlf (chr c s) t h = ground (arith, lines-ended crlf s t h.1)

-- Rows with their line ends, then the last border.
abbrev pub rows_text : List (LineEnd × String) → (last : LineEnd) → String
rows_text [] last = ended last "-----END CERTIFICATE-----" ""
rows_text ((e, row) ∷ rows) last = ended e row (rows_text rows last)

-- A certificate in PEM form.
abbrev pub pem_text : (first : LineEnd) → List (LineEnd × String) → (last : LineEnd) → String
pem_text first rows last = ended first "-----BEGIN CERTIFICATE-----" (rows_text rows last)

-- The characters of all rows.
abbrev pub row_codes : List (LineEnd × String) → List ℕ
row_codes [] = []
row_codes ((e, row) ∷ rows) = codes row ++ row_codes rows

abbrev pub AreRows : List (LineEnd × String) → Type 0
AreRows [] = Unit
AreRows ((e, row) ∷ rows) = IsRow row × AreRows rows

pem_body-rows :
    (rows : List (LineEnd × String)) (last : LineEnd)
    → AreRows rows
    → pem_body true (lines (rows_text rows last)) ≡ row_codes rows
unfolding pem_body
pem_body-rows [] last h = rw (lines-ended last "-----END CERTIFICATE-----" "" (ground arith)) refl
pem_body-rows ((e, row) ∷ rows) last h =
    let (b, f) = starts_with-row row h.0 in
    rw
      (
        lines-ended e row (rows_text rows last) (IsLine-row row h.0),
        b,
        f,
        trim-row row h.0,
        as_bytes-row row h.0,
      )
      (ap (λ l. codes row ++ l) (pem_body-rows rows last h.1))

-- A certificate in PEM form is read back as its bytes, however its base64 text is broken into rows,
-- whatever the padding, and with the line ends of Unix or of Windows in any mixture.
pub pem_to_der-pem_text :
    (bytes : List ℕ) (first last : LineEnd) (rows : List (LineEnd × String))
    → All IsByte bytes
    → AreRows rows
    → letters (row_codes rows) ≡ letters (encode_b64 bytes)
    → pem_to_der (pem_text first rows last) ≡ some bytes
unfolding pem_to_der pem_body
pem_to_der-pem_text bytes first last rows h r e =
    rw
      (
        lines-ended first "-----BEGIN CERTIFICATE-----" (rows_text rows last) (ground arith),
        pem_body-rows rows last r,
      )
      (decode_b64-of_letters bytes (row_codes rows) h e)
