-- ===== src/Ca/Base64/RoundTrip.antt =====
-- The decoder of launcher/xlpod-server/src/ca.rs against the encoder of RFC 4648.
use xlpod.Common.{
  ℕ, ◌+◌, ◌-◌, ◌*◌, ◌/◌, ◌%◌, ◌^◌, ◌<◌, ◌≤◌, ◌≡◌, refl, ◌∙◌, ap, false, List, [], ◌∷◌, some, All,
  arith,
}
use xlpod.Ca.Base64.{
  table, is_skipped, value_of, shift_in, push, decode_from, decode_b64, letter, encode_b64,
}

abbrev pub IsByte : ℕ → Type 0
IsByte b = b < 256

-- A letter has its value, and is not skipped.
value_of-letter : (v : ℕ) → v < 64 → value_of (letter v) ≡ some v
unfolding table value_of letter
value_of-letter v h = ground arith

is_skipped-letter : (v : ℕ) → v < 64 → is_skipped (letter v) ≡ false
unfolding is_skipped letter
is_skipped-letter v h = ground arith

-- The decoder at a letter.
step_short :
    (buf bits v : ℕ) (input : List ℕ)
    → v < 64
    → bits < 2
    → decode_from buf bits (letter v ∷ input) ≡ decode_from (shift_in buf v) (bits + 6) input
unfolding decode_from
step_short buf bits v input h k = ground (arith, value_of-letter v h, is_skipped-letter v h)

step_long :
    (buf bits v : ℕ) (input : List ℕ)
    → v < 64
    → 2 ≤ bits
    → decode_from buf bits (letter v ∷ input)
      ≡ push
          (shift_in buf v / 2 ^ (bits + 6 - 8) % 256)
          (decode_from (shift_in buf v % 2 ^ (bits + 6 - 8)) (bits + 6 - 8) input)
unfolding decode_from
step_long buf bits v input h k = ground (arith, value_of-letter v h, is_skipped-letter v h)

-- The arithmetic of a group of four letters.
group :
    (a b c : ℕ)
    → a < 256
    → b < 256
    → c < 256
    → (a / 4 < 64)
      × (a % 4 * 16 + b / 16 < 64)
      × (b % 16 * 4 + c / 64 < 64)
      × (c % 64 < 64)
      × (shift_in (shift_in 0 (a / 4)) (a % 4 * 16 + b / 16) / 16 % 256 ≡ a)
      × (shift_in (shift_in 0 (a / 4)) (a % 4 * 16 + b / 16) % 16 ≡ b / 16)
      × (shift_in (b / 16) (b % 16 * 4 + c / 64) / 4 % 256 ≡ b)
      × (shift_in (b / 16) (b % 16 * 4 + c / 64) % 4 ≡ c / 64)
      × (shift_in (c / 64) (c % 64) / 1 % 256 ≡ c)
      × (shift_in (c / 64) (c % 64) % 1 ≡ 0)
unfolding shift_in
group a b c p q r = (
  omega arith,
  omega arith,
  omega arith,
  omega arith,
  omega arith,
  omega arith,
  omega arith,
  omega arith,
  omega arith,
  omega arith,
)

-- The decoder skips padding, and stops at the end of the input with what it has.
skip_pad :
    (buf bits : ℕ) (input : List ℕ) → decode_from buf bits (61 ∷ input) ≡ decode_from buf bits input
unfolding decode_from is_skipped value_of table
skip_pad buf bits input = refl

-- One group of four letters gives its three bytes.
decode_group :
    (a b c : ℕ) (input : List ℕ)
    → a < 256
    → b < 256
    → c < 256
    → decode_from 0 0 (
        letter (a / 4)
        ∷ letter (a % 4 * 16 + b / 16)
        ∷ letter (b % 16 * 4 + c / 64)
        ∷ letter (c % 64)
        ∷ input)
      ≡ push a (push b (push c (decode_from 0 0 input)))
decode_group a b c input p q r =
    let (u, v, w, x, d, e, f, g, h, i) = group a b c p q r in
    step_short 0 0 (a / 4) _ u (omega arith)
    ∙ (step_long (shift_in 0 (a / 4)) 6 (a % 4 * 16 + b / 16) _ v (omega arith)
        ∙ rw (d, e)
            (ap (push a) (
              step_long (b / 16) 4 (b % 16 * 4 + c / 64) _ w (omega arith)
              ∙ rw (f, g)
                  (ap (push b)
                    (step_long (c / 64) 2 (c % 64) _ x (omega arith) ∙ rw (h, i) refl)))))

-- What is left of a group that padding fills.
rest_of_two :
    (a b : ℕ)
    → a < 256
    → b < 256
    → (a / 4 < 64)
      × (a % 4 * 16 + b / 16 < 64)
      × (b % 16 * 4 < 64)
      × (shift_in (shift_in 0 (a / 4)) (a % 4 * 16 + b / 16) / 16 % 256 ≡ a)
      × (shift_in (shift_in 0 (a / 4)) (a % 4 * 16 + b / 16) % 16 ≡ b / 16)
      × (shift_in (b / 16) (b % 16 * 4) / 4 % 256 ≡ b)
unfolding shift_in
rest_of_two a b p q = (omega arith, omega arith, omega arith, omega arith, omega arith, omega arith)

rest_of_one :
    (a : ℕ)
    → a < 256
    → (a / 4 < 64) × (a % 4 * 16 < 64) × (shift_in (shift_in 0 (a / 4)) (a % 4 * 16) / 16 % 256 ≡ a)
unfolding shift_in
rest_of_one a p = (omega arith, omega arith, omega arith)

one_pad : (buf bits : ℕ) → decode_from buf bits (61 ∷ []) ≡ some []
unfolding decode_from
one_pad buf bits = skip_pad buf bits []

decode_two :
    (a b : ℕ) → a < 256 → b < 256 → decode_from 0 0 (encode_b64 (a ∷ b ∷ [])) ≡ some (a ∷ b ∷ [])
unfolding encode_b64
decode_two a b p q =
    let (u, v, w, d, e, f) = rest_of_two a b p q in
    step_short 0 0 (a / 4) _ u (omega arith)
    ∙ (step_long (shift_in 0 (a / 4)) 6 (a % 4 * 16 + b / 16) _ v (omega arith)
        ∙ rw (d, e)
            (ap (push a) {y = some (b ∷ [])} (
              step_long (b / 16) 4 (b % 16 * 4) _ w (omega arith)
              ∙ rw f (ap (push b) {y = some []} (one_pad _ _)))))

decode_one : (a : ℕ) → a < 256 → decode_from 0 0 (encode_b64 (a ∷ [])) ≡ some (a ∷ [])
unfolding encode_b64
decode_one a p =
    let (u, v, d) = rest_of_one a p in
    step_short 0 0 (a / 4) _ u (omega arith)
    ∙ (step_long (shift_in 0 (a / 4)) 6 (a % 4 * 16) _ v (omega arith)
        ∙ rw d (ap (push a) {y = some []} (skip_pad _ _ (61 ∷ []) ∙ one_pad _ _)))

-- Decoding what RFC 4648 encodes gives the bytes back, whatever their number.
pub decode_b64-encode_b64 :
    (bytes : List ℕ) → All IsByte bytes → decode_b64 (encode_b64 bytes) ≡ some bytes
unfolding decode_b64 encode_b64 decode_from
decode_b64-encode_b64 bytes h = go bytes h
  where
    go : (bs : List ℕ) → All IsByte bs → decode_from 0 0 (encode_b64 bs) ≡ some bs
    go [] h = refl
    go (a ∷ []) h = decode_one a h.0
    go (a ∷ b ∷ []) h = decode_two a b h.0 h.1.0
    go (a ∷ b ∷ c ∷ rest) h =
        decode_group a b c (encode_b64 rest) h.0 h.1.0 h.1.1.0 ∙ rw (go rest h.1.1.1) refl
