-- ===== src/Ca/Base64/Input.antt =====
-- What the decoder of launcher/xlpod-server/src/ca.rs does with any input: what it skips, when it
-- fails, and how many bytes it gives.
use xlpod.Common.{
  ℕ, ◌+◌, ◌-◌, ◌*◌, ◌/◌, ◌%◌, ◌^◌, ◌<◌, ◌≤◌, ◌≡◌, refl, sym, ◌∙◌, ap, ◌⊎◌, inl, inr, leb, true,
  false, not, List, [], ◌∷◌, Option, none, some, if◌then◌else◌, All, In, filter, length, arith,
  Bool-cases, Option-cases,
}
use xlpod.Ca.Base64.{is_skipped, value_of, shift_in, push, decode_from, decode_b64, encode_b64}
use xlpod.Ca.Base64.RoundTrip.{IsByte, decode_b64-encode_b64}

-- The bytes that the decoder looks at.
abbrev pub letters : List ℕ → List ℕ
letters input = filter (λ c. not (is_skipped c)) input

-- What the loop does at a byte of each kind.
abbrev next_word : (buf bits v : ℕ) → List ℕ → Option (List ℕ)
next_word buf bits v input =
    let left = bits + 6 - 8 in
    let rest = decode_from (shift_in buf v % 2 ^ left) left input in
    let longer = decode_from (shift_in buf v) (bits + 6) input in
    if leb 8 (bits + 6) then push (shift_in buf v / 2 ^ left % 256) rest else longer

module _ (buf bits c : ℕ) (input : List ℕ) where
  at_skipped : is_skipped c ≡ true → decode_from buf bits (c ∷ input) ≡ decode_from buf bits input
  unfolding decode_from
  at_skipped h = ground arith

  at_invalid : is_skipped c ≡ false → value_of c ≡ none → decode_from buf bits (c ∷ input) ≡ none
  unfolding decode_from
  at_invalid h k = ground arith

  at_value :
      (v : ℕ)
      → is_skipped c ≡ false
      → value_of c ≡ some v
      → decode_from buf bits (c ∷ input) ≡ next_word buf bits v input
  unfolding decode_from
  at_value v h k = ground arith

-- Skipped bytes make no difference, wherever they stand.
decode_from-letters :
    (buf bits : ℕ) (input : List ℕ)
    → decode_from buf bits (letters input) ≡ decode_from buf bits input
unfolding decode_from
decode_from-letters buf bits [] = refl
decode_from-letters buf bits (c ∷ input) = elim (Bool-cases (is_skipped c)) [
  | inl s ↦ rw s (decode_from-letters buf bits input ∙ sym (at_skipped buf bits c input s))
  | inr n ↦ rw n (elim (Option-cases (value_of c)) [
    | inl e ↦ at_invalid buf bits c (letters input) n e ∙ sym (at_invalid buf bits c input n e)
    | inr (v, e) ↦
        at_value buf bits c (letters input) v n e
        ∙ (rw
            (
              decode_from-letters (shift_in buf v) (bits + 6) input,
              decode_from-letters (shift_in buf v % 2 ^ (bits + 6 - 8)) (bits + 6 - 8) input,
            )
            (sym (at_value buf bits c input v n e)))
  ])
]

-- An input that without its padding, its line ends and its spaces is what RFC 4648 encodes is
-- decoded to the encoded bytes.
pub decode_b64-of_letters :
    (bytes input : List ℕ)
    → All IsByte bytes
    → letters input ≡ letters (encode_b64 bytes)
    → decode_b64 input ≡ some bytes
unfolding decode_b64
decode_b64-of_letters bytes input h e =
    sym (decode_from-letters 0 0 input)
    ∙ (ap (decode_from 0 0) e
        ∙ (decode_from-letters 0 0 (encode_b64 bytes) ∙ decode_b64-encode_b64 bytes h))

-- The decoder fails on an input with a byte that is not skipped and has no value.
abbrev pub IsInvalid : ℕ → Type 0
IsInvalid c = (is_skipped c ≡ false) × (value_of c ≡ none)

-- The number of bytes that the loop gives for so many bits and bytes.
abbrev pub decoded_length : (bits : ℕ) → List ℕ → ℕ
decoded_length bits input = (bits + 6 * length (letters input)) / 8

-- The outcome of the decoder.
abbrev pub Outcome : (bits : ℕ) → List ℕ → Option (List ℕ) → Type 0
Outcome bits input none = (c : ℕ) × In c input × IsInvalid c
Outcome bits input (some out) =
    All (λ c. (is_skipped c ≡ true) ⊎ ((v : ℕ) × (value_of c ≡ some v))) input
    × (length out ≡ decoded_length bits input)
    × All IsByte out

module _ (buf bits c : ℕ) (input : List ℕ) (few : bits < 8) where
  more :
      (o : Option (List ℕ))
      → (is_skipped c ≡ true) × Outcome bits input o
      → Outcome bits (c ∷ input) o
  more none (s, (d, m, h)) = (d, inr m, h)
  more (some out) (s, (a, l, b)) = ((inl s, a), rw s l, b)

  pushed :
      (v b : ℕ) (o : Option (List ℕ))
      → is_skipped c ≡ false
      → value_of c ≡ some v
      → b < 256
      → 2 ≤ bits
      → Outcome (bits + 6 - 8) input o
      → Outcome bits (c ∷ input) (push b o)
  pushed v b none n e lt two (d, m, h) = (d, inr m, h)
  pushed v b (some out) n e lt two (a, l, k) = ((inr (v, e), a), rw n (omega (arith, l)), (lt, k))

  longer :
      (v : ℕ) (o : Option (List ℕ))
      → is_skipped c ≡ false
      → value_of c ≡ some v
      → Outcome (bits + 6) input o
      → Outcome bits (c ∷ input) o
  longer v none n e (d, m, h) = (d, inr m, h)
  longer v (some out) n e (a, l, k) = ((inr (v, e), a), rw n (omega (arith, l)), k)

decode_from-Outcome :
    (buf bits : ℕ) (input : List ℕ) → bits < 8 → Outcome bits input (decode_from buf bits input)
unfolding decode_from
decode_from-Outcome buf bits [] few = (tt, omega arith, tt)
decode_from-Outcome buf bits (c ∷ input) few = elim (Bool-cases (is_skipped c)) [
  | inl s ↦
      rw (at_skipped buf bits c input s)
        (more buf bits c input few _ (s, decode_from-Outcome buf bits input few))
  | inr n ↦ elim (Option-cases (value_of c)) [
    | inl e ↦ rw (at_invalid buf bits c input n e) (c, inl refl, (n, e))
    | inr (v, e) ↦ rw (at_value buf bits c input v n e) (elim (Bool-cases (leb 8 (bits + 6))) [
      | inl h ↦ rw h (
          pushed buf bits c input few v _ _ n e (omega arith) (ground arith) (
            decode_from-Outcome (shift_in buf v % 2 ^ (bits + 6 - 8)) (bits + 6 - 8) input
              (omega arith)))
      | inr h ↦ rw h (
          longer buf bits c input few v _ n e
            (decode_from-Outcome (shift_in buf v) (bits + 6) input (ground arith)))
    ])
  ]
]

-- The decoder fails exactly when some byte is neither skipped nor a letter of the alphabet;
-- otherwise it gives whole bytes, as many as fit into six bits for each letter.
pub decode_b64-Outcome : (input : List ℕ) → Outcome 0 input (decode_b64 input)
unfolding decode_b64
decode_b64-Outcome input = decode_from-Outcome 0 0 input (omega arith)
