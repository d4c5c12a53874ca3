-- ===== src/Ai/Anthropic/Log.antt =====
-- The error texts of launcher/xlpod-server/src/ai/anthropic.rs: `truncate_for_log`.
use Prim.Native.String
use Prim.Native.String.{[] as empty, ◌∷◌ as chr}
use Prim.Native.Char.{Char, code}
use xlpod.Common.{
  ℕ, zero, suc, ◌+◌, ◌-◌, ◌≤◌, ◌<◌, ltb, leb, ◌≡◌, refl, ◌∙◌, ap, ◌⊎◌, inl, inr, true, String,
  Option, none, some, length, length-append, take_chars, arith, Bool-cases, Option-cases,
}
use xlpod.Common.Unicode.{utf8, as_bytes}
use xlpod.Ai.Anthropic.{len, in_front, byte_prefix, truncate_for_log}

utf8-length : (c : ℕ) → 1 ≤ length (utf8 c)
unfolding utf8
utf8-length c = ground arith

len-chr : (c : Char) (s : String) → len (chr c s) ≡ length (utf8 (code c)) + len s
unfolding as_bytes
len-chr c s = length-append (utf8 (code c)) (as_bytes s)

-- A cut at a byte is a cut after a number of characters.
byte_prefix-some :
    (n : ℕ) (s t : String) → byte_prefix n s ≡ some t → (k : ℕ) × (t ≡ take_chars k s) × (len t ≡ n)
unfolding byte_prefix as_bytes
byte_prefix-some zero s t h = let same : t ≡ "" = ground arith in (0, same, rw same refl)
byte_prefix-some (suc n) empty t h = cc
byte_prefix-some (suc n) (chr c s) t h = elim (Bool-cases (leb (length (utf8 (code c))) (suc n))) [
  | inr e ↦ cc (h, e)
  | inl e ↦ elim (Option-cases (byte_prefix (suc n - length (utf8 (code c))) s)) [
    | inl f ↦ cc (rw (e, f) at h)
    | inr (u, f) ↦
        let (k, g, l) = byte_prefix-some (suc n - length (utf8 (code c))) s u f in
        let same : t ≡ chr c u = ground (arith, h, e, f) in
        let fits : length (utf8 (code c)) ≤ suc n = ground (arith, e) in
        (suc k, rw (same, g) refl, ap len same ∙ (len-chr c u ∙ omega (arith, fits, l)))
  ]
]

at_chr :
    (m p n : ℕ) (c : Char) (s : String)
    → m ≡ suc p
    → m ≡ length (utf8 (code c)) + n
    → byte_prefix m (chr c s) ≡ in_front c (byte_prefix n s)
unfolding byte_prefix
at_chr m p n c s e f =
    let left : suc p - length (utf8 (code c)) ≡ n = omega (arith, e, f) in
    let fits : leb (length (utf8 (code c))) (suc p) ≡ true = ground (arith, e, f) in
    rw (e, fits, left) refl

-- A cut after characters is a cut at their bytes.
byte_prefix-take_chars :
    (k : ℕ) (s : String) → byte_prefix (len (take_chars k s)) s ≡ some (take_chars k s)
unfolding byte_prefix as_bytes
byte_prefix-take_chars zero s = refl
byte_prefix-take_chars (suc k) empty = refl
byte_prefix-take_chars (suc k) (chr c s) =
    at_chr (len (chr c (take_chars k s))) (len (chr c (take_chars k s)) - 1) (len (take_chars k s))
      c s (omega (arith, len-chr c (take_chars k s), utf8-length (code c)))
      (len-chr c (take_chars k s))
    ∙ rw (byte_prefix-take_chars k s) refl

-- Byte 400 is the start of a character, or the end.
abbrev pub AtBoundary : String → Type 0
AtBoundary s = (k : ℕ) × (len (take_chars k s) ≡ 400)

-- How an error text is logged.
abbrev pub Logged : String → Option String → Type 0
Logged s (some t) =
    ((len s ≤ 400) × (t ≡ s))
    ⊎ ((400 < len s)
        × ((k : ℕ) × (len (take_chars k s) ≡ 400) × (t ≡ String.◌++◌ (take_chars k s) "…")))
Logged s none = (400 < len s) × (AtBoundary s → ⊥)

-- An error text of at most 400 bytes is logged as it is, and a longer one by the characters of its
-- first 400 bytes and an ellipsis; exactly where these 400 bytes end inside a character, the
-- truncation panics.
pub truncate_for_log-Logged : (s : String) → Logged s (truncate_for_log s)
unfolding truncate_for_log
truncate_for_log-Logged s = elim (Bool-cases (ltb 400 (len s))) [
  | inr e ↦ rw e (inl (ground arith, refl))
  | inl e ↦ elim (Option-cases (byte_prefix 400 s)) [
    | inl f ↦ rw (e, f) (ground arith, λ (k, b). cc (f, rw b at (byte_prefix-take_chars k s)))
    | inr (t, f) ↦
        let (k, g, l) = byte_prefix-some 400 s t f in
        rw (e, f) (inr (ground arith, (k, rw (← g) l, rw g refl)))
  ]
]
