-- ===== src/Common/Texts.antt =====
-- The operations of `str` that the program uses, on texts as lists of characters.
use Prim.Native.Char.{code}
use Prim.Native.Nat.{ℕ, zero, suc, ◌+◌, ◌-◌, ◌*◌, ◌^◌, ◌≤◌}
use Prim.Native.String.{String, [], ◌∷◌}
use mathlib.Core.Bool
use mathlib.Core.Bool.{◌&&◌}
use mathlib.Core.Option.{Option, none, some}
use native.Mathlib.Omega.{arith}
use xlpod.Common.Tests.{nat_beq, ltb, leb, if◌then◌else◌}

-- `s.chars().take(n).collect()`.
abbrev pub take_chars : ℕ → String → String
take_chars zero s = []
take_chars (suc n) [] = []
take_chars (suc n) (c ∷ s) = c ∷ take_chars n s

abbrev pub char_count : String → ℕ
char_count [] = 0
char_count (c ∷ s) = suc (char_count s)

-- `s.is_empty()`.
abbrev pub is_empty_text : String → Bool.Bool
is_empty_text [] = Bool.true
is_empty_text (c ∷ s) = Bool.false

-- `s.strip_prefix(p)`.
abbrev pub strip_prefix : String → String → Option String
strip_prefix [] s = some s
strip_prefix (p ∷ ps) [] = none
strip_prefix (p ∷ ps) (c ∷ s) = if nat_beq (code p) (code c) then strip_prefix ps s else none

pub char_count-take_chars : (n : ℕ) (s : String) → char_count (take_chars n s) ≤ n
char_count-take_chars zero s = omega arith
char_count-take_chars (suc n) [] = omega arith
char_count-take_chars (suc n) (c ∷ s) = omega (arith, char_count-take_chars n s)

-- `s.parse::<u64>()`: an optional plus sign, then at least one digit, without overflow.
abbrev digits : String → ℕ → Option ℕ
digits [] n = some n
digits (c ∷ s) n =
    let next = n * 10 + (code c - 48) in
    let rest = digits s next in
    if leb 48 (code c) && leb (code c) 57 && ltb next (2 ^ 64) then rest else none

abbrev some_digits : String → Option ℕ
some_digits [] = none
some_digits (c ∷ s) = digits (c ∷ s) 0

unfoldable pub parse_u64 : String → Option ℕ
parse_u64 [] = none
parse_u64 (c ∷ s) =
    let signed = some_digits s in
    let plain = some_digits (c ∷ s) in if nat_beq (code c) 43 then signed else plain
