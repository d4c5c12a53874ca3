-- ===== src/Common/Unicode.antt =====
-- The operations of `str` that look at lines, white space and UTF-8.
use Prim.Native.Char.{Char, code}
use Prim.Native.String.{String, [], ◌∷◌}
use Prim.Native.Nat.{ℕ, ◌+◌, ◌-◌, ◌/◌, ◌%◌}
use mathlib.Core.Bool.{Bool, true, false, ◌&&◌, ◌||◌}
use mathlib.Core.Option.{none, some}
use mathlib.Core.List.{List, [] as nil, ◌∷◌ as cons, ◌++◌}
use xlpod.Common.Tests.{nat_beq, ltb, leb, if◌then◌else◌}
use xlpod.Common.Texts.{is_empty_text, strip_prefix}

-- A text in front of another, as in `format!` and `join`.
abbrev pub in_front : String → String → String
in_front [] t = t
in_front (c ∷ s) t = c ∷ in_front s t

-- `s.starts_with(p)`.
abbrev pub starts_with : (s p : String) → Bool
starts_with s p = elim (strip_prefix p s) [ none ↦ false | some rest ↦ true ]

-- The UTF-8 form of a code point.
unfoldable pub utf8 : ℕ → List ℕ
utf8 c =
    if ltb c 128
    then cons c nil
    else if ltb c 2048
    then cons (192 + c / 64) (cons (128 + c % 64) nil)
    else if ltb c 65_536
    then cons (224 + c / 4096) (cons (128 + c / 64 % 64) (cons (128 + c % 64) nil))
    else cons (240 + c / 262_144)
        (cons (128 + c / 4096 % 64) (cons (128 + c / 64 % 64) (cons (128 + c % 64) nil)))

-- `s.as_bytes()`.
unfoldable pub as_bytes : String → List ℕ
as_bytes [] = nil
as_bytes (c ∷ s) = utf8 (code c) ++ as_bytes s

-- `char::is_whitespace`: the Unicode property White_Space.
unfoldable pub is_whitespace : ℕ → Bool
is_whitespace c =
    leb 9 c && leb c 13
    || nat_beq c 32
    || nat_beq c 133
    || nat_beq c 160
    || nat_beq c 5760
    || leb 8192 c && leb c 8202
    || leb 8232 c && leb c 8233
    || nat_beq c 8239
    || nat_beq c 8287
    || nat_beq c 12_288

abbrev pub trim_start : String → String
trim_start [] = []
trim_start (c ∷ s) = let rest = trim_start s in if is_whitespace (code c) then rest else c ∷ s

abbrev pub trim_end : String → String
trim_end [] = []
trim_end (c ∷ s) =
    let rest = trim_end s in if is_whitespace (code c) && is_empty_text rest then [] else c ∷ rest

-- `s.trim()`.
unfoldable pub trim : String → String
trim s = trim_end (trim_start s)

-- A character in front of the first line.
abbrev pub on_first : Char → List String → List String
on_first c nil = cons (c ∷ []) nil
on_first c (cons l ls) = cons (c ∷ l) ls

-- A text that starts with a line feed.
abbrev pub at_feed : String → Bool
at_feed [] = false
at_feed (c ∷ s) = nat_beq (code c) 10

-- `s.lines()`: lines end at a line feed, with a carriage return before it or not; the last line need
-- not end.
unfoldable pub lines : String → List String
lines [] = nil
lines (c ∷ s) =
    let rest = lines s in
    if nat_beq (code c) 10
    then cons [] rest
    else if nat_beq (code c) 13 && at_feed s
    then rest
    else on_first c rest

-- The UTF-16 form of a code point.
unfoldable pub utf16 : ℕ → List ℕ
utf16 c =
    if ltb c 65_536
    then cons c nil
    else cons (55_296 + (c - 65_536) / 1024) (cons (56_320 + (c - 65_536) % 1024) nil)

-- `s.encode_utf16()`.
unfoldable pub encode_utf16 : String → List ℕ
encode_utf16 [] = nil
encode_utf16 (c ∷ s) = utf16 (code c) ++ encode_utf16 s
