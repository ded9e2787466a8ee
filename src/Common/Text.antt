-- ===== src/Common/Text.antt =====
-- Texts as lists of code points, and the parts of `str` that the program uses.
use Prim.Native.Char.{code}
use Prim.Native.String.{String}
use orphanode.Common.Tests.{ltb, leb, ◌==◌, if◌then◌else◌}
use orphanode.Common.Lists.{any}
use Prim.Native.Nat.{ℕ, ◌+◌, ◌/◌, ◌%◌}
use mathlib.Core.Bool.{Bool, true, false, ◌&&◌, ◌||◌}
use mathlib.Core.List.{List, [], ◌∷◌, ◌++◌, map, reverse}
use mathlib.Core.Option.{Option, none, some}

-- A `String`, by its code points; comparing these compares the UTF-8 bytes.
abbrev pub Text : Type 0
Text = List ℕ

abbrev pub text : String → Text
text String.[] = []
text (String.◌∷◌ c s) = code c ∷ text s

-- `strip_prefix`
abbrev pub strip_prefix : Text → Text → Option Text
strip_prefix [] s = some s
strip_prefix (p ∷ ps) [] = none
strip_prefix (p ∷ ps) (c ∷ s) = if p == c then strip_prefix ps s else none

abbrev pub starts_with : Text → Text → Bool
starts_with [] s = true
starts_with (p ∷ ps) [] = false
starts_with (p ∷ ps) (c ∷ s) = p == c && starts_with ps s

abbrev pub contains_char : ℕ → Text → Bool
contains_char c s = any (λ x. x == c) s

abbrev pub replace_char : ℕ → ℕ → Text → Text
replace_char from to = map (λ c. if c == from then to else c)

abbrev pub cons_first : ℕ → List Text → List Text
cons_first c [] = (c ∷ []) ∷ []
cons_first c (t ∷ ts) = (c ∷ t) ∷ ts

-- `split` at each occurrence of a character: one part more than there are occurrences.
unfoldable pub split : ℕ → Text → List Text
split sep [] = [] ∷ []
split sep (c ∷ s) = if c == sep then [] ∷ split sep s else cons_first c (split sep s)

-- The bytes that UTF-8 takes for a character.
abbrev pub utf8_len : ℕ → ℕ
utf8_len c = if ltb c 0x80 then 1 else if ltb c 0x800 then 2 else if ltb c 0x10000 then 3 else 4

-- `str::len`, in bytes.
unfoldable pub byte_len : Text → ℕ
byte_len [] = 0
byte_len (c ∷ s) = utf8_len c + byte_len s

-- The Unicode property White_Space: `char::is_whitespace`.
unfoldable pub is_whitespace : ℕ → Bool
is_whitespace c =
    (leb 0x09 c && leb c 0x0d)
    || (c == 0x20)
    || (c == 0x85)
    || (c == 0xa0)
    || (c == 0x1680)
    || (leb 0x2000 c && leb c 0x200a)
    || (c == 0x2028)
    || (c == 0x2029)
    || (c == 0x202f)
    || (c == 0x205f)
    || (c == 0x3000)

-- The Unicode category Cc: `char::is_control`.
unfoldable pub is_control : ℕ → Bool
is_control c = leb c 0x1f || (leb 0x7f c && leb c 0x9f)

unfoldable pub trim_start : Text → Text
trim_start [] = []
trim_start (c ∷ s) = if is_whitespace c then trim_start s else c ∷ s

unfoldable pub trim_end : Text → Text
trim_end s = reverse (trim_start (reverse s))

unfoldable pub trim : Text → Text
trim s = trim_end (trim_start s)

abbrev pub is_empty : Text → Bool
is_empty [] = true
is_empty (_ ∷ _) = false

-- The UTF-8 bytes of a character and of a text: `as_bytes`.
abbrev pub utf8_char : ℕ → List ℕ
utf8_char c =
    if ltb c 0x80
    then c ∷ []
    else if ltb c 0x800
    then (0xc0 + c / 64) ∷ (0x80 + c % 64) ∷ []
    else if ltb c 0x10000
    then (0xe0 + c / 4096) ∷ (0x80 + c / 64 % 64) ∷ (0x80 + c % 64) ∷ []
    else (0xf0 + c / 262144) ∷ (0x80 + c / 4096 % 64) ∷ (0x80 + c / 64 % 64) ∷ (0x80 + c % 64) ∷ []

unfoldable pub utf8 : Text → List ℕ
utf8 [] = []
utf8 (c ∷ s) = utf8_char c ++ utf8 s
