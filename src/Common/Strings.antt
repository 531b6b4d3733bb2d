-- ===== src/Common/Strings.antt =====
-- `str` as the list of its characters (Unicode scalar values), with the bytes of its UTF-8 form.
use Prim.Native.Nat.{ℕ, ◌+◌, ◌/◌, ◌%◌}
use Prim.Native.Char.{code}
use Prim.Native.String.{String}
use mathlib.Core.Bool.{Bool, true, false, ◌&&◌, ◌||◌}
use mathlib.Core.List.{List, [], ◌∷◌, ◌++◌, map, reverse}
use flutterdec.Common.Tests.{ltb, leb, nat_eq, if◌then◌else◌}

abbrev pub Text : Type 0
Text = List ℕ

-- The characters of a literal.
abbrev pub chars : String → Text
chars String.[] = []
chars (String.◌∷◌ c s) = code c ∷ chars s

-- The UTF-8 encoding of one scalar value.
abbrev pub utf8 : ℕ → List ℕ
utf8 c =
    if ltb c 0x80
    then c ∷ []
    else if ltb c 0x800
    then (0xc0 + c / 0x40) ∷ (0x80 + c % 0x40) ∷ []
    else if ltb c 0x10000
    then (0xe0 + c / 0x1000) ∷ (0x80 + c / 0x40 % 0x40) ∷ (0x80 + c % 0x40) ∷ []
    else (0xf0 + c / 0x40000)
      ∷ (0x80 + c / 0x1000 % 0x40)
      ∷ (0x80 + c / 0x40 % 0x40)
      ∷ (0x80 + c % 0x40)
      ∷ []

-- `text.bytes()`; `text.len()` is its length.
abbrev pub bytes : Text → List ℕ
bytes [] = []
bytes (c ∷ cs) = utf8 c ++ bytes cs

abbrev pub is_empty : Text → Bool
is_empty [] = true
is_empty (c ∷ cs) = false

-- `text.contains(c)`.
abbrev pub contains_char : ℕ → Text → Bool
contains_char c [] = false
contains_char c (d ∷ ds) = nat_eq c d || contains_char c ds

-- `char::is_whitespace`: the Unicode property White_Space.
abbrev pub is_whitespace : ℕ → Bool
is_whitespace c =
    leb 9 c && leb c 13
    || nat_eq c 0x20
    || nat_eq c 0x85
    || nat_eq c 0xa0
    || nat_eq c 0x1680
    || leb 0x2000 c && leb c 0x200a
    || nat_eq c 0x2028
    || nat_eq c 0x2029
    || nat_eq c 0x202f
    || nat_eq c 0x205f
    || nat_eq c 0x3000

unfoldable pub trim_start : Text → Text
trim_start [] = []
trim_start (c ∷ cs) = let rest = trim_start cs in if is_whitespace c then rest else c ∷ cs

-- `text.trim()`.
unfoldable pub trim : Text → Text
unfolding trim_start
trim t = reverse (trim_start (reverse (trim_start t)))

-- `text.to_ascii_lowercase()`.
abbrev pub lower_char : ℕ → ℕ
lower_char c = if leb b'A' c && leb c b'Z' then c + 32 else c

abbrev pub to_ascii_lowercase : Text → Text
to_ascii_lowercase t = map lower_char t

-- `text.split_whitespace()`: the maximal runs of characters that are no whitespace.
abbrev end_word : Text → List Text → List Text
end_word [] ws = ws
end_word (c ∷ cs) ws = (c ∷ cs) ∷ ws

-- The word under construction, and the words after it.
abbrev words_from : Text → Text × List Text
words_from [] = ([], [])
words_from (c ∷ cs) =
    let (word, rest) = words_from cs in
    if is_whitespace c then ([], end_word word rest) else (c ∷ word, rest)

unfoldable pub split_whitespace : Text → List Text
split_whitespace t = let (word, rest) = words_from t in end_word word rest
