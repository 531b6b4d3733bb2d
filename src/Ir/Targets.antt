-- ===== src/Ir/Targets.antt =====
-- crates/flutterdec-ir/src/lib.rs: `parse_target_hex`, with `u64::from_str_radix` for radix 16.
use flutterdec.Common.{
  length, all, add_head, Text, chars, bytes, is_whitespace, trim, ltb, leb, nat_eq, if◌then◌else◌,
  is_some, u64_mod, ℕ, ◌+◌, ◌-◌, ◌*◌, Bool, ◌&&◌, ◌||◌, Option, none, some, List, ◌∷◌, [], ℕ_eq,
  List_eq, Option_eq, ℕ_order, Text_order,
}

-- `char::to_digit(16)`.
abbrev pub hex_value : ℕ → Option ℕ
hex_value c =
    if leb b'0' c && leb c b'9'
    then some (c - b'0')
    else if leb b'a' c && leb c b'f'
    then some (10 + (c - b'a'))
    else if leb b'A' c && leb c b'F'
    then some (10 + (c - b'A'))
    else none

abbrev pub is_ascii_hexdigit : ℕ → Bool
is_ascii_hexdigit c = is_some (hex_value c)

-- The digits after the ones that gave `acc`, checked for overflow.
unfoldable pub digits_from : ℕ → Text → Option ℕ
digits_from acc [] = some acc
digits_from acc (c ∷ cs) = elim (hex_value c) [
  | none ↦ none
  | some d ↦
      let rest = digits_from (acc * 16 + d) cs in if ltb (acc * 16 + d) u64_mod then rest else none
]

-- `u64::from_str_radix(text, 16)`: one leading plus sign is allowed, no digit is an error.
unfoldable pub from_str_radix_16 : Text → Option ℕ
unfolding digits_from
from_str_radix_16 [] = none
from_str_radix_16 (c ∷ []) = digits_from 0 (c ∷ [])
from_str_radix_16 (c ∷ d ∷ ds) =
    if nat_eq c b'+' then digits_from 0 (d ∷ ds) else digits_from 0 (c ∷ d ∷ ds)

-- `text.strip_prefix(prefix)`.
abbrev pub strip_prefix : Text → Text → Option Text
strip_prefix [] text = some text
strip_prefix (p ∷ ps) [] = none
strip_prefix (p ∷ ps) (c ∷ cs) = if nat_eq p c then strip_prefix ps cs else none

abbrev pub starts_with : Text → Text → Bool
starts_with prefix text = is_some (strip_prefix prefix text)

-- `text.trim_start_matches('#')`.
unfoldable pub trim_hashes : Text → Text
trim_hashes [] = []
trim_hashes (c ∷ cs) = let rest = trim_hashes cs in if nat_eq c b'#' then rest else c ∷ cs

-- `text.split(|c| c.is_whitespace() || c == ',')`.
unfoldable pub target_tokens : Text → List Text
target_tokens [] = [] ∷ []
target_tokens (c ∷ cs) =
    let rest = target_tokens cs in
    if is_whitespace c || nat_eq c b',' then [] ∷ rest else add_head c rest

abbrev pub or_last : Option ℕ → Option ℕ → Option ℕ
or_last none last = last
or_last (some v) last = some v

-- The second `if` of the loop.
unfoldable pub bare_hex : Text → Option ℕ
unfolding from_str_radix_16
bare_hex t =
    if all is_ascii_hexdigit t && ltb 6 (length (bytes t)) then from_str_radix_16 t else none

-- What a token sets `last` to, if anything.
unfoldable pub token_target : Text → Option ℕ
unfolding bare_hex
token_target t = elim (strip_prefix (chars "0x") t) [
  | none ↦ bare_hex t
  | some hex ↦ or_last (from_str_radix_16 hex) (bare_hex t)
]

-- The loop over the tokens.
unfoldable pub last_target : List Text → Option ℕ → Option ℕ
unfolding token_target trim trim_hashes
last_target [] last = last
last_target (t ∷ ts) last = last_target ts (or_last (token_target (trim_hashes (trim t))) last)

unfoldable pub parse_target_hex : Text → Option ℕ
unfolding last_target target_tokens
parse_target_hex s = last_target (target_tokens s) none
