-- ===== src/Adapter/Primitives.antt =====
-- crates/flutterdec-adapter/src/primitives.rs: the digests and path handles that the adapter
-- boundary accepts. A value of either type is made only by its `parse`.
pub mod Digest
pub mod Containment
use flutterdec.Common.{
  ℕ, Bool, true, false, ◌&&◌, ◌||◌, List, [], ◌∷◌, some, Text, chars, bytes, is_empty,
  contains_char, split, length, get_elem?, all, leb, nat_eq, if◌then◌else◌, Result, Check, ok, err,
  ◌>>◌, fail_if, for_each, ◌==◌, list_eq, ℕ_eq, List_eq, Option_eq, not,
}

pub data PrimitiveError : Type 0 where
  digest_length : ℕ → PrimitiveError
  digest_alphabet : Text → PrimitiveError
  path_empty : PrimitiveError
  path_absolute path_traversal path_empty_component path_backslash path_nul : Text → PrimitiveError

-- The field is private in the source too: `parse` is the only way to make one.
pub record Sha256Digest : Type 0 where
  pub text : Text

pub record RelativePath : Type 0 where
  pub text : Text

abbrev pub is_hex : ℕ → Bool
is_hex b = leb b'0' b && leb b b'9' || leb b'a' b && leb b b'f'

unfoldable pub parse_digest : Text → Result PrimitiveError Sha256Digest
parse_digest text =
    if not (nat_eq (length (bytes text)) 64)
    then err (digest_length (length (bytes text)))
    else if not (all is_hex (bytes text))
    then err (digest_alphabet text)
    else ok (record { text = text })

-- One round of the loop over `text.split('/')`.
unfoldable pub check_component : Text → Text → Check PrimitiveError
check_component text component = do
  fail_if (is_empty component) (path_empty_component text)
  fail_if (component == chars "." || component == chars "..") (path_traversal text)

unfoldable pub starts_with_slash : Text → Bool
starts_with_slash [] = false
starts_with_slash (c ∷ cs) = nat_eq c b'/'

-- `text.len() >= 2 && text.as_bytes()[1] == b':'`.
unfoldable pub has_drive_prefix : Text → Bool
has_drive_prefix text = leb 2 (length (bytes text)) && get_elem? (bytes text) 1 == some b':'

unfoldable pub check_path : Text → Check PrimitiveError
unfolding check_component starts_with_slash has_drive_prefix
check_path text = do
  fail_if (is_empty text) path_empty
  fail_if (contains_char 0x5c text) (path_backslash text)
  fail_if (contains_char 0 text) (path_nul text)
  fail_if (starts_with_slash text) (path_absolute text)
  fail_if (has_drive_prefix text) (path_absolute text)
  for_each (check_component text) (split b'/' text)

unfoldable pub parse_path : Text → Result PrimitiveError RelativePath
unfolding check_path
parse_path text = do check_path text; ok (record { text = text })

-- The derived comparisons are those of the wrapped string.
abbrev pub digest_eq : Sha256Digest → Sha256Digest → Bool
digest_eq a b = a.text == b.text

abbrev pub path_eq : RelativePath → RelativePath → Bool
path_eq a b = a.text == b.text
