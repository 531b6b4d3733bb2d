-- ===== src/Tests/Boundary.antt =====
-- Digests and path handles at concrete texts.
use flutterdec.Common.{
  for_each, split, Text, chars, ok, ◌≡◌, refl, ◌∷◌, [], ℕ_eq, List_eq, Option_eq, ℕ_order,
  Text_order,
}
use flutterdec.Adapter.Primitives.{
  RelativePath, parse_digest, parse_path, check_path, check_component, starts_with_slash,
  has_drive_prefix,
}
use flutterdec.Adapter.Primitives.Containment.{
  resolve, below, parse_path-contained, resolve-injective,
}
use flutterdec.Tests.Samples.{digest}

abbrev text : Text
text = digest.text

digest_parsed : parse_digest text ≡ ok digest
unfolding parse_digest
digest_parsed = refl

abbrev file : Text
file = chars "in/a..b"

abbrev file_path : RelativePath
file_path = record { text = file }

file_parsed : parse_path file ≡ ok file_path
unfolding parse_path check_path check_component starts_with_slash has_drive_prefix split for_each
file_parsed = refl

parse_path-contained_example :
    (resolve (chars "work" ∷ []) file ≡ below (chars "work" ∷ []) (split b'/' file)) × (file ≡ file)
parse_path-contained_example = parse_path-contained file (chars "work" ∷ []) file_parsed

resolve-injective_example : file_path ≡ file_path
resolve-injective_example =
    resolve-injective file file (chars "work" ∷ []) file_parsed file_parsed refl
