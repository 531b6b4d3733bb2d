-- ===== src/Tests/Selection.antt =====
-- Feature strings and the gate before exact selection, at concrete identities.
use flutterdec.Common.{
  Text, chars, to_ascii_lowercase, ok, ◌≡◌, refl, ◌↔◌, false, ◌∷◌, Memᴰ, [], ℕ_eq, List_eq,
  Option_eq, ℕ_order, Text_order,
}
use flutterdec.Loader.Identity.{
  SnapshotIdentity, scan, full_aot, arm64, ExactSelectionKey, parse_features, tokens, from_header,
  exact_selection_key, is_exact,
}
use flutterdec.Loader.Identity.Features.{normalized_canonical}
use flutterdec.Loader.Identity.Gate.{NamesOnlyArm64, NamesOneWidth, exact_selection_iff}
use flutterdec.Tests.Samples.{identity}

abbrev features : Text
features = chars "arm64 Compressed-pointers"

abbrev shuffled : Text
shuffled = chars " compressed-pointers\tarm64 arm64"

abbrev key : ExactSelectionKey
key = record {
  hash = chars "ab";
  target_arch = arm64;
  features = chars "arm64" ∷ chars "compressed-pointers" ∷ [];
}

normalized_canonical_example :
    ((parse_features features).normalized ≡ (parse_features shuffled).normalized)
    ↔ ((t : Text) → Memᴰ t (tokens features) ↔ Memᴰ t (tokens shuffled))
normalized_canonical_example = normalized_canonical features shuffled

exact_selection_iff_example :
    (exact_selection_key (from_header arm64 (chars "AB") full_aot features) ≡ ok key) ↔ (
      (full_aot ≡ full_aot)
      × (arm64 ≡ arm64)
      × NamesOnlyArm64 features
      × NamesOneWidth features
      × (chars "ab" ≡ to_ascii_lowercase (chars "AB"))
      × (arm64 ≡ arm64)
      × (key.features ≡ (parse_features features).normalized))
exact_selection_iff_example = exact_selection_iff arm64 (chars "AB") full_aot features key

abbrev scanned : SnapshotIdentity
scanned = record identity { hash_source = scan }

not_exact : is_exact scanned ≡ false
unfolding is_exact
not_exact = refl
