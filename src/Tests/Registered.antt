-- ===== src/Tests/Registered.antt =====
-- A registry with one record, and the key of a snapshot that it is for.

use flutterdec.Common.{
  for_each, sort, dedup, split, Text, chars, trim_start, trim, ok, ℕ, ◌≡◌, refl, ◌↔◌, none, some,
  List, ◌∷◌, Memᴰ, [], ℕ_eq, List_eq, Option_eq, ℕ_order, Text_order,
}
use flutterdec.Loader.Identity.{
  full_aot, arm64, header, compressed, ExactSelectionKey, SnapshotIdentity, exact_selection_key,
}
use flutterdec.Loader.Registry.{
  CompatibilityRecord, CompatibilityRegistry, RegistrySelection, verified,
  canonical_feature_fingerprint, check_identity, check_features, check_feature, check_fingerprint,
  check_record_parts, validate_nonempty, validate_relative_path, check_variants, check_variant,
  check_aliases, check_forbidden, validate_record, check_records, validate_registry, select,
}
use flutterdec.Loader.Registry.Selection.{Matches, IsSupported, select_iff}

abbrev zeros : Text
zeros = chars "0000000000000000000000000000000000000000000000000000000000000000"

-- A hash function with one value.
abbrev no_hash : List ℕ → Text
no_hash message = zeros

abbrev one_record : CompatibilityRecord
one_record = record {
  snapshot_hash = chars "80a49c7111088100a233b2ae788e1f48";
  snapshot_kind = full_aot;
  target_arch = arm64;
  features = chars "arm64" ∷ chars "product" ∷ [];
  feature_fingerprint = zeros;
  known_features = [];
  forbidden_features = chars "debug" ∷ [];
  sdk_aliases = [];
  parser_family = record { id = chars "aot"; version = none; sha256 = none };
  profile = record { id = chars "p"; path = chars "profiles/p.json"; sha256 = zeros };
  artifact = record {
    id = chars "a";
    variants =
        record {
          host_os = chars "linux";
          host_arch = chars "x86_64";
          path = chars "bin/a";
          size = 1;
          sha256 = zeros;
          provenance = chars "built";
        }
        ∷ [];
  };
  evidence = record { source = chars "s"; provenance = chars "p"; references = [] };
  trust_tier = verified;
  protocol_major = 1;
  model_major = 4;
}

abbrev registry : CompatibilityRegistry
registry = record { version = 1; records = one_record ∷ [] }

abbrev key : ExactSelectionKey
key = record {
  hash = chars "80a49c7111088100a233b2ae788e1f48";
  target_arch = arm64;
  features = chars "arm64" ∷ chars "product" ∷ [];
}

abbrev selected : RegistrySelection
selected = record { key = key; record_ = one_record }

accepted : validate_registry no_hash registry ≡ ok tt
unfolding validate_registry check_records validate_record check_identity check_features
    check_feature check_fingerprint check_record_parts validate_nonempty validate_relative_path
    check_variants check_variant check_aliases check_forbidden canonical_feature_fingerprint
    for_each trim trim_start split sort dedup
accepted = refl

abbrev snapshot : SnapshotIdentity
snapshot = record {
  hash = some (chars "80a49c7111088100a233b2ae788e1f48");
  hash_source = header;
  kind = some full_aot;
  target_arch = arm64;
  features = record { raw = none; normalized = chars "arm64" ∷ chars "product" ∷ [] };
  pointer_compression = compressed;
}

select_iff_example : (select no_hash registry snapshot ≡ ok selected) ↔ (
    (exact_selection_key snapshot ≡ ok key)
    × Memᴰ one_record registry.records
    × Matches key one_record
    × IsSupported one_record)
select_iff_example = select_iff no_hash registry snapshot selected accepted
