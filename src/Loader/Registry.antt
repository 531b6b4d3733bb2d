-- ===== src/Loader/Registry.antt =====
-- crates/flutterdec-loader/src/registry.rs: the records of the compatibility registry, their checks
-- and the exact selection of one. The SHA-256 of bytes, written in hexadecimal, is a parameter.
pub mod Selection
use flutterdec.Common.{
  ◌==◌, contains, length, any, all, keep, Result, Check, ◌>>=◌, ◌>>◌, fail_if, for_each, sort,
  dedup, split, join, Text, chars, bytes, is_empty, contains_char, trim, to_ascii_lowercase, leb,
  nat_eq, if◌then◌else◌, ok, err, ℕ, String, Bool, false, not, ◌&&◌, ◌||◌, Option, none, some, List,
  ◌∷◌, ◌++◌, map, [], ℕ_eq, List_eq, Option_eq, ℕ_order, Text_order,
}
use flutterdec.Loader.Identity.{
  SnapshotKind, full_aot, TargetArch, arch_name, SnapshotIdentity, IdentityRejection,
  ExactSelectionKey, exact_selection_key,
}
use flutterdec.Loader.Equality.{Kind_eq, Arch_eq}

pub record ParserFamilyReference : Type 0 where
  pub id : Text
  pub version : Option Text
  pub sha256 : Option Text

pub record ProfileReference : Type 0 where
  pub id : Text
  pub path : Text
  pub sha256 : Text

pub record HostArtifactVariant : Type 0 where
  pub host_os : Text
  pub host_arch : Text
  pub path : Text
  pub size : ℕ
  pub sha256 : Text
  pub provenance : Text

pub record ArtifactReference : Type 0 where
  pub id : Text
  pub variants : List HostArtifactVariant

pub record CompatibilityEvidence : Type 0 where
  pub source : Text
  pub provenance : Text
  pub references : List Text

pub data TrustTier : Type 0 where
  verified experimental : TrustTier

-- crates/flutterdec-loader/src/dart_profile.rs: `SdkAlias`.
pub record SdkAlias : Type 0 where
  pub ecosystem : Text
  pub version : Text
  pub provenance : Text

pub record CompatibilityRecord : Type 0 where
  pub snapshot_hash : Text
  pub snapshot_kind : SnapshotKind
  pub target_arch : TargetArch
  pub features : List Text
  pub feature_fingerprint : Text
  pub known_features : List Text
  pub forbidden_features : List Text
  pub sdk_aliases : List SdkAlias
  pub parser_family : ParserFamilyReference
  pub profile : ProfileReference
  pub artifact : ArtifactReference
  pub evidence : CompatibilityEvidence
  pub trust_tier : TrustTier
  pub protocol_major : ℕ
  pub model_major : ℕ

pub record CompatibilityRegistry : Type 0 where
  pub version : ℕ
  pub records : List CompatibilityRecord

pub record RegistrySelection : Type 0 where
  pub key : ExactSelectionKey
  pub record_ : CompatibilityRecord

-- The messages of `InvalidRecord`.
pub data RecordFault : Type 0 where
  hash_not_hex : Text → RecordFault
  kind_not_full_aot : RecordFault
  is_empty_field : Text → RecordFault
  feature_not_normalized : Text → RecordFault
  features_not_sorted : RecordFault
  fingerprint_differs : RecordFault
  expected_and_forbidden : Text → RecordFault
  digest_malformed : Text → RecordFault
  path_not_contained : Text → RecordFault
  size_is_zero : RecordFault
  duplicate_host : Text → Text → RecordFault
  duplicate_alias : RecordFault
  majors_differ : ℕ → ℕ → RecordFault

-- The errors of the functions that are modelled.
pub data RegistryError : Type 0 where
  unsupported_version : ℕ → RegistryError
  identity : IdentityRejection → RegistryError
  no_record : Text → RegistryError
  target_mismatch : Text → RegistryError
  feature_mismatch : List Text → List Text → List Text → RegistryError
  ambiguous_key : Text → RegistryError
  ambiguous_matches : ℕ → RegistryError
  invalid_record : RecordFault → RegistryError

abbrev pub registry_version : ℕ
registry_version = 1

abbrev is_lower_hex : ℕ → Bool
is_lower_hex b = leb b'0' b && leb b b'9' || leb b'a' b && leb b b'f'

abbrev pub valid_digest : Text → Bool
valid_digest text = nat_eq (length (bytes text)) 64 && all is_lower_hex (bytes text)

-- `Path::is_absolute` and the components that climb or stay, on a path with `/` as separator.
abbrev pub climbs : List Text → Bool
climbs [] = false
climbs (first ∷ rest) = first == chars "." || any (λ c. c == chars "..") (first ∷ rest)

abbrev pub is_absolute : Text → Bool
is_absolute [] = false
is_absolute (c ∷ cs) = nat_eq c b'/'

unfoldable pub validate_relative_path : Text → Check RegistryError
unfolding split
validate_relative_path text = do
  fail_if (is_empty text || contains_char 92 text || contains_char 0 text)
      (invalid_record (path_not_contained text))
  fail_if (is_absolute text || climbs (split b'/' text)) (invalid_record (path_not_contained text))

unfoldable pub validate_nonempty : String → Text → Check RegistryError
unfolding trim
validate_nonempty field value =
    fail_if (is_empty (trim value)) (invalid_record (is_empty_field (chars field)))

unfoldable pub check_feature : Text → Check RegistryError
check_feature feature =
    fail_if (is_empty feature || not (feature == to_ascii_lowercase feature))
      (invalid_record (feature_not_normalized feature))

unfoldable pub check_forbidden : List Text → Text → Check RegistryError
unfolding validate_nonempty
check_forbidden features feature = do
  validate_nonempty "forbidden feature" feature
  fail_if (contains features feature) (invalid_record (expected_and_forbidden feature))

abbrev pub check_family_digest : Option Text → Check RegistryError
check_family_digest none = ok tt
check_family_digest (some digest) =
    fail_if (not (valid_digest digest)) (invalid_record (digest_malformed (chars "parser family")))

-- One round of the loop over the variants, before the host is inserted.
unfoldable pub check_variant : HostArtifactVariant → Check RegistryError
unfolding validate_nonempty validate_relative_path
check_variant v = do
  validate_nonempty "artifact host OS" v.host_os
  validate_nonempty "artifact host architecture" v.host_arch
  validate_relative_path v.path
  fail_if (nat_eq v.size 0) (invalid_record size_is_zero)
  fail_if (not (valid_digest v.sha256)) (invalid_record (digest_malformed (chars "artifact")))
  validate_nonempty "artifact provenance" v.provenance

-- The loop itself; `hosts` is the set.
unfoldable pub check_variants : List (List Text) → List HostArtifactVariant → Check RegistryError
unfolding check_variant
check_variants hosts [] = ok tt
check_variants hosts (v ∷ vs) =
    let rest = check_variants ((v.host_os ∷ v.host_arch ∷ []) ∷ hosts) vs in
    do
      check_variant v
      fail_if (contains hosts (v.host_os ∷ v.host_arch ∷ []))
          (invalid_record (duplicate_host v.host_os v.host_arch))
      rest

unfoldable pub check_aliases : List (List Text) → List SdkAlias → Check RegistryError
unfolding validate_nonempty
check_aliases aliases [] = ok tt
check_aliases aliases (a ∷ more) =
    let rest = check_aliases ((a.ecosystem ∷ a.version ∷ a.provenance ∷ []) ∷ aliases) more in
    do
      validate_nonempty "SDK alias ecosystem" a.ecosystem
      validate_nonempty "SDK alias version" a.version
      validate_nonempty "SDK alias provenance" a.provenance
      fail_if (contains aliases (a.ecosystem ∷ a.version ∷ a.provenance ∷ []))
          (invalid_record duplicate_alias)
      rest

-- The tokens that a record expects and the snapshot does not have, and the other way round.
abbrev pub missing_features : List Text → List Text → List Text
missing_features expected present = keep (λ f. not (contains present f)) expected

abbrev pub forbidden_in : CompatibilityRecord → List Text → List Text
forbidden_in r present =
    keep
      (λ f.
        contains r.forbidden_features f
        || contains r.known_features f && not (contains r.features f))
      present

abbrev pub unknown_in : CompatibilityRecord → List Text → List Text
unknown_in r present =
    keep (λ f. not (contains r.features f) && not (contains (forbidden_in r present) f)) present

module _ (sha256_hex : List ℕ → Text) where
  unfoldable pub canonical_feature_fingerprint : List Text → Text
  unfolding sort dedup
  canonical_feature_fingerprint features =
      sha256_hex (bytes (join b'\n' (dedup (sort (map to_ascii_lowercase features)))))

  -- The first three checks of `validate`: hash, kind and target.
  unfoldable pub check_identity : CompatibilityRecord → Check RegistryError
  unfolding validate_nonempty
  check_identity r = do
    fail_if
        (not (nat_eq (length (bytes r.snapshot_hash)) 32)
          || not (all is_lower_hex (bytes r.snapshot_hash)))
        (invalid_record (hash_not_hex r.snapshot_hash))
    fail_if (not (r.snapshot_kind == full_aot)) (invalid_record kind_not_full_aot)
    validate_nonempty "target architecture" (arch_name r.target_arch)

  unfoldable pub check_features : CompatibilityRecord → Check RegistryError
  unfolding sort dedup for_each check_feature
  check_features r = do
    for_each check_feature r.features
    fail_if (not (dedup (sort r.features) == r.features)) (invalid_record features_not_sorted)

  unfoldable pub check_fingerprint : CompatibilityRecord → Check RegistryError
  unfolding canonical_feature_fingerprint
  check_fingerprint r =
      fail_if
        (not (r.feature_fingerprint == canonical_feature_fingerprint r.features)
          || not (valid_digest r.feature_fingerprint))
        (invalid_record fingerprint_differs)

  -- The checks after the fingerprint.
  unfoldable pub check_record_parts : CompatibilityRecord → Check RegistryError
  unfolding for_each validate_nonempty validate_relative_path check_forbidden check_variants
      check_aliases
  check_record_parts r = do
    for_each (validate_nonempty "known feature") r.known_features
    for_each (check_forbidden r.features) r.forbidden_features
    validate_nonempty "parser family id" r.parser_family.id
    check_family_digest r.parser_family.sha256
    validate_nonempty "profile id" r.profile.id
    validate_relative_path r.profile.path
    fail_if (not (valid_digest r.profile.sha256))
        (invalid_record (digest_malformed (chars "profile")))
    validate_nonempty "artifact id" r.artifact.id
    validate_nonempty "evidence source" r.evidence.source
    validate_nonempty "evidence provenance" r.evidence.provenance
    check_variants [] r.artifact.variants
    check_aliases [] r.sdk_aliases

  unfoldable pub validate_record : CompatibilityRecord → Check RegistryError
  unfolding check_identity check_features check_fingerprint check_record_parts
  validate_record r = do
    check_identity r
    check_features r
    check_fingerprint r
    check_record_parts r

  -- `format!("{}|{}|{}", …)`.
  abbrev pub record_key : CompatibilityRecord → Text
  record_key r = r.snapshot_hash ++ b'|' ∷ arch_name r.target_arch ++ b'|' ∷ r.feature_fingerprint

  unfoldable pub check_records : List Text → List CompatibilityRecord → Check RegistryError
  unfolding validate_record
  check_records keys [] = ok tt
  check_records keys (r ∷ rs) =
      let rest = check_records (record_key r ∷ keys) rs in
      do
        validate_record r
        fail_if (contains keys (record_key r)) (ambiguous_key (record_key r))
        rest

  unfoldable pub validate_registry : CompatibilityRegistry → Check RegistryError
  unfolding check_records
  validate_registry registry = do
    fail_if (not (nat_eq registry.version registry_version)) (unsupported_version registry.version)
    check_records [] registry.records

  abbrev pub is_exact_match : ExactSelectionKey → CompatibilityRecord → Bool
  is_exact_match key r =
      r.features == key.features
      && r.feature_fingerprint == canonical_feature_fingerprint key.features

  -- What follows the filters, on the records of the hash and the target.
  unfoldable pub choose :
      ExactSelectionKey
      → CompatibilityRecord
      → List CompatibilityRecord
      → Result RegistryError RegistrySelection
  choose key expected [] = err (
      feature_mismatch (missing_features expected.features key.features)
        (forbidden_in expected key.features) (unknown_in expected key.features))
  choose key expected (r ∷ []) =
      if not (nat_eq r.protocol_major 1) || not (nat_eq r.model_major 4)
      then err (invalid_record (majors_differ r.protocol_major r.model_major))
      else ok (record { key = key; record_ = r })
  choose key expected (r ∷ s ∷ rest) = err (ambiguous_matches (length (r ∷ s ∷ rest)))

  unfoldable pub select_target :
      ExactSelectionKey → List CompatibilityRecord → Result RegistryError RegistrySelection
  unfolding choose canonical_feature_fingerprint
  select_target key [] = err (target_mismatch (arch_name key.target_arch))
  select_target key (r ∷ rs) = choose key r (keep (is_exact_match key) (r ∷ rs))

  unfoldable pub select_hash :
      ExactSelectionKey → List CompatibilityRecord → Result RegistryError RegistrySelection
  unfolding select_target
  select_hash key [] = err (no_record key.hash)
  select_hash key (r ∷ rs) =
      select_target key
        (keep (λ (s : CompatibilityRecord). s.target_arch == key.target_arch) (r ∷ rs))

  unfoldable pub select_key :
      CompatibilityRegistry → ExactSelectionKey → Result RegistryError RegistrySelection
  unfolding select_hash
  select_key registry key =
      select_hash key
        (keep (λ (r : CompatibilityRecord). r.snapshot_hash == key.hash) registry.records)

  abbrev pub or_identity :
      Result IdentityRejection ExactSelectionKey → Result RegistryError ExactSelectionKey
  or_identity (ok key) = ok key
  or_identity (err e) = err (identity e)

  unfoldable pub select :
      CompatibilityRegistry → SnapshotIdentity → Result RegistryError RegistrySelection
  unfolding select_key
  select registry snapshot =
      or_identity (exact_selection_key snapshot) >>= λ key. select_key registry key
