-- ===== src/Adapter/Validate/HostFacts.antt =====
-- crates/flutterdec-adapter/src/validate.rs: `check_host_facts`.
use flutterdec.Common.{
  ◌==◌, any, Result, Check, ◌>>=◌, ◌>>◌, fail_if, ok_or, for_each, nat_eq, ok, err, String, Bool,
  true, not, Option, none, some, List, ◌∷◌, [], ℕ_eq, List_eq, Option_eq, ℕ_order, Text_order,
}
use flutterdec.Loader.Identity.{SnapshotIdentity}
use flutterdec.Loader.Equality.{Kind_eq, Source_eq, Width_eq, Arch_eq}
use flutterdec.Adapter.Primitives.{digest_eq}
use flutterdec.Adapter.Model.{
  Trust_eq, Producer, CompatibilityBinding, Region_eq, InputRegion, region_of, ProgramModel,
}
use flutterdec.Adapter.Validate.Errors.{
  HostSelectedContext, ValidationError, host_fact_mismatch, region_mismatch, missing_region,
  unexpected_region,
}

-- `for (field, matches) in fields { if !matches { … } }`.
unfoldable pub check_fields : List (String × Bool) → Check ValidationError
check_fields fields = for_each (λ f. fail_if (not f.1) (host_fact_mismatch f.0)) fields

abbrev pub identity_fields : SnapshotIdentity → SnapshotIdentity → List (String × Bool)
identity_fields observed expected =
    ("snapshot hash", observed.hash == expected.hash)
    ∷ ("hash source", observed.hash_source == expected.hash_source)
    ∷ ("snapshot kind", observed.kind == expected.kind)
    ∷ ("target architecture", observed.target_arch == expected.target_arch)
    ∷ ("normalized features", observed.features.normalized == expected.features.normalized)
    ∷ ("raw features", observed.features.raw == expected.features.raw)
    ∷ ("pointer compression", observed.pointer_compression == expected.pointer_compression)
    ∷ []

abbrev pub producer_fields : Producer → Producer → List (String × Bool)
producer_fields observed expected =
    ("producer id", observed.id == expected.id)
    ∷ ("producer version", observed.version == expected.version)
    ∷ ("producer artifact digest", digest_eq observed.artifact_sha256 expected.artifact_sha256)
    ∷ ("producer trust", observed.trust == expected.trust)
    ∷ []

abbrev pub compatibility_fields :
    Option CompatibilityBinding
    → Option CompatibilityBinding
    → Result ValidationError (List (String × Bool))
compatibility_fields none none = ok (("", true) ∷ ("", true) ∷ ("", true) ∷ ("", true) ∷ [])
compatibility_fields (some observed) (some expected) = ok (
    ("compatibility record digest", digest_eq observed.record_sha256 expected.record_sha256)
    ∷ ("parser family", observed.parser_family_id == expected.parser_family_id)
    ∷ ("profile id", observed.profile_id == expected.profile_id)
    ∷ ("profile digest", digest_eq observed.profile_sha256 expected.profile_sha256)
    ∷ [])
compatibility_fields _ _ = err (host_fact_mismatch "compatibility binding presence")

abbrev pub compare_region : InputRegion → InputRegion → Check ValidationError
compare_region expected observed = do
  fail_if (not (nat_eq observed.size expected.size)) (region_mismatch expected.region "size")
  fail_if (not (digest_eq observed.sha256 expected.sha256))
      (region_mismatch expected.region "sha-256 digest")
  fail_if (not (observed.virtual_address == expected.virtual_address))
      (region_mismatch expected.region "virtual address")

unfoldable pub check_expected : List InputRegion → InputRegion → Check ValidationError
check_expected observed expected = do
  found ← ok_or (region_of observed expected.region) (missing_region expected.region)
  compare_region expected found

unfoldable pub check_observed : List InputRegion → InputRegion → Check ValidationError
check_observed expected observed =
    fail_if (not (any (λ r. r.region == observed.region) expected))
      (unexpected_region observed.region)

module _ {Extensions : Type 0} where
  unfoldable pub check_host_facts :
      ProgramModel Extensions → HostSelectedContext → Check ValidationError
  check_host_facts m host = do
    check_fields (identity_fields m.input.identity host.identity)
    check_fields (producer_fields m.producer host.producer)
    fields ← compatibility_fields m.compatibility host.compatibility
    check_fields fields
    for_each (check_expected m.input.regions) host.regions
    for_each (check_observed host.regions) m.input.regions
