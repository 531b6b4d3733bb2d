-- ===== src/Adapter/Validate/Errors.antt =====
-- crates/flutterdec-adapter/src/validate.rs: the host's view, and the errors of a validation.
use flutterdec.Common.{Text, ℕ, String, Option, List, ℕ_eq, List_eq, Option_eq, ℕ_order, Text_order}
use flutterdec.Loader.Identity.{SnapshotIdentity}
use flutterdec.Adapter.Model.{
  Provenance, Domain, Producer, CompatibilityBinding, InputRegionName, InputRegion,
}

pub record HostSelectedContext : Type 0 where
  pub identity : SnapshotIdentity
  pub producer : Producer
  pub compatibility : Option CompatibilityBinding
  pub regions : List InputRegion

-- A `&'static str` field is a `String`, and a `String` field a `Text`.
pub data ValidationError : Type 0 where
  unsupported_model_version : ℕ → ValidationError
  host_fact_mismatch : String → ValidationError
  region_mismatch : InputRegionName → String → ValidationError
  missing_region unexpected_region duplicate_region region_executability_mismatch
        region_address_mismatch region_overflows :
      InputRegionName → ValidationError
  empty_field : String → ValidationError
  placeholder_name : String → Text → ValidationError
  confidence_without_heuristic_provenance : String → Provenance → ValidationError
  confidence_out_of_range : String → ℕ → ValidationError
  duplicate_library_id duplicate_class_id duplicate_function_id duplicate_pool_index :
      ℕ → ValidationError
  noncanonical_order : String → ValidationError
  missing_library_reference missing_super_class_reference missing_owner_reference :
      ℕ → ℕ → ValidationError
  super_class_cycle : ℕ → ValidationError
  capability_contradiction : Domain → String → ValidationError
  unavailable_domain_without_diagnostic : Domain → ValidationError
  empty_code_range : ℕ → ValidationError
  address_overflow : String → ℕ → ValidationError
  code_range_outside_executable_regions : ℕ → ℕ → ℕ → ValidationError
  code_section_mismatch pool_target_outside_executable_regions : ℕ → ℕ → ValidationError
  pool_entry_shape : ℕ → String → ValidationError
  pool_geometry : String → ValidationError
  pool_index_out_of_bounds : ℕ → ValidationError
