-- ===== src/Adapter/Validate/Claims.antt =====
-- crates/flutterdec-adapter/src/validate.rs: `check_capabilities`.
use flutterdec.Common.{
  ◌==◌, any, Check, ◌>>◌, fail_if, for_each, is_some, is_none, Bool, true, false, not, ◌&&◌, Option,
  none, some, List, ◌∷◌, [], ℕ_eq, List_eq, Option_eq, ℕ_order, Text_order,
}
use flutterdec.Adapter.Model.{
  Provenance, heuristic, CapabilityLevel, is_complete, is_unavailable, Domain, libraries, classes,
  class_relationships, functions, function_names, object_pool, pool_index_space, all_domains,
  domain_name, Capabilities, level, Diagnostic, PoolIndexSpace, hardware, ordinal, PoolEntryKind,
  undecoded, PoolEntry, Library, Class, Function, ProgramModel, Name,
}
use flutterdec.Adapter.Validate.Errors.{
  ValidationError, capability_contradiction, unavailable_domain_without_diagnostic,
}

abbrev pub is_heuristic : Provenance → Bool
is_heuristic heuristic = true
is_heuristic _ = false

abbrev pub is_undecoded : PoolEntryKind → Bool
is_undecoded undecoded = true
is_undecoded _ = false

-- `!xs.is_empty()`.
abbrev pub has_any {ℓ} : {A : Type ℓ} → List A → Bool
has_any [] = false
has_any (x ∷ xs) = true

abbrev pub heuristic_name : Option Name → Bool
heuristic_name none = false
heuristic_name (some n) = is_heuristic n.provenance

unfoldable pub check_library_claims : Capabilities → List Library → Check ValidationError
check_library_claims caps ls = do
  fail_if (is_unavailable caps.libraries && has_any ls)
      (capability_contradiction libraries "libraries are present")
  fail_if (is_complete caps.libraries && any (λ l. is_heuristic l.provenance) ls)
      (capability_contradiction libraries "a complete domain contains heuristic records")

unfoldable pub check_class_claims : Capabilities → List Class → Check ValidationError
check_class_claims caps cs = do
  fail_if (is_unavailable caps.classes && has_any cs)
      (capability_contradiction classes "classes are present")
  fail_if (is_complete caps.classes && any (λ c. is_heuristic c.provenance) cs)
      (capability_contradiction classes "a complete domain contains heuristic records")
  fail_if (is_unavailable caps.classes && not (is_unavailable caps.class_relationships)) (
      capability_contradiction class_relationships
        "relationships are claimed while classes are unavailable")
  fail_if (is_unavailable caps.class_relationships && any (λ c. is_some c.super_class) cs)
      (capability_contradiction class_relationships "superclass edges are present")

unfoldable pub check_function_claims : Capabilities → List Function → Check ValidationError
check_function_claims caps fs = do
  fail_if (is_unavailable caps.functions && has_any fs)
      (capability_contradiction functions "functions are present")
  fail_if (is_complete caps.functions && any (λ f. is_heuristic f.provenance) fs)
      (capability_contradiction functions "a complete domain contains heuristic records")
  fail_if (is_unavailable caps.functions && not (is_unavailable caps.function_names))
      (capability_contradiction function_names "names are claimed while functions are unavailable")
  fail_if (is_unavailable caps.function_names && any (λ f. is_some f.name) fs)
      (capability_contradiction function_names "names are present")
  fail_if (is_complete caps.function_names && any (λ f. is_none f.name) fs)
      (capability_contradiction function_names "a complete domain leaves functions unnamed")
  fail_if (is_complete caps.function_names && any (λ f. heuristic_name f.name) fs)
      (capability_contradiction function_names "a complete domain contains heuristic names")

unfoldable pub check_pool_claims : Capabilities → List PoolEntry → Check ValidationError
check_pool_claims caps es = do
  fail_if (is_unavailable caps.object_pool && has_any es)
      (capability_contradiction object_pool "pool entries are present")
  fail_if (is_complete caps.object_pool && any (λ e. is_heuristic e.provenance) es)
      (capability_contradiction object_pool "a complete domain contains heuristic entries")
  fail_if (is_complete caps.object_pool && any (λ e. is_undecoded e.kind) es)
      (capability_contradiction object_pool "a complete domain contains undecoded entries")
  fail_if (is_unavailable caps.object_pool && not (is_unavailable caps.pool_index_space)) (
      capability_contradiction pool_index_space
        "an index space is claimed while the pool is unavailable")

-- `match pool.index_space`.
unfoldable pub check_index_space : PoolIndexSpace → Bool → CapabilityLevel → Check ValidationError
check_index_space hardware has_geometry claimed = do
  fail_if (not has_geometry) (
      capability_contradiction pool_index_space
        "hardware indexes are claimed without pool geometry")
  fail_if (is_unavailable claimed) (
      capability_contradiction pool_index_space
        "hardware indexes are claimed while the index space is unavailable")
check_index_space ordinal has_geometry claimed = do
  fail_if has_geometry
      (capability_contradiction pool_index_space "geometry is present but indexes are only ordinal")
  fail_if (not (is_unavailable claimed)) (
      capability_contradiction pool_index_space
        "ordinal indexes carry no address meaning, so the index space is unavailable")

abbrev pub is_explained : List Diagnostic → Domain → Bool
is_explained diagnostics domain = any (λ d. d.subject == some (domain_name domain)) diagnostics

unfoldable pub check_explained : Capabilities → List Diagnostic → Domain → Check ValidationError
check_explained caps diagnostics domain =
    fail_if (is_unavailable (level caps domain) && not (is_explained diagnostics domain))
      (unavailable_domain_without_diagnostic domain)

module _ {Extensions : Type 0} where
  unfoldable pub check_capabilities : ProgramModel Extensions → Check ValidationError
  check_capabilities m = do
    check_library_claims m.capabilities m.libraries
    check_class_claims m.capabilities m.classes
    check_function_claims m.capabilities m.functions
    check_pool_claims m.capabilities m.object_pool.entries
    check_index_space m.object_pool.index_space (is_some m.object_pool.geometry)
        m.capabilities.pool_index_space
    for_each (check_explained m.capabilities m.diagnostics) all_domains
