-- ===== src/Tests/Models.antt =====
-- Validation at the sample model.

use mathlib.Core.List.Memᴰ
use flutterdec.Common.{
  insert_all, All, for_each, IsAscending, trim, u64_mod, ok, ℕ, ◌<◌, ◌≡◌, refl, ◌↔◌, inl, inr, Bool,
  true, some, List, ◌∷◌, Memᴰ, arith, [], ℕ_eq, List_eq, Option_eq, ℕ_order, Text_order,
}
use flutterdec.Adapter.Model.{
  LibraryId, Library, class_of, library_of, owner_name, owner_library_uri, InputRegion,
  is_executable, contains_address, contains_range, displacement_for_index, index_for_displacement,
  region_end_va, PoolGeometry, Class, Function, PoolEntry,
}
use flutterdec.Adapter.Model.Geometry.{displacement_index_iff}
use flutterdec.Adapter.Validate.{
  check_region, check_fields, check_expected, check_observed, non_empty, not_placeholder,
  is_placeholder, check_binding_strings, check_library_strings, check_function_strings,
  check_entry_strings, check_one_confidence, check_function_confidence, check_distinct, check_order,
  check_class_references, check_owner, check_chain, check_library_claims, check_class_claims,
  check_function_claims, check_pool_claims, check_index_space, check_explained, check_layout,
  check_function_addresses, check_shape, check_entry_addresses, validate, check_regions,
  check_host_facts, check_strings, check_confidence, check_identity_and_order, check_references,
  check_capabilities, check_geometry, check_addresses, walks_back, walk_fuel,
}
use flutterdec.Adapter.Validate.Accepted.{IsAccepted, validate_iff}
use flutterdec.Adapter.Validate.Guarantees.{owner_named, code_in_host, entry_displacement}
use flutterdec.Adapter.Validate.RegionTable.{IsRegion, ranks, check_regions_iff}
use flutterdec.Adapter.Validate.HostAgreement.{AgreesWithHost, check_host_facts_iff}
use flutterdec.Adapter.Validate.Acyclic.{IsAcyclic, walk_terminates}
use flutterdec.Adapter.Validate.References.{IsResolved, check_references_iff}
use flutterdec.Adapter.Validate.Honesty.{IsHonest, check_capabilities_iff}
use flutterdec.Adapter.Validate.Identifiers.{IsCanonical, check_identity_and_order_iff}
use flutterdec.Adapter.Validate.PoolLayout.{IsLaidOut, check_geometry_iff}
use flutterdec.Adapter.Validate.CodeSafety.{IsInSection, IsPointing, check_addresses_iff}
use flutterdec.Tests.Samples.{
  model, host, regions, function, entry, geometry, base_class, sub_class,
}

accepted : validate model host ≡ ok tt
unfolding validate insert_all check_regions check_region region_end_va check_fields check_expected
    check_observed non_empty not_placeholder is_placeholder check_binding_strings
    check_library_strings check_function_strings check_entry_strings check_one_confidence
    check_function_confidence check_distinct check_order check_class_references check_owner
    walks_back check_chain check_library_claims check_class_claims check_function_claims
    check_pool_claims check_index_space check_explained check_layout check_function_addresses
    check_shape check_entry_addresses contains_range contains_address displacement_for_index trim
    for_each check_host_facts check_strings check_confidence check_identity_and_order
    check_references check_capabilities check_geometry check_addresses
accepted = refl

-- A class that is its own superclass is found out.
abbrev looped : List Class
looped = record base_class { super_class = some 1 } ∷ sub_class ∷ []

cycle_found : walks_back looped (walk_fuel looped) (2 ∷ []) (some 1) ≡ some true
unfolding walks_back
cycle_found = refl

validate_iff_example : (validate model host ≡ ok tt) ↔ IsAccepted model host
validate_iff_example = validate_iff model host

code_in_host_example :
    (e : InputRegion) × Memᴰ e regions
    × (is_executable e.region ≡ true)
    × (e.virtual_address ≡ some 8192)
    × (contains_address e 8210 ≡ true)
code_in_host_example =
    code_in_host model host accepted function 8210 (Memᴰ.head refl) (omega arith) (omega arith)

entry_displacement_example :
    (d : ℕ) × (d < u64_mod)
    × (displacement_for_index geometry 3 ≡ some d)
    × (index_for_displacement geometry d ≡ some 3)
entry_displacement_example =
    entry_displacement model host accepted geometry entry refl (Memᴰ.head refl)

walk_terminates_example :
    (b : Bool) × (walks_back looped (walk_fuel looped) (2 ∷ []) (some 1) ≡ some b)
walk_terminates_example = walk_terminates looped 2 (some 1)

check_references_iff_example :
    (check_references model ≡ ok tt) ↔ (IsResolved model × IsAcyclic model.classes)
check_references_iff_example = check_references_iff model (
  λ m. elim (Memᴰ.cases_cons m) [ inl e ↦ omega arith | inr n ↦ Memᴰ.not-nil n ],
  (Memᴰ.not-nil, tt),
)

check_regions_iff_example :
    (check_regions regions ≡ ok tt) ↔ (IsAscending (ranks regions) × All IsRegion regions)
check_regions_iff_example = check_regions_iff regions

region_table : check_regions regions ≡ ok tt
unfolding check_regions check_region insert_all region_end_va
region_table = refl

check_identity_and_order_iff_example : (check_identity_and_order model ≡ ok tt) ↔ IsCanonical model
check_identity_and_order_iff_example = check_identity_and_order_iff model

check_host_facts_iff_example : (check_host_facts model host ≡ ok tt) ↔ AgreesWithHost model host
check_host_facts_iff_example = check_host_facts_iff model host

check_capabilities_iff_example : (check_capabilities model ≡ ok tt) ↔ IsHonest model
check_capabilities_iff_example = check_capabilities_iff model

check_addresses_iff_example : (check_addresses model ≡ ok tt) ↔ (
    ((f : Function) → Memᴰ f model.functions → IsInSection regions f)
    × ((e : PoolEntry) → Memᴰ e model.object_pool.entries → IsPointing regions e))
check_addresses_iff_example = check_addresses_iff model

check_geometry_iff_example :
    (check_geometry model.object_pool ≡ ok tt)
    ↔ ((g : PoolGeometry) → some geometry ≡ some g → IsLaidOut (entry ∷ []) g)
check_geometry_iff_example = check_geometry_iff model.object_pool

displacement_index_iff_example :
    (displacement_for_index geometry 3 ≡ some 40) ↔ (index_for_displacement geometry 40 ≡ some 3)
displacement_index_iff_example = displacement_index_iff geometry 3 40 (omega arith) (omega arith)

owner_named_example :
    (c : Class) × (class_of model.classes 2 ≡ some c)
    × (owner_name model function ≡ some c.name)
    × ((l : LibraryId)
        → c.library ≡ some l
        → (k : Library) × (library_of model.libraries l ≡ some k)
          × (owner_library_uri model function ≡ some k.uri))
owner_named_example = owner_named model host accepted function 2 (Memᴰ.head refl) refl
