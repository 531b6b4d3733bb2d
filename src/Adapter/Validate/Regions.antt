-- ===== src/Adapter/Validate/Regions.antt =====
-- crates/flutterdec-adapter/src/validate.rs: `check_regions`.
use flutterdec.Common.{
  insert_all, any_adjacent, Check, ◌>>=◌, ◌>>◌, fail_if, leb, is_some, is_none, differ, Bool, ◌&&◌,
  List, [], ℕ_eq, List_eq, Option_eq, ℕ_order, Text_order,
}
use flutterdec.Adapter.Model.{is_executable, region_rank, Region_eq, InputRegion, region_end_va}
use flutterdec.Adapter.Validate.Errors.{
  ValidationError, duplicate_region, region_executability_mismatch, region_address_mismatch,
  region_overflows, noncanonical_order,
}

-- The body of the loop, after the insertion into `seen`.
unfoldable pub check_region : InputRegion → Check ValidationError
check_region r = do
  fail_if (differ r.executable (is_executable r.region)) (region_executability_mismatch r.region)
  fail_if (differ r.executable (is_some r.virtual_address)) (region_address_mismatch r.region)
  fail_if (r.executable && is_none (region_end_va r)) (region_overflows r.region)

abbrev pub out_of_order : InputRegion → InputRegion → Bool
out_of_order a b = leb (region_rank b.region) (region_rank a.region)

unfoldable pub check_regions : List InputRegion → Check ValidationError
check_regions regions = do
  seen ← insert_all (λ r. r.region) (λ r. duplicate_region r.region) check_region [] regions
  fail_if (any_adjacent out_of_order regions) (noncanonical_order "input regions")
