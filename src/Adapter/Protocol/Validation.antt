-- ===== src/Adapter/Protocol/Validation.antt =====
-- crates/flutterdec-adapter/src/protocol.rs: `AdapterRequest::validate`, `AdapterResult::validate`
-- and `validate_against`.
use flutterdec.Common.{
  ◌==◌, contains, insert_all, find?, Result, Check, ◌>>=◌, ◌>>◌, fail_if, for_each, Text, nat_eq,
  if◌then◌else◌, is_some, is_none, differ, checked_add, ok, ℕ, Bool, true, false, not, ◌&&◌, Option,
  none, some, List, [], ℕ_eq, List_eq, Option_eq, ℕ_order, Text_order,
}
use flutterdec.Adapter.Model.{InputRegionName, all_regions, is_executable, Region_eq, model_major}
use flutterdec.Adapter.Protocol.Documents.{
  protocol_major, BackendId, Backend_eq, fixed_backend, InputHandle, AdapterRequest, AdapterStatus,
  AdapterResult, ProtocolError, unsupported_protocol_major, unsupported_model_major,
  duplicate_region, missing_region, region_executability_mismatch, region_address_mismatch,
  region_overflows, empty_region, aliased_path, status_payload_mismatch,
  resolved_backend_payload_mismatch, backend_substituted, fallback_without_auto,
}

-- The body of the loop over the inputs, after the insertion into `seen`.
abbrev pub check_overflow : InputHandle → Option ℕ → Check ProtocolError
check_overflow i none = ok tt
check_overflow i (some base) =
    fail_if (is_none (checked_add base i.size)) (region_overflows i.region)

unfoldable pub check_handle : InputHandle → Check ProtocolError
check_handle i = do
  fail_if (differ i.executable (is_executable i.region)) (region_executability_mismatch i.region)
  fail_if (differ i.executable (is_some i.virtual_address)) (region_address_mismatch i.region)
  fail_if (nat_eq i.size 0) (empty_region i.region)
  check_overflow i i.virtual_address

-- The loop over the inputs, which leaves the set `seen`.
abbrev pub check_inputs : List InputHandle → Result ProtocolError (List InputRegionName)
check_inputs inputs =
    insert_all (λ i. i.region) (λ i. duplicate_region i.region) check_handle [] inputs

unfoldable pub check_present : List InputRegionName → Check ProtocolError
check_present seen =
    for_each (λ region. fail_if (not (contains seen region)) (missing_region region)) all_regions

-- The second loop, which leaves the set `paths`.
abbrev pub check_paths : List InputHandle → Result ProtocolError (List Text)
check_paths inputs =
    insert_all (λ i. i.path.text) (λ i. aliased_path i.path.text) (λ i. ok tt) [] inputs

abbrev pub check_majors_are : ℕ → ℕ → Check ProtocolError
check_majors_are protocol model = do
  fail_if (not (nat_eq protocol protocol_major)) (unsupported_protocol_major protocol)
  fail_if (not (nat_eq model model_major)) (unsupported_model_major model)

unfoldable pub validate_request : AdapterRequest → Check ProtocolError
validate_request r = do
  check_majors_are r.protocol_major r.model_major
  seen ← check_inputs r.inputs
  check_present seen
  paths ← check_paths r.inputs
  fail_if (contains paths r.output.text) (aliased_path r.output.text)

-- `AdapterRequest::input`.
abbrev pub input_of : AdapterRequest → InputRegionName → Option InputHandle
input_of r region = find? (λ i. i.region == region) r.inputs

abbrev pub is_ok : AdapterStatus → Bool
is_ok AdapterStatus.ok = true
is_ok _ = false

abbrev pub is_consistent : AdapterResult → Bool
is_consistent r =
    if is_ok r.status
    then (is_some r.model && is_none r.error)
    else (is_none r.model && is_some r.error)

unfoldable pub validate_result : AdapterResult → Check ProtocolError
validate_result r = do
  check_majors_are r.protocol_major r.model_major
  fail_if (not (is_consistent r)) status_payload_mismatch
  fail_if (differ (is_some r.resolved_backend) (is_ok r.status)) resolved_backend_payload_mismatch

abbrev pub check_pinned : Option BackendId → Option BackendId → Check ProtocolError
check_pinned (some requested) (some resolved) =
    fail_if (not (requested == resolved)) (backend_substituted requested resolved)
check_pinned _ _ = ok tt

unfoldable pub validate_against : AdapterResult → AdapterRequest → Check ProtocolError
validate_against r request = do
  validate_result r
  check_pinned (fixed_backend request.requested_backend) r.resolved_backend
  fail_if (is_some r.fallback_reason && is_some (fixed_backend request.requested_backend))
      fallback_without_auto
