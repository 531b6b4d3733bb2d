-- ===== src/Adapter/Protocol/Documents.antt =====
-- crates/flutterdec-adapter/src/protocol.rs: the types of the request and the result, and their
-- constructors.
use flutterdec.Common.{
  Eq, ◌==◌, Text, chars, nat_eq, if◌then◌else◌, ℕ, ◌≡◌, ◌↔◌, Bool, true, Option, none, some, List,
  arith, [], ℕ_eq, List_eq, Option_eq, ℕ_order, Text_order,
}
use flutterdec.Loader.Identity.{SnapshotIdentity}
use flutterdec.Adapter.Primitives.{Sha256Digest, RelativePath}
use flutterdec.Adapter.Model.{
  InputRegionName, Producer, CompatibilityBinding, Diagnostic, model_major,
}

abbrev pub protocol_major : ℕ
protocol_major = 1

pub data BackendId : Type 0 where
  internal blutter r2flutter : BackendId

abbrev pub backend_name : BackendId → Text
backend_name internal = chars "internal"
backend_name blutter = chars "blutter"
backend_name r2flutter = chars "r2flutter"

abbrev pub backend_rank : BackendId → ℕ
backend_rank internal = 0
backend_rank blutter = 1
backend_rank r2flutter = 2

pub backend_eq_iff : (a b : BackendId) → (nat_eq (backend_rank a) (backend_rank b) ≡ true) ↔ (a ≡ b)
backend_eq_iff a b = ground arith

instance abbrev pub Backend_eq : Eq BackendId
Backend_eq = record {
  beq = λ a b. nat_eq (backend_rank a) (backend_rank b);
  beq_iff = backend_eq_iff;
}

pub data RequestedBackend : Type 0 where
  auto : RequestedBackend
  fixed : BackendId → RequestedBackend

unfoldable pub requested_name : RequestedBackend → Text
requested_name auto = chars "auto"
requested_name (fixed backend) = backend_name backend

unfoldable pub parse_requested : Text → Option RequestedBackend
parse_requested text =
    if text == chars "auto"
    then some auto
    else if text == chars "internal"
    then some (fixed internal)
    else if text == chars "blutter"
    then some (fixed blutter)
    else if text == chars "r2flutter"
    then some (fixed r2flutter)
    else none

abbrev pub fixed_backend : RequestedBackend → Option BackendId
fixed_backend auto = none
fixed_backend (fixed backend) = some backend

pub data FallbackReason : Type 0 where
  backend_unavailable backend_failed : FallbackReason

pub record InputHandle : Type 0 where
  pub region : InputRegionName
  pub path : RelativePath
  pub size : ℕ  -- u64
  pub sha256 : Sha256Digest
  pub virtual_address : Option ℕ  -- u64
  pub executable : Bool

pub record AdapterRequest : Type 0 where
  pub protocol_major : ℕ  -- u32
  pub model_major : ℕ  -- u32
  pub compatibility : CompatibilityBinding
  pub producer : Producer
  pub identity : SnapshotIdentity
  pub requested_backend : RequestedBackend
  pub inputs : List InputHandle
  pub output : RelativePath

pub data AdapterStatus : Type 0 where
  ok unsupported failed : AdapterStatus

pub data AdapterErrorCode : Type 0 where
  unsupported_protocol unsupported_model_version unsupported_snapshot input_missing
        input_digest_mismatch identity_mismatch parse_failed output_write_failed internal :
      AdapterErrorCode

pub record AdapterError : Type 0 where
  pub code : AdapterErrorCode
  pub message : Text

pub record AdapterResult : Type 0 where
  pub protocol_major : ℕ  -- u32
  pub model_major : ℕ  -- u32
  pub status : AdapterStatus
  pub model : Option RelativePath
  pub error : Option AdapterError
  pub resolved_backend : Option BackendId
  pub fallback_reason : Option FallbackReason
  pub diagnostics : List Diagnostic

unfoldable pub ok_result :
    RelativePath → BackendId → Option FallbackReason → List Diagnostic → AdapterResult
ok_result model resolved_backend fallback_reason diagnostics = record {
  protocol_major = protocol_major;
  model_major = model_major;
  status = AdapterStatus.ok;
  model = some model;
  error = none;
  resolved_backend = some resolved_backend;
  fallback_reason = fallback_reason;
  diagnostics = diagnostics;
}

unfoldable pub failed_result : AdapterErrorCode → Text → AdapterResult
failed_result code message = record {
  protocol_major = protocol_major;
  model_major = model_major;
  status = AdapterStatus.failed;
  model = none;
  error = some (record { code = code; message = message });
  resolved_backend = none;
  fallback_reason = none;
  diagnostics = [];
}

unfoldable pub unsupported_result : AdapterErrorCode → Text → AdapterResult
unfolding failed_result
unsupported_result code message = record (failed_result code message) {
  status = AdapterStatus.unsupported;
}

pub data ProtocolError : Type 0 where
  malformed : Text → ProtocolError
  unsupported_protocol_major unsupported_model_major : ℕ → ProtocolError
  duplicate_region missing_region region_executability_mismatch region_address_mismatch
        region_overflows empty_region :
      InputRegionName → ProtocolError
  aliased_path : Text → ProtocolError
  status_payload_mismatch resolved_backend_payload_mismatch : ProtocolError
  backend_substituted : BackendId → BackendId → ProtocolError
  fallback_without_auto : ProtocolError
