-- ===== src/Tests/Documents.antt =====
-- Requests and results at concrete documents, with a JSON library that knows one of each.
use flutterdec.Common.{
  ◌==◌, insert_all, length, for_each, split, Text, chars, if◌then◌else◌, u32_mod, ok, err, ℕ, ◌+◌,
  ◌%◌, ◌^◌, ◌≡◌, refl, ◌≢◌, ◌↔◌, ◌⊎◌, none, some, ◌∷◌, Memᴰ, arith, [], ℕ_eq, List_eq, Option_eq,
  ℕ_order, Text_order,
}
use flutterdec.Adapter.Primitives.{
  parse_path, check_path, check_component, starts_with_slash, has_drive_prefix,
}
use flutterdec.Adapter.Primitives.Containment.{resolve}
use flutterdec.Adapter.Protocol.{
  InputHandle, AdapterStatus, BackendId, blutter, validate_request, check_handle, check_present,
  validate_result, validate_against, Json, check_majors, request_from_json, malformed,
  unsupported_protocol_major, unsupported_model_major,
}
use flutterdec.Adapter.Protocol.Requests.{IsValidRequest, validate_request_iff}
use flutterdec.Adapter.Protocol.Results.{Payload, validate_result_iff, pinned_backend}
use flutterdec.Adapter.Protocol.Aliasing.{HasParsedPaths, request_files_apart}
use flutterdec.Adapter.Protocol.Parsing.{request_from_json-valid, check_majors_iff}
use flutterdec.Tests.Samples.{request, result}

request_valid : validate_request request ≡ ok tt
unfolding validate_request check_handle check_present insert_all for_each
request_valid = refl

result_valid : validate_against result request ≡ ok tt
unfolding validate_against validate_result
result_valid = refl

paths_parsed : HasParsedPaths request
unfolding parse_path check_path check_component starts_with_slash has_drive_prefix split for_each
paths_parsed = record { inputs = (refl, (refl, (refl, (refl, tt)))); output = refl }

validate_request_iff_example : (validate_request request ≡ ok tt) ↔ IsValidRequest request
validate_request_iff_example = validate_request_iff request

request_files_apart_example :
    ((i j : InputHandle)
      → Memᴰ i request.inputs
      → Memᴰ j request.inputs
      → resolve [] i.path.text ≡ resolve [] j.path.text
      → i ≡ j)
    × ((i : InputHandle)
        → Memᴰ i request.inputs
        → resolve [] i.path.text ≢ resolve [] request.output.text)
request_files_apart_example = request_files_apart request [] paths_parsed request_valid

validate_result_iff_example :
    (validate_result result ≡ ok tt)
    ↔ ((result.protocol_major ≡ 1) × (result.model_major ≡ 4) × Payload result)
validate_result_iff_example = validate_result_iff result

pinned_backend_example :
    ((AdapterStatus.ok ≡ AdapterStatus.ok) → some blutter ≡ some blutter)
    × ((c : BackendId) → some blutter ≡ some c → c ≡ blutter)
    × (result.fallback_reason ≡ none)
pinned_backend_example = pinned_backend result request blutter refl result_valid

-- A value is the protocol major of its document.
abbrev json : Json
json = record {
  Value = ℕ;
  from_slice = λ bytes. ok (length bytes);
  get_u64 = λ value key. some (if key == chars "protocol_major" then value else 4);
  request_of = λ value. ok request;
  result_of = λ value. ok result;
}

request_read : request_from_json json (0 ∷ []) ≡ ok request
unfolding request_from_json check_majors validate_request check_handle check_present insert_all
    for_each
request_read = refl

request_from_json-valid_example :
    (IsValidRequest request)
    × (raw : ℕ) × (json.from_slice (0 ∷ []) ≡ ok raw)
    × (json.request_of raw ≡ ok request)
    × (json.get_u64 raw (chars "protocol_major") ≡ some 1)
    × (json.get_u64 raw (chars "model_major") ≡ some 4)
request_from_json-valid_example = request_from_json-valid json (0 ∷ []) request_read

check_majors_iff_example :
    ((check_majors json (2 ^ 32 + 1) ≡ ok tt) ↔ (
      (json.get_u64 (2 ^ 32 + 1) (chars "protocol_major") ≡ some 1)
      × (json.get_u64 (2 ^ 32 + 1) (chars "model_major") ≡ some 4)))
    × ((k : ℕ)
        → (check_majors json (2 ^ 32 + 1) ≡ err (unsupported_protocol_major k)) ↔ (
            (p : ℕ) × (json.get_u64 (2 ^ 32 + 1) (chars "protocol_major") ≡ some p)
            × (p ≢ 1)
            × (k ≡ p % u32_mod)))
    × ((k : ℕ)
        → (check_majors json (2 ^ 32 + 1) ≡ err (unsupported_model_major k)) ↔ (
            (json.get_u64 (2 ^ 32 + 1) (chars "protocol_major") ≡ some 1)
            × (m : ℕ) × (json.get_u64 (2 ^ 32 + 1) (chars "model_major") ≡ some m)
            × (m ≢ 4)
            × (k ≡ m % u32_mod)))
    × ((message : Text)
        → (check_majors json (2 ^ 32 + 1) ≡ err (malformed message)) ↔ (
            (json.get_u64 (2 ^ 32 + 1) (chars "protocol_major") ≡ none)
              × (message ≡ chars "missing protocol_major")
            ⊎ (json.get_u64 (2 ^ 32 + 1) (chars "protocol_major") ≡ some 1)
              × (json.get_u64 (2 ^ 32 + 1) (chars "model_major") ≡ none)
              × (message ≡ chars "missing model_major")))
check_majors_iff_example = check_majors_iff json (2 ^ 32 + 1)

-- A request of version 2 ^ 32 + 1 is refused with the message that version 1 is not supported.
refused_as_version_1 : check_majors json (2 ^ 32 + 1) ≡ err (unsupported_protocol_major 1)
refused_as_version_1 =
    ((check_majors_iff json (2 ^ 32 + 1)).1 1).1 (2 ^ 32 + 1, refl, (λ e. omega arith), refl)
