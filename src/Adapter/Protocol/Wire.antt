-- ===== src/Adapter/Protocol/Wire.antt =====
-- crates/flutterdec-adapter/src/protocol.rs: reading a document. The JSON library is a parameter:
-- how it parses bytes, reads an integer field and deserializes a value.
use flutterdec.Common.{
  Result, Check, ◌>>=◌, ◌>>◌, fail_if, ok_or, Text, chars, bytes, nat_eq, as_u32, ok, err, ℕ, not,
  Option, List, ℕ_eq, List_eq, Option_eq, ℕ_order, Text_order,
}
use flutterdec.Adapter.Model.{model_major}
use flutterdec.Adapter.Protocol.Documents.{
  protocol_major, AdapterRequest, AdapterResult, ProtocolError, malformed,
  unsupported_protocol_major, unsupported_model_major,
}
use flutterdec.Adapter.Protocol.Validation.{validate_request, validate_result}

-- `serde_json::from_slice`, `Value::get(key).and_then(Value::as_u64)`, and `serde_json::from_value`
-- at the two document types. An error is the text of its message.
pub record Json : Type 1 where
  pub Value : Type 0
  pub from_slice : List ℕ → Result Text Value
  pub get_u64 : Value → Text → Option ℕ
  pub request_of : Value → Result Text AdapterRequest
  pub result_of : Value → Result Text AdapterResult

-- `map_err(|err| ProtocolError::Malformed(err.to_string()))`.
abbrev pub or_malformed {ℓ} : {A : Type ℓ} → Result Text A → Result ProtocolError A
or_malformed (ok a) = ok a
or_malformed (err e) = err (malformed e)

module _ (json : Json) where
  unfoldable pub check_majors : json.Value → Check ProtocolError
  check_majors raw = do
    protocol ←
        ok_or (json.get_u64 raw (chars "protocol_major"))
          (malformed (chars "missing protocol_major"))
    fail_if (not (nat_eq protocol protocol_major)) (unsupported_protocol_major (as_u32 protocol))
    model ← ok_or (json.get_u64 raw (chars "model_major")) (malformed (chars "missing model_major"))
    fail_if (not (nat_eq model model_major)) (unsupported_model_major (as_u32 model))

  unfoldable pub request_from_json : List ℕ → Result ProtocolError AdapterRequest
  request_from_json bytes = do
    raw ← or_malformed (json.from_slice bytes)
    check_majors raw
    request ← or_malformed (json.request_of raw)
    validate_request request
    ok request

  unfoldable pub result_from_json : List ℕ → Result ProtocolError AdapterResult
  result_from_json bytes = do
    raw ← or_malformed (json.from_slice bytes)
    check_majors raw
    result ← or_malformed (json.result_of raw)
    validate_result result
    ok result
