-- ===== src/Adapter/Protocol/Parsing.antt =====
-- `from_json` and `check_majors` of crates/flutterdec-adapter/src/protocol.rs, for any JSON
-- library.
use flutterdec.Common.{
  Result-cases, Text, chars, bytes, nat_eq, Bool-cases, Option-cases, u32_mod, ok, err, ℕ, ◌%◌, ◌≡◌,
  ◌≢◌, ◌↔◌, ◌⊎◌, inl, inr, none, some, List, arith, ℕ_eq, List_eq, Option_eq, ℕ_order, Text_order,
}
use flutterdec.Adapter.Protocol.Documents.{
  AdapterRequest, malformed, unsupported_protocol_major, unsupported_model_major,
}
use flutterdec.Adapter.Protocol.Validation.{validate_request}
use flutterdec.Adapter.Protocol.Wire.{Json, check_majors, request_from_json}
use flutterdec.Adapter.Protocol.Requests.{IsValidRequest, validate_request_iff}

module _ (json : Json) where
  -- Whatever the JSON library makes of the bytes, a request that is returned was deserialized from a
  -- value with the accepted majors, and it meets the contract of a request.
  pub request_from_json-valid :
      (bytes : List ℕ) {r : AdapterRequest}
      → request_from_json json bytes ≡ ok r
      → (IsValidRequest r)
        × (raw : json.Value) × (json.from_slice bytes ≡ ok raw)
        × (json.request_of raw ≡ ok r)
        × (json.get_u64 raw (chars "protocol_major") ≡ some 1)
        × (json.get_u64 raw (chars "model_major") ≡ some 4)
  unfolding request_from_json check_majors
  request_from_json-valid bytes {r} h = elim (Result-cases (json.from_slice bytes)) [
    | inr (e, broken) ↦ absurd (ground arith)
    | inl (raw, parsed) ↦ elim (Result-cases (json.request_of raw)) [
      | inr (e, unshaped) ↦ absurd (ground arith)
      | inl (q, shaped) ↦
          let valid : validate_request r ≡ ok tt = ground arith in
          ((validate_request_iff r).0 valid, raw, parsed, ground arith, ground arith, ground arith)
    ]
  ]

  -- The majors of a document are checked as 64-bit numbers, the protocol's first, and reported cut
  -- to 32 bits. They are accepted exactly when they are 1 and 4. The protocol's is refused as `k`
  -- exactly when it is there, is not 1, and is `k` modulo 2 ^ 32; the model's is refused as `k`
  -- exactly when the protocol's is 1 and the model's is there, is not 4, and is `k` modulo 2 ^ 32. The
  -- document is malformed exactly when the protocol's is missing, or is 1 and the model's is missing,
  -- and the message names the one that is missing.
  pub check_majors_iff :
      (raw : json.Value)
      → ((check_majors json raw ≡ ok tt) ↔ (
          (json.get_u64 raw (chars "protocol_major") ≡ some 1)
          × (json.get_u64 raw (chars "model_major") ≡ some 4)))
        × ((k : ℕ)
            → (check_majors json raw ≡ err (unsupported_protocol_major k)) ↔ (
                (p : ℕ) × (json.get_u64 raw (chars "protocol_major") ≡ some p)
                × (p ≢ 1)
                × (k ≡ p % u32_mod)))
        × ((k : ℕ)
            → (check_majors json raw ≡ err (unsupported_model_major k)) ↔ (
                (json.get_u64 raw (chars "protocol_major") ≡ some 1)
                × (m : ℕ) × (json.get_u64 raw (chars "model_major") ≡ some m)
                × (m ≢ 4)
                × (k ≡ m % u32_mod)))
        × ((message : Text)
            → (check_majors json raw ≡ err (malformed message)) ↔ (
                (json.get_u64 raw (chars "protocol_major") ≡ none)
                  × (message ≡ chars "missing protocol_major")
                ⊎ (json.get_u64 raw (chars "protocol_major") ≡ some 1)
                  × (json.get_u64 raw (chars "model_major") ≡ none)
                  × (message ≡ chars "missing model_major")))
  unfolding check_majors
  check_majors_iff raw = elim (Option-cases (json.get_u64 raw (chars "protocol_major"))) [
    | inl missing ↦ (ground arith, λ k. ground arith, λ k. ground arith, λ t. ground arith)
    | inr (p, there) ↦ elim (Bool-cases (nat_eq p 1)) [
      | inr other ↦ (ground arith, λ k. ground arith, λ k. ground arith, λ t. ground arith)
      | inl same ↦ elim (Option-cases (json.get_u64 raw (chars "model_major"))) [
        | inl missing ↦ (ground arith, λ k. ground arith, λ k. ground arith, λ t. ground arith)
        | inr (m, here) ↦ (ground arith, λ k. ground arith, λ k. ground arith, λ t. ground arith)
      ]
    ]
  ]
