-- ===== src/Adapter/Model/Reading.antt =====
-- crates/flutterdec-adapter/src/model.rs: `ProgramModel::from_json`. The JSON library is a
-- parameter, as it is for the documents of the protocol.
use flutterdec.Common.{
  Result, Check, ◌>>=◌, ◌>>◌, fail_if, Result-cases, Text, chars, bytes, nat_eq, ok, err, ℕ, ◌≡◌,
  ◌↔◌, inl, inr, not, Option, none, some, List, arith, ℕ_eq, List_eq, Option_eq, ℕ_order,
  Text_order,
}
use flutterdec.Adapter.Model.{ProgramModel, model_major}

-- `serde_json::from_slice`, `Value::get(key).and_then(Value::as_u64)`, and `serde_json::from_value`
-- at the model. An error is the text of its message.
pub record ModelJson (Extensions : Type 0) : Type 1 where
  pub Value : Type 0
  pub from_slice : List ℕ → Result Text Value
  pub get_u64 : Value → Text → Option ℕ
  pub model_of : Value → Result Text (ProgramModel Extensions)

pub data ModelParseError : Type 0 where
  not_an_object malformed : Text → ModelParseError
  legacy_model unsupported_version : ℕ → ModelParseError
  missing_version : ModelParseError

-- `map_err(wrap)`.
abbrev map_err {ℓ} :
    {A : Type ℓ} → (Text → ModelParseError) → Result Text A → Result ModelParseError A
map_err wrap (ok a) = ok a
map_err wrap (err e) = err (wrap e)

abbrev check_legacy : Option ℕ → Check ModelParseError
check_legacy none = ok tt
check_legacy (some legacy) = err (legacy_model legacy)

abbrev check_version : Option ℕ → Check ModelParseError
check_version none = err missing_version
check_version (some version) =
    fail_if (not (nat_eq version model_major)) (unsupported_version version)

module _ {Extensions : Type 0} (json : ModelJson Extensions) where
  unfoldable pub model_from_json : List ℕ → Result ModelParseError (ProgramModel Extensions)
  model_from_json bytes = do
    raw ← map_err not_an_object (json.from_slice bytes)
    check_legacy (json.get_u64 raw (chars "schema_version"))
    check_version (json.get_u64 raw (chars "model_version"))
    map_err malformed (json.model_of raw)

  -- Whatever the JSON library does, a model is read exactly from bytes that parse to a value with
  -- no integer `schema_version`, with `model_version` 4, that deserializes to that model.
  pub model_from_json_iff :
      (bytes : List ℕ) (m : ProgramModel Extensions)
      → (model_from_json bytes ≡ ok m) ↔ (
          (raw : json.Value) × (json.from_slice bytes ≡ ok raw)
          × (json.get_u64 raw (chars "schema_version") ≡ none)
          × (json.get_u64 raw (chars "model_version") ≡ some 4)
          × (json.model_of raw ≡ ok m))
  unfolding model_from_json
  model_from_json_iff bytes m = elim (Result-cases (json.from_slice bytes)) [
    | inr (e, broken) ↦ (λ h. absurd (ground arith), λ h. absurd (ground (arith, h.1)))
    | inl (raw, parsed) ↦ (
      λ h. elim (Result-cases (json.model_of raw)) [
        | inr (e, bad) ↦ absurd (ground arith)
        | inl (m', good) ↦ (raw, parsed, ground arith, ground arith, ground arith)
      ],
      λ (raw', parsed', old, four, good). ground arith,
    )
  ]

  -- A document of the older contract is refused as such, with its version, whatever else it holds.
  pub legacy_is_refused :
      (bytes : List ℕ) (raw : json.Value) (version : ℕ)
      → json.from_slice bytes ≡ ok raw
      → json.get_u64 raw (chars "schema_version") ≡ some version
      → model_from_json bytes ≡ err (legacy_model version)
  unfolding model_from_json
  legacy_is_refused bytes raw version parsed old = ground arith
