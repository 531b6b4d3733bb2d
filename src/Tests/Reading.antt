-- ===== src/Tests/Reading.antt =====
-- Reading the sample model, and a document of an older contract.
use flutterdec.Common.{
  ◌==◌, length, chars, nat_eq, if◌then◌else◌, ok, ℕ, ◌≡◌, ◌↔◌, none, some, [], ℕ_eq, List_eq,
  Option_eq, ℕ_order, Text_order,
}
use flutterdec.Adapter.Model.Reading.{ModelJson, model_from_json, model_from_json_iff}
use flutterdec.Tests.Samples.{model}

-- No bytes are a current document; some bytes are one with that many as its old version.
abbrev json : ModelJson Unit
json = record {
  Value = ℕ;
  from_slice = λ bytes. ok (length bytes);
  get_u64 = λ value key.
      if key == chars "model_version" then some 4 else if nat_eq value 0 then none else some value;
  model_of = λ value. ok model;
}

model_from_json_iff_example : (model_from_json json [] ≡ ok model) ↔ (
    (raw : ℕ) × (json.from_slice [] ≡ ok raw)
    × (json.get_u64 raw (chars "schema_version") ≡ none)
    × (json.get_u64 raw (chars "model_version") ≡ some 4)
    × (json.model_of raw ≡ ok model))
model_from_json_iff_example = model_from_json_iff json [] model
