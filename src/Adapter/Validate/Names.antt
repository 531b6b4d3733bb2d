-- ===== src/Adapter/Validate/Names.antt =====
-- crates/flutterdec-adapter/src/validate.rs: `check_strings` and `check_confidence`.
use flutterdec.Common.{
  contains, is_finite, f64_le, f64_zero, f64_one, Check, ◌>>◌, fail_if, for_each, Text, chars,
  is_empty, trim, to_ascii_lowercase, ok, ℕ, String, Bool, not, ◌&&◌, ◌||◌, Option, none, some,
  List, ◌∷◌, map, [], ℕ_eq, List_eq, Option_eq, ℕ_order, Text_order,
}
use flutterdec.Adapter.Model.{
  Provenance, admits_confidence, CompatibilityBinding, PoolEntry, Library, Function, ProgramModel,
}
use flutterdec.Adapter.Validate.Errors.{
  ValidationError, empty_field, placeholder_name, confidence_without_heuristic_provenance,
  confidence_out_of_range,
}

abbrev pub case_insensitive_placeholders : List Text
case_insensitive_placeholders = map chars (
    "" ∷ "-" ∷ "?" ∷ "??" ∷ "???" ∷ "n/a" ∷ "na" ∷ "todo" ∷ "tbd" ∷ "unknown" ∷ "<unknown>"
    ∷ "unnamed" ∷ "anonymous" ∷ "placeholder" ∷ "undefined" ∷ [])

abbrev pub exact_lowercase_placeholders : List Text
exact_lowercase_placeholders = map chars ("none" ∷ "null" ∷ "nil" ∷ [])

unfoldable pub is_placeholder : Text → Bool
is_placeholder text =
    contains exact_lowercase_placeholders (trim text)
    || contains case_insensitive_placeholders (to_ascii_lowercase (trim text))

unfoldable pub non_empty : Text → String → Check ValidationError
non_empty value field = fail_if (is_empty (trim value)) (empty_field field)

unfoldable pub not_placeholder : Text → String → Check ValidationError
unfolding non_empty
not_placeholder value field = do
  non_empty value field
  fail_if (is_placeholder value) (placeholder_name field value)

-- `if let Some(x) = o { check(x)? }`.
abbrev pub if_some {ℓ} :
    {A : Type ℓ} → Option A → (A → Check ValidationError) → Check ValidationError
if_some none check = ok tt
if_some (some a) check = check a

unfoldable pub check_binding_strings : CompatibilityBinding → Check ValidationError
check_binding_strings c = do
  non_empty c.parser_family_id "parser family id"
  non_empty c.profile_id "profile id"

unfoldable pub check_library_strings : Library → Check ValidationError
check_library_strings l = do
  not_placeholder l.uri "library uri"
  if_some l.display_name λ display. not_placeholder display "library display name"

unfoldable pub check_function_strings : Function → Check ValidationError
check_function_strings f = if_some f.name λ name. not_placeholder name.text "function name"

unfoldable pub check_entry_strings : PoolEntry → Check ValidationError
check_entry_strings e = if_some e.value λ value. not_placeholder value "object pool entry value"

module _ {Extensions : Type 0} where
  unfoldable pub check_strings : ProgramModel Extensions → Check ValidationError
  check_strings m = do
    non_empty m.producer.id "producer id"
    non_empty m.producer.version "producer version"
    if_some m.compatibility check_binding_strings
    for_each check_library_strings m.libraries
    for_each (λ c. not_placeholder c.name "class name") m.classes
    for_each check_function_strings m.functions
    for_each check_entry_strings m.object_pool.entries

unfoldable pub check_one_confidence : Option ℕ → Provenance → String → Check ValidationError
check_one_confidence none provenance field = ok tt
check_one_confidence (some value) provenance field = do
  fail_if (not (admits_confidence provenance))
      (confidence_without_heuristic_provenance field provenance)
  fail_if (not (is_finite value) || not (f64_le f64_zero value && f64_le value f64_one))
      (confidence_out_of_range field value)

unfoldable pub check_function_confidence : Function → Check ValidationError
check_function_confidence f =
    if_some f.name λ name. check_one_confidence name.confidence name.provenance "function name"

module _ {Extensions : Type 0} where
  unfoldable pub check_confidence : ProgramModel Extensions → Check ValidationError
  check_confidence m = do
    for_each check_function_confidence m.functions
    for_each (λ e. check_one_confidence e.confidence e.provenance "object pool entry")
        m.object_pool.entries
