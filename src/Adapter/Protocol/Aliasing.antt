-- ===== src/Adapter/Protocol/Aliasing.antt =====
-- The handles and the files of a validated request of crates/flutterdec-adapter/src/protocol.rs.
use mathlib.Core.List.Memᴰ
use flutterdec.Common.{
  ◌==◌, distinct-injective, All, find?-eq-some, find?-is-some, All-mem, ok, ◌≡◌, sym, ap, ◌∙◌,
  subst, ◌≢◌, some, map, Memᴰ, ℕ_eq, List_eq, Option_eq, ℕ_order, Text_order,
}
use flutterdec.Adapter.Primitives.{RelativePath, parse_path}
use flutterdec.Adapter.Primitives.Containment.{Location, resolve, resolve-injective}
use flutterdec.Adapter.Model.{InputRegionName, Region_eq, region_eq_iff}
use flutterdec.Adapter.Protocol.Documents.{InputHandle, AdapterRequest}
use flutterdec.Adapter.Protocol.Validation.{validate_request, input_of}
use flutterdec.Adapter.Protocol.Requests.{IsRegionHandle, validate_request_iff}

-- The paths of a request are values of `RelativePath`, so each was made by its `parse`.
pub record HasParsedPaths (r : AdapterRequest) : Type 0 where
  pub inputs : All (λ (i : InputHandle). parse_path i.path.text ≡ ok i.path) r.inputs
  pub output : parse_path r.output.text ≡ ok r.output

-- In a validated request whose paths were parsed, two inputs that lead to the same file are the same
-- input, and the output leads to the file of no input, whatever directory the paths are resolved
-- against.
pub request_files_apart :
    (r : AdapterRequest) (base : Location)
    → HasParsedPaths r
    → validate_request r ≡ ok tt
    → ((i j : InputHandle)
        → Memᴰ i r.inputs
        → Memᴰ j r.inputs
        → resolve base i.path.text ≡ resolve base j.path.text
        → i ≡ j)
      × ((i : InputHandle)
          → Memᴰ i r.inputs
          → resolve base i.path.text ≢ resolve base r.output.text)
request_files_apart r base parsed h =
    let valid = (validate_request_iff r).0 h in
    let made = λ (i : InputHandle) (m : Memᴰ i r.inputs).
      All-mem (λ (k : InputHandle). parse_path k.path.text ≡ ok k.path) r.inputs parsed.inputs m in
    (
      λ i j m n same.
          distinct-injective (λ (k : InputHandle). k.path.text) r.inputs valid.paths_distinct m n
            (ap (λ (p : RelativePath). p.text)
              (resolve-injective _ _ base (made i m) (made j n) same)),
      λ i m same. valid.output_apart (
          subst (λ t. Memᴰ t (map (λ (k : InputHandle). k.path.text) r.inputs))
            (ap (λ (p : RelativePath). p.text)
              (resolve-injective _ _ base (made i m) parsed.output same))
            (Memᴰ.map (λ (k : InputHandle). k.path.text) m)),
    )

-- In a validated request each region of a snapshot has a handle, `input` finds it, it describes that
-- region, and no other handle does.
pub validated_input :
    (r : AdapterRequest) (name : InputRegionName)
    → validate_request r ≡ ok tt
    → (i : InputHandle) × (input_of r name ≡ some i)
      × (i.region ≡ name)
      × IsRegionHandle i
      × ((j : InputHandle) → Memᴰ j r.inputs → j.region ≡ name → j ≡ i)
validated_input r name h =
    let valid = (validate_request_iff r).0 h in
    let (k, there, named) =
      Memᴰ.of_map (λ (i : InputHandle). i.region) r.inputs (valid.regions_present name) in
    let (i, found) =
      find?-is-some (λ (i : InputHandle). i.region == name) r.inputs k there
        ((region_eq_iff k.region name).1 named) in
    let (m, hit) = find?-eq-some (λ (i : InputHandle). i.region == name) r.inputs found in
    let same = (region_eq_iff i.region name).0 hit in
    (
      i,
      found,
      same,
      All-mem IsRegionHandle r.inputs valid.handles m,
      λ j n e.
          distinct-injective (λ (i : InputHandle). i.region) r.inputs valid.regions_distinct n m
            (e ∙ sym same),
    )
