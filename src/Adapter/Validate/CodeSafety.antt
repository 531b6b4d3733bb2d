-- ===== src/Adapter/Validate/CodeSafety.antt =====
-- The contract of `check_addresses` of crates/flutterdec-adapter/src/validate.rs.

use flutterdec.Common.{
  option_eq_iff, any, All-of_mem, any_iff, All-mem, fail_if, then_iff, for_each, for_each_iff, Text,
  is_some, ok, ℕ, ◌<◌, ◌≡◌, ◌↔◌, true, not, ◌&&◌, Option, none, some, List, Memᴰ, arith, ℕ_eq,
  List_eq, Option_eq, ℕ_order, Text_order,
}
use flutterdec.Adapter.Model.{
  ProgramModel, contains_address, PoolEntry, PoolEntryKind, InputRegion, contains_range,
  executables, Function, code, selector, undecoded,
}
use flutterdec.Adapter.Model.Geometry.{contains_range_iff}
use flutterdec.Adapter.Validate.Addresses.{
  check_entry_addresses, check_addresses, declares_base, is_code, check_shape,
  check_function_addresses,
}
use flutterdec.Adapter.Validate.Errors.{pool_target_outside_executable_regions}
use flutterdec.Adapter.Validate.Names.{if_some}
use flutterdec.Adapter.Validate.RegionTable.{mem-executables}
use flutterdec.Adapter.Validate.References.{if_some_iff}

-- The code is in the executable region that the function names by its base.
pub record IsInSection (regions : List InputRegion) (f : Function) : Type 0 where
  pub not_empty : 0 < f.code.size
  pub section : InputRegion
  pub declared : Memᴰ section regions
  pub is_code : section.executable ≡ true
  pub base : section.virtual_address ≡ some f.code_section_va
  pub inside : contains_range section f.code.start_va f.code.size ≡ true

function_addresses_iff :
    (regions : List InputRegion) (f : Function)
    → (check_function_addresses (executables regions) f ≡ ok tt) ↔ IsInSection regions f
unfolding check_function_addresses
function_addresses_iff regions f =
    let span = λ (r : InputRegion). contains_range r f.code.start_va f.code.size in
    let based = λ (r : InputRegion). declares_base f.code_section_va r && span r in
    let some_span = any_iff span (executables regions) in
    let some_based = any_iff based (executables regions) in
    (
      λ h.
          let (r, n, q) = some_based.0 (ground arith) in
          let (declared, is_code) = (mem-executables r regions).0 n in
          record {
            not_empty = ground arith;
            section = r;
            declared = declared;
            is_code = is_code;
            base = (option_eq_iff r.virtual_address (some f.code_section_va)).0 (ground arith);
            inside = ground arith;
          },
      λ s.
          let n = (mem-executables s.section regions).1 (s.declared, s.is_code) in
          let based_there =
            (option_eq_iff s.section.virtual_address (some f.code_section_va)).1 s.base in
          let hit = some_span.1 (s.section, n, s.inside) in
          let hit' = some_based.1 (s.section, n, ground arith) in
          let (_, _, _, within, fits) =
            (contains_range_iff s.section f.code.start_va f.code.size).0 s.inside in
          ground (arith, s.not_empty),
    )

-- What an entry of each kind carries: its target and its value.
abbrev pub HasShape : PoolEntryKind → Option ℕ → Option Text → Type 0
HasShape code target value = (is_some target ≡ true) × (is_some value ≡ true)
HasShape undecoded target value = (target ≡ none) × (value ≡ none)
HasShape selector target value = is_some value ≡ true
HasShape _ target value = (target ≡ none) × (is_some value ≡ true)

shape_iff :
    (i : ℕ) (kind : PoolEntryKind) (target : Option ℕ) (value : Option Text)
    → (check_shape i kind target value ≡ ok tt) ↔ HasShape kind target value
unfolding check_shape
shape_iff i kind none none = ground arith
shape_iff i kind none (some v) = ground arith
shape_iff i kind (some t) none = ground arith
shape_iff i kind (some t) (some v) = ground arith

-- A pool entry has what its kind calls for, and the address it gives is in executable code.
pub record IsPointing (regions : List InputRegion) (e : PoolEntry) : Type 0 where
  pub shape : HasShape e.kind e.target_va e.value
  pub targets :
      (t : ℕ)
      → e.target_va ≡ some t
      → (r : InputRegion) × Memᴰ r regions × (r.executable ≡ true) × (contains_address r t ≡ true)

entry_addresses_iff :
    (regions : List InputRegion) (e : PoolEntry)
    → (check_entry_addresses (executables regions) e ≡ ok tt) ↔ IsPointing regions e
unfolding check_entry_addresses
entry_addresses_iff regions e =
    let outside = λ (t : ℕ).
      fail_if (not (any (λ (r : InputRegion). contains_address r t) (executables regions)))
        (pool_target_outside_executable_regions e.index t) in
    let both =
      then_iff (check_shape e.index e.kind e.target_va e.value) (if_some e.target_va outside) in
    let shape = shape_iff e.index e.kind e.target_va e.value in
    let each = if_some_iff e.target_va outside in
    let inside =
      λ (t : ℕ). any_iff (λ (r : InputRegion). contains_address r t) (executables regions) in
    (
      λ h.
          let (shaped, targeted) = both.0 h in
          record {
            shape = shape.0 shaped;
            targets = λ t q.
                let passed = each.0 targeted t q in
                let (r, n, within) = (inside t).0 (ground arith) in
                let (declared, is_code) = (mem-executables r regions).0 n in
                (r, declared, is_code, within);
          },
      λ p. both.1 (
        shape.1 p.shape,
        each.1 λ t q.
            let (r, declared, is_code, within) = p.targets t q in
            let hit = (inside t).1 (r, (mem-executables r regions).1 (declared, is_code), within) in
            ground arith,
      ),
    )

-- The addresses of a model are accepted exactly when each function's code is in the executable
-- region that the function names by its base, and each pool entry has what its kind calls for,
-- with its target in an executable region.
pub check_addresses_iff :
    {Extensions : Type 0} (m : ProgramModel Extensions)
    → (check_addresses m ≡ ok tt) ↔ (
        ((f : Function) → Memᴰ f m.functions → IsInSection m.input.regions f)
        × ((e : PoolEntry) → Memᴰ e m.object_pool.entries → IsPointing m.input.regions e))
unfolding check_addresses
check_addresses_iff m =
    let check_f = check_function_addresses (executables m.input.regions) in
    let check_e = check_entry_addresses (executables m.input.regions) in
    let both = then_iff (for_each check_f m.functions) (for_each check_e m.object_pool.entries) in
    let fs = for_each_iff check_f m.functions in
    let es = for_each_iff check_e m.object_pool.entries in
    (
      λ h.
          let (first, second) = both.0 h in
          (
            λ f n.
                (function_addresses_iff m.input.regions f).0
                  (All-mem (λ f. check_f f ≡ ok tt) m.functions (fs.0 first) n),
            λ e n.
                (entry_addresses_iff m.input.regions e).0
                  (All-mem (λ e. check_e e ≡ ok tt) m.object_pool.entries (es.0 second) n),
          ),
      λ (inside, pointing). both.1 (
        fs.1 (
            All-of_mem m.functions
              λ f n. (function_addresses_iff m.input.regions f).1 (inside f n)),
        es.1 (
            All-of_mem m.object_pool.entries
              λ e n. (entry_addresses_iff m.input.regions e).1 (pointing e n)),
      ),
    )
