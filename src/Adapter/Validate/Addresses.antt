-- ===== src/Adapter/Validate/Addresses.antt =====
-- crates/flutterdec-adapter/src/validate.rs: `check_geometry` and `check_addresses`.
use flutterdec.Common.{
  ◌==◌, any, Check, ◌>>◌, fail_if, for_each, Text, ltb, nat_eq, if◌then◌else◌, is_some, is_none, ok,
  err, ℕ, ◌%◌, Bool, true, false, not, ◌&&◌, ◌||◌, Option, some, List, ℕ_eq, List_eq, Option_eq,
  ℕ_order, Text_order,
}
use flutterdec.Adapter.Model.{
  InputRegion, contains_range, contains_address, executables, code_end_va, PoolGeometry,
  displacement_for_index, PoolEntryKind, code, selector, PoolEntry, ObjectPool, Function,
  ProgramModel,
}
use flutterdec.Adapter.Validate.Errors.{
  ValidationError, empty_code_range, address_overflow, code_range_outside_executable_regions,
  code_section_mismatch, pool_target_outside_executable_regions, pool_entry_shape, pool_geometry,
  pool_index_out_of_bounds,
}
use flutterdec.Adapter.Validate.Names.{if_some}
use flutterdec.Adapter.Validate.Claims.{is_undecoded}

-- `u64::is_power_of_two`, for the words up to 8 that reach it.
abbrev pub is_power_of_two : ℕ → Bool
is_power_of_two n = nat_eq n 1 || nat_eq n 2 || nat_eq n 4 || nat_eq n 8

unfoldable pub check_layout : List PoolEntry → PoolGeometry → Check ValidationError
check_layout entries g = do
  fail_if (nat_eq g.word_size 0 || ltb 8 g.word_size || not (is_power_of_two g.word_size))
      (pool_geometry "word size must be a power of two no larger than 8")
  fail_if (not (nat_eq (g.entries_offset % g.word_size) 0))
      (pool_geometry "entries offset must be a multiple of the word size")
  for_each
      (λ e. fail_if (is_none (displacement_for_index g e.index)) (pool_index_out_of_bounds e.index))
      entries

unfoldable pub check_geometry : ObjectPool → Check ValidationError
check_geometry pool = if_some pool.geometry (check_layout pool.entries)

abbrev pub declares_base : ℕ → InputRegion → Bool
declares_base va r = r.virtual_address == some va

unfoldable pub check_function_addresses : List InputRegion → Function → Check ValidationError
check_function_addresses executable f = do
  fail_if (nat_eq f.code.size 0) (empty_code_range f.id)
  fail_if (is_none (code_end_va f.code)) (address_overflow "code range of function" f.id)
  fail_if (not (any (λ r. contains_range r f.code.start_va f.code.size) executable))
      (code_range_outside_executable_regions f.id f.code.start_va f.code.size)
  fail_if
      (not (
        any (λ r. declares_base f.code_section_va r && contains_range r f.code.start_va f.code.size)
          executable))
      (code_section_mismatch f.id f.code_section_va)

abbrev pub is_code : PoolEntryKind → Bool
is_code code = true
is_code _ = false

abbrev pub may_reference : PoolEntryKind → Bool
may_reference code = true
may_reference selector = true
may_reference _ = false

-- The `match (entry.kind, entry.target_va, &entry.value)`, its arms in order.
unfoldable pub check_shape : ℕ → PoolEntryKind → Option ℕ → Option Text → Check ValidationError
check_shape index kind target value =
    if is_code kind && is_none target
    then err (pool_entry_shape index "a code entry must carry the address it references")
    else if is_undecoded kind && is_some value
    then err (pool_entry_shape index "an undecoded entry must not carry a decoded value")
    else if is_some target && not (may_reference kind)
    then err (pool_entry_shape index "only code and selector entries may reference an address")
    else if is_none value && not (is_undecoded kind)
    then err (pool_entry_shape index "a decoded entry must carry a value")
    else ok tt

unfoldable pub check_entry_addresses : List InputRegion → PoolEntry → Check ValidationError
check_entry_addresses executable e = do
  check_shape e.index e.kind e.target_va e.value
  if_some e.target_va λ target.
      fail_if (not (any (λ r. contains_address r target) executable))
        (pool_target_outside_executable_regions e.index target)

module _ {Extensions : Type 0} where
  unfoldable pub check_addresses : ProgramModel Extensions → Check ValidationError
  check_addresses m = do
    for_each (check_function_addresses (executables m.input.regions)) m.functions
    for_each (check_entry_addresses (executables m.input.regions)) m.object_pool.entries
