-- ===== src/Adapter/Model/Pool.antt =====
-- crates/flutterdec-adapter/src/model.rs: the object pool.
use flutterdec.Common.{
  Text, nat_eq, if◌then◌else◌, checked_add, checked_mul, checked_sub, ℕ, ◌/◌, ◌%◌, not, Option,
  none, some, List, [], ℕ_eq, List_eq, Option_eq, ℕ_order, Text_order,
}
use flutterdec.Adapter.Model.Facts.{Provenance}

pub data PoolIndexSpace : Type 0 where
  hardware ordinal : PoolIndexSpace

pub record PoolGeometry : Type 0 where
  pub entries_offset : ℕ  -- u64
  pub word_size : ℕ  -- u64

abbrev index_of : ℕ → Option ℕ → Option ℕ
index_of word none = none
index_of word (some rel) = if not (nat_eq (rel % word) 0) then none else some (rel / word)

unfoldable pub index_for_displacement : PoolGeometry → ℕ → Option ℕ
index_for_displacement g displacement =
    if nat_eq g.word_size 0
    then none
    else index_of g.word_size (checked_sub displacement g.entries_offset)

abbrev displacement_of : ℕ → Option ℕ → Option ℕ
displacement_of offset none = none
displacement_of offset (some rel) = checked_add rel offset

unfoldable pub displacement_for_index : PoolGeometry → ℕ → Option ℕ
displacement_for_index g index = displacement_of g.entries_offset (checked_mul index g.word_size)

pub data PoolEntryKind : Type 0 where
  string immediate code field class selector undecoded : PoolEntryKind

pub record PoolEntry : Type 0 where
  pub index : ℕ  -- u64
  pub kind : PoolEntryKind
  pub value : Option Text
  pub target_va : Option ℕ  -- u64
  pub provenance : Provenance
  pub confidence : Option ℕ  -- f64

pub record ObjectPool : Type 0 where
  pub index_space : PoolIndexSpace
  pub geometry : Option PoolGeometry
  pub entries : List PoolEntry

abbrev pub unavailable_pool : ObjectPool
unavailable_pool = record { index_space = ordinal; geometry = none; entries = [] }
