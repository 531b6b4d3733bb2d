-- ===== src/Adapter/Model/Input.antt =====
-- crates/flutterdec-adapter/src/model.rs: the regions of a snapshot, and spans of addresses.
use flutterdec.Common.{
  Eq, ◌==◌, find?, keep, leb, nat_eq, checked_add, ℕ, ◌≡◌, ◌↔◌, Bool, true, false, ◌&&◌, Option,
  none, some, List, ◌∷◌, arith, [], ℕ_eq, List_eq, Option_eq, ℕ_order, Text_order,
}
use flutterdec.Loader.Identity.{SnapshotIdentity}
use flutterdec.Adapter.Primitives.{Sha256Digest}

pub data InputRegionName : Type 0 where
  vm_data isolate_data vm_instructions isolate_instructions : InputRegionName

abbrev pub all_regions : List InputRegionName
all_regions = vm_data ∷ isolate_data ∷ vm_instructions ∷ isolate_instructions ∷ []

abbrev pub is_executable : InputRegionName → Bool
is_executable vm_instructions = true
is_executable isolate_instructions = true
is_executable _ = false

-- The declaration order, by which the derived `Ord` and `PartialEq` go.
abbrev pub region_rank : InputRegionName → ℕ
region_rank vm_data = 0
region_rank isolate_data = 1
region_rank vm_instructions = 2
region_rank isolate_instructions = 3

pub region_eq_iff :
    (a b : InputRegionName) → (nat_eq (region_rank a) (region_rank b) ≡ true) ↔ (a ≡ b)
region_eq_iff a b = ground arith

instance abbrev pub Region_eq : Eq InputRegionName
Region_eq = record { beq = λ a b. nat_eq (region_rank a) (region_rank b); beq_iff = region_eq_iff }

pub record InputRegion : Type 0 where
  pub region : InputRegionName
  pub size : ℕ  -- u64
  pub sha256 : Sha256Digest
  pub virtual_address : Option ℕ  -- u64
  pub executable : Bool

-- `base?.checked_add(size)`.
abbrev pub end_of : Option ℕ → ℕ → Option ℕ
end_of none size = none
end_of (some base) size = checked_add base size

unfoldable pub region_end_va : InputRegion → Option ℕ
region_end_va r = end_of r.virtual_address r.size

-- The three `let … else` of `contains_range`.
abbrev pub range_within : Option ℕ → Option ℕ → Option ℕ → ℕ → Bool
range_within (some base) (some region_end) (some end) start = leb base start && leb end region_end
range_within _ _ _ start = false

unfoldable pub contains_range : InputRegion → ℕ → ℕ → Bool
unfolding region_end_va
contains_range r start size =
    range_within r.virtual_address (region_end_va r) (checked_add start size) start

unfoldable pub contains_address : InputRegion → ℕ → Bool
unfolding contains_range
contains_address r address = contains_range r address 1

pub record ObservedInput : Type 0 where
  pub identity : SnapshotIdentity
  pub regions : List InputRegion

-- The first of a list of regions with a name.
abbrev pub region_of : List InputRegion → InputRegionName → Option InputRegion
region_of regions name = find? (λ r. r.region == name) regions

abbrev pub executables : List InputRegion → List InputRegion
executables regions = keep (λ r. r.executable) regions

-- A half-open span of code.
pub record CodeRange : Type 0 where
  pub start_va : ℕ  -- u64
  pub size : ℕ  -- u64

abbrev pub code_end_va : CodeRange → Option ℕ
code_end_va c = checked_add c.start_va c.size
