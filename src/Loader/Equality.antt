-- ===== src/Loader/Equality.antt =====
-- The derived `PartialEq` of the types of crates/flutterdec-loader/src/identity.rs.
use flutterdec.Common.{
  Eq, ◌==◌, list_eq_iff, nat_eq, ℕ, ◌≡◌, ◌↔◌, Bool, true, false, arith, ℕ_eq, List_eq, Option_eq,
  ℕ_order, Text_order,
}
use flutterdec.Loader.Identity.{
  SnapshotKind, full, full_core, full_jit, full_aot, unrecognized, HashSource, header, scan,
  TargetArch, arm64, unsupported, PointerCompression, compressed, uncompressed, conflicting,
}

-- A variant's position in its declaration.
abbrev pub kind_rank : SnapshotKind → ℕ
kind_rank full = 0
kind_rank full_core = 1
kind_rank full_jit = 2
kind_rank full_aot = 3
kind_rank unrecognized = 4

pub kind_eq_iff : (a b : SnapshotKind) → (nat_eq (kind_rank a) (kind_rank b) ≡ true) ↔ (a ≡ b)
kind_eq_iff a b = ground arith

instance abbrev pub Kind_eq : Eq SnapshotKind
Kind_eq = record { beq = λ a b. nat_eq (kind_rank a) (kind_rank b); beq_iff = kind_eq_iff }

abbrev pub source_rank : HashSource → ℕ
source_rank header = 0
source_rank scan = 1
source_rank HashSource.unavailable = 2

pub source_eq_iff : (a b : HashSource) → (nat_eq (source_rank a) (source_rank b) ≡ true) ↔ (a ≡ b)
source_eq_iff a b = ground arith

instance abbrev pub Source_eq : Eq HashSource
Source_eq = record { beq = λ a b. nat_eq (source_rank a) (source_rank b); beq_iff = source_eq_iff }

abbrev pub width_rank : PointerCompression → ℕ
width_rank compressed = 0
width_rank uncompressed = 1
width_rank PointerCompression.unavailable = 2
width_rank conflicting = 3

pub width_eq_iff :
    (a b : PointerCompression) → (nat_eq (width_rank a) (width_rank b) ≡ true) ↔ (a ≡ b)
width_eq_iff a b = ground arith

instance abbrev pub Width_eq : Eq PointerCompression
Width_eq = record { beq = λ a b. nat_eq (width_rank a) (width_rank b); beq_iff = width_eq_iff }

abbrev pub arch_eq : TargetArch → TargetArch → Bool
arch_eq arm64 arm64 = true
arch_eq (unsupported a) (unsupported b) = a == b
arch_eq _ _ = false

pub arch_eq_iff : (a b : TargetArch) → (arch_eq a b ≡ true) ↔ (a ≡ b)
arch_eq_iff arm64 arm64 = ground arith
arch_eq_iff arm64 (unsupported b) = ground arith
arch_eq_iff (unsupported a) arm64 = ground arith
arch_eq_iff (unsupported a) (unsupported b) = ground (arith, list_eq_iff a b)

instance abbrev pub Arch_eq : Eq TargetArch
Arch_eq = record { beq = arch_eq; beq_iff = arch_eq_iff }
