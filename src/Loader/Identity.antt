-- ===== src/Loader/Identity.antt =====
-- crates/flutterdec-loader/src/identity.rs: the identity of a snapshot, and the gate before exact
-- adapter selection.
pub mod Features
pub mod Gate
use flutterdec.Common.{
  ◌==◌, contains, length, keep, Result, Check, ◌>>=◌, ◌>>◌, fail_if, ok_or, sort, dedup, Text,
  chars, to_ascii_lowercase, split_whitespace, ltb, ok, err, ℕ, zero, suc, ◌+◌, ◌-◌, Bool, true,
  false, not, Option, none, some, List, ◌∷◌, map, [], ℕ_eq, List_eq, Option_eq, ℕ_order, Text_order,
  any, if◌then◌else◌,
}

pub data SnapshotKind : Type 0 where
  full full_core full_jit full_aot unrecognized : SnapshotKind

-- The header's `int64`: `negsuc n` is -(n + 1).
pub data ℤ : Type 0 where
  pos : ℕ → ℤ
  negsuc : ℕ → ℤ

pub from_header_value : ℤ → SnapshotKind
from_header_value (pos zero) = full
from_header_value (pos (suc zero)) = full_core
from_header_value (pos (suc (suc zero))) = full_jit
from_header_value (pos (suc (suc (suc zero)))) = full_aot
from_header_value _ = unrecognized

pub data HashSource : Type 0 where
  header scan unavailable : HashSource

pub data TargetArch : Type 0 where
  arm64 : TargetArch
  unsupported : Text → TargetArch

abbrev pub arch_name : TargetArch → Text
arch_name arm64 = chars "arm64"
arch_name (unsupported other) = other

pub data PointerCompression : Type 0 where
  compressed uncompressed unavailable conflicting : PointerCompression

pub record FeatureEvidence : Type 0 where
  pub raw : Option Text
  pub normalized : List Text

abbrev pub unavailable_features : FeatureEvidence
unavailable_features = record { raw = none; normalized = [] }

abbrev pub tokens : Text → List Text
tokens raw = map to_ascii_lowercase (split_whitespace raw)

pub parse_features : Text → FeatureEvidence
parse_features raw = record { raw = some raw; normalized = dedup (sort (tokens raw)) }

abbrev pub has : FeatureEvidence → Text → Bool
has f token = contains f.normalized token

abbrev pub arch_tokens : List Text
arch_tokens =
    chars "ia32"
    ∷ chars "x64"
    ∷ chars "arm"
    ∷ chars "arm64"
    ∷ chars "riscv32"
    ∷ chars "riscv64"
    ∷ []

pub declared_targets : FeatureEvidence → List Text
declared_targets f = keep (contains arch_tokens) f.normalized

-- `iter.next()`.
abbrev pub next : List Text → Option Text
next [] = none
next (x ∷ xs) = some x

pub declared_target : FeatureEvidence → Option Text
unfolding declared_targets
declared_target f = next (declared_targets f)

abbrev pub compression_of : Bool → Bool → PointerCompression
compression_of true true = conflicting
compression_of true false = compressed
compression_of false true = uncompressed
compression_of false false = PointerCompression.unavailable

pub pointer_compression : FeatureEvidence → PointerCompression
pointer_compression f =
    compression_of (has f (chars "compressed-pointers")) (has f (chars "no-compressed-pointers"))

pub record SnapshotIdentity : Type 0 where
  pub hash : Option Text
  pub hash_source : HashSource
  pub kind : Option SnapshotKind
  pub target_arch : TargetArch
  pub features : FeatureEvidence
  pub pointer_compression : PointerCompression

pub data IdentityRejection : Type 0 where
  hash_not_header_derived : HashSource → IdentityRejection
  not_full_aot : Option SnapshotKind → IdentityRejection
  unsupported_target : Text → IdentityRejection
  conflicting_target_features : List Text → IdentityRejection
  target_arch_conflict : Text → Text → IdentityRejection
  pointer_compression_unavailable : PointerCompression → IdentityRejection

pub record ExactSelectionKey : Type 0 where
  pub hash : Text
  pub target_arch : TargetArch
  pub features : List Text

pub without_header : TargetArch → Option Text → SnapshotIdentity
without_header arch scanned = record {
  hash = scanned;
  hash_source = elim scanned [ some _ ↦ scan | none ↦ HashSource.unavailable ];
  kind = none;
  target_arch = arch;
  features = unavailable_features;
  pointer_compression = PointerCompression.unavailable;
}

pub from_header : TargetArch → Text → SnapshotKind → Text → SnapshotIdentity
unfolding parse_features pointer_compression
from_header arch hash kind features_raw =
    let features = parse_features features_raw in
    record {
      hash = some (to_ascii_lowercase hash);
      hash_source = header;
      kind = some kind;
      target_arch = arch;
      features = features;
      pointer_compression = pointer_compression features;
    }

abbrev is_header : HashSource → Bool
is_header header = true
is_header _ = false

abbrev is_full_aot : Option SnapshotKind → Bool
is_full_aot (some full_aot) = true
is_full_aot _ = false

-- `let TargetArch::Arm64 = self.target_arch else { … }`.
abbrev require_arm64 : TargetArch → Check IdentityRejection
require_arm64 arm64 = ok tt
require_arm64 (unsupported other) = err (unsupported_target other)

abbrev check_declared : TargetArch → Option Text → Check IdentityRejection
check_declared arch none = ok tt
check_declared arch (some declared) =
    fail_if (not (declared == arch_name arch)) (target_arch_conflict declared (arch_name arch))

abbrev check_compression : PointerCompression → Check IdentityRejection
check_compression compressed = ok tt
check_compression uncompressed = ok tt
check_compression other = err (pointer_compression_unavailable other)

unfoldable pub is_exact : SnapshotIdentity → Bool
is_exact s = is_header s.hash_source

pub exact_selection_key : SnapshotIdentity → Result IdentityRejection ExactSelectionKey
exact_selection_key s = do
  fail_if (not (is_header s.hash_source)) (hash_not_header_derived s.hash_source)
  hash ← ok_or s.hash (hash_not_header_derived HashSource.unavailable)
  fail_if (not (is_full_aot s.kind)) (not_full_aot s.kind)
  require_arm64 s.target_arch
  fail_if (ltb 1 (length (declared_targets s.features)))
      (conflicting_target_features (declared_targets s.features))
  check_declared s.target_arch (declared_target s.features)
  check_compression s.pointer_compression
  ok (record { hash = hash; target_arch = s.target_arch; features = s.features.normalized })
