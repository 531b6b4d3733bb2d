-- ===== src/Loader/Identity/Gate.antt =====
-- `exact_selection_key` of crates/flutterdec-loader/src/identity.rs, the gate before exact
-- selection, for an identity that was read from a snapshot header.
use mathlib.Core.List.Memᴰ
use flutterdec.Common.{
  list_eq_iff, contains, contains_iff, length, keep, mem-keep, Text, chars, to_ascii_lowercase, ltb,
  ok, err, ◌≡◌, refl, sym, ap, subst, ◌↔◌, ◌⊎◌, inl, inr, true, false, some, List, ◌∷◌, Memᴰ, arith,
  [], ℕ_eq, List_eq, Option_eq, ℕ_order, Text_order,
}
use flutterdec.Loader.Identity.{
  SnapshotKind, full_aot, header, TargetArch, arm64, PointerCompression, compressed, uncompressed,
  ExactSelectionKey, hash_not_header_derived, SnapshotIdentity, tokens, parse_features, has,
  arch_tokens, declared_targets, declared_target, next, pointer_compression, check_declared,
  from_header, exact_selection_key, is_exact,
}
use flutterdec.Loader.Identity.Features.{
  parse_features-normalized, keep-IsAscending, ascending_single,
}

-- The raw features name no other architecture.
abbrev pub NamesOnlyArm64 : Text → Type 0
NamesOnlyArm64 raw = (t : Text) → Memᴰ t (tokens raw) → Memᴰ t arch_tokens → t ≡ chars "arm64"

-- They say one way or the other how wide a compressed reference is, and not both ways.
abbrev pub NamesOneWidth : Text → Type 0
NamesOneWidth raw =
    Memᴰ (chars "compressed-pointers") (tokens raw)
      × (¬ Memᴰ (chars "no-compressed-pointers") (tokens raw))
    ⊎ (¬ Memᴰ (chars "compressed-pointers") (tokens raw))
      × Memᴰ (chars "no-compressed-pointers") (tokens raw)

abbrev IsWide : PointerCompression → Type 0
IsWide w = (w ≡ compressed) ⊎ (w ≡ uncompressed)

has_iff : (raw t : Text) → (has (parse_features raw) t ≡ true) ↔ Memᴰ t (tokens raw)
has_iff raw t =
    let c = contains_iff (parse_features raw).normalized t in
    let m = (parse_features-normalized raw).1 t in (λ h. m.0 (c.0 h), λ h. c.1 (m.1 h))

width_iff : (raw : Text) → IsWide (pointer_compression (parse_features raw)) ↔ NamesOneWidth raw
unfolding pointer_compression
width_iff raw =
    ground (
      arith,
      has_iff raw (chars "compressed-pointers"),
      has_iff raw (chars "no-compressed-pointers"),
    )

targets_iff :
    (raw : Text)
    → ((declared_targets (parse_features raw) ≡ [])
        ⊎ (declared_targets (parse_features raw) ≡ chars "arm64" ∷ []))
      ↔ NamesOnlyArm64 raw
unfolding declared_targets
targets_iff raw =
    let f = parse_features raw in
    let (asc, mem) = parse_features-normalized raw in
    let picked = λ (t : Text). mem-keep (contains arch_tokens) t f.normalized in
    let arch = λ (t : Text). contains_iff arch_tokens t in
    (
      λ e t m a.
          let found = (picked t).1 ((mem t).1 m, (arch t).1 a) in
          elim e [
            | inl none_left ↦ absurd (Memᴰ.not-nil (subst (Memᴰ t) none_left found))
            | inr one ↦ Memᴰ.eq_of_singleton (subst (Memᴰ t) one found)
          ],
      λ only.
          ascending_single (chars "arm64") (keep (contains arch_tokens) f.normalized)
            (keep-IsAscending (contains arch_tokens) f.normalized asc)
            λ t m. let (n, q) = (picked t).0 m in only t ((mem t).0 n) ((arch t).0 q),
    )

declared_iff :
    (ds : List Text)
    → ((ltb 1 (length ds) ≡ false) × (check_declared arm64 (next ds) ≡ ok tt))
      ↔ ((ds ≡ []) ⊎ (ds ≡ chars "arm64" ∷ []))
declared_iff [] = ground arith
declared_iff (x ∷ []) = ground (arith, list_eq_iff x (chars "arm64"))
declared_iff (x ∷ y ∷ ds) = ground arith

-- The gate of `exact_selection_key` as equations of the identity.
key_iff :
    (s : SnapshotIdentity) (k : ExactSelectionKey)
    → (exact_selection_key s ≡ ok k) ↔ (
        (s.hash_source ≡ header)
        × (s.hash ≡ some k.hash)
        × (s.kind ≡ some full_aot)
        × (s.target_arch ≡ arm64)
        × (k.target_arch ≡ arm64)
        × ((declared_targets s.features ≡ []) ⊎ (declared_targets s.features ≡ chars "arm64" ∷ []))
        × IsWide s.pointer_compression
        × (k.features ≡ s.features.normalized))
unfolding exact_selection_key declared_target
key_iff s k = (
  ground (arith, declared_iff (declared_targets s.features)),
  ground (arith, declared_iff (declared_targets s.features)),
)

-- A snapshot whose header parsed passes the gate exactly when it is a full AOT snapshot in an ARM64
-- container, its features name no other architecture, and they name one reference width; the key is
-- then the lowercased hash, the architecture and the normalized features.
pub exact_selection_iff :
    (arch : TargetArch) (hash : Text) (kind : SnapshotKind) (raw : Text) (k : ExactSelectionKey)
    → (exact_selection_key (from_header arch hash kind raw) ≡ ok k) ↔ (
        (kind ≡ full_aot)
        × (arch ≡ arm64)
        × NamesOnlyArm64 raw
        × NamesOneWidth raw
        × (k.hash ≡ to_ascii_lowercase hash)
        × (k.target_arch ≡ arm64)
        × (k.features ≡ (parse_features raw).normalized))
unfolding from_header
exact_selection_iff arch hash kind raw k =
    let key = key_iff (from_header arch hash kind raw) k in
    let targets = targets_iff raw in
    let width = width_iff raw in
    (
      λ h.
          let (_, same, aot, arm, out, names, wide, fs) = key.0 h in
          (cc aot, arm, targets.0 names, width.0 wide, cc same, out, fs),
      λ (aot, arm, names, wide, same, out, fs).
          key.1
            (refl, ap some (sym same), ap some aot, arm, out, targets.1 names, width.1 wide, fs),
    )

-- Whatever else is known of it, an identity whose hash was not read from a header selects nothing:
-- the gate names the source of the hash as the reason.
pub inexact_is_rejected :
    (s : SnapshotIdentity)
    → is_exact s ≡ false
    → exact_selection_key s ≡ err (hash_not_header_derived s.hash_source)
unfolding exact_selection_key is_exact
inexact_is_rejected s h = ground arith
