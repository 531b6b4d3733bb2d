-- ===== src/Loader/Registry/Selection.antt =====
-- crates/flutterdec-loader/src/registry.rs: which record `CompatibilityRegistry::select_key` selects
-- from a registry that `CompatibilityRegistry::validate` accepts.
use mathlib.Core.List.Memᴰ
use mathlib.Core.Path.{ap₂}
use flutterdec.Common.{
  ◌==◌, list_eq_iff, contains, contains_iff, IsDistinct, All, keep, mem-keep, All-mem, Result, ◌>>◌,
  fail_if, fail_if_iff, then_iff, bind_iff, Text, nat_eq, nat_eq_iff, Bool-cases, and_iff, ok, err,
  ℕ, ◌≡◌, refl, sym, ap, ◌∙◌, subst, ◌↔◌, inl, inr, Bool, true, not, ◌||◌, List, ◌∷◌, map, Memᴰ,
  arith, [], ℕ_eq, List_eq, Option_eq, ℕ_order, Text_order,
}
use flutterdec.Loader.Identity.{
  ExactSelectionKey, SnapshotIdentity, IdentityRejection, exact_selection_key,
}
use flutterdec.Loader.Equality.{Arch_eq, arch_eq_iff}
use flutterdec.Loader.Registry.{
  CompatibilityRecord, CompatibilityRegistry, RegistrySelection, RegistryError, ambiguous_key,
  invalid_record, fingerprint_differs, unsupported_version, registry_version, valid_digest,
  canonical_feature_fingerprint, check_identity, check_features, check_fingerprint,
  check_record_parts, validate_record, record_key, check_records, validate_registry, is_exact_match,
  choose, select_target, select_hash, select_key, or_identity, select,
}

IsDistinct-keep :
    {A : Type 0} (f : A → Text) (p : A → Bool) (xs : List A)
    → IsDistinct (map f xs)
    → IsDistinct (map f (keep p xs)) × ((k : Text) → Memᴰ k (map f (keep p xs)) → Memᴰ k (map f xs))
IsDistinct-keep f p [] d = (tt, λ k m. m)
IsDistinct-keep f p (x ∷ xs) d =
    let (rest, sub) = IsDistinct-keep f p xs d.1 in
    elim (Bool-cases (p x)) [
      | inl on ↦ rw on (
        (λ m. d.0 (sub (f x) m), rest),
        λ k m. elim (Memᴰ.cases_cons m) [ inl e ↦ Memᴰ.head e | inr t ↦ Memᴰ.tail (sub k t) ],
      )
      | inr off ↦ rw off (rest, λ k m. Memᴰ.tail (sub k m))
    ]

-- A record for the key: its hash, target and features.
pub Matches : ExactSelectionKey → CompatibilityRecord → Type 0
Matches key r =
    (r.snapshot_hash ≡ key.hash) × (r.target_arch ≡ key.target_arch) × (r.features ≡ key.features)

pub IsSupported : CompatibilityRecord → Type 0
IsSupported r = (r.protocol_major ≡ 1) × (r.model_major ≡ 4)

abbrev the_selection : ExactSelectionKey → CompatibilityRecord → RegistrySelection
the_selection k r = record { key = k; record_ = r }

cons_head : {A : Type 0} {x y : A} {xs ys : List A} → (x ∷ xs) ≡ (y ∷ ys) → x ≡ y
cons_head e = cc

ok_injective :
    {a b : RegistrySelection}
    → ◌≡◌ {A = Result RegistryError RegistrySelection} (ok a) (ok b)
    → a ≡ b
ok_injective e = cc

key_injective :
    {a b : ExactSelectionKey}
    → ◌≡◌ {A = Result RegistryError ExactSelectionKey} (ok a) (ok b)
    → a ≡ b
key_injective e = cc

gate_injective :
    {a b : ExactSelectionKey}
    → ◌≡◌ {A = Result IdentityRejection ExactSelectionKey} (ok a) (ok b)
    → a ≡ b
gate_injective e = cc

module _ (sha256_hex : List ℕ → Text) where
  validated_fingerprint :
      (r : CompatibilityRecord)
      → validate_record sha256_hex r ≡ ok tt
      → r.feature_fingerprint ≡ canonical_feature_fingerprint sha256_hex r.features
  unfolding validate_record check_fingerprint
  validated_fingerprint r h =
      let print = canonical_feature_fingerprint sha256_hex r.features in
      let last = check_fingerprint sha256_hex r >> check_record_parts sha256_hex r in
      let after_identity =
        ((then_iff (check_identity sha256_hex r) (check_features sha256_hex r >> last)).0 h).1 in
      let after_features = ((then_iff (check_features sha256_hex r) last).0 after_identity).1 in
      let checked =
        ((then_iff (check_fingerprint sha256_hex r) (check_record_parts sha256_hex r)).0
          after_features).0 in
      let same =
        (fail_if_iff
            (not (r.feature_fingerprint == print) || not (valid_digest r.feature_fingerprint))
            (invalid_record fingerprint_differs)).0
          checked in
      (list_eq_iff r.feature_fingerprint print).0
        (elim (Bool-cases (r.feature_fingerprint == print)) [
          | inl e ↦ e
          | inr e ↦ absurd (cc (rw e at same))
        ])

  checked :
      (keys : List Text) (rs : List CompatibilityRecord)
      → check_records sha256_hex keys rs ≡ ok tt
      → All (λ (r : CompatibilityRecord). validate_record sha256_hex r ≡ ok tt) rs
        × IsDistinct (map (record_key sha256_hex) rs)
        × ((k : Text) → Memᴰ k (map (record_key sha256_hex) rs) → ¬ Memᴰ k keys)
  unfolding check_records
  checked keys [] h = (tt, tt, λ k m. absurd (Memᴰ.not-nil m))
  checked keys (r ∷ rs) h =
      let k = record_key sha256_hex r in
      let (valid, more) = (then_iff _ _).0 h in
      let (new, rest) = (then_iff _ _).0 more in
      let fresh = (fail_if_iff (contains keys k) (ambiguous_key k)).0 new in
      let (all_valid, distinct, apart) = checked (k ∷ keys) rs rest in
      (
        (valid, all_valid),
        (λ m. apart k m (Memᴰ.head refl), distinct),
        λ j m there. elim (Memᴰ.cases_cons m) [
          | inl e ↦
              let seen : contains keys k ≡ true = (contains_iff keys k).1 (rw e at there) in
              absurd (cc)
          | inr t ↦ apart j t (Memᴰ.tail there)
        ],
      )

  choose_iff :
      (key : ExactSelectionKey) (e : CompatibilityRecord) (xs : List CompatibilityRecord)
      (sel : RegistrySelection)
      → (choose sha256_hex key e xs ≡ ok sel)
        ↔ ((xs ≡ sel.record_ ∷ []) × IsSupported sel.record_ × (sel.key ≡ key))
  unfolding choose IsSupported
  choose_iff key e [] sel = (λ h. absurd (cc), λ h. absurd (cc h.0))
  choose_iff key e (r ∷ []) sel =
      elim (Bool-cases (not (nat_eq r.protocol_major 1) || not (nat_eq r.model_major 4))) [
        | inl bad ↦ rw bad (
          λ h. absurd (cc),
          λ (e', (p, m), q).
              let same : r ≡ sel.record_ = cons_head e' in
              let p' : r.protocol_major ≡ 1 =
                ap (λ (x : CompatibilityRecord). x.protocol_major) same ∙ p in
              let m' : r.model_major ≡ 4 =
                ap (λ (x : CompatibilityRecord). x.model_major) same ∙ m in
              absurd (ground (arith, nat_eq_iff r.protocol_major 1, nat_eq_iff r.model_major 4)),
        )
        | inr good ↦
            let supported : (r.protocol_major ≡ 1) × (r.model_major ≡ 4) = (
              ground (arith, nat_eq_iff r.protocol_major 1),
              ground (arith, nat_eq_iff r.model_major 4),
            ) in
            rw good (
              λ h.
                  let same : record { key = key; record_ = r } ≡ sel = ok_injective h in
                  let r_same = ap (λ (x : RegistrySelection). x.record_) same in
                  (
                    ap (λ (x : CompatibilityRecord). x ∷ []) r_same,
                    (
                      ap (λ (x : CompatibilityRecord). x.protocol_major) (sym r_same) ∙ supported.0,
                      ap (λ (x : CompatibilityRecord). x.model_major) (sym r_same) ∙ supported.1,
                    ),
                    ap (λ (x : RegistrySelection). x.key) (sym same),
                  ),
              λ (e', _, q). ap ok (
                  ap₂ (λ (k : ExactSelectionKey) (x : CompatibilityRecord). the_selection k x)
                    (sym q) (cons_head e')),
            )
      ]
  choose_iff key e (r ∷ s ∷ rest) sel = (λ h. absurd (cc), λ h. absurd (cc h.0))

  -- Two records that match one key have one registry key.
  same_key :
      (key : ExactSelectionKey) (r s : CompatibilityRecord)
      → Matches key r
      → Matches key s
      → r.feature_fingerprint ≡ s.feature_fingerprint
      → record_key sha256_hex r ≡ record_key sha256_hex s
  unfolding Matches
  same_key key r s (h, t, _) (h', t', _) f = rw (h ∙ sym h', t ∙ sym t', f) refl

  mem-exact :
      (key : ExactSelectionKey) (rs : List CompatibilityRecord) (r : CompatibilityRecord)
      → All (λ (x : CompatibilityRecord). validate_record sha256_hex x ≡ ok tt) rs
      → Memᴰ r (
          keep (is_exact_match sha256_hex key) (
            keep
              (λ (s : CompatibilityRecord). s.target_arch == key.target_arch)
              (keep (λ (s : CompatibilityRecord). s.snapshot_hash == key.hash) rs)))
        ↔ (Memᴰ r rs × Matches key r)
  unfolding Matches
  mem-exact key rs r valid =
      let by_hash = keep (λ (s : CompatibilityRecord). s.snapshot_hash == key.hash) rs in
      let by_arch = keep (λ (s : CompatibilityRecord). s.target_arch == key.target_arch) by_hash in
      let a = mem-keep (λ (s : CompatibilityRecord). s.snapshot_hash == key.hash) r rs in
      let b = mem-keep (λ (s : CompatibilityRecord). s.target_arch == key.target_arch) r by_hash in
      let c = mem-keep (is_exact_match sha256_hex key) r by_arch in
      let x = list_eq_iff r.snapshot_hash key.hash in
      let y = arch_eq_iff r.target_arch key.target_arch in
      let z = list_eq_iff r.features key.features in
      let print = canonical_feature_fingerprint sha256_hex key.features in
      let w = list_eq_iff r.feature_fingerprint print in
      (
        λ m.
            let (in_arch, exact) = c.0 m in
            let (in_hash, arch) = b.0 in_arch in
            let (there, hash) = a.0 in_hash in
            let both =
              (and_iff (r.features == key.features) (r.feature_fingerprint == print)).0 exact in
            (there, (x.0 hash, y.0 arch, z.0 both.0)),
        λ (there, (hash, arch, feats)).
            let own = validated_fingerprint r (
              All-mem (λ (x : CompatibilityRecord). validate_record sha256_hex x ≡ ok tt) rs valid
                there) in
            let print_same = own ∙ ap (canonical_feature_fingerprint sha256_hex) feats in
            c.1 (
              b.1 (a.1 (there, x.1 hash), y.1 arch),
              (and_iff (r.features == key.features) (r.feature_fingerprint == print)).1
                  (z.1 feats, w.1 print_same),
            ),
      )

  select_target_iff :
      (key : ExactSelectionKey) (rs : List CompatibilityRecord) (sel : RegistrySelection)
      → (select_target sha256_hex key rs ≡ ok sel) ↔ (
          (keep (is_exact_match sha256_hex key) rs ≡ sel.record_ ∷ [])
          × IsSupported sel.record_
          × (sel.key ≡ key))
  unfolding select_target
  select_target_iff key [] sel = (λ h. absurd (cc), λ h. absurd (cc h.0))
  select_target_iff key (r ∷ rs) sel =
      choose_iff key r (keep (is_exact_match sha256_hex key) (r ∷ rs)) sel

  select_hash_iff :
      (key : ExactSelectionKey) (rs : List CompatibilityRecord) (sel : RegistrySelection)
      → (select_hash sha256_hex key rs ≡ ok sel) ↔ (
          (keep
              (is_exact_match sha256_hex key)
              (keep (λ (s : CompatibilityRecord). s.target_arch == key.target_arch) rs)
            ≡ sel.record_ ∷ [])
          × IsSupported sel.record_
          × (sel.key ≡ key))
  unfolding select_hash
  select_hash_iff key [] sel = (λ h. absurd (cc), λ h. absurd (cc h.0))
  select_hash_iff key (r ∷ rs) sel =
      select_target_iff key
        (keep (λ (s : CompatibilityRecord). s.target_arch == key.target_arch) (r ∷ rs)) sel

  -- Distinct records that all match one key are one record.
  only_one :
      (xs : List CompatibilityRecord) (r : CompatibilityRecord)
      → IsDistinct (map (record_key sha256_hex) xs)
      → ((s : CompatibilityRecord) → Memᴰ s xs → record_key sha256_hex s ≡ record_key sha256_hex r)
      → Memᴰ r xs
      → xs ≡ r ∷ []
  only_one [] r d same m = absurd (Memᴰ.not-nil m)
  only_one (x ∷ []) r d same m =
      ap (λ (t : CompatibilityRecord). t ∷ []) (sym (Memᴰ.eq_of_singleton m))
  only_one (x ∷ y ∷ ys) r d same m =
      absurd (d.0 (Memᴰ.head (same x (Memᴰ.head refl) ∙ sym (same y (Memᴰ.tail (Memᴰ.head refl))))))

  exact_iff :
      (rs : List CompatibilityRecord) (key : ExactSelectionKey) (r : CompatibilityRecord)
      → check_records sha256_hex [] rs ≡ ok tt
      → (keep (is_exact_match sha256_hex key) (
            keep
              (λ (s : CompatibilityRecord). s.target_arch == key.target_arch)
              (keep (λ (s : CompatibilityRecord). s.snapshot_hash == key.hash) rs))
          ≡ r ∷ [])
        ↔ (Memᴰ r rs × Matches key r)
  unfolding Matches
  exact_iff rs key r accepted =
      let (valid, distinct, _) = checked [] rs accepted in
      let k = record_key sha256_hex in
      let by_hash = keep (λ (s : CompatibilityRecord). s.snapshot_hash == key.hash) rs in
      let by_arch = keep (λ (s : CompatibilityRecord). s.target_arch == key.target_arch) by_hash in
      let (d1, _) =
        IsDistinct-keep k (λ (s : CompatibilityRecord). s.snapshot_hash == key.hash) rs distinct in
      let (d2, _) =
        IsDistinct-keep k (λ (s : CompatibilityRecord). s.target_arch == key.target_arch) by_hash
          d1 in
      let (d3, _) = IsDistinct-keep k (is_exact_match sha256_hex key) by_arch d2 in
      let member = λ (s : CompatibilityRecord). mem-exact key rs s valid in
      let own = λ (s : CompatibilityRecord) (m : Memᴰ s rs).
        validated_fingerprint s (
          All-mem (λ (x : CompatibilityRecord). validate_record sha256_hex x ≡ ok tt) rs valid m) in
      (
        λ e. (member r).0 (rw e (Memᴰ.head refl)),
        λ (there, matches).
            only_one (keep (is_exact_match sha256_hex key) by_arch) r d3
              (λ s m.
                let (s_there, s_matches) = (member s).0 m in
                same_key key s r s_matches matches (
                  own s s_there
                  ∙ ap (canonical_feature_fingerprint sha256_hex) (s_matches.2 ∙ sym matches.2)
                  ∙ sym (own r there)))
              ((member r).1 (there, matches)),
      )

  -- From a registry that is accepted, a selection by a key succeeds exactly with the record that has
  -- the key's hash, target and features, when there is one and its majors are 1 and 4.
  pub select_key_iff :
      (registry : CompatibilityRegistry) (key : ExactSelectionKey) (sel : RegistrySelection)
      → validate_registry sha256_hex registry ≡ ok tt
      → (select_key sha256_hex registry key ≡ ok sel) ↔ (
          Memᴰ sel.record_ registry.records
          × Matches key sel.record_
          × IsSupported sel.record_
          × (sel.key ≡ key))
  unfolding validate_registry select_key
  select_key_iff registry key sel accepted =
      let records_ok =
        ((then_iff
            (fail_if (not (nat_eq registry.version registry_version))
              (unsupported_version registry.version))
            (check_records sha256_hex [] registry.records)).0
          accepted).1 in
      let found =
        select_hash_iff key
          (keep (λ (r : CompatibilityRecord). r.snapshot_hash == key.hash) registry.records) sel in
      let exact = exact_iff registry.records key sel.record_ records_ok in
      (
        λ h.
            let (one, majors, k) = found.0 h in
            let (there, matches) = exact.0 one in (there, matches, majors, k),
        λ (there, matches, majors, k). found.1 (exact.1 (there, matches), majors, k),
      )

  or_identity_iff :
      (r : Result IdentityRejection ExactSelectionKey) (key : ExactSelectionKey)
      → (or_identity sha256_hex r ≡ ok key) ↔ (r ≡ ok key)
  or_identity_iff (ok k) key = (λ h. ap ok (key_injective h), λ h. ap ok (gate_injective h))
  or_identity_iff (err e) key = (λ h. absurd (cc), λ h. absurd (cc))

  -- From a registry that is accepted, a selection for a snapshot succeeds exactly when the snapshot
  -- passes the gate before exact selection, with the record that has the hash, target and features of
  -- its key, when there is one and its majors are 1 and 4.
  pub select_iff :
      (registry : CompatibilityRegistry) (snapshot : SnapshotIdentity) (sel : RegistrySelection)
      → validate_registry sha256_hex registry ≡ ok tt
      → (select sha256_hex registry snapshot ≡ ok sel) ↔ (
          (exact_selection_key snapshot ≡ ok sel.key)
          × Memᴰ sel.record_ registry.records
          × Matches sel.key sel.record_
          × IsSupported sel.record_)
  unfolding select
  select_iff registry snapshot sel accepted =
      let gate = exact_selection_key snapshot in
      let bound =
        bind_iff (or_identity sha256_hex gate) (λ key. select_key sha256_hex registry key) sel in
      (
        λ h.
            let (key, passed, chosen) = bound.0 h in
            let (there, matches, majors, k) = (select_key_iff registry key sel accepted).0 chosen in
            (
              (or_identity_iff gate key).0 passed ∙ ap ok (sym k),
              there,
              subst (λ (x : ExactSelectionKey). Matches x sel.record_) (sym k) matches,
              majors,
            ),
        λ (passed, there, matches, majors). bound.1 (
          sel.key,
          (or_identity_iff gate sel.key).1 passed,
          (select_key_iff registry sel.key sel accepted).1 (there, matches, majors, refl),
        ),
      )
