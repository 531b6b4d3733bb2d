-- ===== src/Adapter/Validate/PoolLayout.antt =====
-- The contract of `check_geometry` of crates/flutterdec-adapter/src/validate.rs.
use flutterdec.Common.{
  All-of_mem, All-mem, fail_if, for_each_iff, ltb, nat_eq, is_none, u64_mod, ok, ℕ, ◌+◌, ◌*◌, ◌%◌,
  ◌<◌, ◌≡◌, ◌↔◌, ◌⊎◌, false, not, ◌||◌, some, List, Memᴰ, arith, ℕ_eq, List_eq, Option_eq, ℕ_order,
  Text_order,
}
use flutterdec.Adapter.Model.{PoolGeometry, PoolEntry, ObjectPool, displacement_for_index}
use flutterdec.Adapter.Validate.Errors.{pool_index_out_of_bounds}
use flutterdec.Adapter.Validate.Addresses.{is_power_of_two, check_layout, check_geometry}
use flutterdec.Adapter.Validate.References.{if_some_iff}

-- A layout of the entries in words that all lie inside the address space.
pub record IsLaidOut (entries : List PoolEntry) (g : PoolGeometry) : Type 0 where
  pub word : (g.word_size ≡ 1) ⊎ (g.word_size ≡ 2) ⊎ (g.word_size ≡ 4) ⊎ (g.word_size ≡ 8)
  pub aligned : g.entries_offset % g.word_size ≡ 0
  pub fits : (e : PoolEntry) → Memᴰ e entries → e.index * g.word_size + g.entries_offset < u64_mod

displacement_iff :
    (g : PoolGeometry) (i : ℕ)
    → (is_none (displacement_for_index g i) ≡ false)
      ↔ (i * g.word_size + g.entries_offset < u64_mod)
unfolding displacement_for_index
displacement_iff g i = ground arith

word_iff :
    (w : ℕ)
    → (nat_eq w 0 || ltb 8 w || not (is_power_of_two w) ≡ false)
      ↔ ((w ≡ 1) ⊎ (w ≡ 2) ⊎ (w ≡ 4) ⊎ (w ≡ 8))
word_iff w = ground arith

layout_iff :
    (entries : List PoolEntry) (g : PoolGeometry)
    → (check_layout entries g ≡ ok tt) ↔ IsLaidOut entries g
unfolding check_layout
layout_iff entries g =
    let word = word_iff g.word_size in
    let each =
      for_each_iff
        (λ (e : PoolEntry).
          fail_if (is_none (displacement_for_index g e.index)) (pool_index_out_of_bounds e.index))
        entries in
    let fits = λ (e : PoolEntry). displacement_iff g e.index in
    (
      λ h. record {
        word = word.0 (ground arith);
        aligned = ground arith;
        fits = λ e n.
            let passed =
              All-mem
                (λ (e : PoolEntry).
                  fail_if (is_none (displacement_for_index g e.index))
                    (pool_index_out_of_bounds e.index)
                  ≡ ok tt)
                entries (each.0 (ground arith)) n in
            (fits e).0 (ground arith);
      },
      λ l.
          let fitting =
            each.1 (All-of_mem entries λ e n. ground (arith, (fits e).1 (l.fits e n))) in
          let worded = word.1 l.word in ground (arith, l.aligned),
    )

-- The geometry of a pool is accepted exactly when there is none, or its words are of 1, 2, 4 or 8
-- bytes, its offset is a multiple of a word, and the displacement of every entry is a `u64`.
pub check_geometry_iff :
    (pool : ObjectPool)
    → (check_geometry pool ≡ ok tt)
      ↔ ((g : PoolGeometry) → pool.geometry ≡ some g → IsLaidOut pool.entries g)
unfolding check_geometry
check_geometry_iff pool =
    let each = if_some_iff pool.geometry (check_layout pool.entries) in
    (
      λ h g e. (layout_iff pool.entries g).0 (each.0 h g e),
      λ h. each.1 λ g e. (layout_iff pool.entries g).1 (h g e),
    )
