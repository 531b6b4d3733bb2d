-- ===== src/Adapter/Validate/Identifiers.antt =====
-- The contract of `check_identity_and_order` of crates/flutterdec-adapter/src/validate.rs.
use flutterdec.Common.{
  IsWeaklyAscending-iff_adjacent, IsAscending-iff_IsDistinct, IsDistinct, insert_all, gather,
  insert_all_iff, All-of_mem, bind_iff, IsAscending, IsWeaklyAscending, ltb, ok, ℕ, String, ◌≡◌,
  refl, ◌↔◌, List, map, arith, [], ℕ_eq, List_eq, Option_eq, ℕ_order, Text_order,
}
use flutterdec.Adapter.Model.{PoolEntry, Library, Class, Function, ProgramModel}
use flutterdec.Adapter.Validate.Errors.{
  ValidationError, duplicate_library_id, duplicate_class_id, duplicate_function_id,
  duplicate_pool_index,
}
use flutterdec.Adapter.Validate.Records.{check_distinct, check_order, check_identity_and_order}

module _ {A : Type 0} (id : A → ℕ) where
  check_distinct_iff :
      (dup : ℕ → ValidationError) (xs : List A)
      → (check_distinct id dup xs ≡ ok tt) ↔ IsDistinct (map id xs)
  unfolding check_distinct
  check_distinct_iff dup xs =
      let loop = insert_all_iff id (λ x. dup (id x)) (λ x. ok tt) xs in
      let step = bind_iff (insert_all id (λ x. dup (id x)) (λ x. ok tt) [] xs) (λ _. ok tt) tt in
      (
        λ h. let (out, done, _) = step.0 h in ((loop out).0 done).0,
        λ d. step.1 (
          gather id [] xs,
          (loop (gather id [] xs)).1 (d, All-of_mem xs (λ x m. refl), refl),
          refl,
        ),
      )

  check_order_iff :
      (name : String) (xs : List A)
      → (check_order id name xs ≡ ok tt) ↔ IsWeaklyAscending (map id xs)
  unfolding check_order
  check_order_iff name xs =
      let order =
        IsWeaklyAscending-iff_adjacent id (λ a b. ltb (id b) (id a)) (λ a b. ground arith) xs in
      (λ h. order.0 (ground arith), λ w. ground (arith, order.1 w))

  -- The two checks of one collection together.
  canonical_iff :
      (dup : ℕ → ValidationError) (name : String) (xs : List A)
      → ((check_distinct id dup xs ≡ ok tt) × (check_order id name xs ≡ ok tt))
        ↔ IsAscending (map id xs)
  canonical_iff dup name xs =
      let a = IsAscending-iff_IsDistinct (map id xs) in
      let d = check_distinct_iff dup xs in
      let o = check_order_iff name xs in
      (
        λ (distinct, order). a.1 (d.0 distinct, o.0 order),
        λ h. let (distinct, order) = a.0 h in (d.1 distinct, o.1 order),
      )

-- Libraries, classes and functions by id, and pool entries by index: strictly ascending.
pub record IsCanonical {Extensions : Type 0} (m : ProgramModel Extensions) : Type 0 where
  pub libraries : IsAscending (map (λ (l : Library). l.id) m.libraries)
  pub classes : IsAscending (map (λ (c : Class). c.id) m.classes)
  pub functions : IsAscending (map (λ (f : Function). f.id) m.functions)
  pub entries : IsAscending (map (λ (e : PoolEntry). e.index) m.object_pool.entries)

-- The identifiers are accepted exactly when all four collections are strictly ascending: no id is
-- repeated, and a model has one order in which to write its records.
pub check_identity_and_order_iff :
    {Extensions : Type 0} (m : ProgramModel Extensions)
    → (check_identity_and_order m ≡ ok tt) ↔ IsCanonical m
unfolding check_identity_and_order
check_identity_and_order_iff m =
    let ls = canonical_iff (λ (l : Library). l.id) duplicate_library_id "libraries" m.libraries in
    let cs = canonical_iff (λ (c : Class). c.id) duplicate_class_id "classes" m.classes in
    let fs = canonical_iff (λ (f : Function). f.id) duplicate_function_id "functions" m.functions in
    let es =
      canonical_iff (λ (e : PoolEntry). e.index) duplicate_pool_index "object pool entries"
        m.object_pool.entries in
    (
      λ h. record {
        libraries = ls.0 (ground arith, ground arith);
        classes = cs.0 (ground arith, ground arith);
        functions = fs.0 (ground arith, ground arith);
        entries = es.0 (ground arith, ground arith);
      },
      λ c. ground (arith, ls.1 c.libraries, cs.1 c.classes, fs.1 c.functions, es.1 c.entries),
    )
