-- ===== src/Adapter/Validate/Records.antt =====
-- crates/flutterdec-adapter/src/validate.rs: `check_identity_and_order`.
use flutterdec.Common.{
  insert_all, any_adjacent, Check, ◌>>=◌, ◌>>◌, fail_if, ltb, ok, ℕ, String, List, [], ℕ_eq,
  List_eq, Option_eq, ℕ_order, Text_order,
}
use flutterdec.Adapter.Model.{ProgramModel}
use flutterdec.Adapter.Validate.Errors.{
  ValidationError, duplicate_library_id, duplicate_class_id, duplicate_function_id,
  duplicate_pool_index, noncanonical_order,
}

-- One of the four loops over a collection's ids.
unfoldable pub check_distinct :
    {A : Type 0} → (A → ℕ) → (ℕ → ValidationError) → List A → Check ValidationError
check_distinct id duplicate xs =
    insert_all id (λ x. duplicate (id x)) (λ x. ok tt) [] xs >>= λ _. ok tt

-- One of the four tests of `windows(2)`.
unfoldable pub check_order : {A : Type 0} → (A → ℕ) → String → List A → Check ValidationError
check_order id collection xs =
    fail_if (any_adjacent (λ a b. ltb (id b) (id a)) xs) (noncanonical_order collection)

module _ {Extensions : Type 0} where
  unfoldable pub check_identity_and_order : ProgramModel Extensions → Check ValidationError
  check_identity_and_order m = do
    check_distinct (λ l. l.id) duplicate_library_id m.libraries
    check_distinct (λ c. c.id) duplicate_class_id m.classes
    check_distinct (λ f. f.id) duplicate_function_id m.functions
    check_distinct (λ e. e.index) duplicate_pool_index m.object_pool.entries
    check_order (λ l. l.id) "libraries" m.libraries
    check_order (λ c. c.id) "classes" m.classes
    check_order (λ f. f.id) "functions" m.functions
    check_order (λ e. e.index) "object pool entries" m.object_pool.entries
