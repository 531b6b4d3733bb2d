-- ===== src/Adapter/Validate/Hierarchy.antt =====
-- crates/flutterdec-adapter/src/validate.rs: `check_references`.
use flutterdec.Common.{
  contains, length, Check, ◌>>◌, fail_if, for_each, if◌then◌else◌, is_none, ok, err, ℕ, zero, suc,
  Bool, true, false, Option, none, some, List, ◌∷◌, [], ℕ_eq, List_eq, Option_eq, ℕ_order,
  Text_order,
}
use flutterdec.Adapter.Model.{ClassId, Library, Class, Function, ProgramModel, library_of, class_of}
use flutterdec.Adapter.Validate.Errors.{
  ValidationError, missing_library_reference, missing_super_class_reference,
  missing_owner_reference, super_class_cycle,
}
use flutterdec.Adapter.Validate.Names.{if_some}

unfoldable pub check_class_references : List Library → List Class → Class → Check ValidationError
check_class_references libraries classes c = do
  if_some c.library λ library.
      fail_if (is_none (library_of libraries library)) (missing_library_reference c.id library)
  if_some c.super_class λ super_class.
      fail_if (is_none (class_of classes super_class))
        (missing_super_class_reference c.id super_class)

unfoldable pub check_owner : List Class → Function → Check ValidationError
check_owner classes f =
    if_some f.owner
      λ owner. fail_if (is_none (class_of classes owner)) (missing_owner_reference f.id owner)

-- `model.class(id).and_then(|c| c.super_class)`.
abbrev pub super_of_found : Option Class → Option ClassId
super_of_found none = none
super_of_found (some c) = c.super_class

abbrev pub super_of : List Class → ClassId → Option ClassId
super_of classes id = super_of_found (class_of classes id)

-- The `while let` loop with its set `visited`: whether the walk comes back to a class that it has
-- visited; `none` when the fuel runs out.
unfoldable pub walks_back : List Class → ℕ → List ClassId → Option ClassId → Option Bool
walks_back classes zero visited cursor = none
walks_back classes (suc fuel) visited none = some false
walks_back classes (suc fuel) visited (some next) =
    let rest = walks_back classes fuel (next ∷ visited) (super_of classes next) in
    if contains visited next then some true else rest

-- Two rounds more than there are classes.
abbrev pub walk_fuel : List Class → ℕ
walk_fuel classes = suc (suc (length classes))

abbrev pub walk_verdict : ClassId → Option Bool → Check ValidationError
walk_verdict id (some false) = ok tt
walk_verdict id (some true) = err (super_class_cycle id)
walk_verdict id none = err (super_class_cycle id)

unfoldable pub check_chain : List Class → Class → Check ValidationError
check_chain classes c =
    walk_verdict c.id (walks_back classes (walk_fuel classes) (c.id ∷ []) c.super_class)

module _ {Extensions : Type 0} where
  unfoldable pub check_references : ProgramModel Extensions → Check ValidationError
  check_references m = do
    for_each (check_class_references m.libraries m.classes) m.classes
    for_each (check_owner m.classes) m.functions
    for_each (check_chain m.classes) m.classes
