-- ===== src/Adapter/Model/Program.antt =====
-- crates/flutterdec-adapter/src/model.rs: the program model and the lookups in it. The type of the
-- free-form `extensions` is a parameter: nothing but JSON is in there, and no code reads it.
use flutterdec.Common.{
  ◌==◌, find?, Text, ℕ, Option, none, some, List, ℕ_eq, List_eq, Option_eq, ℕ_order, Text_order,
}
use flutterdec.Adapter.Model.Facts.{
  Provenance, exact, Producer, CompatibilityBinding, Capabilities, Diagnostic,
}
use flutterdec.Adapter.Model.Input.{ObservedInput, CodeRange}
use flutterdec.Adapter.Model.Pool.{ObjectPool}

-- `struct LibraryId(u32)`, `ClassId(u32)` and `FunctionId(u32)`.
abbrev pub LibraryId : Type 0
LibraryId = ℕ

abbrev pub ClassId : Type 0
ClassId = ℕ

abbrev pub FunctionId : Type 0
FunctionId = ℕ

pub record Name : Type 0 where
  pub text : Text
  pub provenance : Provenance
  pub confidence : Option ℕ  -- f64

abbrev pub exact_name : Text → Name
exact_name text = record { text = text; provenance = exact; confidence = none }

pub record Library : Type 0 where
  pub id : LibraryId
  pub uri : Text
  pub display_name : Option Text
  pub provenance : Provenance

pub record Class : Type 0 where
  pub id : ClassId
  pub name : Text
  pub library : Option LibraryId
  pub super_class : Option ClassId
  pub provenance : Provenance

pub record Function : Type 0 where
  pub id : FunctionId
  pub name : Option Name
  pub owner : Option ClassId
  pub code : CodeRange
  pub code_section_va : ℕ  -- u64
  pub provenance : Provenance

pub record ProgramModel (Extensions : Type 0) : Type 0 where
  pub model_version : ℕ  -- u32
  pub producer : Producer
  pub input : ObservedInput
  pub compatibility : Option CompatibilityBinding
  pub capabilities : Capabilities
  pub libraries : List Library
  pub classes : List Class
  pub functions : List Function
  pub object_pool : ObjectPool
  pub diagnostics : List Diagnostic
  pub extensions : Extensions

abbrev pub model_major : ℕ
model_major = 4

abbrev pub library_of : List Library → LibraryId → Option Library
library_of ls id = find? (λ l. l.id == id) ls

abbrev pub class_of : List Class → ClassId → Option Class
class_of cs id = find? (λ c. c.id == id) cs

abbrev pub function_of : List Function → FunctionId → Option Function
function_of fs id = find? (λ f. f.id == id) fs

abbrev bind {ℓ κ} : {A : Type ℓ} {B : Type κ} → Option A → (A → Option B) → Option B
bind none f = none
bind (some a) f = f a

module _ {Extensions : Type 0} where
  unfoldable pub class_library_uri : ProgramModel Extensions → ClassId → Option Text
  class_library_uri m id =
      bind (class_of m.classes id)
        λ c. bind c.library λ l. bind (library_of m.libraries l) λ found. some found.uri

  unfoldable pub owner_name : ProgramModel Extensions → Function → Option Text
  owner_name m f = bind f.owner λ id. bind (class_of m.classes id) λ c. some c.name

  unfoldable pub owner_library_uri : ProgramModel Extensions → Function → Option Text
  owner_library_uri m f = bind f.owner λ id. class_library_uri m id
