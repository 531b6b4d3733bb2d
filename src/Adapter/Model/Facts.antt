-- ===== src/Adapter/Model/Facts.antt =====
-- crates/flutterdec-adapter/src/model.rs: how well facts are known, and what a model says of what it
-- does not know.
use flutterdec.Common.{
  Eq, Text, chars, nat_eq, ℕ, ◌≡◌, ◌↔◌, Bool, true, false, Option, some, List, ◌∷◌, arith, [], ℕ_eq,
  List_eq, Option_eq, ℕ_order, Text_order,
}
use flutterdec.Adapter.Primitives.{Sha256Digest}

pub data Provenance : Type 0 where
  exact derived heuristic : Provenance

abbrev pub admits_confidence : Provenance → Bool
admits_confidence heuristic = true
admits_confidence _ = false

pub data CapabilityLevel : Type 0 where
  complete partial unavailable : CapabilityLevel

abbrev pub is_complete : CapabilityLevel → Bool
is_complete complete = true
is_complete _ = false

abbrev pub is_unavailable : CapabilityLevel → Bool
is_unavailable unavailable = true
is_unavailable _ = false

pub data Domain : Type 0 where
  libraries classes class_relationships functions function_names object_pool pool_index_space :
      Domain

abbrev pub all_domains : List Domain
all_domains =
    libraries ∷ classes ∷ class_relationships ∷ functions ∷ function_names ∷ object_pool
    ∷ pool_index_space ∷ []

abbrev pub domain_name : Domain → Text
domain_name libraries = chars "libraries"
domain_name classes = chars "classes"
domain_name class_relationships = chars "class_relationships"
domain_name functions = chars "functions"
domain_name function_names = chars "function_names"
domain_name object_pool = chars "object_pool"
domain_name pool_index_space = chars "pool_index_space"

pub record Capabilities : Type 0 where
  pub libraries : CapabilityLevel
  pub classes : CapabilityLevel
  pub class_relationships : CapabilityLevel
  pub functions : CapabilityLevel
  pub function_names : CapabilityLevel
  pub object_pool : CapabilityLevel
  pub pool_index_space : CapabilityLevel

abbrev pub level : Capabilities → Domain → CapabilityLevel
level caps libraries = caps.libraries
level caps classes = caps.classes
level caps class_relationships = caps.class_relationships
level caps functions = caps.functions
level caps function_names = caps.function_names
level caps object_pool = caps.object_pool
level caps pool_index_space = caps.pool_index_space

abbrev pub all_unavailable : Capabilities
all_unavailable = record {
  libraries = unavailable;
  classes = unavailable;
  class_relationships = unavailable;
  functions = unavailable;
  function_names = unavailable;
  object_pool = unavailable;
  pool_index_space = unavailable;
}

pub data DiagnosticSeverity : Type 0 where
  info warning error : DiagnosticSeverity

pub data DiagnosticCode : Type 0 where
  domain_unsupported domain_not_recovered domain_partially_recovered domain_heuristic_only
        region_not_decoded record_discarded :
      DiagnosticCode

pub record Diagnostic : Type 0 where
  pub code : DiagnosticCode
  pub severity : DiagnosticSeverity
  pub subject : Option Text
  pub message : Text

abbrev pub unavailable_diagnostic : Domain → Text → Diagnostic
unavailable_diagnostic domain message = record {
  code = domain_not_recovered;
  severity = warning;
  subject = some (domain_name domain);
  message = message;
}

pub data ProducerTrust : Type 0 where
  registered local untrusted : ProducerTrust

abbrev pub trust_rank : ProducerTrust → ℕ
trust_rank registered = 0
trust_rank local = 1
trust_rank untrusted = 2

pub trust_eq_iff : (a b : ProducerTrust) → (nat_eq (trust_rank a) (trust_rank b) ≡ true) ↔ (a ≡ b)
trust_eq_iff a b = ground arith

instance abbrev pub Trust_eq : Eq ProducerTrust
Trust_eq = record { beq = λ a b. nat_eq (trust_rank a) (trust_rank b); beq_iff = trust_eq_iff }

pub record Producer : Type 0 where
  pub id : Text
  pub version : Text
  pub artifact_sha256 : Sha256Digest
  pub trust : ProducerTrust

-- The registry decision that authorized a run.
pub record CompatibilityBinding : Type 0 where
  pub record_sha256 : Sha256Digest
  pub parser_family_id : Text
  pub profile_id : Text
  pub profile_sha256 : Sha256Digest
