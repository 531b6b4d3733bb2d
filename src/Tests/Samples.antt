-- ===== src/Tests/Samples.antt =====
-- A request, a result and a model with its host, all small.
use flutterdec.Common.{
  Text, chars, ℕ, zero, suc, true, false, none, some, List, ◌∷◌, [], ℕ_eq, List_eq, Option_eq,
  ℕ_order, Text_order,
}
use flutterdec.Loader.Identity.{SnapshotIdentity, full_aot, header, arm64, compressed}
use flutterdec.Adapter.Primitives.{Sha256Digest, RelativePath}
use flutterdec.Adapter.Model.{
  code, Producer, registered, CompatibilityBinding, InputRegion, InputRegionName, vm_data,
  isolate_data, vm_instructions, isolate_instructions, ProgramModel, exact, heuristic, Library,
  Class, Function, PoolEntry, PoolGeometry, hardware, complete, partial,
}
use flutterdec.Adapter.Validate.{HostSelectedContext}
use flutterdec.Adapter.Protocol.{
  AdapterStatus, AdapterRequest, AdapterResult, InputHandle, fixed, blutter,
}

abbrev repeat : ℕ → ℕ → Text
repeat c zero = []
repeat c (suc n) = c ∷ repeat c n

abbrev pub digest : Sha256Digest
digest = record { text = repeat 97 64 }

abbrev pub identity : SnapshotIdentity
identity = record {
  hash = some (chars "0123456789abcdef0123456789abcdef");
  hash_source = header;
  kind = some full_aot;
  target_arch = arm64;
  features = record {
    raw = some (chars "arm64 compressed-pointers");
    normalized = chars "arm64" ∷ chars "compressed-pointers" ∷ [];
  };
  pointer_compression = compressed;
}

abbrev pub producer : Producer
producer = record {
  id = chars "blutter";
  version = chars "1";
  artifact_sha256 = digest;
  trust = registered;
}

abbrev pub binding : CompatibilityBinding
binding = record {
  record_sha256 = digest;
  parser_family_id = chars "dart3";
  profile_id = chars "p";
  profile_sha256 = digest;
}

abbrev data_region : InputRegionName → InputRegion
data_region name = record {
  region = name;
  size = 8;
  sha256 = digest;
  virtual_address = none;
  executable = false;
}

abbrev pub code_region : InputRegionName → ℕ → InputRegion
code_region name base = record {
  region = name;
  size = 64;
  sha256 = digest;
  virtual_address = some base;
  executable = true;
}

abbrev pub regions : List InputRegion
regions =
    data_region vm_data
    ∷ data_region isolate_data
    ∷ code_region vm_instructions 4096
    ∷ code_region isolate_instructions 8192
    ∷ []

abbrev pub host : HostSelectedContext
host = record {
  identity = identity;
  producer = producer;
  compatibility = some binding;
  regions = regions;
}

abbrev pub library : Library
library = record { id = 1; uri = chars "package:a/a.dart"; display_name = none; provenance = exact }

abbrev pub base_class : Class
base_class = record {
  id = 1;
  name = chars "Base";
  library = some 1;
  super_class = none;
  provenance = exact;
}

abbrev pub sub_class : Class
sub_class = record {
  id = 2;
  name = chars "Sub";
  library = some 1;
  super_class = some 1;
  provenance = exact;
}

abbrev pub function : Function
function = record {
  id = 7;
  name = some (record { text = chars "build"; provenance = heuristic; confidence = some 0 });
  owner = some 2;
  code = record { start_va = 8200; size = 16 };
  code_section_va = 8192;
  provenance = exact;
}

abbrev pub geometry : PoolGeometry
geometry = record { entries_offset = 16; word_size = 8 }

abbrev pub entry : PoolEntry
entry = record {
  index = 3;
  kind = code;
  value = some (chars "stub");
  target_va = some 4100;
  provenance = exact;
  confidence = none;
}

abbrev pub model : ProgramModel Unit
model = record {
  model_version = 4;
  producer = producer;
  input = record { identity = identity; regions = regions };
  compatibility = some binding;
  capabilities = record {
    libraries = complete;
    classes = complete;
    class_relationships = partial;
    functions = complete;
    function_names = partial;
    object_pool = partial;
    pool_index_space = complete;
  };
  libraries = library ∷ [];
  classes = base_class ∷ sub_class ∷ [];
  functions = function ∷ [];
  object_pool = record { index_space = hardware; geometry = some geometry; entries = entry ∷ [] };
  diagnostics = [];
  extensions = tt;
}

abbrev path : Text → RelativePath
path t = record { text = t }

abbrev handle : InputRegion → Text → InputHandle
handle r t = record {
  region = r.region;
  path = path t;
  size = r.size;
  sha256 = r.sha256;
  virtual_address = r.virtual_address;
  executable = r.executable;
}

abbrev pub vm_data_handle : InputHandle
vm_data_handle = handle (data_region vm_data) (chars "in/vm_data")

abbrev pub isolate_data_handle : InputHandle
isolate_data_handle = handle (data_region isolate_data) (chars "in/isolate_data")

abbrev pub request : AdapterRequest
request = record {
  protocol_major = 1;
  model_major = 4;
  compatibility = binding;
  producer = producer;
  identity = identity;
  requested_backend = fixed blutter;
  inputs =
      vm_data_handle
      ∷ isolate_data_handle
      ∷ handle (code_region vm_instructions 4096) (chars "in/vm_code")
      ∷ handle (code_region isolate_instructions 8192) (chars "in/isolate_code")
      ∷ [];
  output = path (chars "out/model.json");
}

abbrev pub result : AdapterResult
result = record {
  protocol_major = 1;
  model_major = 4;
  status = AdapterStatus.ok;
  model = some (path (chars "out/model.json"));
  error = none;
  resolved_backend = some blutter;
  fallback_reason = none;
  diagnostics = [];
}
