-- ===== src/Admission/Samples.antt =====
-- An agent of the user's own image, for the tests.
use aistio.Prelude.{String, false, none, some, [], comparable_text, comparable_number}
use aistio.Api.Meta.{ObjectMeta}
use aistio.Api.Common.{ObjectReference}
use aistio.Api.Agent.{Agent, AgentType, ManagementMode}

abbrev pub meta_of : String → ObjectMeta
meta_of name = record {
  name = name;
  namespace = "default";
  generate_name = "";
  labels = [];
  annotations = [];
  finalizers = [];
  owner_references = [];
  uid = "";
  resource_version = 0;
  creation_timestamp = 0;
  deleting = false;
}

abbrev pub ref_to : String → ObjectReference
ref_to name = record { kind = ""; name = name; namespace = "" }

abbrev pub image_agent : Agent
image_agent = record {
  metadata = meta_of "crew";
  spec = record {
    type = AgentType.byo;
    runtime = "java";
    display_name = "";
    description = "";
    declarative = none;
    byo = some (record {
      image = "crew:1";
      command = [];
      args = [];
      workload_ref = none;
      replicas = none;
      resources = none;
      env = [];
      agent_port = 0;
      contract_path = "";
      overrides = none;
      health_probe = none;
      advanced = none;
    });
    sandbox = none;
    allowed_namespaces = none;
  };
  status = record {
    observed_generation = 0;
    revision = "";
    management_mode = ManagementMode.unset;
    conditions = [];
    replicas = record { desired = 0; ready = 0; available = 0 };
    active_sessions = 0;
    data_plane_info = none;
    endpoints = [];
  };
}
