-- ===== src/Admission/Tests.antt =====
-- Resources that the webhooks admit.
use aistio.Prelude.{
  String, ◌≡◌, ◌≢◌, ◌⊎◌, ◌↔◌, true, false, Option, none, some, [], ◌∷◌, All, length,
  comparable_text, comparable_number,
}
use aistio.Prelude.Dict.{Dict}
use aistio.Api.Team.{AgentTeam, TeamPhase, TeamMemberSpec}
use aistio.Api.Mcp.{McpServer, McpServerType}
use aistio.Api.Model.{ModelConfig}
use aistio.Api.Session.{AgentSession, SessionPhase}
use aistio.Admission.Samples.{meta_of, image_agent, ref_to}
use aistio.Admission.Agents.{validate_agent, set_defaults}
use aistio.Admission.Agents.Laws.{
  IsDeclarative, IsByo, validate_agent_iff, validate_agent-set_defaults,
}
use aistio.Admission.Teams.{validate_team}
use aistio.Admission.Teams.Laws.{
  IsNamed, DistinctNames, names, HasRoom, HasPolicy, HasDuration, validate_team_iff,
}

abbrev runtimes : Dict String String
runtimes = ("java", "adapter") ∷ []

abbrev plain : String → String
plain s = s

validate_agent_iff_example :
    (validate_agent plain runtimes image_agent ≡ none)
    ↔ (IsDeclarative runtimes image_agent ⊎ IsByo runtimes image_agent)
validate_agent_iff_example = validate_agent_iff plain runtimes image_agent

validate_agent-set_defaults_example :
    validate_agent plain runtimes (set_defaults image_agent)
    ≡ validate_agent plain runtimes image_agent
validate_agent-set_defaults_example = validate_agent-set_defaults plain runtimes image_agent

abbrev member : String → TeamMemberSpec
member name = record {
  name = name;
  agent_ref = ref_to "worker";
  prompt = "";
  plan_approval = false;
}

abbrev crew : AgentTeam
crew = record {
  metadata = meta_of "crew";
  spec = record {
    objective = "ship";
    lead = record { agent_ref = ref_to "boss"; prompt = "" };
    members = member "a" ∷ member "b" ∷ [];
    dynamic_members = some (record { enabled = true; max_total = 3; allowed_agent_refs = [] });
    shared_context = none;
    recovery = none;
    lifecycle = none;
    config = some (record { task_claim_strategy = ""; shutdown_policy = "manual" });
  };
  status = record {
    phase = TeamPhase.unset;
    started_at = "";
    lead = none;
    members = [];
    tasks = none;
    conditions = [];
  };
}

abbrev no_error : String → Option String
no_error s = none

validate_team_iff_example : (validate_team plain no_error crew ≡ none) ↔ (
    (crew.spec.lead.agent_ref.name ≢ "")
    × (All IsNamed crew.spec.members × DistinctNames (names crew.spec.members))
    × HasRoom (length crew.spec.members) crew.spec.dynamic_members
    × HasPolicy crew.spec.config
    × HasDuration no_error crew.spec.lifecycle)
validate_team_iff_example = validate_team_iff plain no_error crew

abbrev remote_server : McpServer
remote_server = record {
  metadata = meta_of "tools";
  spec = record {
    description = "";
    type = McpServerType.remote_type;
    remote = some (record { protocol = ""; url = "http://tools"; headers_from = []; timeout = "" });
    stdio = none;
    allowed_namespaces = none;
  };
  status = record { conditions = []; discovered_tools = [] };
}

abbrev model : ModelConfig
model = record {
  metadata = meta_of "model";
  spec = record {
    provider = "dashscope";
    model = "qwen";
    api_key_secret = "keys";
    api_key_secret_key = "token";
    options = [];
    tls = none;
  };
  status = record { conditions = []; secret_hash = "" };
}

abbrev session : AgentSession
session = record {
  metadata = record (meta_of "lead") {
    labels = ("agentscope.io/team", "crew") ∷ ("agentscope.io/team-role", "lead") ∷ [];
  };
  spec = record { agent_ref = ref_to "boss"; commands = none };
  status = record {
    phase = SessionPhase.unset;
    instance_ref = "";
    instance_ip = "";
    started_at = "";
    last_active_at = "";
    message_count = 0;
    token_usage = none;
    state = none;
    conditions = [];
  };
}
