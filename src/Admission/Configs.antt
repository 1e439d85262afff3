-- ===== src/Admission/Configs.antt =====
-- internal/discovery/mcpserver_webhook.go, modelconfig_webhook.go and agentsession_webhook.go: the
-- validation of an MCPServer, of a ModelConfig and of an AgentSession.
pub mod Laws
use aistio.Prelude.{
  String, ◌<>◌, Bool, true, false, not, ◌&&◌, ◌||◌, Option, none, some, ◌==◌, comparable_text,
  if◌then◌else◌,
}
use aistio.Prelude.Dict.{lookup}
use aistio.Api.Mcp.{McpServer, McpServerType, RemoteMcpConfig, StdioMcpConfig}
use aistio.Api.Model.{ModelConfig}
use aistio.Api.Session.{AgentSession}
use aistio.Admission.Checks.{check, is_some}

unfoldable pub validate_remote : Option RemoteMcpConfig → Option String
validate_remote none = some "spec.remote is required when type=Remote"
validate_remote (some remote) =
    check (remote.url == "") "spec.remote.url is required when type=Remote" none

unfoldable pub validate_stdio : Option StdioMcpConfig → Option String
validate_stdio none = some "spec.stdio is required when type=Stdio"
validate_stdio (some stdio) =
    check (stdio.command == "") "spec.stdio.command is required when type=Stdio" none

unfoldable pub validate_server : (String → String) → McpServer → Option String
validate_server quote server = elim server.spec.type [
  | McpServerType.remote_type ↦ validate_remote server.spec.remote
  | McpServerType.stdio_type ↦ validate_stdio server.spec.stdio
  | McpServerType.unset ↦ some ("spec.type must be Remote or Stdio, got " <> quote "")
  | McpServerType.other s ↦ some ("spec.type must be Remote or Stdio, got " <> quote s)
]

unfoldable pub validate_model_config : ModelConfig → Option String
validate_model_config mc = check (mc.spec.provider == "") "spec.provider is required" (
    check (mc.spec.model == "") "spec.model is required" (
      check (not (mc.spec.api_key_secret == "") && (mc.spec.api_key_secret_key == ""))
        "spec.apiKeySecretKey is required when spec.apiKeySecret is set" none))

-- `a != b` of two Booleans
abbrev pub differ : Bool → Bool → Bool
differ true b = not b
differ false b = b

unfoldable pub validate_session : AgentSession → Option String
validate_session session =
    let has_team = is_some (lookup "agentscope.io/team" session.metadata.labels) in
    let has_role = is_some (lookup "agentscope.io/team-role" session.metadata.labels) in
    check (session.spec.agent_ref.name == "") "spec.agentRef.name is required" (
      check (differ has_team has_role)
        "labels agentscope.io/team and agentscope.io/team-role must be set together" none)
