-- ===== src/Api/Agent.antt =====
-- api/v1alpha1/agent_types.go
use aistio.Prelude.{ℕ, String, Bool, Option, List}
use aistio.Prelude.Dict.{Dict}
use aistio.Api.Meta.{ObjectMeta, Toleration}
use aistio.Api.Common.{
  Condition, ResourceRequirements, EnvVar, AllowedNamespaces, ObjectReference, ConfigMapKeyRef,
  ReplicaStatus, Endpoint, DataPlaneInfo,
}
use aistio.Api.Team.{DynamicMembersSpec, TeamConfig}

pub data AgentType : Type 0 where
  unset declarative byo : AgentType
  other : String → AgentType

pub data ManagementMode : Type 0 where
  unset cp_managed adopted : ManagementMode
  other : String → ManagementMode

pub record AgentConfig : Type 0 where
  pub system_message : String
  pub system_message_from : Option ConfigMapKeyRef
  pub model_config_ref : String
  pub stream : Bool
  pub max_turns : ℕ
  pub session_affinity : String

pub record McpServerRef : Type 0 where
  pub name : String
  pub tool_names : List String
  pub require_approval : List String

pub record SkillRef : Type 0 where
  pub name : String
  pub version : String

pub record ToolBinding : Type 0 where
  pub type : String
  pub mcp_server : Option McpServerRef
  pub skill : Option SkillRef

pub record SkillBinding : Type 0 where
  pub name : String
  pub description : String
  pub instructions : String
  pub ref : String

pub record SkillsSpec : Type 0 where
  pub refs : List String
  pub bindings : List SkillBinding

pub record SubagentSpec : Type 0 where
  pub name : String
  pub description : String
  pub model : String
  pub instructions : String
  pub tools : List String
  pub steps : ℕ
  pub workspace_mode : String
  pub url : String

pub record TeamTemplateMember : Type 0 where
  pub role : String
  pub agent_ref : String
  pub prompt : String

pub record TeamTemplateRef : Type 0 where
  pub name : String
  pub description : String
  pub members : List TeamTemplateMember
  pub dynamic_members : Option DynamicMembersSpec
  pub config : Option TeamConfig

pub record ContextStrategyConfig : Type 0 where
  pub trigger_ratio : String
  pub reserve_ratio : String
  pub compression_model : String

pub record ReactConfig : Type 0 where
  pub max_iters : ℕ
  pub stop_on_reject : Bool

pub record AdvancedConfig : Type 0 where
  pub context_strategy : Option ContextStrategyConfig
  pub react_config : Option ReactConfig
  pub labels : Dict String String
  pub node_selector : Dict String String
  pub tolerations : List Toleration

pub record DeclarativeSpec : Type 0 where
  pub agent_config : AgentConfig
  pub tools : List ToolBinding
  pub skills : Option SkillsSpec
  pub subagents : List SubagentSpec
  pub team_templates : List TeamTemplateRef
  pub replicas : Option ℕ
  pub resources : Option ResourceRequirements
  pub env : List EnvVar
  pub advanced : Option AdvancedConfig

pub record ByoOverrides : Type 0 where
  pub tools : List ToolBinding

pub record HttpGetAction : Type 0 where
  pub path : String
  pub port : ℕ

pub record HealthProbeRef : Type 0 where
  pub http_get : Option HttpGetAction

pub record ByoSpec : Type 0 where
  pub image : String
  pub command : List String
  pub args : List String
  pub workload_ref : Option ObjectReference
  pub replicas : Option ℕ
  pub resources : Option ResourceRequirements
  pub env : List EnvVar
  pub agent_port : ℕ
  pub contract_path : String
  pub overrides : Option ByoOverrides
  pub health_probe : Option HealthProbeRef
  pub advanced : Option AdvancedConfig

pub record NetworkPolicy : Type 0 where
  pub allowed_domains : List String

pub record SandboxLifecycle : Type 0 where
  pub shutdown_policy : String
  pub idle_timeout : String

pub record SandboxSpec : Type 0 where
  pub enabled : Bool
  pub template_ref : String
  pub network : Option NetworkPolicy
  pub lifecycle : Option SandboxLifecycle

pub record AgentSpec : Type 0 where
  pub type : AgentType
  pub runtime : String
  pub display_name : String
  pub description : String
  pub declarative : Option DeclarativeSpec
  pub byo : Option ByoSpec
  pub sandbox : Option SandboxSpec
  pub allowed_namespaces : Option AllowedNamespaces

pub record AgentStatus : Type 0 where
  pub observed_generation : ℕ
  pub revision : String
  pub management_mode : ManagementMode
  pub conditions : List Condition
  pub replicas : ReplicaStatus
  pub active_sessions : ℕ
  pub data_plane_info : Option DataPlaneInfo
  pub endpoints : List Endpoint

pub record Agent : Type 0 where
  pub metadata : ObjectMeta
  pub spec : AgentSpec
  pub status : AgentStatus
