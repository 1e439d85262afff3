-- ===== src/Api/Team.antt =====
-- api/v1alpha1/agentteam_types.go. Integers are those that the schema admits, which are not negative.
use aistio.Prelude.{ℕ, String, Bool, Option, List}
use aistio.Api.Meta.{ObjectMeta}
use aistio.Api.Common.{Condition, ObjectReference}

pub data TeamPhase : Type 0 where
  unset pending running completed failed : TeamPhase
  other : String → TeamPhase

pub data MemberPhase : Type 0 where
  unset joining working idle lost failed shutdown : MemberPhase
  other : String → MemberPhase

pub data MemberOrigin : Type 0 where
  unset static dynamic : MemberOrigin
  other : String → MemberOrigin

pub record TeamLeadSpec : Type 0 where
  pub agent_ref : ObjectReference
  pub prompt : String

pub record TeamMemberSpec : Type 0 where
  pub name : String
  pub agent_ref : ObjectReference
  pub prompt : String
  pub plan_approval : Bool

pub record DynamicMembersSpec : Type 0 where
  pub enabled : Bool
  pub max_total : ℕ
  pub allowed_agent_refs : List ObjectReference

pub record SharedContextSpec : Type 0 where
  pub config_map_ref : String

pub record RecoverySpec : Type 0 where
  pub reschedule_policy : String
  pub max_restarts : ℕ
  pub restart_backoff : String
  pub grace_window : String

pub record TeamLifecycle : Type 0 where
  pub max_duration : String
  pub ttl_after_completed : String
  pub ttl_after_failed : String

pub record TeamConfig : Type 0 where
  pub task_claim_strategy : String
  pub shutdown_policy : String

pub record AgentTeamSpec : Type 0 where
  pub objective : String
  pub lead : TeamLeadSpec
  pub members : List TeamMemberSpec
  pub dynamic_members : Option DynamicMembersSpec
  pub shared_context : Option SharedContextSpec
  pub recovery : Option RecoverySpec
  pub lifecycle : Option TeamLifecycle
  pub config : Option TeamConfig

pub record TeamMemberStatus : Type 0 where
  pub name : String
  pub origin : MemberOrigin
  pub agent_ref : String
  pub session_id : String
  pub instance_ref : String
  pub phase : MemberPhase
  pub current_task : String
  pub restart_count : ℕ
  pub last_restart_at : String
  pub last_restart_reason : String
  pub added_at : String

pub record TeamTaskSummary : Type 0 where
  pub total : ℕ
  pub pending : ℕ
  pub in_progress : ℕ
  pub completed : ℕ

pub record AgentTeamStatus : Type 0 where
  pub phase : TeamPhase
  pub started_at : String
  pub lead : Option TeamMemberStatus
  pub members : List TeamMemberStatus
  pub tasks : Option TeamTaskSummary
  pub conditions : List Condition

pub record AgentTeam : Type 0 where
  pub metadata : ObjectMeta
  pub spec : AgentTeamSpec
  pub status : AgentTeamStatus

abbrev pub team_meta : AgentTeam → ObjectMeta
team_meta t = t.metadata

abbrev pub team_status : AgentTeam → AgentTeamStatus
team_status t = t.status
