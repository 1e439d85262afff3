-- ===== src/Api/Session.antt =====
-- api/v1alpha1/agentsession_types.go
use aistio.Prelude.{ℕ, String, Bool, Option, List}
use aistio.Api.Meta.{ObjectMeta}
use aistio.Api.Common.{Condition, ObjectReference}

pub data SessionPhase : Type 0 where
  unset active idle compressing terminated : SessionPhase
  other : String → SessionPhase

pub record SessionCommands : Type 0 where
  pub compress : Bool
  pub terminate : Bool

pub record AgentSessionSpec : Type 0 where
  pub agent_ref : ObjectReference
  pub commands : Option SessionCommands

pub record TokenUsage : Type 0 where
  pub prompt_tokens : ℕ
  pub completion_tokens : ℕ
  pub total_tokens : ℕ

pub record ContextPressure : Type 0 where
  pub used_tokens : ℕ
  pub max_tokens : ℕ
  pub ratio : String

pub record TaskState : Type 0 where
  pub id : String
  pub subject : String
  pub state : String

pub record SessionState : Type 0 where
  pub summary : String
  pub current_iter : ℕ
  pub context_pressure : Option ContextPressure
  pub tasks : List TaskState

pub record AgentSessionStatus : Type 0 where
  pub phase : SessionPhase
  pub instance_ref : String
  pub instance_ip : String
  pub started_at : String
  pub last_active_at : String
  pub message_count : ℕ
  pub token_usage : Option TokenUsage
  pub state : Option SessionState
  pub conditions : List Condition

pub record AgentSession : Type 0 where
  pub metadata : ObjectMeta
  pub spec : AgentSessionSpec
  pub status : AgentSessionStatus

abbrev pub session_meta : AgentSession → ObjectMeta
session_meta s = s.metadata

abbrev pub session_status : AgentSession → AgentSessionStatus
session_status s = s.status
