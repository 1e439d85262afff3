-- ===== src/Asdp/Protocol.antt =====
-- internal/asdp/asdp.proto: the messages of the data-plane protocol. A configuration type is its
-- protocol number, a timestamp is a number, and a measured share is an opaque text.
use aistio.Prelude.{ℕ, String, Bool, Option, List}

pub record UpstreamMeta : Type 0 where
  pub agent_name : String
  pub instance_id : String
  pub namespace : String
  pub timestamp : ℕ

pub record ConnectRequest : Type 0 where
  pub runtime : String
  pub sdk_version : String
  pub capabilities : List String
  pub session_affinity : String

pub record ConfigAck : Type 0 where
  pub config_type : ℕ
  pub version : String
  pub nonce : String
  pub accepted : Bool
  pub reject_reason : String

pub record TaskSummary : Type 0 where
  pub total : ℕ
  pub pending : ℕ
  pub in_progress : ℕ
  pub completed : ℕ

pub record SessionSnapshot : Type 0 where
  pub session_id : String
  pub phase : String
  pub message_count : ℕ
  pub prompt_tokens : ℕ
  pub completion_tokens : ℕ
  pub context_pressure : String
  pub task_summary : Option TaskSummary
  pub team_id : String
  pub team_role : String

pub record SessionReport : Type 0 where
  pub sessions : List SessionSnapshot

pub record TeamEventReport : Type 0 where
  pub team_id : String
  pub event_type : String
  pub member_name : String
  pub task_id : String
  pub detail : String

pub data Upstream : Type 0 where
  connect : ConnectRequest → Upstream
  config_ack : ConfigAck → Upstream
  session_report : SessionReport → Upstream
  team_event : TeamEventReport → Upstream
  heartbeat : ℕ → Upstream
  unknown : Upstream

pub record ConnectResponse : Type 0 where
  pub accepted : Bool
  pub reject_reason : String
  pub control_plane_version : String

pub record ConfigPush : Type 0 where
  pub config_type : ℕ
  pub version : String
  pub resources : Option String
  pub nonce : String

pub record SessionCommand : Type 0 where
  pub session_id : String
  pub command : String
  pub params : String

pub record TeamEvent : Type 0 where
  pub team_id : String
  pub event_type : String
  pub member_name : String
  pub task_id : String
  pub payload : String
  pub timestamp : ℕ

pub data Downstream : Type 0 where
  connect_response : ConnectResponse → Downstream
  push : ConfigPush → Downstream
  session_cmd : SessionCommand → Downstream
  event : TeamEvent → Downstream
  beat : ℕ → Downstream
