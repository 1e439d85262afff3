-- ===== src/Api/Common.antt =====
-- api/v1alpha1/common_types.go: the types that the resources share. A Go string type with constants
-- is a data type of the constants, of `unset` for the empty string and of `other` for any further text.
use aistio.Prelude.{ℕ, String, List}
use aistio.Api.Meta.{ConditionStatus}

pub data ConditionType : Type 0 where
  unset accepted ready data_plane_connected provisioned discovered : ConditionType
  other : String → ConditionType

pub record Condition : Type 0 where
  pub type : ConditionType
  pub status : ConditionStatus
  pub last_transition_time : ℕ
  pub reason : String
  pub message : String

pub record ResourceList : Type 0 where
  pub cpu : String
  pub memory : String

pub record ResourceRequirements : Type 0 where
  pub requests : ResourceList
  pub limits : ResourceList

pub record EnvVar : Type 0 where
  pub name : String
  pub value : String
  pub value_from : String

pub record AllowedNamespaces : Type 0 where
  pub from : String

pub record ObjectReference : Type 0 where
  pub kind : String
  pub name : String
  pub namespace : String

pub record SecretKeyRef : Type 0 where
  pub name : String
  pub key : String

pub record ConfigMapKeyRef : Type 0 where
  pub kind : String
  pub name : String
  pub key : String

pub record ReplicaStatus : Type 0 where
  pub desired : ℕ
  pub ready : ℕ
  pub available : ℕ

pub record Endpoint : Type 0 where
  pub ip : String
  pub port : ℕ

-- `int32` and `int64` fields count from 0.
pub record DataPlaneInfo : Type 0 where
  pub contract_level : ℕ
  pub model : String
  pub model_provider : String
  pub tools : List String
  pub sdk_version : String
  pub version : String
  pub session_affinity : String
  pub capabilities : List String
  pub last_probe_at : String
