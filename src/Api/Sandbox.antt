-- ===== src/Api/Sandbox.antt =====
-- api/v1alpha1/sandboxclaim_types.go
use aistio.Prelude.{String, Option, List}
use aistio.Api.Meta.{ObjectMeta}
use aistio.Api.Common.{Condition, ResourceRequirements, ObjectReference}
use aistio.Api.Agent.{NetworkPolicy, SandboxLifecycle}

pub data SandboxPhase : Type 0 where
  unset pending bound released : SandboxPhase
  other : String → SandboxPhase

pub record ContainerSpec : Type 0 where
  pub name : String
  pub image : String
  pub resources : Option ResourceRequirements

pub record PodTemplateSpec : Type 0 where
  pub containers : List ContainerSpec

pub record SandboxTemplateSpec : Type 0 where
  pub pod_template : Option PodTemplateSpec
  pub lifecycle : Option SandboxLifecycle
  pub network : Option NetworkPolicy

pub record SandboxClaimSpec : Type 0 where
  pub agent_ref : ObjectReference
  pub session_ref : ObjectReference
  pub sandbox_template : SandboxTemplateSpec

pub record SandboxClaimStatus : Type 0 where
  pub phase : SandboxPhase
  pub sandbox_ref : Option ObjectReference
  pub service_fqdn : String
  pub conditions : List Condition

pub record SandboxClaim : Type 0 where
  pub metadata : ObjectMeta
  pub spec : SandboxClaimSpec
  pub status : SandboxClaimStatus
