-- ===== src/Sandbox.antt =====
-- internal/sandbox/broker.go and lifecycle.go: the sandbox that a claim gets, and when it is released.
-- The object of a sandbox is unstructured in the code; here an absent key is an empty text, an
-- empty list or `none`. Logs are left out.
pub mod Claims
mod Tests
use aistio.Prelude.{
  ℕ, String, ◌<>◌, Bool, true, false, ◌&&◌, Option, none, some, List, [], ◌∷◌, map, ◌==◌,
  comparable_text, if◌then◌else◌,
}
use aistio.Prelude.Dict.{Dict}
use aistio.Api.Meta.{ObjectMeta, OwnerReference}
use aistio.Api.Common.{ObjectReference, ResourceRequirements, ResourceList}
use aistio.Api.Agent.{NetworkPolicy, SandboxLifecycle}
use aistio.Api.Sandbox.{
  SandboxClaim, SandboxClaimStatus, SandboxPhase, ContainerSpec, PodTemplateSpec,
  SandboxTemplateSpec,
}
use aistio.Kube.{Client, Wrote, written, conflict, write_failed}
use aistio.Team.Lifecycle.{Duration, has_passed}

pub record Container : Type 0 where
  pub name : String
  pub image : String
  pub limits : Option ResourceList

pub record SandboxObject : Type 0 where
  pub name : String
  pub namespace : String
  pub labels : Dict String String
  pub owner : OwnerReference
  pub pod_template : Option (List Container)
  pub lifecycle : Option SandboxLifecycle
  pub allowed_domains : List String

unfoldable pub sandbox_namespace_or_default : String → String
sandbox_namespace_or_default ns = if ns == "" then "agent-sandboxes" else ns

unfoldable pub sandbox_name : SandboxClaim → String
sandbox_name claim = claim.spec.agent_ref.name <> "-" <> claim.metadata.name

abbrev pub limits_of : Option ResourceRequirements → Option ResourceList
limits_of none = none
limits_of (some r) = some r.limits

unfoldable pub to_container : ContainerSpec → Container
to_container c = record { name = c.name; image = c.image; limits = limits_of c.resources }

abbrev pub containers_of : Option PodTemplateSpec → Option (List Container)
containers_of none = none
containers_of (some t) = some (map to_container t.containers)

abbrev pub domains_of : Option NetworkPolicy → List String
domains_of none = []
domains_of (some n) = n.allowed_domains

unfoldable pub new_sandbox : String → SandboxClaim → SandboxObject
new_sandbox sandbox_namespace claim = record {
  name = sandbox_name claim;
  namespace = sandbox_namespace;
  labels =
      ("agentscope.io/agent", claim.spec.agent_ref.name)
      ∷ ("agentscope.io/session", claim.spec.session_ref.name)
      ∷ ("agentscope.io/claim", claim.metadata.name)
      ∷ [];
  owner = record { kind = "SandboxClaim"; name = claim.metadata.name; uid = claim.metadata.uid };
  pod_template = containers_of claim.spec.sandbox_template.pod_template;
  lifecycle = claim.spec.sandbox_template.lifecycle;
  allowed_domains = domains_of claim.spec.sandbox_template.network;
}

unfoldable pub bound_to : String → SandboxClaim → SandboxClaim
bound_to sandbox_namespace claim = record claim {
  status = record claim.status {
    phase = SandboxPhase.bound;
    sandbox_ref =
        some (record { kind = ""; name = sandbox_name claim; namespace = sandbox_namespace });
    service_fqdn = sandbox_name claim <> "." <> sandbox_namespace <> ".svc.cluster.local";
  };
}

abbrev pub released_claim : SandboxClaim → SandboxClaim
released_claim claim = record claim {
  status = record claim.status { phase = SandboxPhase.released };
}

abbrev pub is_bound : SandboxPhase → Bool
is_bound SandboxPhase.bound = true
is_bound SandboxPhase.unset = false
is_bound SandboxPhase.pending = false
is_bound SandboxPhase.released = false
is_bound (SandboxPhase.other s) = false

abbrev pub is_written : {A : Type 0} → Wrote A → Bool
is_written (written b) = true
is_written conflict = false
is_written write_failed = false

-- The sandboxes: a creation, and a deletion by namespace and name whose error is only logged.
pub record SandboxClient (S : Type 0) : Type 0 where
  pub create : S → SandboxObject → S × Bool
  pub delete : S → String → String → S

module _ {S : Type 0} (claims : Client S SandboxClaim) (sandboxes : SandboxClient S)
    (sandbox_namespace : String) where
  abbrev pub write_claim : S → SandboxClaim → S × Bool
  write_claim s claim = let r = claims.update_status s claim in (r.0, is_written r.1)

  -- The Boolean is that there is no error.
  unfoldable pub provision : S → SandboxClaim → S × Bool
  provision s claim =
      let made = sandboxes.create s (new_sandbox sandbox_namespace claim) in
      let bound = write_claim made.0 (bound_to sandbox_namespace claim) in
      if made.1 then bound else (made.0, false)

  unfoldable pub release : S → SandboxClaim → S × Bool
  release s claim = elim claim.status.sandbox_ref [
    | none ↦ (s, true)
    | some ref ↦ write_claim (sandboxes.delete s ref.namespace ref.name) (released_claim claim)
  ]

  module _ (parse_duration : String → Option Duration) where
    abbrev pub idle_for : SandboxClaim → String → ℕ → Bool
    idle_for claim text now = elim (parse_duration text) [
      | none ↦ false
      | some d ↦ has_passed now claim.metadata.creation_timestamp d
    ]

    unfoldable pub check_idle_timeout : SandboxClaim → ℕ → Bool
    check_idle_timeout claim now =
        if is_bound claim.status.phase
        then elim claim.spec.sandbox_template.lifecycle [
          | none ↦ false
          | some l ↦ if l.idle_timeout == "" then false else idle_for claim l.idle_timeout now
        ]
        else false

    abbrev pub serves_session : String → SandboxClaim → Bool
    serves_session name claim = (claim.spec.session_ref.name == name) && is_bound claim.status.phase

    -- The loops of `HandleSessionTermination` and `ReleaseExpired` over the listed claims.
    unfoldable pub release_where : (SandboxClaim → Bool) → S → List SandboxClaim → S
    release_where test s [] = s
    release_where test s (claim ∷ rest) =
        release_where test (if test claim then (release s claim).0 else s) rest

    unfoldable pub handle_session_termination : S → String → String → S × Bool
    handle_session_termination s session_name namespace = elim (claims.list s namespace []) [
      | none ↦ (s, false)
      | some items ↦ (release_where (serves_session session_name) s items, true)
    ]

    unfoldable pub release_expired : S → String → ℕ → S × Bool
    release_expired s namespace now = elim (claims.list s namespace []) [
      | none ↦ (s, false)
      | some items ↦ (release_where (λ claim. check_idle_timeout claim now) s items, true)
    ]
