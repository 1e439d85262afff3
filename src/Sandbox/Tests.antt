-- ===== src/Sandbox/Tests.antt =====
-- A claim of a session, provisioned and released, on a server that holds nothing else.
use aistio.Prelude.{◌≡◌, refl, true, none, [], comparable_text}
use aistio.Api.Sandbox.{SandboxClaim, SandboxPhase}
use aistio.Kube.{Client, found}
use aistio.Kube.Stored.{single}
use aistio.Admission.Samples.{meta_of, ref_to}
use aistio.Sandbox.{SandboxClient, bound_to, provision, release}
use aistio.Sandbox.Claims.{claim_meta, IsApart}

abbrev pending_claim : SandboxClaim
pending_claim = record {
  metadata = meta_of "c1";
  spec = record {
    agent_ref = ref_to "crew";
    session_ref = ref_to "s1";
    sandbox_template = record { pod_template = none; lifecycle = none; network = none };
  };
  status = record {
    phase = SandboxPhase.pending;
    sandbox_ref = none;
    service_fqdn = "";
    conditions = [];
  };
}

abbrev claims : Client SandboxClaim SandboxClaim
claims = single claim_meta

abbrev sandboxes : SandboxClient SandboxClaim
sandboxes = record { create = λ s x. (s, true); delete = λ s namespace name. s }

apart : IsApart claims sandboxes "boxes"
apart = record {
  create_apart = λ s x namespace name. refl;
  delete_apart = λ s ns n namespace name. refl;
}

abbrev bound_claim : SandboxClaim
bound_claim = bound_to "boxes" pending_claim

provisions : (provision claims sandboxes "boxes" pending_claim pending_claim).1 ≡ true
unfolding provision bound_to
provisions = refl

-- The claim that a later release reads.
found_bound :
    claims.get (provision claims sandboxes "boxes" pending_claim pending_claim).0 "default" "c1"
    ≡ found bound_claim
unfolding provision bound_to
found_bound = refl

releases :
    (release claims sandboxes "boxes"
      (provision claims sandboxes "boxes" pending_claim pending_claim).0
      bound_claim).1
    ≡ true
unfolding provision bound_to release
releases = refl
