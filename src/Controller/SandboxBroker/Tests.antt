-- ===== src/Controller/SandboxBroker/Tests.antt =====
-- A claim of a session that waits for a sandbox.
use aistio.Prelude.{◌≡◌, refl, false, none, [], comparable_text}
use aistio.Api.Sandbox.{SandboxClaim, SandboxPhase}
use aistio.Kube.{Client}
use aistio.Kube.Stored.{single, single-IsStored}
use aistio.Admission.Samples.{meta_of, ref_to}
use aistio.Sandbox.Claims.{claim_meta, claim_status}
use aistio.Controller.SandboxBroker.{reconcile, reconcile_claim, pending_status}
use aistio.Controller.SandboxBroker.Laws.{IsReconciled, reconcile-IsReconciled}

abbrev new_claim : SandboxClaim
new_claim = record {
  metadata = meta_of "c1";
  spec = record {
    agent_ref = ref_to "crew";
    session_ref = ref_to "s1";
    sandbox_template = record { pod_template = none; lifecycle = none; network = none };
  };
  status = record {
    phase = SandboxPhase.unset;
    sandbox_ref = none;
    service_fqdn = "";
    conditions = [];
  };
}

abbrev claims : Client SandboxClaim SandboxClaim
claims = single claim_meta

waits : (reconcile claims new_claim "default" "c1" 7).0.status.phase ≡ SandboxPhase.pending
unfolding reconcile reconcile_claim pending_status
waits = refl

no_trouble : (reconcile claims new_claim "default" "c1" 7).1.error ≡ false
unfolding reconcile reconcile_claim pending_status
no_trouble = refl

reconcile-IsReconciled_example :
    IsReconciled claims
      (single-IsStored claim_meta claim_status)
      new_claim
      new_claim
      "default"
      "c1"
      7
      (reconcile claims new_claim "default" "c1" 7).0
reconcile-IsReconciled_example =
    reconcile-IsReconciled claims (single-IsStored claim_meta claim_status) new_claim new_claim
      "default" "c1" 7 refl no_trouble
