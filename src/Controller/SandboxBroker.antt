-- ===== src/Controller/SandboxBroker.antt =====
-- internal/controller/sandbox_broker_controller.go: the reconciler of sandbox claims, which accepts a
-- claim and provisions nothing. Logs are left out; an event of the recorder is its reason.
pub mod Laws
mod Tests
use aistio.Prelude.{
  ℕ, String, Bool, true, false, List, [], ◌∷◌, ◌==◌, comparable_text, if◌then◌else◌,
}
use aistio.Api.Meta.{true_status, false_status}
use aistio.Api.Common.{Condition, accepted, provisioned}
use aistio.Api.Sandbox.{SandboxClaim, SandboxClaimStatus, SandboxPhase}
use aistio.Kube.{Client, Got, found, not_found, get_failed, Wrote, written, conflict, write_failed}
use aistio.Team.Lifecycle.{set_team_condition}
use aistio.Controller.{Result, settled, failed_with}

-- The loop is that of `setTeamCondition`.
abbrev pub set_condition_in_list : Condition → List Condition → List Condition
set_condition_in_list cond conditions = set_team_condition cond conditions

abbrev pub invalid_agent_ref : ℕ → Condition
invalid_agent_ref now = record {
  type = accepted;
  status = false_status;
  last_transition_time = now;
  reason = "InvalidAgentRef";
  message = "agentRef.name is required";
}

abbrev pub claim_accepted : ℕ → Condition
claim_accepted now = record {
  type = accepted;
  status = true_status;
  last_transition_time = now;
  reason = "ClaimAccepted";
  message = "SandboxClaim accepted, awaiting sandbox provisioning";
}

abbrev pub not_implemented : ℕ → Condition
not_implemented now = record {
  type = provisioned;
  status = false_status;
  last_transition_time = now;
  reason = "NotImplemented";
  message =
      "Sandbox provisioning is not yet implemented. The SandboxClaim feature is experimental.";
}

abbrev pub is_bound_phase : SandboxPhase → Bool
is_bound_phase SandboxPhase.bound = true
is_bound_phase SandboxPhase.unset = false
is_bound_phase SandboxPhase.pending = false
is_bound_phase SandboxPhase.released = false
is_bound_phase (SandboxPhase.other s) = false

unfoldable pub refused_status : SandboxClaimStatus → ℕ → SandboxClaimStatus
refused_status st now = record st {
  conditions = set_condition_in_list (invalid_agent_ref now) st.conditions;
}

unfoldable pub pending_status : SandboxClaimStatus → ℕ → SandboxClaimStatus
pending_status st now = record st {
  phase = SandboxPhase.pending;
  conditions =
      set_condition_in_list (not_implemented now)
        (set_condition_in_list (claim_accepted now) st.conditions);
}

abbrev pub after_update : {A : Type 0} → Wrote A → Result
after_update (written a) = settled
after_update conflict = failed_with 0
after_update write_failed = failed_with 0

module _ {S : Type 0} (claims : Client S SandboxClaim) where
  -- The state, the result and the events; the time is read once.
  abbrev pub write_claim : S → SandboxClaim → List String → S × Result × List String
  write_claim s claim events =
      let r = claims.update_status s claim in (r.0, after_update r.1, events)

  unfoldable pub reconcile_claim : S → SandboxClaim → ℕ → S × Result × List String
  reconcile_claim s claim now =
      if is_bound_phase claim.status.phase
      then (s, settled, [])
      else if claim.spec.agent_ref.name == ""
      then write_claim s (record claim { status = refused_status claim.status now }) []
      else write_claim s (record claim { status = pending_status claim.status now })
          ("SandboxNotImplemented" ∷ [])

  abbrev pub reconcile_got : S → Got SandboxClaim → ℕ → S × Result × List String
  reconcile_got s not_found now = (s, settled, [])
  reconcile_got s get_failed now = (s, failed_with 0, [])
  reconcile_got s (found claim) now = reconcile_claim s claim now

  unfoldable pub reconcile : S → String → String → ℕ → S × Result × List String
  reconcile s namespace name now = reconcile_got s (claims.get s namespace name) now
