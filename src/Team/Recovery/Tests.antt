-- ===== src/Team/Recovery/Tests.antt =====
-- A team of two members, the second of which fails.
use aistio.Prelude.{
  ℕ, String, ◌≡◌, refl, ◌↔◌, true, false, none, some, [], ◌∷◌, ==_iff, comparable_text,
}
use aistio.Api.Team.{
  AgentTeam, TeamMemberStatus, RecoverySpec, MemberPhase, MemberOrigin, TeamPhase,
}
use aistio.Team.Recovery.{
  FailureAction, reschedule, update_status, max_restarts, after_failure, handle_member_failure,
  check_dynamic_member,
}
use aistio.Team.Recovery.Laws.{
  IsFailure, MayJoin, handle_member_failure_exact, check_dynamic_member_iff,
}

abbrev member : String → ℕ → TeamMemberStatus
member name restarts = record {
  name = name;
  origin = MemberOrigin.static;
  agent_ref = "worker";
  session_id = "";
  instance_ref = "";
  phase = MemberPhase.working;
  current_task = "";
  restart_count = restarts;
  last_restart_at = "";
  last_restart_reason = "";
  added_at = "";
}

abbrev policy : RecoverySpec
policy = record {
  reschedule_policy = "Auto";
  max_restarts = 0;
  restart_backoff = "";
  grace_window = "";
}

abbrev crew : AgentTeam
crew = record {
  metadata = record {
    name = "crew";
    namespace = "default";
    generate_name = "";
    labels = [];
    annotations = [];
    finalizers = [];
    owner_references = [];
    uid = "";
    resource_version = 0;
    creation_timestamp = 0;
    deleting = false;
  };
  spec = record {
    objective = "ship";
    lead = record { agent_ref = record { kind = ""; name = "boss"; namespace = "" }; prompt = "" };
    members = [];
    dynamic_members = some (record { enabled = true; max_total = 4; allowed_agent_refs = [] });
    shared_context = none;
    recovery = some policy;
    lifecycle = none;
    config = none;
  };
  status = record {
    phase = TeamPhase.running;
    started_at = "";
    lead = none;
    members = member "a" 0 ∷ member "b" 2 ∷ [];
    tasks = none;
    conditions = [];
  };
}

third_restart : (after_failure (some policy) "evicted" (member "b" 2)).1 ≡ reschedule
unfolding after_failure max_restarts
third_restart = refl

fourth_restart :
    (after_failure (some policy) "evicted" (member "b" 3)).1 ≡ update_status (some "exhausted")
unfolding after_failure max_restarts
fourth_restart = refl

handle_member_failure_exact_example :
    (m' : TeamMemberStatus) × (action : FailureAction) × (handle_member_failure crew "b" "evicted"
      ≡ some (
        record crew { status = record crew.status { members = member "a" 0 ∷ m' ∷ [] } },
        1,
        action,
      ))
    × IsFailure (some policy) "evicted" (member "b" 2) m' action
handle_member_failure_exact_example =
    handle_member_failure_exact crew "b" "evicted" (member "a" 0 ∷ []) [] (member "b" 2) refl
      ((λ e. cc ((==_iff (member "a" 0).name "b").1 e)), tt) refl

check_dynamic_member_iff_example :
    (check_dynamic_member (λ s. s) crew "worker" ≡ none) ↔ MayJoin crew "worker"
check_dynamic_member_iff_example = check_dynamic_member_iff (λ s. s) crew "worker"
