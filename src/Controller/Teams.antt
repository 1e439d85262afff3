-- ===== src/Controller/Teams.antt =====
-- internal/controller/agentteam_controller.go: the reconciler of teams. `Lifecycle` is there or, in
-- the functions of the legacy paths, nil. Logs and metrics are left out, and an event of the recorder
-- is its reason; the registration with the manager is not modelled.
pub mod Phases
pub mod Timeout
pub mod Finalizer
pub mod Policy
mod Tests
use aistio.Prelude.{
  ℕ, ◌+◌, ◌-◌, ◌^◌, String, Bool, true, false, not, ◌&&◌, ◌||◌, Option, none, some, List, [], ◌∷◌,
  ◌++◌, ltb, ◌==◌, comparable_text, comparable_number, if◌then◌else◌, keep,
}
use aistio.Api.Meta.{ConditionStatus, true_status, false_status}
use aistio.Api.Common.{Condition, ConditionType, ready}
use aistio.Api.Message
use aistio.Api.Task
use aistio.Api.Session.{AgentSession, SessionPhase}
use aistio.Api.Team.{
  AgentTeam, AgentTeamStatus, TeamConfig, TeamLifecycle, TeamPhase, TeamMemberSpec,
  TeamMemberStatus, MemberPhase, MemberOrigin,
}
use aistio.Kube.{Client, Got, found, not_found, get_failed, Wrote, written, conflict, write_failed}
use aistio.Kube.Retry.{Outcome, succeeded, conflicted, errored, outcome_of}
use aistio.Team.KubeTaskStore.{labels_of}
use aistio.Team.Stores.{TaskStoreInterface}
use aistio.Team.Spawner.{Spawning, TeamContext}
use aistio.Team.Lifecycle.{
  Managed, Duration, forward, backward, has_passed, set_team_condition, check_timeout,
  check_all_complete, ttl_of, lead_status, static_status, no_tasks, exceeds,
}
use aistio.Team.Lifecycle.Ends.{complete_team, cleanup_team_state, is_written}
use aistio.Team.Lifecycle.Members.{start_team, recover_member}
use aistio.Controller.{Result, settled, retry_after, failed_with}

abbrev pub team_finalizer : String
team_finalizer = "agentscope.io/team-finalizer"

-- `controllerutil.ContainsFinalizer`, `AddFinalizer` where it is absent, and `RemoveFinalizer`.
abbrev pub contains : String → List String → Bool
contains x [] = false
contains x (y ∷ ys) = (y == x) || contains x ys

abbrev pub add_finalizer : AgentTeam → AgentTeam
add_finalizer t = record t {
  metadata = record t.metadata { finalizers = t.metadata.finalizers ++ (team_finalizer ∷ []) };
}

abbrev pub remove_finalizer : AgentTeam → AgentTeam
remove_finalizer t = record t {
  metadata = record t.metadata {
    finalizers = keep (λ x. not (x == team_finalizer)) t.metadata.finalizers;
  };
}

abbrev pub timeout_condition : ℕ → Condition
timeout_condition now = record {
  type = ready;
  status = false_status;
  last_transition_time = now;
  reason = "Timeout";
  message = "Team exceeded maxDuration";
}

unfoldable pub timed_out : AgentTeam → ℕ → AgentTeam
timed_out t now = record t {
  status = record t.status {
    phase = TeamPhase.failed;
    conditions = set_team_condition (timeout_condition now) t.status.conditions;
  };
}

-- `time.Since` of the zero time is the longest duration.
unfoldable pub has_passed_zero : Duration → Bool
has_passed_zero (forward d) = ltb d (2 ^ 63 - 1)
has_passed_zero (backward d) = true

abbrev pub has_passed_parsed : ℕ → Option ℕ → Duration → Bool
has_passed_parsed now none d = has_passed_zero d
has_passed_parsed now (some started) d = has_passed now started d

abbrev pub after_duration : Duration → Result
after_duration (forward d) = record { requeue_after = d; error = false }
after_duration (backward d) = settled

abbrev pub is_gone : MemberPhase → Bool
is_gone MemberPhase.lost = true
is_gone MemberPhase.failed = true
is_gone MemberPhase.unset = false
is_gone MemberPhase.joining = false
is_gone MemberPhase.working = false
is_gone MemberPhase.idle = false
is_gone MemberPhase.shutdown = false
is_gone (MemberPhase.other s) = false

abbrev pub is_terminated : SessionPhase → Bool
is_terminated SessionPhase.terminated = true
is_terminated SessionPhase.unset = false
is_terminated SessionPhase.active = false
is_terminated SessionPhase.idle = false
is_terminated SessionPhase.compressing = false
is_terminated (SessionPhase.other s) = false

-- The reason to recover a member of whose session the client gave this.
unfoldable pub failure_reason : Got AgentSession → Option String
failure_reason not_found = some "SessionNotFound"
failure_reason get_failed = none
failure_reason (found sess) =
    if is_terminated sess.status.phase then some "SessionTerminated" else none

abbrev pub failure_event : Got AgentSession → String
failure_event not_found = "MemberLost"
failure_event get_failed = ""
failure_event (found sess) = "MemberTerminated"

pub record Reconciled (S : Type 0) : Type 0 where
  pub world : Spawning S
  pub result : Result
  pub events : List String

abbrev pub write_result : {A : Type 0} → ℕ → Wrote A → Result
write_result n (written a) = retry_after n
write_result n conflict = failed_with n
write_result n write_failed = failed_with n

abbrev pub outcome_result : Outcome → Result
outcome_result succeeded = settled
outcome_result conflicted = failed_with 0
outcome_result errored = failed_with 0
