-- ===== src/Controller/Teams/Phases.antt =====
-- internal/controller/agentteam_controller.go: what the reconciler does in each phase of a team.
use aistio.Prelude.{
  ℕ, String, Bool, true, false, ◌&&◌, Option, none, some, List, [], ◌∷◌, ◌++◌, ◌==◌,
  comparable_text, comparable_number, if◌then◌else◌,
}
use aistio.Api.Meta.{true_status}
use aistio.Api.Common.{Condition, ready}
use aistio.Api.Message
use aistio.Api.Task
use aistio.Api.Session.{AgentSession}
use aistio.Api.Team.{
  AgentTeam, TeamConfig, TeamLifecycle, TeamPhase, TeamMemberSpec, TeamMemberStatus, MemberPhase,
}
use aistio.Kube.{Client, Got, found, not_found, get_failed}
use aistio.Kube.Retry.{Outcome, errored, outcome_of}
use aistio.Team.KubeTaskStore.{labels_of}
use aistio.Team.Stores.{TaskStoreInterface}
use aistio.Team.Spawner.{Spawning, TeamContext}
use aistio.Team.Lifecycle.{
  Managed, Duration, set_team_condition, check_timeout, check_all_complete, ttl_of, lead_status,
  static_status, no_tasks, exceeds,
}
use aistio.Team.Lifecycle.Ends.{complete_team, cleanup_team_state}
use aistio.Team.Lifecycle.Members.{start_team, recover_member}
use aistio.Controller.{settled, retry_after, failed_with}
use aistio.Controller.Teams.{
  Reconciled, team_finalizer, contains, add_finalizer, remove_finalizer, timed_out,
  has_passed_parsed, after_duration, is_gone, failure_reason, failure_event, write_result,
  outcome_result,
}

module _ {S : Type 0} (sessions : Client S AgentSession) (teams : Client S AgentTeam)
    (messages : Client S Message.TeamMessage) (task_objects : Client S Task.TeamTask)
    (tasks : TaskStoreInterface S)
    (retry_on_conflict : (X : Type 0) → (X → X × Outcome) → X → X × Outcome)
    (to_json : TeamContext → Option String) (rfc3339 : ℕ → String) (quote : String → String)
    (parse_duration : String → Option Duration) (parse_time : String → Option ℕ) where
  unfoldable pub handle_pending : Spawning S → AgentTeam → ℕ → Reconciled S
  handle_pending w team now =
      let r = start_team sessions teams messages tasks to_json rfc3339 quote w team now in
      if r.ok
      then record {
        world = r.world;
        result = retry_after 30;
        events = "TeamStarting" ∷ "TeamStarted" ∷ [];
      }
      else record {
        world = r.world;
        result = failed_with 10;
        events = "TeamStarting" ∷ "StartFailed" ∷ [];
      }

  abbrev pub joining_members : List TeamMemberSpec → List TeamMemberStatus
  joining_members [] = []
  joining_members (m ∷ ms) =
      record (static_status m none) { phase = MemberPhase.joining } ∷ joining_members ms

  abbrev pub started_condition : ℕ → Condition
  started_condition now = record {
    type = ready;
    status = true_status;
    last_transition_time = now;
    reason = "TeamStarted";
    message = "Team initialized and running";
  }

  unfoldable pub legacy_started : AgentTeam → ℕ → AgentTeam
  legacy_started team now = record team {
    status = record team.status {
      phase = TeamPhase.running;
      started_at = rfc3339 now;
      lead = some (lead_status team "");
      members = joining_members team.spec.members;
      tasks = some no_tasks;
      conditions = set_team_condition (started_condition now) team.status.conditions;
    };
  }

  unfoldable pub legacy_handle_pending : Spawning S → AgentTeam → ℕ → Reconciled S
  legacy_handle_pending w team now =
      let r = teams.update_status w.api (legacy_started team now) in
      record { world = record w { api = r.0 }; result = write_result 30 r.1; events = [] }

  abbrev pub fail_got : S → ℕ → Got AgentTeam → S × Outcome
  fail_got s now not_found = (s, errored)
  fail_got s now get_failed = (s, errored)
  fail_got s now (found fresh) =
      let r = teams.update_status s (timed_out fresh now) in (r.0, outcome_of r.1)

  unfoldable pub fail_body : AgentTeam → ℕ → S → S × Outcome
  fail_body team now s = fail_got s now (teams.get s team.metadata.namespace team.metadata.name)

  -- The loop over the members as they were; `m` is the team after the recoveries so far.
  unfoldable pub check_member_health :
      Managed S → List TeamMemberStatus → ℕ → List String → Managed S × List String
  check_member_health m [] now events = (m, events)
  check_member_health m (member ∷ rest) now events =
      let got = sessions.get m.world.api m.team.metadata.namespace member.session_id in
      let passed = check_member_health m rest now events in
      let checked : Managed S × List String = elim (failure_reason got) [
        | none ↦ check_member_health m rest now events
        | some reason ↦
            let m' =
              recover_member sessions teams messages tasks to_json rfc3339 quote m.world m.team
                member.name reason now in
            check_member_health m' rest now (events ++ (failure_event got ∷ []))
      ] in
      if is_gone member.phase then passed else if member.session_id == "" then passed else checked

  unfoldable pub handle_running : Spawning S → AgentTeam → ℕ → Reconciled S
  handle_running w team now =
      if check_timeout parse_duration parse_time team now
      then (let r = retry_on_conflict S (fail_body team now) w.api in
          record {
            world = record w { api = r.0 };
            result = outcome_result r.1;
            events = "Timeout" ∷ [];
          })
      else if check_all_complete team
      then (let r = complete_team sessions teams messages tasks w team in
          record {
            world = r.world;
            result = if r.ok then settled else failed_with 0;
            events = "AllComplete" ∷ [];
          })
      else let (r, events) =
          check_member_health (record { world = w; team = team; ok = true }) team.status.members now
            [] in
        record { world = r.world; result = retry_after 30; events = events }

  abbrev pub policy_all_complete : Option TeamConfig → Bool
  policy_all_complete none = false
  policy_all_complete (some c) = c.shutdown_policy == "all-complete"

  abbrev pub legacy_completed : AgentTeam → AgentTeam
  legacy_completed team = record team {
    status = record team.status { phase = TeamPhase.completed };
  }

  unfoldable pub legacy_handle_running : Spawning S → AgentTeam → ℕ → Reconciled S
  legacy_handle_running w team now =
      let failed = teams.update_status w.api (timed_out team now) in
      let ended = teams.update_status w.api (legacy_completed team) in
      if exceeds parse_duration parse_time team.spec.lifecycle team.status.started_at now
      then record {
        world = record w { api = failed.0 };
        result = write_result 0 failed.1;
        events = [];
      }
      else if policy_all_complete team.spec.config && check_all_complete team
      then record {
        world = record w { api = ended.0 };
        result = write_result 0 ended.1;
        events = [];
      }
      else record { world = w; result = retry_after 30; events = [] }

  abbrev pub ttl_text : Option TeamLifecycle → TeamPhase → String
  ttl_text none phase = ""
  ttl_text (some l) phase = ttl_of parse_duration parse_time phase l

  abbrev pub terminal_after : Spawning S → AgentTeam → ℕ → Option Duration → Reconciled S
  terminal_after w team now none = record { world = w; result = settled; events = [] }
  terminal_after w team now (some d) =
      let (s', ok) = teams.delete w.api team in
      if has_passed_parsed now (parse_time team.status.started_at) d
      then record {
        world = record w { api = s' };
        result = if ok then settled else failed_with 0;
        events = [];
      }
      else record { world = w; result = after_duration d; events = [] }

  unfoldable pub handle_terminal : Spawning S → AgentTeam → ℕ → Reconciled S
  handle_terminal w team now =
      let ttl = ttl_text team.spec.lifecycle team.status.phase in
      if ttl == ""
      then record { world = w; result = settled; events = [] }
      else terminal_after w team now (parse_duration ttl)

  -- `lifecycle` says whether the reconciler has one.
  unfoldable pub cleanup_team_tasks : Bool → Spawning S → AgentTeam → Spawning S
  cleanup_team_tasks true w team = cleanup_team_state sessions teams messages tasks w team
  cleanup_team_tasks false w team =
      let labels = labels_of team.metadata.name in
      let s = task_objects.delete_all_of w.api team.metadata.namespace labels in
      record w { api = messages.delete_all_of s team.metadata.namespace labels }

  abbrev pub completed_first : Bool → Spawning S → AgentTeam → Managed S
  completed_first true w team = complete_team sessions teams messages tasks w team
  completed_first false w team = record { world = w; team = team; ok = true }

  unfoldable pub handle_deletion : Bool → Spawning S → AgentTeam → Reconciled S
  handle_deletion lifecycle w team =
      let m = completed_first lifecycle w team in
      let w' = cleanup_team_tasks lifecycle m.world m.team in
      let r = teams.update w'.api (remove_finalizer m.team) in
      if contains team_finalizer team.metadata.finalizers
      then record {
        world = record w' { api = r.0 };
        result = write_result 0 r.1;
        events = "CleanupStarted" ∷ [];
      }
      else record { world = w; result = settled; events = [] }

  abbrev pub handle_phase : Bool → Spawning S → AgentTeam → ℕ → TeamPhase → Reconciled S
  handle_phase true w team now TeamPhase.unset = handle_pending w team now
  handle_phase true w team now TeamPhase.pending = handle_pending w team now
  handle_phase true w team now TeamPhase.running = handle_running w team now
  handle_phase false w team now TeamPhase.unset = legacy_handle_pending w team now
  handle_phase false w team now TeamPhase.pending = legacy_handle_pending w team now
  handle_phase false w team now TeamPhase.running = legacy_handle_running w team now
  handle_phase lifecycle w team now TeamPhase.completed = handle_terminal w team now
  handle_phase lifecycle w team now TeamPhase.failed = handle_terminal w team now
  handle_phase lifecycle w team now (TeamPhase.other s) = record {
    world = w;
    result = settled;
    events = [];
  }

  abbrev pub reconcile_got : Bool → Spawning S → ℕ → Got AgentTeam → Reconciled S
  reconcile_got lifecycle w now not_found = record { world = w; result = settled; events = [] }
  reconcile_got lifecycle w now get_failed = record {
    world = w;
    result = failed_with 0;
    events = [];
  }
  reconcile_got lifecycle w now (found team) =
      let r = teams.update w.api (add_finalizer team) in
      if team.metadata.deleting
      then handle_deletion lifecycle w team
      else if contains team_finalizer team.metadata.finalizers
      then handle_phase lifecycle w team now team.status.phase
      else record { world = record w { api = r.0 }; result = write_result 0 r.1; events = [] }

  unfoldable pub reconcile : Bool → Spawning S → String → String → ℕ → Reconciled S
  reconcile lifecycle w namespace name now =
      reconcile_got lifecycle w now (teams.get w.api namespace name)
