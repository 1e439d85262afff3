-- ===== src/Team/Lifecycle/Members.antt =====
-- internal/team/lifecycle.go: the members that a team starts with, gains and loses.
pub mod Laws
mod Tests
use aistio.Prelude.{
  ℕ, zero, suc, ◌+◌, ◌%◌, ◌^◌, String, Bool, true, false, ◌&&◌, Option, none, some, List, [], ◌∷◌,
  ◌++◌, ◌==◌, comparable_text, if◌then◌else◌, keep, map,
}
use aistio.Api.Message
use aistio.Api.Session.{AgentSession}
use aistio.Api.Team.{
  AgentTeam, AgentTeamStatus, TeamPhase, TeamMemberSpec, TeamMemberStatus, MemberPhase,
  MemberOrigin,
}
use aistio.Kube.{Client, Wrote, written, conflict, write_failed}
use aistio.Team.Router.{get_message_history}
use aistio.Team.Stores.{TaskStoreInterface}
use aistio.Team.TaskStore.{TeamTask, is_completed, is_in_progress}
use aistio.Team.Spawner.{
  Spawning, RecoveryContext, TeamContext, spawn_lead_session, spawn_member_session,
  spawn_recovery_session, written_or,
}
use aistio.Team.Recovery.{
  FailureAction, update_status, reschedule, handle_member_failure, rescheduled,
  check_dynamic_member,
}
use aistio.Team.Lifecycle.{
  Managed, Gathered, lead_status, static_status, no_tasks, completed_entry, interrupted_entry,
  concerns, recent,
}
use aistio.Team.Lifecycle.Ends.{is_written}

abbrev pub nth : ℕ → List TeamMemberStatus → Option TeamMemberStatus
nth n [] = none
nth zero (m ∷ ms) = some m
nth (suc n) (m ∷ ms) = nth n ms

abbrev pub set_nth : ℕ → TeamMemberStatus → List TeamMemberStatus → List TeamMemberStatus
set_nth n x [] = []
set_nth zero x (m ∷ ms) = x ∷ ms
set_nth (suc n) x (m ∷ ms) = m ∷ set_nth n x ms

abbrev pub with_members : AgentTeam → List TeamMemberStatus → AgentTeam
with_members team ms = record team { status = record team.status { members = ms } }

module _ {S : Type 0} (sessions : Client S AgentSession) (teams : Client S AgentTeam)
    (messages : Client S Message.TeamMessage) (tasks : TaskStoreInterface S)
    (to_json : TeamContext → Option String) (rfc3339 : ℕ → String) (quote : String → String) where
  -- `l.client.Status().Update(ctx, team)` at the end of an operation.
  abbrev pub write_status : Spawning S → AgentTeam → Managed S
  write_status w team =
      let r = teams.update_status w.api team in
      record { world = record w { api = r.0 }; team = written_or team r.1; ok = is_written r.1 }

  -- The loop over the static members, with the members in the status so far.
  unfoldable pub spawn_members :
      Spawning S → AgentTeam → List TeamMemberSpec → ℕ → Spawning S × AgentTeam
  spawn_members w team [] now = (w, team)
  spawn_members w team (member ∷ rest) now =
      let (w', spawned) = spawn_member_session sessions to_json rfc3339 w team member now in
      spawn_members w'
        (with_members team (team.status.members ++ (static_status member spawned ∷ []))) rest now

  abbrev pub started : AgentTeam → String → String → AgentTeam
  started team session_id now = record team {
    status = record team.status {
      phase = TeamPhase.running;
      started_at = now;
      lead = some (lead_status team session_id);
      members = [];
    };
  }

  abbrev pub with_no_tasks : AgentTeam → AgentTeam
  with_no_tasks team = record team { status = record team.status { tasks = some no_tasks } }

  unfoldable pub start_team : Spawning S → AgentTeam → ℕ → Managed S
  start_team w team now =
      let (w', lead) = spawn_lead_session sessions to_json rfc3339 w team now in
      elim lead [
        | none ↦ record { world = w'; team = team; ok = false }
        | some session ↦
            let (w'', team') =
              spawn_members w' (started team session.metadata.name (rfc3339 now)) team.spec.members
                now in
            write_status w'' (with_no_tasks team')
      ]

  -- The loop over the member's tasks; a task in progress is unclaimed, whatever comes of it.
  unfoldable pub gather_tasks : String → String → String → List TeamTask → Gathered S → Gathered S
  gather_tasks namespace team_name name [] g = g
  gather_tasks namespace team_name name (t ∷ ts) g =
      let done = (t.owner == name) && is_completed t.state in
      let broken = (t.owner == name) && is_in_progress t.state in
      let g' : Gathered S =
        if done then record g { completed = g.completed ++ (completed_entry t ∷ []) } else g in
      let g'' : Gathered S = record g' {
        api = (tasks.unclaim g'.api namespace team_name t.id).0;
        interrupted = some (interrupted_entry t);
      } in
      gather_tasks namespace team_name name ts (if broken then g'' else g')

  -- The context of the recovery session, after the interrupted tasks are given back.
  unfoldable pub gather : S → AgentTeam → TeamMemberStatus → String → S × RecoveryContext
  gather s team m name =
      let namespace = team.metadata.namespace in
      let g =
        gather_tasks namespace team.metadata.name name (tasks.list s namespace team.metadata.name)
          (record { api = s; completed = []; interrupted = none }) in
      let history =
        get_message_history messages sessions teams rfc3339 g.api namespace team.metadata.name 10 in
      (
        g.api,
        record {
          previous_session_id = m.session_id;
          restart_count = (m.restart_count + 1) % 2 ^ 32;
          completed_tasks = g.completed;
          interrupted_task = g.interrupted;
          recent_messages = map recent (keep (concerns name) history);
        },
      )

  abbrev pub resched_with :
      Spawning S → AgentTeam → ℕ → String → ℕ → Option TeamMemberStatus → Managed S
  resched_with w team i name now none = record { world = w; team = team; ok = false }
  resched_with w team i name now (some m) =
      let (s, recovery) = gather w.api team m name in
      let (w', spawned) =
        spawn_recovery_session sessions to_json rfc3339 (record w { api = s }) team name m.agent_ref
          recovery now in
      elim spawned [
        | none ↦ record { world = w'; team = team; ok = false }
        | some session ↦
            let m' = rescheduled m session.metadata.name (rfc3339 now) in
            write_status w' (with_members team (set_nth i m' team.status.members))
      ]

  unfoldable pub resched_member : Spawning S → AgentTeam → ℕ → String → ℕ → Managed S
  resched_member w team i name now = resched_with w team i name now (nth i team.status.members)

  -- The whole of `HandleMemberFailure`.
  unfoldable pub recover_member : Spawning S → AgentTeam → String → String → ℕ → Managed S
  recover_member w team name reason now = elim (handle_member_failure team name reason) [
    | none ↦ record { world = w; team = team; ok = false }
    | some (team', i, action) ↦ elim action [
      | update_status metric ↦ write_status w team'
      | reschedule ↦ resched_member w team' i name now
    ]
  ]

  abbrev pub dynamic_status : String → String → String → String → TeamMemberStatus
  dynamic_status name agent_ref session_id now = record {
    name = name;
    origin = MemberOrigin.dynamic;
    agent_ref = agent_ref;
    session_id = session_id;
    instance_ref = "";
    phase = MemberPhase.working;
    current_task = "";
    restart_count = 0;
    last_restart_at = "";
    last_restart_reason = "";
    added_at = now;
  }

  abbrev pub spawn_checked :
      Spawning S → AgentTeam → String → String → String → ℕ → Option String → Managed S
  spawn_checked w team name agent_ref prompt now (some e) = record {
    world = w;
    team = team;
    ok = false;
  }
  spawn_checked w team name agent_ref prompt now none =
      let member : TeamMemberSpec = record {
        name = name;
        agent_ref = record { kind = ""; name = agent_ref; namespace = "" };
        prompt = prompt;
        plan_approval = false;
      } in
      let (w', spawned) = spawn_member_session sessions to_json rfc3339 w team member now in
      elim spawned [
        | none ↦ record { world = w'; team = team; ok = false }
        | some session ↦
            let m = dynamic_status name agent_ref session.metadata.name (rfc3339 now) in
            write_status w' (with_members team (team.status.members ++ (m ∷ [])))
      ]

  unfoldable pub spawn_dynamic_member :
      Spawning S → AgentTeam → String → String → String → ℕ → Managed S
  spawn_dynamic_member w team name agent_ref prompt now =
      spawn_checked w team name agent_ref prompt now (check_dynamic_member quote team agent_ref)
