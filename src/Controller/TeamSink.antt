-- ===== src/Controller/TeamSink.antt =====
-- internal/controller/team_sink.go: what an event that an instance reports does to the tasks and to
-- the status of its team. The task store is the interface of internal/team; logs and metrics are
-- left out, and an event of the recorder is the team that it is recorded for. A read gives the current
-- object, where the code reads through a cache that may lag.
pub mod Laws
mod Tests
use aistio.Prelude.{
  ℕ, String, Bool, true, false, ◌||◌, Option, none, some, List, [], ◌∷◌, ◌==◌, comparable_text,
  if◌then◌else◌,
}
use aistio.Prelude.Dict.{Dict, lookup}
use aistio.Api.Team.{
  AgentTeam, TeamConfig, TeamPhase, MemberPhase, TeamMemberStatus, TeamTaskSummary,
}
use aistio.Kube.{Client, Got, found, not_found, get_failed, Wrote, written, conflict, write_failed}
use aistio.Kube.Retry.{Outcome, succeeded, conflicted, errored, outcome_of}
use aistio.Team.Router.{text_or_empty}
use aistio.Team.Stores.{TaskStoreInterface}

pub record TeamEventReport : Type 0 where
  pub team_id : String
  pub event_type : String
  pub member_name : String
  pub task_id : String
  pub detail : Dict String String

-- `phaseMap`
unfoldable pub phase_map : Dict String MemberPhase
phase_map =
    ("member_joined", MemberPhase.working)
    ∷ ("member_idle", MemberPhase.idle)
    ∷ ("member_working", MemberPhase.working)
    ∷ ("member_left", MemberPhase.lost)
    ∷ []

-- The loop over the members, which ends at the first one of the name; `none` if there is none.
unfoldable pub set_member_phase :
    String → MemberPhase → List TeamMemberStatus → Option (List TeamMemberStatus)
set_member_phase name phase [] = none
set_member_phase name phase (m ∷ ms) =
    let rest = set_member_phase name phase ms in
    if m.name == name
    then some (record m { phase = phase } ∷ ms)
    else elim rest [ none ↦ none | some ms' ↦ some (m ∷ ms') ]

abbrev pub lead_decides : Option TeamConfig → Bool
lead_decides none = false
lead_decides (some c) = c.shutdown_policy == "lead-decides"

abbrev pub completed_team : AgentTeam → AgentTeam
completed_team t = record t { status = record t.status { phase = TeamPhase.completed } }

module _ {S : Type 0} (teams : Client S AgentTeam) (tasks : TaskStoreInterface S)
    (retry_on_conflict : (X : Type 0) → (X → X × Outcome) → X → X × Outcome) where
  abbrev pub write_team : S → AgentTeam → S × Outcome
  write_team s t = let r = teams.update_status s t in (r.0, outcome_of r.1)

  -- A run of a body that reads the team and goes on with it.
  abbrev pub with_team : (S → AgentTeam → S × Outcome) → S → Got AgentTeam → S × Outcome
  with_team f s not_found = (s, errored)
  with_team f s get_failed = (s, errored)
  with_team f s (found t) = f s t

  abbrev pub write_phase : String → MemberPhase → S → AgentTeam → S × Outcome
  write_phase name phase s t = elim (set_member_phase name phase t.status.members) [
    | none ↦ (s, succeeded)
    | some ms ↦ write_team s (record t { status = record t.status { members = ms } })
  ]

  unfoldable pub phase_body : String → TeamEventReport → MemberPhase → S → S × Outcome
  phase_body namespace evt phase s =
      with_team (write_phase evt.member_name phase) s (teams.get s namespace evt.team_id)

  unfoldable pub update_member_phase : S → String → TeamEventReport → S
  update_member_phase s namespace evt = elim (lookup evt.event_type phase_map) [
    | none ↦ s
    | some phase ↦ (retry_on_conflict S (phase_body namespace evt phase) s).0
  ]

  unfoldable pub summary_body : String → String → TeamTaskSummary → S → S × Outcome
  summary_body namespace team_name summary s =
      with_team
        (λ u t. write_team u (record t { status = record t.status { tasks = some summary } })) s
        (teams.get s namespace team_name)

  unfoldable pub update_task_summary : S → String → String → S
  update_task_summary s namespace team_name =
      let summary = tasks.get_summary s namespace team_name in
      (retry_on_conflict S (summary_body namespace team_name summary) s).0

  -- The Boolean is the variable `completed` that the body sets.
  abbrev pub flagged : S × Wrote AgentTeam → Bool → (S × Bool) × Outcome
  flagged (s, written b) completed = ((s, true), succeeded)
  flagged (s, conflict) completed = ((s, completed), conflicted)
  flagged (s, write_failed) completed = ((s, completed), errored)

  abbrev pub complete_got : S → Bool → Got AgentTeam → (S × Bool) × Outcome
  complete_got s completed not_found = ((s, completed), errored)
  complete_got s completed get_failed = ((s, completed), errored)
  complete_got s completed (found t) =
      if lead_decides t.spec.config
      then flagged (teams.update_status s (completed_team t)) completed
      else ((s, false), succeeded)

  unfoldable pub complete_body : String → String → S × Bool → (S × Bool) × Outcome
  complete_body namespace name (s, completed) =
      complete_got s completed (teams.get s namespace name)

  abbrev pub recorded : Got AgentTeam → Option AgentTeam
  recorded not_found = none
  recorded get_failed = none
  recorded (found t) = some t

  abbrev pub announce : String → String → (S × Bool) × Outcome → S × Option AgentTeam
  announce namespace name ((s, true), succeeded) = (s, recorded (teams.get s namespace name))
  announce namespace name ((s, false), succeeded) = (s, none)
  announce namespace name ((s, completed), conflicted) = (s, none)
  announce namespace name ((s, completed), errored) = (s, none)

  -- The team for which `TeamCompleted` is recorded.
  unfoldable pub handle_complete_team : S → String → TeamEventReport → S × Option AgentTeam
  handle_complete_team s namespace evt =
      announce namespace evt.team_id
        (retry_on_conflict (S × Bool) (complete_body namespace evt.team_id) (s, false))

  -- The end of `HandleEvent` after an event of a task.
  unfoldable pub handle_task_event : S → String → TeamEventReport → ℕ → S
  handle_task_event s namespace evt now =
      let subject = text_or_empty (lookup "subject" evt.detail) in
      let description = text_or_empty (lookup "description" evt.detail) in
      let result = text_or_empty (lookup "result" evt.detail) in
      let update = λ (u : S). update_task_summary u namespace evt.team_id in
      if evt.event_type == "task_created"
      then (if subject == ""
          then s
          else let (s', ok) = tasks.create s namespace evt.team_id subject description [] in
            if ok then update s' else s')
      else if evt.task_id == ""
      then s
      else if evt.event_type == "task_claimed"
      then update (tasks.claim s namespace evt.team_id evt.task_id evt.member_name 0).0
      else update (tasks.complete s namespace evt.team_id evt.task_id result now).0

  abbrev pub is_task_event : String → Bool
  is_task_event e = (e == "task_created") || (e == "task_claimed") || (e == "task_completed")

  abbrev pub is_member_event : String → Bool
  is_member_event e =
      (e == "member_joined")
      || (e == "member_idle")
      || (e == "member_working")
      || (e == "member_left")

  unfoldable pub handle_event : S → String → TeamEventReport → ℕ → S × Option AgentTeam
  handle_event s namespace evt now =
      if is_task_event evt.event_type
      then (handle_task_event s namespace evt now, none)
      else if is_member_event evt.event_type
      then (update_member_phase s namespace evt, none)
      else if evt.event_type == "complete_team"
      then handle_complete_team s namespace evt
      else (s, none)
