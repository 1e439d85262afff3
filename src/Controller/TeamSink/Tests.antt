-- ===== src/Controller/TeamSink/Tests.antt =====
-- A team of one member whose lead decides, on a server that holds nothing else.
use aistio.Prelude.{String, ◌≡◌, refl, true, none, some, [], comparable_text, comparable_number}
use aistio.Prelude.Dict.{lookup}
use aistio.Api.Team.{team_meta, team_status, AgentTeam, TeamPhase, MemberPhase}
use aistio.Kube.{found, written}
use aistio.Kube.Retry.{succeeded, retry_up_to, retry_up_to-IsRetry}
use aistio.Kube.Stored.{single-IsStored}
use aistio.Team.Samples.{crew, teams, tasks, retry}
use aistio.Controller.TeamSink.{
  TeamEventReport, set_member_phase, lead_decides, completed_team, phase_body, phase_map,
  update_member_phase, summary_body, complete_body, handle_complete_team, handle_event,
}
use aistio.Controller.TeamSink.Laws.{
  IsInPhase, HoldsTeam, member_phase_written, team_completed_only,
}

abbrev event : String → TeamEventReport
event kind = record {
  team_id = "crew";
  event_type = kind;
  member_name = "ann";
  task_id = "";
  detail = [];
}

is_idle : lookup "member_idle" phase_map ≡ some MemberPhase.idle
unfolding lookup phase_map
is_idle = refl

phase_succeeds :
    (retry AgentTeam
      (phase_body teams tasks retry "default" (event "member_idle") MemberPhase.idle)
      crew).1
    ≡ succeeded
unfolding phase_body set_member_phase retry_up_to
phase_succeeds = refl

member_phase_written_example :
    HoldsTeam teams tasks retry
      (λ st. IsInPhase "ann" MemberPhase.idle st.members)
      (update_member_phase teams tasks retry crew "default" (event "member_idle"))
      "default"
      "crew"
member_phase_written_example =
    member_phase_written teams tasks retry (single-IsStored team_meta team_status)
      (λ X. retry_up_to-IsRetry 4) crew "default" (event "member_idle") MemberPhase.idle is_idle
      phase_succeeds

summary_succeeds :
    (retry AgentTeam
      (summary_body teams tasks retry "default" "crew" (tasks.get_summary crew "default" "crew"))
      crew).1
    ≡ succeeded
unfolding summary_body retry_up_to
summary_succeeds = refl

announced_crew :
    (handle_complete_team teams tasks retry crew "default" (event "complete_team")).1
    ≡ some (completed_team crew)
unfolding handle_complete_team complete_body retry_up_to
announced_crew = refl

-- An event of an unknown kind leaves the team alone.
ignored : handle_event teams tasks retry crew "default" (event "coffee") 0 ≡ (crew, none)
unfolding handle_event
ignored = refl

team_completed_only_example :
    let r = handle_complete_team teams tasks retry crew "default" (event "complete_team") in
    ((completed_team crew).status.phase ≡ TeamPhase.completed)
    × (teams.get r.0 "default" "crew" ≡ found (completed_team crew))
    × ((u : AgentTeam) × (before : AgentTeam) × (teams.get u "default" "crew" ≡ found before)
        × (lead_decides before.spec.config ≡ true)
        × ((teams.update_status u (completed_team before)).1 ≡ written (completed_team crew)))
team_completed_only_example =
    team_completed_only teams tasks retry (single-IsStored team_meta team_status)
      (λ X. retry_up_to-IsRetry 4) crew "default" (event "complete_team") (completed_team crew)
      announced_crew
