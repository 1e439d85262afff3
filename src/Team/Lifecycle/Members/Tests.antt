-- ===== src/Team/Lifecycle/Members/Tests.antt =====
-- A team of one member that starts, and a member whose work is handed over.
use aistio.Prelude.{
  String, ◌≡◌, refl, true, none, some, [], ◌∷◌, keep, map, comparable_text, comparable_number,
  if◌then◌else◌,
}
use aistio.Prelude.Decimal.{show}
use aistio.Api.Meta.{false_status, true_status}
use aistio.Api.Common.{Condition, ready, accepted}
use aistio.Api.Team.{AgentTeam, team_meta, team_status}
use aistio.Kube.Stored.{single-IsStored}
use aistio.Team.Samples.{crew, teams, tasks, sessions, messages, to_json, replica}
use aistio.Team.Spawner.{create_session, spawn_lead_session, spawn_member_session}
use aistio.Team.TaskStore.{TeamTask, pending, in_progress, completed}
use aistio.Team.Stores.{TaskStoreInterface}
use aistio.Team.Lifecycle.{same_type, set_team_condition, completed_entry}
use aistio.Team.Lifecycle.Conditions.{find_condition, set_team_condition_lookup}
use aistio.Team.Lifecycle.Members.{start_team, spawn_members, gather}
use aistio.Team.Lifecycle.Members.Laws.{
  HasStarted, start_team_members, gather_exact, done_by, broken_by, last_of, unclaim_each,
}

abbrev quote : String → String
quote s = s

starts : (start_team sessions teams messages tasks to_json show quote replica crew 5).ok ≡ true
unfolding start_team spawn_members spawn_lead_session spawn_member_session create_session
starts = refl

start_team_members_example :
    HasStarted sessions teams messages tasks to_json show quote replica crew 5
      (start_team sessions teams messages tasks to_json show quote replica crew 5).team.status
start_team_members_example =
    start_team_members sessions teams messages tasks to_json show quote replica crew 5
      (single-IsStored team_meta team_status) starts

abbrev task : String → String → aistio.Team.TaskStore.TaskState → TeamTask
task id owner state = record {
  id = id;
  team_name = "crew";
  subject = id;
  description = "";
  state = state;
  owner = owner;
  blocked_by = [];
  blocks = [];
  resource_version = 1;
  created_at = "";
  completed_at = "";
  result = "";
}

-- Ann has completed one task and works on another.
abbrev busy : TaskStoreInterface AgentTeam
busy = record tasks {
  list = λ s namespace team_name.
      task "1" "ann" completed ∷ task "2" "bob" completed ∷ task "3" "ann" in_progress ∷ [];
}

abbrev ann : aistio.Api.Team.TeamMemberStatus
ann = record {
  name = "ann";
  origin = aistio.Api.Team.MemberOrigin.static;
  agent_ref = "coder";
  session_id = "s1";
  instance_ref = "";
  phase = aistio.Api.Team.MemberPhase.lost;
  current_task = "";
  restart_count = 0;
  last_restart_at = "";
  last_restart_reason = "";
  added_at = "";
}

gather_exact_example :
    let r = gather sessions teams messages busy to_json show quote crew crew ann "ann" in
    let all = busy.list crew "default" "crew" in
    let broken = keep (broken_by "ann") all in
    (r.1.completed_tasks ≡ map completed_entry (keep (done_by "ann") all))
    × (r.1.interrupted_task ≡ last_of none broken)
    × (r.0 ≡ unclaim_each busy "default" "crew" crew broken)
gather_exact_example =
    gather_exact sessions teams messages busy to_json show quote crew crew ann "ann"

abbrev is_ready : Condition
is_ready = record {
  type = ready;
  status = true_status;
  last_transition_time = 1;
  reason = "Up";
  message = "";
}

abbrev not_ready : Condition
not_ready = record {
  type = ready;
  status = false_status;
  last_transition_time = 2;
  reason = "Down";
  message = "";
}

abbrev is_accepted : Condition
is_accepted = record {
  type = accepted;
  status = true_status;
  last_transition_time = 1;
  reason = "Ok";
  message = "";
}

set_team_condition_lookup_example :
    find_condition is_ready (set_team_condition not_ready (is_accepted ∷ is_ready ∷ [])) ≡ (
      if same_type not_ready is_ready
      then some not_ready
      else find_condition is_ready (is_accepted ∷ is_ready ∷ []))
set_team_condition_lookup_example =
    set_team_condition_lookup not_ready is_ready (is_accepted ∷ is_ready ∷ [])
