-- ===== src/Team/Lifecycle.antt =====
-- internal/team/lifecycle.go: the start, the end and the recovery of a team, over its task store, its
-- router and its spawner. Team.Recovery has the decisions on a member that failed or wants to join.
-- A duration is the number of its nanoseconds, and a negative one has passed at once.
pub mod Members
pub mod Ends
pub mod Conditions
use aistio.Prelude.{
  ℕ, ◌+◌, ◌%◌, ◌^◌, String, Bool, true, false, not, ◌&&◌, ◌||◌, Option, none, some, List, [], ◌∷◌,
  ◌++◌, ltb, ◌==◌, comparable_text, comparable_number, if◌then◌else◌, keep, map,
}
use aistio.Prelude.Dict.{Dict}
use aistio.Api.Meta.{ConditionStatus, false_status}
use aistio.Api.Common.{Condition, ConditionType, ready}
use aistio.Api.Message
use aistio.Api.Session.{AgentSession, SessionCommands}
use aistio.Api.Team.{
  AgentTeam, AgentTeamStatus, TeamLifecycle, TeamPhase, TeamMemberSpec, TeamMemberStatus,
  MemberPhase, MemberOrigin, TeamTaskSummary,
}
use aistio.Kube.{Client, Wrote, written, conflict, write_failed}
use aistio.Team.KubeTaskStore.{labels_of}
use aistio.Team.Router
use aistio.Team.Router.{MessageRouter, get_message_history}
use aistio.Team.Stores.{TaskStoreInterface}
use aistio.Team.TaskStore.{TeamTask, TaskState, is_completed, is_in_progress}
use aistio.Team.Spawner.{
  Spawning, RecoveryContext, CompletedTask, InterruptedTask, RecentMessage, TeamContext,
  spawn_lead_session, spawn_member_session, spawn_recovery_session, written_or,
}
use aistio.Team.Recovery.{
  FailureAction, update_status, reschedule, handle_member_failure, rescheduled,
  check_dynamic_member,
}

unfoldable pub condition_text : ConditionType → String
condition_text ConditionType.unset = ""
condition_text ConditionType.accepted = "Accepted"
condition_text ConditionType.ready = "Ready"
condition_text ConditionType.data_plane_connected = "DataPlaneConnected"
condition_text ConditionType.provisioned = "Provisioned"
condition_text ConditionType.discovered = "Discovered"
condition_text (ConditionType.other s) = s

abbrev pub same_type : Condition → Condition → Bool
same_type c d = condition_text c.type == condition_text d.type

-- The first condition of the type is replaced, or the condition is added at the end.
unfoldable pub set_team_condition : Condition → List Condition → List Condition
set_team_condition cond [] = cond ∷ []
set_team_condition cond (c ∷ cs) =
    let rest = set_team_condition cond cs in if same_type c cond then cond ∷ cs else c ∷ rest

-- `time.Duration`, of which the constructors are the sign.
pub data Duration : Type 0 where
  forward backward : ℕ → Duration

-- `time.Since(started) > d`
unfoldable pub has_passed : ℕ → ℕ → Duration → Bool
has_passed now started (forward d) = ltb (started + d) now
has_passed now started (backward d) = ltb started (now + d)

unfoldable pub check_all_complete : AgentTeam → Bool
check_all_complete team = elim team.status.tasks [
  | none ↦ false
  | some c ↦ ltb 0 c.total && (c.completed == c.total)
]

module _ (parse_duration : String → Option Duration) (parse_time : String → Option ℕ) where
  -- The common end of the tests of time; an error of either parser is false.
  abbrev pub passed_since : String → String → ℕ → Bool
  passed_since started_at text now = elim (parse_duration text) [
    | none ↦ false
    | some d ↦ elim (parse_time started_at) [ none ↦ false | some t ↦ has_passed now t d ]
  ]

  abbrev pub exceeds : Option TeamLifecycle → String → ℕ → Bool
  exceeds none started_at now = false
  exceeds (some l) started_at now =
      if l.max_duration == "" then false else passed_since started_at l.max_duration now

  unfoldable pub check_timeout : AgentTeam → ℕ → Bool
  check_timeout team now = exceeds team.spec.lifecycle team.status.started_at now

  abbrev pub ttl_of : TeamPhase → TeamLifecycle → String
  ttl_of TeamPhase.completed l = l.ttl_after_completed
  ttl_of TeamPhase.failed l = l.ttl_after_failed
  ttl_of TeamPhase.unset l = ""
  ttl_of TeamPhase.pending l = ""
  ttl_of TeamPhase.running l = ""
  ttl_of (TeamPhase.other s) l = ""

  unfoldable pub should_cleanup : AgentTeam → ℕ → Bool
  should_cleanup team now = elim team.spec.lifecycle [
    | none ↦ false
    | some l ↦
        let ttl = ttl_of team.status.phase l in
        if ttl == "" then false else passed_since team.status.started_at ttl now
  ]

abbrev pub commands_or_new : Option SessionCommands → SessionCommands
commands_or_new none = record { compress = false; terminate = false }
commands_or_new (some c) = c

unfoldable pub with_terminate : AgentSession → AgentSession
with_terminate sess = record sess {
  spec = record sess.spec {
    commands = some (record (commands_or_new sess.spec.commands) { terminate = true });
  };
}

unfoldable pub lead_status : AgentTeam → String → TeamMemberStatus
lead_status team session_id = record {
  name = "lead";
  origin = MemberOrigin.unset;
  agent_ref = team.spec.lead.agent_ref.name;
  session_id = session_id;
  instance_ref = "";
  phase = MemberPhase.working;
  current_task = "";
  restart_count = 0;
  last_restart_at = "";
  last_restart_reason = "";
  added_at = "";
}

-- The status of a static member, with its session or without.
unfoldable pub static_status : TeamMemberSpec → Option AgentSession → TeamMemberStatus
static_status member spawned = record {
  name = member.name;
  origin = MemberOrigin.static;
  agent_ref = member.agent_ref.name;
  session_id = elim spawned [ none ↦ "" | some sess ↦ sess.metadata.name ];
  instance_ref = "";
  phase = elim spawned [ none ↦ MemberPhase.failed | some sess ↦ MemberPhase.working ];
  current_task = "";
  restart_count = 0;
  last_restart_at = "";
  last_restart_reason = "";
  added_at = "";
}

abbrev pub no_tasks : TeamTaskSummary
no_tasks = record { total = 0; pending = 0; in_progress = 0; completed = 0 }

-- What the loop of `reschedMember` over the tasks gathers.
pub record Gathered (S : Type 0) : Type 0 where
  pub api : S
  pub completed : List CompletedTask
  pub interrupted : Option InterruptedTask

abbrev pub completed_entry : TeamTask → CompletedTask
completed_entry t = record { id = t.id; subject = t.subject; result = t.result }

abbrev pub interrupted_entry : TeamTask → InterruptedTask
interrupted_entry t = record {
  id = t.id;
  subject = t.subject;
  note = "Rolled back to pending due to member failure";
}

abbrev pub concerns : String → Router.TeamMessage → Bool
concerns name msg = (msg.to == name) || (msg.from == name)

abbrev pub recent : Router.TeamMessage → RecentMessage
recent msg = record { from = msg.from; content = msg.content; timestamp = msg.timestamp }

-- The team in memory and whether there was no error, next to the state.
pub record Managed (S : Type 0) : Type 0 where
  pub world : Spawning S
  pub team : AgentTeam
  pub ok : Bool
