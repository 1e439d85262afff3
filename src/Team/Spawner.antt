-- ===== src/Team/Spawner.antt =====
-- internal/team/session_spawner.go: the sessions of a team's members, each with the context of its
-- team. The JSON of a context is a parameter; `none` is the error of marshalling it.
use aistio.Prelude.{
  ℕ, String, ◌<>◌, Bool, true, false, Option, none, some, List, [], ◌∷◌, ◌++◌, ◌==◌,
  comparable_text, if◌then◌else◌,
}
use aistio.Api.Team.{AgentTeam, TeamMemberSpec, TeamMemberStatus, MemberPhase}
use aistio.Api.Session.{AgentSession, SessionPhase}
use aistio.Kube.{Client, Wrote, written, conflict, write_failed}
use aistio.Team.Router.{MessageRouter, MemberLocation, register_member}

pub record MemberInfo : Type 0 where
  pub name : String
  pub agent_ref : String
  pub status : String

pub record CompletedTask : Type 0 where
  pub id : String
  pub subject : String
  pub result : String

pub record InterruptedTask : Type 0 where
  pub id : String
  pub subject : String
  pub note : String

pub record RecentMessage : Type 0 where
  pub from : String
  pub content : String
  pub timestamp : String

pub record RecoveryContext : Type 0 where
  pub previous_session_id : String
  pub restart_count : ℕ
  pub completed_tasks : List CompletedTask
  pub interrupted_task : Option InterruptedTask
  pub recent_messages : List RecentMessage

pub record TeamContext : Type 0 where
  pub team_name : String
  pub objective : String
  pub my_role : String
  pub is_lead : Bool
  pub members : List MemberInfo
  pub available_actions : List String
  pub recovery_context : Option RecoveryContext

unfoldable pub member_phase_text : MemberPhase → String
member_phase_text MemberPhase.unset = ""
member_phase_text MemberPhase.joining = "Joining"
member_phase_text MemberPhase.working = "Working"
member_phase_text MemberPhase.idle = "Idle"
member_phase_text MemberPhase.lost = "Lost"
member_phase_text MemberPhase.failed = "Failed"
member_phase_text MemberPhase.shutdown = "Shutdown"
member_phase_text (MemberPhase.other s) = s

-- The phase of the first member of the name, or `joining`.
unfoldable pub status_text : String → List TeamMemberStatus → String
status_text name [] = "joining"
status_text name (m ∷ ms) =
    let rest = status_text name ms in if m.name == name then member_phase_text m.phase else rest

unfoldable pub member_infos : List TeamMemberStatus → List TeamMemberSpec → List MemberInfo
member_infos statuses [] = []
member_infos statuses (m ∷ ms) =
    record { name = m.name; agent_ref = m.agent_ref.name; status = status_text m.name statuses }
    ∷ member_infos statuses ms

abbrev pub member_actions : List String
member_actions =
    "listTasks" ∷ "claimTask" ∷ "completeTask" ∷ "sendMessage" ∷ "broadcastMessage" ∷ "listMembers"
    ∷ []

abbrev pub lead_actions : List String
lead_actions =
    "createTask" ∷ "spawnMember" ∷ "shutdownMember" ∷ "approvePlan" ∷ "rejectPlan" ∷ "completeTeam"
    ∷ []

unfoldable pub build_team_context : AgentTeam → String → Bool → Option RecoveryContext → TeamContext
build_team_context team my_role is_lead recovery = record {
  team_name = team.metadata.name;
  objective = team.spec.objective;
  my_role = my_role;
  is_lead = is_lead;
  members =
      record { name = "lead"; agent_ref = team.spec.lead.agent_ref.name; status = "working" }
      ∷ member_infos team.status.members team.spec.members;
  available_actions = if is_lead then member_actions ++ lead_actions else member_actions;
  recovery_context = recovery;
}

unfoldable pub new_session : AgentTeam → String → String → String → AgentSession
new_session team agent_ref member_name context = record {
  metadata = record {
    name = "";
    namespace = team.metadata.namespace;
    generate_name = team.metadata.name <> "-" <> member_name <> "-";
    labels =
        ("agentscope.io/agent", agent_ref)
        ∷ ("agentscope.io/team", team.metadata.name)
        ∷ ("agentscope.io/team-role", member_name)
        ∷ [];
    annotations = ("agentscope.io/team-context", context) ∷ [];
    finalizers = [];
    owner_references =
        record { kind = "AgentTeam"; name = team.metadata.name; uid = team.metadata.uid } ∷ [];
    uid = "";
    resource_version = 0;
    creation_timestamp = 0;
    deleting = false;
  };
  spec = record {
    agent_ref = record { kind = ""; name = agent_ref; namespace = "" };
    commands = none;
  };
  status = record {
    phase = SessionPhase.unset;
    instance_ref = "";
    instance_ip = "";
    started_at = "";
    last_active_at = "";
    message_count = 0;
    token_usage = none;
    state = none;
    conditions = [];
  };
}

unfoldable pub activated : AgentSession → String → AgentSession
activated session now = record session {
  status = record session.status { phase = SessionPhase.active; started_at = now };
}

-- The session in memory after its status write.
abbrev pub written_or : {A : Type 0} → A → Wrote A → A
written_or sent (written a) = a
written_or sent conflict = sent
written_or sent write_failed = sent

-- The API server and the router, which every replica has its own of.
pub record Spawning (S : Type 0) : Type 0 where
  pub api : S
  pub router : MessageRouter

module _ {S : Type 0} (sessions : Client S AgentSession) (to_json : TeamContext → Option String)
    (rfc3339 : ℕ → String) where
  abbrev pub create_with :
      Spawning S
      → AgentTeam
      → String
      → String
      → ℕ
      → Option String
      → Spawning S × Option AgentSession
  create_with w team agent_ref member_name now none = (w, none)
  create_with w team agent_ref member_name now (some context) =
      let (s', made) = sessions.create w.api (new_session team agent_ref member_name context) in
      elim made [
        | none ↦ (record w { api = s' }, none)
        | some session ↦
            let location : MemberLocation = record {
              member_name = member_name;
              agent_name = agent_ref;
              instance_ref = "";
              instance_ip = "";
              session_id = session.metadata.name;
              connected = true;
            } in
            let sent = activated session (rfc3339 now) in
            let (s'', wrote) = sessions.update_status s' sent in
            (
              record { api = s''; router = register_member w.router team.metadata.name location },
              some (written_or sent wrote),
            )
      ]

  unfoldable pub create_session :
      Spawning S → AgentTeam → String → String → TeamContext → ℕ → Spawning S × Option AgentSession
  create_session w team agent_ref member_name context now =
      create_with w team agent_ref member_name now (to_json context)

  unfoldable pub spawn_lead_session : Spawning S → AgentTeam → ℕ → Spawning S × Option AgentSession
  spawn_lead_session w team now =
      create_session w team team.spec.lead.agent_ref.name "lead"
        (build_team_context team "lead" true none) now

  unfoldable pub spawn_member_session :
      Spawning S → AgentTeam → TeamMemberSpec → ℕ → Spawning S × Option AgentSession
  spawn_member_session w team member now =
      create_session w team member.agent_ref.name member.name
        (build_team_context team member.name false none) now

  unfoldable pub spawn_recovery_session :
      Spawning S
      → AgentTeam
      → String
      → String
      → RecoveryContext
      → ℕ
      → Spawning S × Option AgentSession
  spawn_recovery_session w team member_name agent_ref recovery now =
      create_session w team agent_ref member_name
        (build_team_context team member_name false (some recovery)) now
