-- ===== src/Team/Samples.antt =====
-- A team of one member whose lead decides, alone on its server, for the tests.
use aistio.Prelude.{String, true, false, Option, none, some, [], ◌∷◌}
use aistio.Api.Message
use aistio.Api.Session.{AgentSession}
use aistio.Api.Team.{team_meta, AgentTeam, TeamPhase, MemberPhase, MemberOrigin}
use aistio.Kube.{Client, not_found, written}
use aistio.Kube.Retry.{Outcome, retry_up_to}
use aistio.Kube.Stored.{single}
use aistio.Kube.Memory.{no_objects}
use aistio.Team.Stores.{TaskStoreInterface}
use aistio.Team.Spawner.{Spawning, TeamContext}

abbrev pub crew : AgentTeam
crew = record {
  metadata = record {
    name = "crew";
    namespace = "default";
    generate_name = "";
    labels = [];
    annotations = [];
    finalizers = [];
    owner_references = [];
    uid = "7";
    resource_version = 1;
    creation_timestamp = 0;
    deleting = false;
  };
  spec = record {
    objective = "ship";
    lead = record {
      agent_ref = record { name = "boss"; kind = "Agent"; namespace = "" };
      prompt = "";
    };
    members =
        record {
          name = "ann";
          agent_ref = record { name = "coder"; kind = "Agent"; namespace = "" };
          prompt = "";
          plan_approval = false;
        }
        ∷ [];
    dynamic_members = none;
    shared_context = none;
    recovery = none;
    lifecycle = none;
    config = some (record { task_claim_strategy = ""; shutdown_policy = "lead-decides" });
  };
  status = record {
    phase = TeamPhase.running;
    started_at = "";
    lead = none;
    members =
        record {
          name = "ann";
          origin = MemberOrigin.static;
          agent_ref = "coder";
          session_id = "s1";
          instance_ref = "";
          phase = MemberPhase.working;
          current_task = "";
          restart_count = 0;
          last_restart_at = "";
          last_restart_reason = "";
          added_at = "";
        }
        ∷ [];
    tasks = none;
    conditions = [];
  };
}

abbrev pub teams : Client AgentTeam AgentTeam
teams = single team_meta

abbrev pub tasks : TaskStoreInterface AgentTeam
tasks = record {
  create = λ s namespace team_name subject description blocked_by. (s, true);
  list = λ s namespace team_name. [];
  claim = λ s namespace team_name task_id owner version. (s, true);
  complete = λ s namespace team_name task_id result now. (s, true);
  unclaim = λ s namespace team_name task_id. (s, true);
  delete_team = λ s namespace team_name. s;
  get_summary =
      λ s namespace team_name. record { total = 3; pending = 1; in_progress = 1; completed = 1 };
}

abbrev pub retry : (X : Type 0) → (X → X × Outcome) → X → X × Outcome
retry X = retry_up_to 4

-- A server that takes every session and names it by its prefix.
abbrev pub sessions : Client AgentTeam AgentSession
sessions = record {
  get = λ s namespace name. not_found;
  list = λ s namespace labels. some [];
  create = λ s a.
      (s, some (record a { metadata = record a.metadata { name = a.metadata.generate_name } }));
  update = λ s a. (s, written a);
  update_status = λ s a. (s, written a);
  delete = λ s a. (s, true);
  delete_all_of = λ s namespace labels. s;
}

abbrev pub messages : Client AgentTeam Message.TeamMessage
messages = no_objects

abbrev pub to_json : TeamContext → Option String
to_json c = some c.my_role

abbrev pub replica : Spawning AgentTeam
replica = record { api = crew; router = record { locations = ("crew", []) ∷ [] } }
