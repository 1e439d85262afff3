-- ===== src/Team/KubeTaskStore/Tests.antt =====
-- Two replicas that claim one task.
use aistio.Prelude.{
  ℕ, String, ◌≡◌, ◌≢◌, refl, ◌↔◌, true, false, [], ◌∷◌, Memᴰ, arith, comparable_text,
  comparable_number,
}
use aistio.Prelude.Dict.{Dict, lookup, insert}
use aistio.Prelude.Decimal.{show}
use aistio.Api.Task
use aistio.Api.Task.{TeamTaskState}
use aistio.Api.Team.{AgentTeam}
use aistio.Kube.{Client}
use aistio.Kube.Memory.{memory, memory-IsOptimistic, no_objects, key_of}
use aistio.Team.TaskStore
use aistio.Team.TaskStore.{TeamTask, TaskState, is_pending}
use aistio.Team.KubeTaskStore.{
  done, to_state, to_team_task, claim_read, claim_reply, claimed, task_meta, list,
  get_unblocked_pending,
}
use aistio.Team.KubeTaskStore.Race.{claim_race}
use aistio.Team.KubeTaskStore.Claims.{AllDone, get_unblocked_pending_iff}

abbrev versioned : Task.TeamTask → ℕ → Task.TeamTask
versioned t v = record t { metadata = record t.metadata { resource_version = v } }

abbrev Server : Type 0
Server = Dict String Task.TeamTask

abbrev tasks : Client Server Task.TeamTask
tasks = memory task_meta versioned

abbrev teams : Client Server AgentTeam
teams = no_objects

abbrev build_task : Task.TeamTask
build_task = record {
  metadata = record {
    name = "crew-task-1";
    namespace = "default";
    generate_name = "crew-task-";
    labels = ("agentscope.io/team", "crew") ∷ [];
    annotations = [];
    finalizers = [];
    owner_references = [];
    uid = "1";
    resource_version = 2;
    creation_timestamp = 10;
    deleting = false;
  };
  spec = record { team_ref = "crew"; subject = "build"; description = ""; blocked_by = [] };
  status = record { state = TeamTaskState.pending; owner = ""; completed_at = ""; result = "" };
}

abbrev server : Server
server = (key_of "default" "crew-task-1", build_task) ∷ []

abbrev by_ann : TeamTask
by_ann = to_team_task tasks teams show (versioned (claimed build_task "ann") 3)

claimed_by_ann : (claim_read tasks teams show server build_task "ann").1 ≡ done by_ann
unfolding claim_read to_team_task claimed claim_reply to_state lookup insert
claimed_by_ann = refl

claim_race_example :
    let later = (claim_read tasks teams show server build_task "ann").0 in
    ((claim_read tasks teams show later build_task "bob").0 ≡ later)
    × ((w : TeamTask) → (claim_read tasks teams show later build_task "bob").1 ≢ done w)
claim_race_example =
    claim_race tasks teams show (memory-IsOptimistic task_meta versioned (λ a v. refl)) server
      build_task build_task "ann" "bob" by_ann [] refl refl (omega arith) claimed_by_ann

get_unblocked_pending_iff_example :
    let all = list tasks teams show server "default" "crew" in
    Memᴰ by_ann (get_unblocked_pending tasks teams show server "default" "crew")
    ↔ (Memᴰ by_ann all × (is_pending by_ann.state ≡ true) × AllDone all by_ann.blocked_by)
get_unblocked_pending_iff_example =
    get_unblocked_pending_iff tasks teams show server "default" "crew" by_ann
