-- ===== src/Team/KubeTaskStore.antt =====
-- internal/team/task_store_k8s.go: the task list of a team as TeamTask objects, which all replicas
-- share. The clients of the tasks and of the teams, over one state of the API server, are
-- parameters, and so are the time format and the clock.
pub mod Race
pub mod Claims
mod Tests
use aistio.Prelude.{
  ℕ, String, ◌<>◌, Bool, true, false, not, ◌&&◌, Option, none, some, List, [], ◌∷◌, map, ◌==◌,
  comparable_text, if◌then◌else◌, keep,
}
use aistio.Prelude.Dict.{Dict}
use aistio.Api.Meta.{ObjectMeta, OwnerReference}
use aistio.Api.Task
use aistio.Api.Task.{TeamTaskState}
use aistio.Api.Team.{AgentTeam}
use aistio.Kube.{Client, Got, found, not_found, get_failed, Wrote, written, conflict, write_failed}
use aistio.Team.TaskStore.{TeamTask, TaskState, Summary, summarize, is_pending, is_completed}

pub data KubeError : Type 0 where
  api_not_found api_failed conflict_error not_pending_error : KubeError

-- `(task, nil)`, `(nil, err)` and `(task, err)`.
pub data Reply : Type 0 where
  done : TeamTask → Reply
  failed : KubeError → Reply
  refused : TeamTask → KubeError → Reply

unfoldable pub to_state : TeamTaskState → TaskState
to_state TeamTaskState.unset = TaskState.unset
to_state TeamTaskState.pending = TaskState.pending
to_state TeamTaskState.in_progress = TaskState.in_progress
to_state TeamTaskState.completed = TaskState.completed
to_state (TeamTaskState.other s) = TaskState.other s

abbrev pub team_label : String
team_label = "agentscope.io/team"

abbrev pub labels_of : String → Dict String String
labels_of team_name = (team_label, team_name) ∷ []

abbrev pub task_meta : Task.TeamTask → ObjectMeta
task_meta t = t.metadata

-- The reply to a write whose conflict is an error like any other.
unfoldable pub plain_reply : (Task.TeamTask → TeamTask) → Wrote Task.TeamTask → Reply
plain_reply view (written t) = done (view t)
plain_reply view conflict = failed conflict_error
plain_reply view write_failed = failed api_failed

-- Is the id among those of the completed tasks?
abbrev pub is_completed_id : List TeamTask → String → Bool
is_completed_id [] id = false
is_completed_id (t ∷ ts) id =
    let rest = is_completed_id ts id in if is_completed t.state && (t.id == id) then true else rest

abbrev pub has_open : List TeamTask → List String → Bool
has_open all [] = false
has_open all (dep ∷ deps) =
    let rest = has_open all deps in if is_completed_id all dep then rest else true

-- The object that `Claim` writes back.
unfoldable pub claimed : Task.TeamTask → String → Task.TeamTask
claimed t claimed_by = record t {
  status = record t.status { state = TeamTaskState.in_progress; owner = claimed_by };
}

-- The reply to a claim's write; a conflict comes with the task as it was sent.
unfoldable pub claim_reply :
    (Task.TeamTask → TeamTask) → Task.TeamTask → Wrote Task.TeamTask → Reply
claim_reply view sent (written t) = done (view t)
claim_reply view sent conflict = refused (view sent) conflict_error
claim_reply view sent write_failed = failed api_failed

unfoldable pub unclaimed : Task.TeamTask → Task.TeamTask
unclaimed t = record t { status = record t.status { state = TeamTaskState.pending; owner = "" } }

-- The object in memory after a status write that it was sent with: what the server stored, or
-- itself where the write failed.
after_write : Task.TeamTask → Wrote Task.TeamTask → Task.TeamTask
after_write sent (written t) = t
after_write sent conflict = sent
after_write sent write_failed = sent

module _ {S : Type 0} where
  -- `ownerRefFor`: best effort, none where the team cannot be read.
  unfoldable pub owner_ref_for : Client S AgentTeam → S → String → String → List OwnerReference
  owner_ref_for teams s namespace team_name = elim (teams.get s namespace team_name) [
    | found team ↦
        record { kind = "AgentTeam"; name = team.metadata.name; uid = team.metadata.uid } ∷ []
    | not_found ↦ []
    | get_failed ↦ []
  ]

module _ {S : Type 0} (tasks : Client S Task.TeamTask) (teams : Client S AgentTeam)
    (rfc3339 : ℕ → String) where
  unfoldable pub to_team_task : Task.TeamTask → TeamTask
  unfolding to_state
  to_team_task crd = record {
    id = crd.metadata.name;
    team_name = crd.spec.team_ref;
    subject = crd.spec.subject;
    description = crd.spec.description;
    state = to_state crd.status.state;
    owner = crd.status.owner;
    blocked_by = crd.spec.blocked_by;
    blocks = [];
    resource_version = 0;
    created_at = rfc3339 crd.metadata.creation_timestamp;
    completed_at = crd.status.completed_at;
    result = crd.status.result;
  }

  -- The object that `Create` sends: the server gives it its name.
  new_task_object : S → String → String → String → String → List String → Task.TeamTask
  new_task_object s namespace team_name subject description blocked_by = record {
    metadata = record {
      name = "";
      namespace = namespace;
      generate_name = team_name <> "-task-";
      labels = labels_of team_name;
      annotations = [];
      finalizers = [];
      owner_references = owner_ref_for teams s namespace team_name;
      uid = "";
      resource_version = 0;
      creation_timestamp = 0;
      deleting = false;
    };
    spec = record {
      team_ref = team_name;
      subject = subject;
      description = description;
      blocked_by = blocked_by;
    };
    status = record { state = TeamTaskState.unset; owner = ""; completed_at = ""; result = "" };
  }

  -- The error of the status write is dropped.
  unfoldable pub create : S → String → String → String → String → List String → S × Reply
  unfolding new_task_object after_write
  create s namespace team_name subject description blocked_by =
      let (s', made) =
        tasks.create s (new_task_object s namespace team_name subject description blocked_by) in
      elim made [
        | none ↦ (s', failed api_failed)
        | some t ↦
            let sent : Task.TeamTask = record t {
              status = record t.status { state = TeamTaskState.pending };
            } in
            let r = tasks.update_status s' sent in (r.0, done (to_team_task (after_write sent r.1)))
      ]

  unfoldable pub get : S → String → String → String → Reply
  get s namespace team_name id = elim (tasks.get s namespace id) [
    | found t ↦ done (to_team_task t)
    | not_found ↦ failed api_not_found
    | get_failed ↦ failed api_failed
  ]

  -- An error lists nothing.
  unfoldable pub list : S → String → String → List TeamTask
  list s namespace team_name = elim (tasks.list s namespace (labels_of team_name)) [
    | none ↦ []
    | some ts ↦ map to_team_task ts
  ]

  -- `Claim` once it has read the task: other replicas may have written in between.
  unfoldable pub claim_read : S → Task.TeamTask → String → S × Reply
  unfolding claimed claim_reply
  claim_read s t claimed_by =
      let r = tasks.update_status s (claimed t claimed_by) in
      if is_pending (to_state t.status.state)
      then (r.0, claim_reply to_team_task (claimed t claimed_by) r.1)
      else (s, refused (to_team_task t) not_pending_error)

  -- The expected version is not looked at.
  unfoldable pub claim : S → String → String → String → String → ℕ → S × Reply
  claim s namespace team_name id claimed_by expected = elim (tasks.get s namespace id) [
    | found t ↦ claim_read s t claimed_by
    | not_found ↦ (s, failed api_not_found)
    | get_failed ↦ (s, failed api_failed)
  ]

  -- Read, change the status, write.
  unfoldable pub modify : S → String → String → (Task.TeamTask → Task.TeamTask) → S × Reply
  modify s namespace id change = elim (tasks.get s namespace id) [
    | found t ↦ let r = tasks.update_status s (change t) in (r.0, plain_reply to_team_task r.1)
    | not_found ↦ (s, failed api_not_found)
    | get_failed ↦ (s, failed api_failed)
  ]

  unfoldable pub completed : String → ℕ → Task.TeamTask → Task.TeamTask
  completed result now t = record t {
    status = record t.status {
      state = TeamTaskState.completed;
      completed_at = rfc3339 now;
      result = result;
    };
  }

  unfoldable pub complete : S → String → String → String → String → ℕ → S × Reply
  unfolding completed
  complete s namespace team_name id result now = modify s namespace id (completed result now)

  unfoldable pub unclaim : S → String → String → String → S × Reply
  unfolding unclaimed
  unclaim s namespace team_name id = modify s namespace id unclaimed

  unfoldable pub get_unblocked_pending : S → String → String → List TeamTask
  get_unblocked_pending s namespace team_name =
      let all = list s namespace team_name in
      keep (λ t. is_pending t.state && not (has_open all t.blocked_by)) all

  unfoldable pub get_summary : S → String → String → Summary
  get_summary s namespace team_name =
      summarize
        (record { total = 0; pending_count = 0; in_progress_count = 0; completed_count = 0 })
        (list s namespace team_name)

  unfoldable pub delete_team : S → String → String → S
  delete_team s namespace team_name = tasks.delete_all_of s namespace (labels_of team_name)
