-- ===== src/Team/Stores.antt =====
-- internal/team/task_store_iface.go: what the lifecycle and the sink use of a task
-- list, with the two stores that implement it. A Boolean says whether there was no error.
use aistio.Prelude.{ℕ, String, Bool, true, false, List}
use aistio.Api.Task
use aistio.Api.Team.{AgentTeam, TeamTaskSummary}
use aistio.Kube.{Client}
use aistio.Team.TaskStore
use aistio.Team.TaskStore.{TeamTask, TaskStore, Summary}
use aistio.Team.KubeTaskStore

pub record TaskStoreInterface (S : Type 0) : Type 0 where
  pub create : S → String → String → String → String → List String → S × Bool
  pub list : S → String → String → List TeamTask
  pub claim : S → String → String → String → String → ℕ → S × Bool
  pub complete : S → String → String → String → String → ℕ → S × Bool
  pub unclaim : S → String → String → String → S × Bool
  pub get_summary : S → String → String → TeamTaskSummary
  pub delete_team : S → String → String → S

unfoldable pub to_summary : Summary → TeamTaskSummary
to_summary c = record {
  total = c.total;
  pending = c.pending_count;
  in_progress = c.in_progress_count;
  completed = c.completed_count;
}

abbrev pub is_done : TaskStore.Reply → Bool
is_done (TaskStore.done t) = true
is_done (TaskStore.failed e) = false
is_done (TaskStore.refused t e) = false

abbrev pub is_kube_done : KubeTaskStore.Reply → Bool
is_kube_done (KubeTaskStore.done t) = true
is_kube_done (KubeTaskStore.failed e) = false
is_kube_done (KubeTaskStore.refused t e) = false

-- The store in memory, with the time at which it is called.
unfoldable pub memory_store : (ℕ → String) → ℕ → TaskStoreInterface TaskStore
memory_store rfc3339 now = record {
  create = λ s namespace team_name subject description blocked_by.
      let r = TaskStore.create s namespace team_name subject description blocked_by (rfc3339 now) in
      (r.0, true);
  list = TaskStore.list;
  claim = λ s namespace team_name id claimed_by expected.
      let r = TaskStore.claim s namespace team_name id claimed_by expected in (r.0, is_done r.1);
  complete = λ s namespace team_name id result at.
      let r = TaskStore.complete s namespace team_name id result (rfc3339 at) in (r.0, is_done r.1);
  unclaim = λ s namespace team_name id.
      let r = TaskStore.unclaim s namespace team_name id in (r.0, is_done r.1);
  get_summary = λ s namespace team_name. to_summary (TaskStore.get_summary s namespace team_name);
  delete_team = TaskStore.delete_team;
}

module _ {S : Type 0} (tasks : Client S Task.TeamTask) (teams : Client S AgentTeam)
    (rfc3339 : ℕ → String) where
  unfoldable pub kube_store : TaskStoreInterface S
  kube_store = record {
    create = λ s namespace team_name subject description blocked_by.
        let r =
          KubeTaskStore.create tasks teams rfc3339 s namespace team_name subject description
            blocked_by in
        (r.0, is_kube_done r.1);
    list = KubeTaskStore.list tasks teams rfc3339;
    claim = λ s namespace team_name id claimed_by expected.
        let r =
          KubeTaskStore.claim tasks teams rfc3339 s namespace team_name id claimed_by expected in
        (r.0, is_kube_done r.1);
    complete = λ s namespace team_name id result now.
        let r = KubeTaskStore.complete tasks teams rfc3339 s namespace team_name id result now in
        (r.0, is_kube_done r.1);
    unclaim = λ s namespace team_name id.
        let r = KubeTaskStore.unclaim tasks teams rfc3339 s namespace team_name id in
        (r.0, is_kube_done r.1);
    get_summary = λ s namespace team_name.
        to_summary (KubeTaskStore.get_summary tasks teams rfc3339 s namespace team_name);
    delete_team = KubeTaskStore.delete_team tasks teams rfc3339;
  }
