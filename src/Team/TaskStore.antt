-- ===== src/Team/TaskStore.antt =====
-- internal/team/task_store.go: the in-memory task list of the teams. A method that mutates the
-- store returns the new store beside its reply; the lock makes each call one step. The clock is
-- the argument `now`, and an `int64` is its two's complement pattern.
pub mod Frame
pub mod Claims
pub mod Invariant
pub mod Isolation
pub mod Ownership
pub mod Lists
mod Tests
use aistio.Prelude.{
  ℕ, ◌+◌, ◌%◌, ◌^◌, String, ◌<>◌, Bool, true, false, not, ◌&&◌, Option, none, some, List, [], ◌∷◌,
  ltb, ◌==◌, comparable_text, comparable_number, if◌then◌else◌, keep,
}
use aistio.Prelude.Decimal.{show_int64}
use aistio.Prelude.Dict.{Dict, lookup, insert, delete, values}

-- `unset` is the empty string, of a task whose state was never written.
pub data TaskState : Type 0 where
  unset pending in_progress completed : TaskState
  other : String → TaskState

pub record TeamTask : Type 0 where
  pub id : String
  pub team_name : String
  pub subject : String
  pub description : String
  pub state : TaskState
  pub owner : String
  pub blocked_by : List String
  pub blocks : List String
  pub resource_version : ℕ
  pub created_at : String
  pub completed_at : String
  pub result : String

pub record TaskStore : Type 0 where
  pub tasks : Dict String (Dict String TeamTask)
  pub seq : Dict String ℕ

pub data TaskError : Type 0 where
  team_not_found task_not_found is_blocked_error : TaskError
  not_pending not_in_progress : TaskState → TaskError
  conflict : ℕ → ℕ → TaskError

-- `(task, nil)`, `(nil, err)` and `(task, err)`.
pub data Reply : Type 0 where
  done : TeamTask → Reply
  failed : TaskError → Reply
  refused : TeamTask → TaskError → Reply

abbrev pub int64 : ℕ → ℕ
int64 n = n % 2 ^ 64

-- `v > 0` on an `int64`.
abbrev pub is_positive : ℕ → Bool
is_positive v = ltb 0 v && ltb v (2 ^ 63)

abbrev pub is_pending : TaskState → Bool
is_pending pending = true
is_pending _ = false

abbrev pub is_in_progress : TaskState → Bool
is_in_progress in_progress = true
is_in_progress _ = false

abbrev pub is_completed : TaskState → Bool
is_completed completed = true
is_completed _ = false

pub new_task_store : TaskStore
new_task_store = record { tasks = []; seq = [] }

unfoldable pub ns_team_key : String → String → String
ns_team_key namespace team_name = namespace <> "/" <> team_name

-- A missing entry of a map reads as its zero value.
abbrev pub tasks_or_empty : Option (Dict String TeamTask) → Dict String TeamTask
tasks_or_empty none = []
tasks_or_empty (some d) = d

abbrev pub seq_or_zero : Option ℕ → ℕ
seq_or_zero none = 0
seq_or_zero (some n) = n

abbrev pub team_tasks : TaskStore → String → Dict String TeamTask
team_tasks s key = tasks_or_empty (lookup key s.tasks)

abbrev pub team_seq : TaskStore → String → ℕ
team_seq s key = seq_or_zero (lookup key s.seq)

unfoldable pub task_id : ℕ → String
task_id n = "task-" <> show_int64 n

pub new_task : String → String → String → String → List String → String → TeamTask
new_task id team_name subject description blocked_by now = record {
  id = id;
  team_name = team_name;
  subject = subject;
  description = description;
  state = pending;
  owner = "";
  blocked_by = blocked_by;
  blocks = [];
  resource_version = 1;
  created_at = now;
  completed_at = "";
  result = "";
}

pub create :
    TaskStore → String → String → String → String → List String → String → TaskStore × TeamTask
unfolding new_task
create s namespace team_name subject description blocked_by now =
    let key = ns_team_key namespace team_name in
    let n = int64 (team_seq s key + 1) in
    let id = task_id n in
    let task = new_task id team_name subject description blocked_by now in
    (
      record s {
        tasks = insert key (insert id task (team_tasks s key)) s.tasks;
        seq = insert key n s.seq;
      },
      task,
    )

get_in : Option (Dict String TeamTask) → String → Reply
get_in none id = failed team_not_found
get_in (some tasks) id = elim (lookup id tasks) [ none ↦ failed task_not_found | some t ↦ done t ]

pub get : TaskStore → String → String → String → Reply
unfolding get_in
get s namespace team_name id = get_in (lookup (ns_team_key namespace team_name) s.tasks) id

pub list : TaskStore → String → String → List TeamTask
list s namespace team_name = values (team_tasks s (ns_team_key namespace team_name))

-- A dependency that the team does not hold is skipped.
abbrev pub is_open : Option TeamTask → Bool
is_open none = false
is_open (some dep) = not (is_completed dep.state)

pub blocks_on : Dict String TeamTask → List String → Bool
blocks_on tasks [] = false
blocks_on tasks (dep ∷ deps) =
    let rest = blocks_on tasks deps in if is_open (lookup dep tasks) then true else rest

pub is_blocked : TaskStore → String → String → TeamTask → Bool
unfolding blocks_on
is_blocked s namespace team_name task =
    blocks_on (team_tasks s (ns_team_key namespace team_name)) task.blocked_by

-- The body of `Claim` behind the two lookups; `Reply` carries the task as it is written back.
unfoldable pub claim_task : Bool → TeamTask → String → ℕ → Reply
claim_task blocked task claimed_by expected =
    if not (is_pending task.state)
    then failed (not_pending task.state)
    else if blocked
    then failed is_blocked_error
    else if is_positive expected && not (task.resource_version == expected)
    then refused task (conflict expected task.resource_version)
    else done (record task {
      state = in_progress;
      owner = claimed_by;
      resource_version = int64 (task.resource_version + 1);
    })

pub complete_task : TeamTask → String → String → Reply
complete_task task result now =
    if not (is_in_progress task.state)
    then failed (not_in_progress task.state)
    else done (record task {
      state = completed;
      completed_at = now;
      result = result;
      resource_version = int64 (task.resource_version + 1);
    })

pub unclaim_task : TeamTask → Reply
unclaim_task task = done (record task {
  state = pending;
  owner = "";
  resource_version = int64 (task.resource_version + 1);
})

-- The task is mutated in place exactly where the method returns no error.
pub commit : TaskStore → String → String → Dict String TeamTask → Reply → TaskStore × Reply
commit s key id tasks (done t) =
    (record s { tasks = insert key (insert id t tasks) s.tasks }, done t)
commit s key id tasks (failed e) = (s, failed e)
commit s key id tasks (refused t e) = (s, refused t e)

at_task :
    TaskStore
    → String
    → String
    → Option (Dict String TeamTask)
    → (TeamTask → Reply)
    → TaskStore × Reply
at_task s key id none body = (s, failed team_not_found)
at_task s key id (some tasks) body = elim (lookup id tasks) [
  | none ↦ (s, failed task_not_found)
  | some t ↦ commit s key id tasks (body t)
]

pub modify : TaskStore → String → String → String → (TeamTask → Reply) → TaskStore × Reply
unfolding at_task
modify s namespace team_name id body =
    let key = ns_team_key namespace team_name in at_task s key id (lookup key s.tasks) body

pub claim : TaskStore → String → String → String → String → ℕ → TaskStore × Reply
claim s namespace team_name id claimed_by expected =
    modify s namespace team_name id
      (λ t. claim_task (is_blocked s namespace team_name t) t claimed_by expected)

pub complete : TaskStore → String → String → String → String → String → TaskStore × Reply
complete s namespace team_name id result now =
    modify s namespace team_name id (λ t. complete_task t result now)

pub unclaim : TaskStore → String → String → String → TaskStore × Reply
unclaim s namespace team_name id = modify s namespace team_name id unclaim_task

pub get_unblocked_pending : TaskStore → String → String → List TeamTask
unfolding is_blocked
get_unblocked_pending s namespace team_name =
    keep (λ t. is_pending t.state && not (is_blocked s namespace team_name t))
      (list s namespace team_name)

pub record Summary : Type 0 where
  pub total : ℕ
  pub pending_count : ℕ
  pub in_progress_count : ℕ
  pub completed_count : ℕ

abbrev pub int32 : ℕ → ℕ
int32 n = n % 2 ^ 32

count_task : TaskState → Summary → Summary
count_task pending c = record c { pending_count = int32 (c.pending_count + 1) }
count_task in_progress c = record c { in_progress_count = int32 (c.in_progress_count + 1) }
count_task completed c = record c { completed_count = int32 (c.completed_count + 1) }
count_task _ c = c

pub summarize : Summary → List TeamTask → Summary
summarize c [] = c
summarize c (t ∷ ts) = summarize (count_task t.state (record c { total = int32 (c.total + 1) })) ts

pub get_summary : TaskStore → String → String → Summary
get_summary s namespace team_name =
    summarize (record { total = 0; pending_count = 0; in_progress_count = 0; completed_count = 0 })
      (list s namespace team_name)

pub delete_team : TaskStore → String → String → TaskStore
delete_team s namespace team_name =
    let key = ns_team_key namespace team_name in
    record s { tasks = delete key s.tasks; seq = delete key s.seq }

-- The calls that change the store.
pub data Call : Type 0 where
  creates : String → String → String → String → List String → String → Call
  claims : String → String → String → String → ℕ → Call
  completes : String → String → String → String → String → Call
  unclaims : String → String → String → Call
  deletes : String → String → Call

pub step : TaskStore → Call → TaskStore
step s (creates namespace team_name subject description blocked_by now) =
    (create s namespace team_name subject description blocked_by now).0
step s (claims namespace team_name id claimed_by expected) =
    (claim s namespace team_name id claimed_by expected).0
step s (completes namespace team_name id result now) =
    (complete s namespace team_name id result now).0
step s (unclaims namespace team_name id) = (unclaim s namespace team_name id).0
step s (deletes namespace team_name) = delete_team s namespace team_name

pub run : TaskStore → List Call → TaskStore
run s [] = s
run s (c ∷ cs) = run (step s c) cs
