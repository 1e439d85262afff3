-- ===== src/Team/TaskStore/Frame.antt =====
-- The store seen as a table of tasks, and what a method of one task does to it.
use aistio.Prelude.{
  String, ◌≡◌, refl, sym, ◌∙◌, ◌⊎◌, inl, inr, Option, none, some, List, [], arith, ◌==◌, ==_iff,
  comparable_text, if◌then◌else◌,
}
use aistio.Prelude.Dict.{Dict, lookup, insert, lookup-insert, lookup-delete}
use aistio.Team.TaskStore.{
  TaskStore, TeamTask, TaskError, Reply, done, failed, refused, team_not_found, task_not_found,
  team_tasks, tasks_or_empty, ns_team_key, commit, at_task, modify, create, delete_team,
}

-- The task `id` of the team behind a key.
abbrev pub find : TaskStore → String → String → Option TeamTask
find s key id = lookup id (team_tasks s key)

-- What a method leaves at its task.
abbrev pub written : TeamTask → Reply → TeamTask
written old (done t) = t
written old (failed e) = old
written old (refused t e) = old

find-commit :
    (s : TaskStore) (key id : String) (tasks : Dict String TeamTask) (r : Reply) (old : TeamTask)
    (k j : String)
    → lookup key s.tasks ≡ some tasks
    → lookup id tasks ≡ some old
    → find (commit s key id tasks r).0 k j
      ≡ (if key == k then (if id == j then some (written old r) else find s k j) else find s k j)
unfolding commit
find-commit s key id tasks (done t) old k j p q = ground (
  arith,
  lookup-insert key k (insert id t tasks) s.tasks,
  lookup-insert id j t tasks,
  ==_iff key k,
)
find-commit s key id tasks _ old k j p q = ground (arith, ==_iff key k, ==_iff id j)

lookup-nil-ne-some : (id : String) (t : TeamTask) → lookup id [] ≡ some t → ⊥
unfolding lookup
lookup-nil-ne-some id t h = cc

find-at_task :
    (s : TaskStore) (key id : String) (o : Option (Dict String TeamTask)) (body : TeamTask → Reply)
    (t : TeamTask) (k j : String)
    → lookup key s.tasks ≡ o
    → lookup id (tasks_or_empty o) ≡ some t
    → find (at_task s key id o body).0 k j ≡ (
        if key == k
        then (if id == j then some (written t (body t)) else find s k j)
        else find s k j)
unfolding at_task
find-at_task s key id none body t k j e h = absurd (lookup-nil-ne-some id t h)
find-at_task s key id (some tasks) body t k j e h =
    rw (h, at_task) (find-commit s key id tasks (body t) t k j e h)

pub Reply-cases :
    (r : Reply)
    → ((t : TeamTask) × (r ≡ done t))
      ⊎ (((e : TaskError) × (r ≡ failed e))
          ⊎ ((t : TeamTask) × (e : TaskError) × (r ≡ refused t e)))
Reply-cases (done t) = inl (t, refl)
Reply-cases (failed e) = inr (inl (e, refl))
Reply-cases (refused t e) = inr (inr (t, e, refl))

module _ (s : TaskStore) (namespace team_name id : String) (body : TeamTask → Reply) where
  pub modify_missing :
      find s (ns_team_key namespace team_name) id ≡ none
      → ((modify s namespace team_name id body).0 ≡ s)
        × (((modify s namespace team_name id body).1 ≡ failed team_not_found)
            ⊎ ((modify s namespace team_name id body).1 ≡ failed task_not_found))
  unfolding modify lookup commit
  modify_missing h = ground arith

  pub modify_found :
      (t : TeamTask)
      → find s (ns_team_key namespace team_name) id ≡ some t
      → (modify s namespace team_name id body).1 ≡ body t
  unfolding modify lookup commit
  modify_found t h = ground arith

  pub modify_failed :
      (t : TeamTask) {e : TaskError}
      → find s (ns_team_key namespace team_name) id ≡ some t
      → body t ≡ failed e
      → modify s namespace team_name id body ≡ (s, failed e)
  unfolding modify lookup commit
  modify_failed t h b = ground arith

  pub find-modify :
      (t : TeamTask) (key j : String)
      → find s (ns_team_key namespace team_name) id ≡ some t
      → find (modify s namespace team_name id body).0 key j ≡ (
          if ns_team_key namespace team_name == key
          then (if id == j then some (written t (body t)) else find s key j)
          else find s key j)
  unfolding modify
  find-modify t key j h =
      find-at_task s (ns_team_key namespace team_name) id
        (lookup (ns_team_key namespace team_name) s.tasks) body t key j refl h

  -- The task that a method returns is the one that it left in the store.
  pub find-modify_done :
      (t t' : TeamTask)
      → find s (ns_team_key namespace team_name) id ≡ some t
      → (modify s namespace team_name id body).1 ≡ done t'
      → (body t ≡ done t')
        × (find (modify s namespace team_name id body).0 (ns_team_key namespace team_name) id
            ≡ some t')
  find-modify_done t t' h e =
      let k = ns_team_key namespace team_name in
      let b : body t ≡ done t' = sym (modify_found t h) ∙ e in
      (b, ground (arith, find-modify t k id h, ==_iff k k, ==_iff id id))

-- `Create` adds one entry.
pub find-create :
    (s : TaskStore) (namespace team_name subject description : String) (blocked_by : List String)
    (now key j : String)
    → let k = ns_team_key namespace team_name in
      let made = create s namespace team_name subject description blocked_by now in
      find made.0 key j
      ≡ (if k == key then (if made.1.id == j then some made.1 else find s key j) else find s key j)
unfolding create
find-create s namespace team_name subject description blocked_by now key j =
    let k = ns_team_key namespace team_name in
    let made = create s namespace team_name subject description blocked_by now in
    ground (
      arith,
      lookup-insert k key (insert made.1.id made.1 (team_tasks s k)) s.tasks,
      lookup-insert made.1.id j made.1 (team_tasks s k),
      ==_iff k key,
    )

-- `DeleteTeam` drops the tasks of one team.
pub find-delete_team :
    (s : TaskStore) (namespace team_name key j : String)
    → find (delete_team s namespace team_name) key j
      ≡ (if ns_team_key namespace team_name == key then none else find s key j)
unfolding delete_team lookup
find-delete_team s namespace team_name key j =
    ground (arith, lookup-delete (ns_team_key namespace team_name) key s.tasks)
