-- ===== src/Team/TaskStore/Claims.antt =====
-- `Claim`: who gets a task, and what a refusal leaves.
use aistio.Prelude.{
  ℕ, ◌+◌, String, ◌≡◌, ap, ◌↔◌, ◌⊎◌, Bool, false, Option, none, some, List, [], ◌∷◌, All, refl,
  arith, comparable_text, comparable_number,
}
use aistio.Prelude.Dict.{Dict, lookup}
use aistio.Team.TaskStore.{
  TaskStore, TeamTask, pending, in_progress, completed, done, failed, not_pending, int64,
  is_positive, ns_team_key, is_blocked, is_open, blocks_on, team_tasks, claim_task, complete_task,
  claim, complete,
}
use aistio.Team.TaskStore.Frame.{find, modify_found, modify_failed, find-modify_done}

-- The version test passes where no positive version is expected, or the current one.
abbrev pub VersionMatches : ℕ → TeamTask → Type 0
VersionMatches expected t = (is_positive expected ≡ false) ⊎ (t.resource_version ≡ expected)

abbrev pub claimed : TeamTask → String → TeamTask
claimed t claimed_by = record t {
  state = in_progress;
  owner = claimed_by;
  resource_version = int64 (t.resource_version + 1);
}

claim_task_done :
    (blocked : Bool) (t : TeamTask) (claimed_by : String) (expected : ℕ)
    → ((t' : TeamTask) × (claim_task blocked t claimed_by expected ≡ done t'))
      ↔ ((t.state ≡ pending) × (blocked ≡ false) × VersionMatches expected t)
unfolding claim_task
claim_task_done blocked t claimed_by expected =
    (λ d. ground (arith, d.1), λ c. (claimed t claimed_by, ground arith))

claim_task-claimed :
    (blocked : Bool) (t : TeamTask) (claimed_by : String) (expected : ℕ) (t' : TeamTask)
    → claim_task blocked t claimed_by expected ≡ done t'
    → t' ≡ claimed t claimed_by
unfolding claim_task
claim_task-claimed blocked t claimed_by expected t' h = ground arith

abbrev pub completed_as : TeamTask → String → String → TeamTask
completed_as t result now = record t {
  state = completed;
  completed_at = now;
  result = result;
  resource_version = int64 (t.resource_version + 1);
}

claim_in_progress :
    (s : TaskStore) (namespace team_name id : String) (t : TeamTask) (claimed_by : String)
    (expected : ℕ)
    → find s (ns_team_key namespace team_name) id ≡ some t
    → t.state ≡ in_progress
    → claim s namespace team_name id claimed_by expected ≡ (s, failed (not_pending in_progress))
unfolding claim claim_task
claim_in_progress s namespace team_name id t claimed_by expected h p =
    modify_failed s namespace team_name id _ t h (rw (p, claim_task))

-- Every dependency that the team's map holds is completed.
abbrev AllCompleted : Dict String TeamTask → List String → Type 0
AllCompleted tasks deps =
    All (λ dep. (d : TeamTask) → lookup dep tasks ≡ some d → d.state ≡ completed) deps

abbrev pub IsUnblocked : TaskStore → String → TeamTask → Type 0
IsUnblocked s key t = AllCompleted (team_tasks s key) t.blocked_by

is_open_iff :
    (o : Option TeamTask)
    → (is_open o ≡ false) ↔ ((d : TeamTask) → o ≡ some d → d.state ≡ completed)
is_open_iff none = (λ h d e. cc, λ h. refl)
is_open_iff (some dep) = (λ h d e. ground (arith, h, e), λ h. ground (arith, h dep refl))

blocks_on_iff :
    (tasks : Dict String TeamTask) (deps : List String)
    → (blocks_on tasks deps ≡ false) ↔ AllCompleted tasks deps
unfolding blocks_on
blocks_on_iff tasks [] = (λ h. tt, λ h. refl)
blocks_on_iff tasks (dep ∷ deps) =
    let first = is_open_iff (lookup dep tasks) in
    let rest = blocks_on_iff tasks deps in
    (
      λ h. (first.0 (ground (arith, h)), rest.0 (ground (arith, h))),
      λ h. ground (arith, first.1 h.0, rest.1 h.1),
    )

is_blocked_iff :
    (s : TaskStore) (namespace team_name : String) (t : TeamTask)
    → (is_blocked s namespace team_name t ≡ false)
      ↔ IsUnblocked s (ns_team_key namespace team_name) t
unfolding is_blocked
is_blocked_iff s namespace team_name t =
    blocks_on_iff (team_tasks s (ns_team_key namespace team_name)) t.blocked_by

module _ (s : TaskStore) (namespace team_name id : String) where
  pub claim_done_iff :
      (t : TeamTask) (claimed_by : String) (expected : ℕ)
      → find s (ns_team_key namespace team_name) id ≡ some t
      → ((t' : TeamTask) × ((claim s namespace team_name id claimed_by expected).1 ≡ done t')) ↔ (
          (t.state ≡ pending)
          × (is_blocked s namespace team_name t ≡ false)
          × VersionMatches expected t)
  unfolding claim
  claim_done_iff t claimed_by expected h =
      rw (modify_found s namespace team_name id _ t h)
        (claim_task_done (is_blocked s namespace team_name t) t claimed_by expected)

  -- For a task that the store holds, `Claim` succeeds exactly when the task is pending, every
  -- dependency that the team holds is completed, and the expected version is not positive or
  -- current.
  pub claim_succeeds_iff :
      (t : TeamTask) (claimed_by : String) (expected : ℕ)
      → find s (ns_team_key namespace team_name) id ≡ some t
      → ((t' : TeamTask) × ((claim s namespace team_name id claimed_by expected).1 ≡ done t')) ↔ (
          (t.state ≡ pending)
          × IsUnblocked s (ns_team_key namespace team_name) t
          × VersionMatches expected t)
  claim_succeeds_iff t claimed_by expected h =
      let done_iff = claim_done_iff t claimed_by expected h in
      let unblocked = is_blocked_iff s namespace team_name t in
      (
        λ d. let r = done_iff.0 d in (r.0, unblocked.0 r.1, r.2),
        λ c. done_iff.1 (c.0, unblocked.1 c.1, c.2),
      )

  pub find-claim :
      (t t' : TeamTask) (claimed_by : String) (expected : ℕ)
      → find s (ns_team_key namespace team_name) id ≡ some t
      → (claim s namespace team_name id claimed_by expected).1 ≡ done t'
      → (t' ≡ claimed t claimed_by)
        × (find
              (claim s namespace team_name id claimed_by expected).0
              (ns_team_key namespace team_name)
              id
            ≡ some t')
  unfolding claim
  find-claim t t' claimed_by expected h e =
      let r = find-modify_done s namespace team_name id _ t t' h e in
      (claim_task-claimed (is_blocked s namespace team_name t) t claimed_by expected t' r.0, r.1)

  -- After a successful `Claim` any further `Claim` of the task fails because the task is in
  -- progress, and leaves the store as it was, whoever claims it and whatever version is expected.
  pub claim_exclusive :
      (t t' : TeamTask) (claimed_by other_owner : String) (expected other_expected : ℕ)
      → find s (ns_team_key namespace team_name) id ≡ some t
      → (claim s namespace team_name id claimed_by expected).1 ≡ done t'
      → let after = (claim s namespace team_name id claimed_by expected).0 in
        claim after namespace team_name id other_owner other_expected
        ≡ (after, failed (not_pending in_progress))
  claim_exclusive t t' claimed_by other_owner expected other_expected h e =
      let r = find-claim t t' claimed_by expected h e in
      claim_in_progress (claim s namespace team_name id claimed_by expected).0 namespace team_name
        id t' other_owner other_expected r.1 (ap (λ u. u.state) r.0)

  -- For a task that the store holds, `Complete` returns a task exactly when the stored one is in
  -- progress, and then that task: completed now, with the result and one version more, and
  -- otherwise, the owner included, as it was.
  pub complete_succeeds_iff :
      (t t' : TeamTask) (result now : String)
      → find s (ns_team_key namespace team_name) id ≡ some t
      → ((complete s namespace team_name id result now).1 ≡ done t')
        ↔ ((t.state ≡ in_progress) × (t' ≡ completed_as t result now))
  unfolding complete complete_task
  complete_succeeds_iff t t' result now h =
      rw (modify_found s namespace team_name id (λ t. complete_task t result now) t h)
        (λ d. (ground (arith, d), ground (arith, d)), λ c. ground (arith, c.0, c.1))
