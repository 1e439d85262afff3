-- ===== src/Team/TaskStore/Tests.antt =====
-- The store on a small team, and the theorems at such inputs.
use text.Mathlib.TextEquality.{eq_iff}
use aistio.Prelude.{◌≡◌, refl, ◌↔◌, inl, inr, none, some, List, [], ◌∷◌, Memᴰ, arith}
use aistio.Prelude.Decimal.{show_int64, show}
use aistio.Prelude.Dict.{lookup, insert}
use aistio.Team.TaskStore.{
  TaskStore, TeamTask, pending, in_progress, done, failed, refused, is_blocked_error, not_pending,
  conflict, ns_team_key, task_id, new_task_store, create, claim, modify, at_task, commit,
  claim_task, is_blocked, get_unblocked_pending, Call, creates, claims, completes, deletes, step,
  run,
}
use aistio.Team.TaskStore.Frame.{find}
use aistio.Team.TaskStore.Claims.{
  claimed, IsUnblocked, VersionMatches, claim_succeeds_iff, claim_exclusive,
}
use aistio.Team.TaskStore.Invariant.{IsWellFormed, create_fresh}
use aistio.Team.TaskStore.Invariant.Runs.{step-IsWellFormed, run_new-IsWellFormed}
use aistio.Team.TaskStore.Isolation.{step_isolated}
use aistio.Team.TaskStore.Ownership.{OwnedBy, run-OwnedBy}
use aistio.Team.TaskStore.Lists.{get_unblocked_pending-claim}

-- A team with a task, and a second task that depends on the first.
abbrev script : List Call
script =
    creates "default" "crew" "build" "" [] "t0"
    ∷ creates "default" "crew" "ship" "" ("task-1" ∷ []) "t1"
    ∷ []

abbrev two_tasks : TaskStore
two_tasks = run new_task_store script

abbrev first_task : TeamTask
first_task = record {
  id = "task-1";
  team_name = "crew";
  subject = "build";
  description = "";
  state = pending;
  owner = "";
  blocked_by = [];
  blocks = [];
  resource_version = 1;
  created_at = "t0";
  completed_at = "";
  result = "";
}

found_first : find two_tasks (ns_team_key "default" "crew") "task-1" ≡ some first_task
unfolding run step new_task_store create ns_team_key task_id show_int64 show lookup insert
found_first = refl

claim_first :
    (claim two_tasks "default" "crew" "task-1" "ann" 1).1 ≡ done (claimed first_task "ann")
unfolding run step new_task_store create ns_team_key task_id show_int64 show lookup insert claim
    modify at_task commit claim_task is_blocked
claim_first = refl

abbrev after_claim : TaskStore
after_claim = (claim two_tasks "default" "crew" "task-1" "ann" 1).0

found_claimed :
    find after_claim (ns_team_key "default" "crew") "task-1" ≡ some (claimed first_task "ann")
unfolding run step new_task_store create ns_team_key task_id show_int64 show lookup insert claim
    modify at_task commit claim_task is_blocked
found_claimed = refl

claim_second : (claim two_tasks "default" "crew" "task-2" "bob" 0).1 ≡ failed is_blocked_error
unfolding run step new_task_store create ns_team_key task_id show_int64 show lookup insert claim
    modify at_task commit claim_task is_blocked
claim_second = refl

claim_stale :
    (claim two_tasks "default" "crew" "task-1" "bob" 7).1 ≡ refused first_task (conflict 7 1)
unfolding run step new_task_store create ns_team_key task_id show_int64 show lookup insert claim
    modify at_task commit claim_task is_blocked
claim_stale = refl

two_tasks-IsWellFormed : IsWellFormed 2 two_tasks
two_tasks-IsWellFormed = run_new-IsWellFormed script (omega arith)

claim_succeeds_iff_example :
    ((t' : TeamTask) × ((claim two_tasks "default" "crew" "task-1" "ann" 1).1 ≡ done t')) ↔ (
      (first_task.state ≡ pending)
      × IsUnblocked two_tasks (ns_team_key "default" "crew") first_task
      × VersionMatches 1 first_task)
claim_succeeds_iff_example =
    claim_succeeds_iff two_tasks "default" "crew" "task-1" first_task "ann" 1 found_first

claim_exclusive_example :
    let after = (claim two_tasks "default" "crew" "task-1" "ann" 1).0 in
    claim after "default" "crew" "task-1" "bob" 0 ≡ (after, failed (not_pending in_progress))
claim_exclusive_example =
    claim_exclusive two_tasks "default" "crew" "task-1" first_task (claimed first_task "ann") "ann"
      "bob" 1 0 found_first claim_first

create_fresh_example :
    find two_tasks
      (ns_team_key "default" "crew")
      (create two_tasks "default" "crew" "test" "" [] "t2").1.id
    ≡ none
create_fresh_example =
    create_fresh 2 two_tasks "default" "crew" "test" "" [] "t2" two_tasks-IsWellFormed (omega arith)

run_new-IsWellFormed_example : IsWellFormed 2 (run new_task_store script)
run_new-IsWellFormed_example = run_new-IsWellFormed script (omega arith)

step_isolated_example :
    find (step two_tasks (deletes "default" "other")) (ns_team_key "default" "crew") "task-1"
    ≡ find two_tasks (ns_team_key "default" "crew") "task-1"
step_isolated_example =
    step_isolated two_tasks (deletes "default" "other") "default" "crew" "task-1" (omega arith)
      (omega arith) (inr (λ p. cc ((eq_iff "other" "crew").1 p)))

abbrev claimed_store : TaskStore
claimed_store = step two_tasks (claims "default" "crew" "task-1" "ann" 1)

ann_owns : OwnedBy claimed_store (ns_team_key "default" "crew") "task-1" "ann"
unfolding run step new_task_store create ns_team_key task_id show_int64 show lookup insert claim
    modify at_task commit claim_task is_blocked
ann_owns = (claimed first_task "ann", refl, (refl, inl refl))

run-OwnedBy_example :
    OwnedBy
      (run claimed_store (
        claims "default" "crew" "task-1" "bob" 0
        ∷ completes "default" "crew" "task-1" "ok" "t3"
        ∷ []))
      (ns_team_key "default" "crew")
      "task-1"
      "ann"
run-OwnedBy_example =
    run-OwnedBy 3 claimed_store
      (claims "default" "crew" "task-1" "bob" 0
        ∷ completes "default" "crew" "task-1" "ok" "t3"
        ∷ [])
      (ns_team_key "default" "crew") "task-1" "ann" (omega arith)
      (step-IsWellFormed 2 two_tasks (claims "default" "crew" "task-1" "ann" 1) (omega arith)
        two_tasks-IsWellFormed)
      ((λ r. r), ((λ r. r), tt)) ann_owns

get_unblocked_pending-claim_example :
    Memᴰ first_task (get_unblocked_pending two_tasks "default" "crew")
    ↔ ((t' : TeamTask) × ((claim two_tasks "default" "crew" "task-1" "ann" 0).1 ≡ done t'))
get_unblocked_pending-claim_example =
    get_unblocked_pending-claim two_tasks "default" "crew" "task-1" "ann" first_task found_first
