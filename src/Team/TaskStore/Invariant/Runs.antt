-- ===== src/Team/TaskStore/Invariant/Runs.antt =====
-- Any calls in any order keep the store well formed.
use aistio.Prelude.{ℕ, ◌+◌, ◌^◌, ◌≤◌, ◌<◌, List, [], ◌∷◌, arith, comparable_text, length}
use aistio.Prelude.Dict.{lookup}
use aistio.Team.TaskStore.{
  TaskStore, new_task_store, is_blocked, claim, complete, unclaim, Call, creates, claims, completes,
  unclaims, deletes, step, run,
}
use aistio.Team.TaskStore.Invariant.{
  IsWellFormed, create-IsWellFormed, modify-IsWellFormed, claim_task-Keeps, complete_task-Keeps,
  unclaim_task-Keeps, delete_team-IsWellFormed,
}

IsWellFormed-mono : {b c : ℕ} {s : TaskStore} → b ≤ c → IsWellFormed b s → IsWellFormed c s
IsWellFormed-mono h w = record { entry = w.entry; bounded = λ key. omega (arith, w.bounded key) }

-- Every call keeps the store well formed, as long as the counters do not wrap.
pub step-IsWellFormed :
    (b : ℕ) (s : TaskStore) (c : Call)
    → b + 1 < 2 ^ 63
    → IsWellFormed b s
    → IsWellFormed (b + 1) (step s c)
unfolding step claim complete unclaim
step-IsWellFormed b s (creates namespace team_name subject description blocked_by now) h w =
    create-IsWellFormed b s namespace team_name subject description blocked_by now w h
step-IsWellFormed b s (claims namespace team_name id claimed_by expected) h w =
    IsWellFormed-mono (omega arith) (
      modify-IsWellFormed b s namespace team_name id _
        (claim_task-Keeps (is_blocked s namespace team_name) claimed_by expected) w)
step-IsWellFormed b s (completes namespace team_name id result now) h w =
    IsWellFormed-mono (omega arith)
      (modify-IsWellFormed b s namespace team_name id _ (complete_task-Keeps result now) w)
step-IsWellFormed b s (unclaims namespace team_name id) h w =
    IsWellFormed-mono (omega arith)
      (modify-IsWellFormed b s namespace team_name id _ unclaim_task-Keeps w)
step-IsWellFormed b s (deletes namespace team_name) h w =
    IsWellFormed-mono (omega arith) (delete_team-IsWellFormed b s namespace team_name w)

run-IsWellFormed :
    (b : ℕ) (s : TaskStore) (cs : List Call)
    → b + length cs < 2 ^ 63
    → IsWellFormed b s
    → IsWellFormed (b + length cs) (run s cs)
unfolding run
run-IsWellFormed b s [] h w = IsWellFormed-mono (omega arith) w
run-IsWellFormed b s (c ∷ cs) h w =
    IsWellFormed-mono (omega arith) (
      run-IsWellFormed (b + 1) (step s c) cs (omega arith)
        (step-IsWellFormed b s c (omega arith) w))

-- From the empty store, fewer than 2 ^ 63 calls, of any kinds and in any order, lead to a
-- well-formed store.
pub run_new-IsWellFormed :
    (cs : List Call) → length cs < 2 ^ 63 → IsWellFormed (length cs) (run new_task_store cs)
unfolding new_task_store lookup
run_new-IsWellFormed cs h = IsWellFormed-mono (omega arith) (
    run-IsWellFormed 0 new_task_store cs (omega arith)
      (record { entry = λ key j t e. cc; bounded = λ key. omega arith }))
