-- ===== src/Team/TaskStore/Ownership.antt =====
-- A claimed task stays with its owner.
use aistio.Prelude.{
  ℕ, ◌+◌, ◌^◌, ◌<◌, String, ◌≡◌, ◌⊎◌, inl, inr, Bool, some, List, [], ◌∷◌, arith, ◌==◌, ==_iff,
  comparable_text, Bool-cases, Option-cases, All, length,
}
use aistio.Team.TaskStore.{
  TaskStore, TeamTask, in_progress, completed, Reply, ns_team_key, modify, claim_task,
  complete_task, is_blocked, create, claim, complete, unclaim, Call, creates, claims, completes,
  unclaims, deletes, step, run,
}
use aistio.Team.TaskStore.Frame.{
  find, modify_missing, find-modify, find-create, find-delete_team, written,
}
use aistio.Team.TaskStore.Invariant.{IsWellFormed, create_fresh}
use aistio.Team.TaskStore.Invariant.Runs.{step-IsWellFormed}

-- A call that takes a task from its owner: `Unclaim` of the task, or the deletion of its team.
abbrev pub Releases : String → String → Call → Type 0
Releases key id (unclaims namespace team_name j) =
    (ns_team_key namespace team_name ≡ key) × (j ≡ id)
Releases key id (deletes namespace team_name) = ns_team_key namespace team_name ≡ key
Releases key id _ = ⊥

abbrev pub IsHeld : TeamTask → String → Type 0
IsHeld t owner = (t.owner ≡ owner) × ((t.state ≡ in_progress) ⊎ (t.state ≡ completed))

-- A task that `owner` works on or has completed.
abbrev pub OwnedBy : TaskStore → String → String → String → Type 0
OwnedBy s key id owner = (t : TeamTask) × (find s key id ≡ some t) × IsHeld t owner

modify-OwnedBy :
    (s : TaskStore) (namespace team_name j : String) (body : TeamTask → Reply)
    (key id owner : String)
    → (ns_team_key namespace team_name ≡ key
        → j ≡ id
        → (t : TeamTask) → IsHeld t owner
        → IsHeld (written t (body t)) owner)
    → OwnedBy s key id owner
    → OwnedBy (modify s namespace team_name j body).0 key id owner
modify-OwnedBy s namespace team_name j body key id owner keep (t, e, held) =
    let k = ns_team_key namespace team_name in
    elim (Option-cases (find s k j)) [
      | inl missing ↦ rw (modify_missing s namespace team_name j body missing).0 (t, e, held)
      | inr (u, f) ↦
          let after = find-modify s namespace team_name j body u key id f in
          elim (Bool-cases (k == key)) [
            | inl p ↦ elim (Bool-cases (j == id)) [
              | inl q ↦
                  let same : u ≡ t = ground (arith, f, e, ==_iff k key, ==_iff j id) in
                  (
                    written t (body t),
                    ground (arith, after, same),
                    keep ((==_iff k key).0 p) ((==_iff j id).0 q) t held,
                  )
              | inr q ↦ (t, ground (arith, after), held)
            ]
            | inr p ↦ (t, ground (arith, after), held)
          ]
    ]

claim_task-IsHeld :
    (blocked : Bool) (t : TeamTask) (claimed_by : String) (expected : ℕ) (owner : String)
    → IsHeld t owner
    → IsHeld (written t (claim_task blocked t claimed_by expected)) owner
unfolding claim_task
claim_task-IsHeld blocked t claimed_by expected owner h = ground arith

complete_task-IsHeld :
    (t : TeamTask) (result now owner : String)
    → IsHeld t owner
    → IsHeld (written t (complete_task t result now)) owner
unfolding complete_task
complete_task-IsHeld t result now owner h = ground arith

create-OwnedBy :
    (b : ℕ) (s : TaskStore) (namespace team_name subject description : String)
    (blocked_by : List String) (now key id owner : String)
    → b + 1 < 2 ^ 63
    → IsWellFormed b s
    → OwnedBy s key id owner
    → OwnedBy (create s namespace team_name subject description blocked_by now).0 key id owner
create-OwnedBy b s namespace team_name subject description blocked_by now key id owner h w
      (t, e, held) =
    let k = ns_team_key namespace team_name in
    let made = create s namespace team_name subject description blocked_by now in
    (
      t,
      ground (
        arith,
        find-create s namespace team_name subject description blocked_by now key id,
        create_fresh b s namespace team_name subject description blocked_by now w h,
        ==_iff k key,
        ==_iff made.1.id id,
      ),
      held,
    )

-- In a well-formed store whose counters do not wrap, every call but an `Unclaim` of the task or
-- the deletion of its team leaves a task that is in progress or completed with its owner.
pub step-OwnedBy :
    (b : ℕ) (s : TaskStore) (c : Call) (key id owner : String)
    → b + 1 < 2 ^ 63
    → IsWellFormed b s
    → ¬ Releases key id c
    → OwnedBy s key id owner
    → OwnedBy (step s c) key id owner
unfolding step claim complete unclaim
step-OwnedBy b s (creates namespace team_name subject description blocked_by now) key id owner h w n
      o =
    create-OwnedBy b s namespace team_name subject description blocked_by now key id owner h w o
step-OwnedBy b s (claims namespace team_name j claimed_by expected) key id owner h w n o =
    modify-OwnedBy s namespace team_name j _ key id owner
      (λ _ _ t. claim_task-IsHeld (is_blocked s namespace team_name t) t claimed_by expected owner)
      o
step-OwnedBy b s (completes namespace team_name j result now) key id owner h w n o =
    modify-OwnedBy s namespace team_name j _ key id owner
      (λ _ _ t. complete_task-IsHeld t result now owner) o
step-OwnedBy b s (unclaims namespace team_name j) key id owner h w n o =
    modify-OwnedBy s namespace team_name j _ key id owner (λ p q. absurd (n (p, q))) o
step-OwnedBy b s (deletes namespace team_name) key id owner h w n (t, e, held) =
    let k = ns_team_key namespace team_name in
    elim (Bool-cases (k == key)) [
      | inl p ↦ absurd (n ((==_iff k key).0 p))
      | inr p ↦ (t, ground (arith, find-delete_team s namespace team_name key id), held)
    ]

-- Over any calls none of which releases the task, the owner keeps it.
pub run-OwnedBy :
    (b : ℕ) (s : TaskStore) (cs : List Call) (key id owner : String)
    → b + length cs < 2 ^ 63
    → IsWellFormed b s
    → All (λ c. ¬ Releases key id c) cs
    → OwnedBy s key id owner
    → OwnedBy (run s cs) key id owner
unfolding run
run-OwnedBy b s [] key id owner h w n o = o
run-OwnedBy b s (c ∷ cs) key id owner h w n o =
    run-OwnedBy (b + 1) (step s c) cs key id owner (omega arith)
      (step-IsWellFormed b s c (omega arith) w) n.1
      (step-OwnedBy b s c key id owner (omega arith) w n.0 o)
