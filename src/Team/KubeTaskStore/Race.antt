-- ===== src/Team/KubeTaskStore/Race.antt =====
-- Claims of several replicas, in any interleaving with each other and with other status writes.
use aistio.Prelude.{ℕ, ◌≤◌, String, ◌≡◌, ◌≢◌, refl, true, inl, inr, List, arith, Bool-cases}
use aistio.Api.Task
use aistio.Api.Task.{TeamTaskState}
use aistio.Api.Team.{AgentTeam}
use aistio.Kube.{Client, Wrote, written, conflict, write_failed}
use aistio.Kube.Optimistic.{IsOptimistic, writes, write_after_write}
use aistio.Team.TaskStore.{TeamTask, is_pending}
use aistio.Team.KubeTaskStore.{
  done, task_meta, to_state, claim_read, claimed, claim_reply, to_team_task,
}

claim_reply-done :
    (view : Task.TeamTask → TeamTask) (sent : Task.TeamTask) (w : Wrote Task.TeamTask)
    (v : TeamTask)
    → claim_reply view sent w ≡ done v
    → (b : Task.TeamTask) × (w ≡ written b) × (v ≡ view b)
unfolding claim_reply
claim_reply-done view sent (written b) v h = (b, refl, cc h)
claim_reply-done view sent conflict v h = cc
claim_reply-done view sent write_failed v h = cc

module _ {S : Type 0} (tasks : Client S Task.TeamTask) (teams : Client S AgentTeam)
    (rfc3339 : ℕ → String) where
  -- A claim that returns a task as claimed has read it as pending and has written it.
  pub claim_read-done :
      (s : S) (t : Task.TeamTask) (by : String) (v : TeamTask)
      → (claim_read tasks teams rfc3339 s t by).1 ≡ done v
      → (is_pending (to_state t.status.state) ≡ true)
        × ((b : Task.TeamTask) × ((tasks.update_status s (claimed t by)).1 ≡ written b)
            × (v ≡ to_team_task tasks teams rfc3339 b))
        × ((claim_read tasks teams rfc3339 s t by).0 ≡ (tasks.update_status s (claimed t by)).0)
  unfolding claim_read
  claim_read-done s t by v h = elim (Bool-cases (is_pending (to_state t.status.state))) [
    | inl p ↦ (
      p,
      claim_reply-done (to_team_task tasks teams rfc3339) (claimed t by)
          (tasks.update_status s (claimed t by)).1 v (ground (arith, h, p)),
      ground (arith, p),
    )
    | inr p ↦ absurd (ground (arith, h, p))
  ]

  claim_read-conflict :
      (s : S) (t : Task.TeamTask) (by : String)
      → tasks.update_status s (claimed t by) ≡ (s, conflict)
      → ((claim_read tasks teams rfc3339 s t by).0 ≡ s)
        × ((v : TeamTask) → (claim_read tasks teams rfc3339 s t by).1 ≢ done v)
  unfolding claim_read claim_reply
  claim_read-conflict s t by c = elim (Bool-cases (is_pending (to_state t.status.state))) [
    | inl p ↦ (ground (arith, c, p), λ v h. ground (arith, c, p, h))
    | inr p ↦ (ground (arith, c, p), λ v h. ground (arith, c, p, h))
  ]

  -- Two replicas have read the same task, the second no later version than the first. Once the
  -- claim of the first has succeeded, and whatever status writes follow, the claim of the second
  -- does not succeed and changes nothing.
  pub claim_race :
      (laws : IsOptimistic task_meta tasks) (s : S) (t mine : Task.TeamTask)
      (by other_owner : String) (v : TeamTask) (others : List Task.TeamTask)
      → mine.metadata.namespace ≡ t.metadata.namespace
      → mine.metadata.name ≡ t.metadata.name
      → mine.metadata.resource_version ≤ t.metadata.resource_version
      → (claim_read tasks teams rfc3339 s t by).1 ≡ done v
      → let later = writes task_meta tasks (claim_read tasks teams rfc3339 s t by).0 others in
        ((claim_read tasks teams rfc3339 later mine other_owner).0 ≡ later)
        × ((w : TeamTask) → (claim_read tasks teams rfc3339 later mine other_owner).1 ≢ done w)
  unfolding claimed
  claim_race laws s t mine by other_owner v others n m older h =
      let (_, (b, w, _), e) = claim_read-done s t by v h in
      rw e (
        claim_read-conflict (writes task_meta tasks (tasks.update_status s (claimed t by)).0 others)
          mine other_owner
          (write_after_write task_meta tasks laws s (claimed t by) b (claimed mine other_owner)
            others w n m older))
