-- ===== src/Team/TaskStore/Lists.antt =====
-- What the listings of a team's tasks say.
use aistio.Prelude.{
  ℕ, ◌+◌, String, ◌≡◌, refl, ◌∙◌, ap, ◌↔◌, inl, Bool, true, false, not, ◌&&◌, some, List, [], ◌∷◌,
  Memᴰ, arith, comparable_text, length, keep, Mem-keep, keep-Mem,
}
use aistio.Prelude.Dict.{lookup-Mem}
use aistio.Team.TaskStore.{
  TaskStore, TeamTask, TaskState, pending, in_progress, completed, done, int32, is_pending,
  is_in_progress, is_completed, ns_team_key, is_blocked, claim, list, get_unblocked_pending,
  Summary, count_task, summarize, get_summary,
}
use aistio.Team.TaskStore.Frame.{find}
use aistio.Team.TaskStore.Claims.{claim_done_iff}

abbrev ready : TaskStore → String → String → TeamTask → Bool
ready s namespace team_name t = is_pending t.state && not (is_blocked s namespace team_name t)

ready-claimable :
    (s : TaskStore) (namespace team_name : String) (t : TeamTask)
    → ready s namespace team_name t ≡ true
    → (t.state ≡ pending) × (is_blocked s namespace team_name t ≡ false)
ready-claimable s namespace team_name t h = ground arith

claimable-ready :
    (s : TaskStore) (namespace team_name : String) (t : TeamTask)
    → t.state ≡ pending
    → is_blocked s namespace team_name t ≡ false
    → ready s namespace team_name t ≡ true
claimable-ready s namespace team_name t p q = ground arith

-- `GetUnblockedPending` lists a task that the store holds exactly when a `Claim` of it, by anyone
-- and with no expected version, succeeds.
pub get_unblocked_pending-claim :
    (s : TaskStore) (namespace team_name id claimed_by : String) (t : TeamTask)
    → find s (ns_team_key namespace team_name) id ≡ some t
    → Memᴰ t (get_unblocked_pending s namespace team_name)
      ↔ ((t' : TeamTask) × ((claim s namespace team_name id claimed_by 0).1 ≡ done t'))
unfolding get_unblocked_pending list
get_unblocked_pending-claim s namespace team_name id claimed_by t h =
    let iff = claim_done_iff s namespace team_name id t claimed_by 0 h in
    (
      λ m.
          let r =
            ready-claimable s namespace team_name t
              (keep-Mem (ready s namespace team_name) t (list s namespace team_name) m) in
          iff.1 (r.0, r.1, inl refl),
      λ c.
          let r = iff.0 c in
          Mem-keep (ready s namespace team_name) t (list s namespace team_name)
            (lookup-Mem id t _ h) (claimable-ready s namespace team_name t r.0 r.1),
    )

abbrev count_of : (TaskState → Bool) → List TeamTask → ℕ
count_of p ts = length (keep (λ t. p t.state) ts)

counts : ℕ → ℕ → ℕ → ℕ → Summary
counts a p i c = record {
  total = int32 a;
  pending_count = int32 p;
  in_progress_count = int32 i;
  completed_count = int32 c;
}

counts_path :
    {a a' p p' i i' c c' : ℕ}
    → a ≡ a'
    → p ≡ p'
    → i ≡ i'
    → c ≡ c'
    → counts a p i c ≡ counts a' p' i' c'
counts_path ha hp hi hc = rw (ha, hp, hi, hc)

abbrev one_if : Bool → ℕ
one_if true = 1
one_if false = 0

count_of-cons :
    (q : TaskState → Bool) (t : TeamTask) (ts : List TeamTask)
    → count_of q (t ∷ ts) ≡ one_if (q t.state) + count_of q ts
count_of-cons q t ts = ground arith

count_task-counts :
    (st : TaskState) (a p i c : ℕ)
    → count_task st (record (counts a p i c) { total = int32 ((counts a p i c).total + 1) })
      ≡ counts
          (a + 1)
          (p + one_if (is_pending st))
          (i + one_if (is_in_progress st))
          (c + one_if (is_completed st))
unfolding count_task counts
count_task-counts pending a p i c = ground arith
count_task-counts in_progress a p i c = ground arith
count_task-counts completed a p i c = ground arith
count_task-counts _ a p i c = ground arith

summarize_lem :
    (a p i c : ℕ) (ts : List TeamTask)
    → summarize (counts a p i c) ts
      ≡ counts
          (a + length ts)
          (p + count_of is_pending ts)
          (i + count_of is_in_progress ts)
          (c + count_of is_completed ts)
unfolding summarize
summarize_lem a p i c [] = counts_path (omega arith) (omega arith) (omega arith) (omega arith)
summarize_lem a p i c (t ∷ ts) =
    ap (λ x. summarize x ts) (count_task-counts t.state a p i c)
    ∙ summarize_lem (a + 1) (p + one_if (is_pending t.state)) (i + one_if (is_in_progress t.state))
        (c + one_if (is_completed t.state)) ts
    ∙ counts_path (omega arith) (omega (arith, count_of-cons is_pending t ts))
        (omega (arith, count_of-cons is_in_progress t ts))
        (omega (arith, count_of-cons is_completed t ts))

-- `GetSummary` counts the listed tasks, and those in each of the three states, modulo 2 ^ 32.
pub get_summary_lem :
    (s : TaskStore) (namespace team_name : String)
    → let ts = list s namespace team_name in
      get_summary s namespace team_name ≡ record {
        total = int32 (length ts);
        pending_count = int32 (count_of is_pending ts);
        in_progress_count = int32 (count_of is_in_progress ts);
        completed_count = int32 (count_of is_completed ts);
      }
unfolding get_summary counts
get_summary_lem s namespace team_name =
    summarize_lem 0 0 0 0 (list s namespace team_name)
    ∙ counts_path (omega arith) (omega arith) (omega arith) (omega arith)
