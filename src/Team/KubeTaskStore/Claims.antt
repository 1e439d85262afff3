-- ===== src/Team/KubeTaskStore/Claims.antt =====
-- The single calls: how a claim compares with that of the in-memory store, and what is listed.
use aistio.Prelude.{
  ◌⊎◌, comparable_number, ℕ, String, ◌≡◌, refl, ◌↔◌, Bool, true, false, not, ◌&&◌, inl, inr, List,
  [], ◌∷◌, Memᴰ, All, arith, ◌==◌, ==_iff, comparable_text, Bool-cases, keep-Mem, Mem-keep,
  Mem-of_keep,
}
use aistio.Api.Task
use aistio.Api.Task.{TeamTaskState}
use aistio.Api.Team.{AgentTeam}
use aistio.Kube.{Client, written}
use aistio.Team.TaskStore
use aistio.Team.TaskStore.{TeamTask, TaskState, is_pending, is_completed, is_positive}
use aistio.Team.KubeTaskStore.{
  to_state, to_team_task, is_completed_id, has_open, list, get_unblocked_pending,
}

-- The documented effect of an accepted status write: it stores the status that it was sent, and the
-- rest of the object is the one that was read.
abbrev pub IsFaithful : {S : Type 0} → Client S Task.TeamTask → Type 0
IsFaithful {S} tasks =
    (s : S) (t b : Task.TeamTask)
    → (tasks.update_status s t).1 ≡ written b
    → (b.status ≡ t.status)
      × (b.spec ≡ t.spec)
      × (b.metadata.name ≡ t.metadata.name)
      × (b.metadata.creation_timestamp ≡ t.metadata.creation_timestamp)

pending_state :
    (x : TeamTaskState) → is_pending (to_state x) ≡ true → to_state x ≡ TaskState.pending
unfolding to_state
pending_state TeamTaskState.unset h = cc
pending_state TeamTaskState.pending h = refl
pending_state TeamTaskState.in_progress h = cc
pending_state TeamTaskState.completed h = cc
pending_state (TeamTaskState.other s) h = cc

is_completed_id-Mem :
    (all : List TeamTask) (id : String)
    → is_completed_id all id ≡ true
    → (d : TeamTask) × Memᴰ d all × (is_completed d.state ≡ true) × (d.id ≡ id)
is_completed_id-Mem [] id h = cc
is_completed_id-Mem (t ∷ ts) id h = elim (Bool-cases (is_completed t.state && (t.id == id))) [
  | inl e ↦ (t, Memᴰ.head refl, ground (arith, e), (==_iff t.id id).0 (ground (arith, e)))
  | inr e ↦
      let (d, m, c, q) = is_completed_id-Mem ts id (ground (arith, h, e)) in (d, Memᴰ.tail m, c, q)
]

Mem-is_completed_id :
    (all : List TeamTask) (id : String) (d : TeamTask)
    → Memᴰ d all
    → is_completed d.state ≡ true
    → d.id ≡ id
    → is_completed_id all id ≡ true
Mem-is_completed_id [] id d m c q = elim m [ ]
Mem-is_completed_id (t ∷ ts) id d (Memᴰ.head e) c q =
    let c' : is_completed t.state ≡ true = cc (e, c) in
    let q' : t.id ≡ id = cc (e, q) in ground (arith, c', q', ==_iff t.id id)
Mem-is_completed_id (t ∷ ts) id d (Memᴰ.tail m) c q =
    ground (arith, Mem-is_completed_id ts id d m c q)

-- Each dependency is the id of a listed task that is completed.
abbrev pub AllDone : List TeamTask → List String → Type 0
AllDone all deps =
    All (λ dep. (d : TeamTask) × Memᴰ d all × (is_completed d.state ≡ true) × (d.id ≡ dep)) deps

has_open-AllDone :
    (all : List TeamTask) (deps : List String) → has_open all deps ≡ false → AllDone all deps
has_open-AllDone all [] h = tt
has_open-AllDone all (dep ∷ deps) h = elim (Bool-cases (is_completed_id all dep)) [
  | inl e ↦ (is_completed_id-Mem all dep e, has_open-AllDone all deps (ground (arith, h, e)))
  | inr e ↦ absurd (ground (arith, h, e))
]

AllDone-has_open :
    (all : List TeamTask) (deps : List String) → AllDone all deps → has_open all deps ≡ false
AllDone-has_open all [] h = refl
AllDone-has_open all (dep ∷ deps) ((d, m, c, q), rest) =
    ground (arith, Mem-is_completed_id all dep d m c q, AllDone-has_open all deps rest)

module _ {S : Type 0} (tasks : Client S Task.TeamTask) (teams : Client S AgentTeam)
    (rfc3339 : ℕ → String) where
  abbrev view : Task.TeamTask → TeamTask
  view = to_team_task tasks teams rfc3339

  -- What the in-memory store tests of a pending task and the API server does not: that it has no
  -- open dependency, and that its version is the one expected, if that is positive.
  abbrev pub IsClaimable : Bool → ℕ → ℕ → Type 0
  IsClaimable blocked expected n =
      (blocked ≡ false) × ((is_positive expected ≡ false) ⊎ (expected ≡ n))

  -- `GetUnblockedPending` lists a task exactly when it is listed, pending, and each of its
  -- dependencies is the id of a listed task that is completed.
  pub get_unblocked_pending_iff :
      (s : S) (namespace team_name : String) (t : TeamTask)
      → let all = list tasks teams rfc3339 s namespace team_name in
        Memᴰ t (get_unblocked_pending tasks teams rfc3339 s namespace team_name)
        ↔ (Memᴰ t all × (is_pending t.state ≡ true) × AllDone all t.blocked_by)
  unfolding get_unblocked_pending
  get_unblocked_pending_iff s namespace team_name t =
      let all = list tasks teams rfc3339 s namespace team_name in
      let ready : TeamTask → Bool = λ u. is_pending u.state && not (has_open all u.blocked_by) in
      (
        λ m.
            let r = keep-Mem ready t all m in
            (
              Mem-of_keep ready t all m,
              ground (arith, r),
              has_open-AllDone all t.blocked_by (ground (arith, r)),
            ),
        λ (m, p, d).
            Mem-keep ready t all m (ground (arith, p, AllDone-has_open all t.blocked_by d)),
      )
