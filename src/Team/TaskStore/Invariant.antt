-- ===== src/Team/TaskStore/Invariant.antt =====
-- What holds of the store after any calls.
pub mod Runs
use text.Mathlib.TextLemmas.{append_cancel_left}
use aistio.Prelude.{
  ℕ, ◌+◌, ◌^◌, ◌≤◌, ◌<◌, String, ◌≡◌, refl, sym, ◌∙◌, inl, inr, Bool, none, some, List, [], ◌∷◌,
  arith, ◌==◌, ==_iff, comparable_text, if◌then◌else◌, Bool-cases, Option-cases, length,
}
use aistio.Prelude.Decimal.{show_int64, show-injective, show_int64-show}
use aistio.Prelude.Dict.{lookup, lookup-insert, lookup-delete}
use aistio.Team.TaskStore.{
  TaskStore, TeamTask, pending, Reply, done, team_seq, int64, ns_team_key, task_id, new_task,
  new_task_store, commit, at_task, modify, claim_task, complete_task, unclaim_task, is_blocked,
  create, claim, complete, unclaim, delete_team, Call, creates, claims, completes, unclaims,
  deletes, step, run,
}
use aistio.Team.TaskStore.Frame.{
  find, modify_missing, find-modify, find-create, find-delete_team, written, Reply-cases,
}

-- An entry under `id`, in a team that has numbered `n` tasks.
pub record IsEntry (n : ℕ) (id : String) (t : TeamTask) : Type 0 where
  pub named : t.id ≡ id
  pub number : ℕ
  pub numbered : id ≡ task_id number
  pub below : number ≤ n
  pub idle : t.state ≡ pending → t.owner ≡ ""

-- Every task is stored under its own id, numbered by the team's counter; a pending task has no
-- owner; and no counter is above `b`.
pub record IsWellFormed (b : ℕ) (s : TaskStore) : Type 0 where
  pub entry :
      (key id : String) (t : TeamTask) → find s key id ≡ some t → IsEntry (team_seq s key) id t
  pub bounded : (key : String) → team_seq s key ≤ b

task_id-injective : (m n : ℕ) → m < 2 ^ 63 → n < 2 ^ 63 → task_id m ≡ task_id n → m ≡ n
unfolding task_id
task_id-injective m n hm hn e = show-injective m n (
    sym (show_int64-show m hm)
    ∙ append_cancel_left "task-" (show_int64 m) (show_int64 n) e
    ∙ show_int64-show n hn)

seq-modify :
    (s : TaskStore) (namespace team_name id : String) (body : TeamTask → Reply)
    → (modify s namespace team_name id body).0.seq ≡ s.seq
unfolding modify at_task commit
seq-modify s namespace team_name id body = ground arith

IsEntry-mono : {m n : ℕ} {id : String} {t : TeamTask} → m ≤ n → IsEntry m id t → IsEntry n id t
IsEntry-mono h e = record {
  named = e.named;
  number = e.number;
  numbered = e.numbered;
  below = omega arith;
  idle = e.idle;
}

-- What a method of one task keeps: the id, and that a pending task has no owner.
abbrev Keeps : (TeamTask → Reply) → Type 0
Keeps body =
    (t t' : TeamTask)
    → body t ≡ done t'
    → (t.state ≡ pending → t.owner ≡ "")
    → (t'.id ≡ t.id) × (t'.state ≡ pending → t'.owner ≡ "")

claim_task-Keeps :
    (blocked : TeamTask → Bool) (claimed_by : String) (expected : ℕ)
    → Keeps (λ t. claim_task (blocked t) t claimed_by expected)
unfolding claim_task
claim_task-Keeps blocked claimed_by expected t t' h i = ground arith

complete_task-Keeps : (result now : String) → Keeps (λ t. complete_task t result now)
unfolding complete_task
complete_task-Keeps result now t t' h i = ground arith

unclaim_task-Keeps : Keeps unclaim_task
unfolding unclaim_task
unclaim_task-Keeps t t' h i = ground arith

IsEntry-written :
    (body : TeamTask → Reply) {n : ℕ} {id : String} (t : TeamTask)
    → Keeps body
    → IsEntry n id t
    → IsEntry n id (written t (body t))
IsEntry-written body {n} {id} t k v = elim (Reply-cases (body t)) [
  | inl (t', e) ↦ rw e (record {
    named = (k t t' e v.idle).0 ∙ v.named;
    number = v.number;
    numbered = v.numbered;
    below = v.below;
    idle = (k t t' e v.idle).1;
  })
  | inr (inl (_, e)) ↦ rw e v
  | inr (inr (_, _, e)) ↦ rw e v
]

-- Entries after one entry was written.
IsEntry-of_update :
    (s : TaskStore) (n : String → ℕ) (k id : String) (new : TeamTask)
    → ((key j : String) (t : TeamTask) → find s key j ≡ some t → IsEntry (n key) j t)
    → IsEntry (n k) id new
    → (key j : String) (u : TeamTask)
    → (if k == key then (if id == j then some new else find s key j) else find s key j) ≡ some u
    → IsEntry (n key) j u
IsEntry-of_update s n k id new old v key j u h = elim (Bool-cases (k == key)) [
  | inl p ↦ elim (Bool-cases (id == j)) [
    | inl q ↦
        let hk : k ≡ key = (==_iff k key).0 p in
        let hj : id ≡ j = (==_iff id j).0 q in
        let hu : new ≡ u = ground (arith, p, q) in rw (← hk, ← hj, ← hu) v
    | inr q ↦ old key j u (ground (arith, p, q))
  ]
  | inr p ↦ old key j u (ground (arith, p))
]

modify-IsWellFormed :
    (b : ℕ) (s : TaskStore) (namespace team_name id : String) (body : TeamTask → Reply)
    → Keeps body
    → IsWellFormed b s
    → IsWellFormed b (modify s namespace team_name id body).0
modify-IsWellFormed b s namespace team_name id body k w =
    elim (Option-cases (find s (ns_team_key namespace team_name) id)) [
      | inl e ↦ rw (modify_missing s namespace team_name id body e).0 w
      | inr (t, e) ↦ record {
        entry = λ key j u h. rw (seq-modify s namespace team_name id body) (
            IsEntry-of_update s (team_seq s) (ns_team_key namespace team_name) id
              (written t (body t)) w.entry
              (IsEntry-written body t k (w.entry (ns_team_key namespace team_name) id t e)) key j u
              (sym (find-modify s namespace team_name id body t key j e) ∙ h));
        bounded = λ key. rw (seq-modify s namespace team_name id body) (w.bounded key);
      }
    ]

-- A well-formed store holds no task under the id that `Create` picks, as long as the counter
-- does not wrap: no task is overwritten.
pub create_fresh :
    (b : ℕ) (s : TaskStore) (namespace team_name subject description : String)
    (blocked_by : List String) (now : String)
    → IsWellFormed b s
    → b + 1 < 2 ^ 63
    → find s
        (ns_team_key namespace team_name)
        (create s namespace team_name subject description blocked_by now).1.id
      ≡ none
unfolding create new_task
create_fresh b s namespace team_name subject description blocked_by now w h =
    let key = ns_team_key namespace team_name in
    elim (Option-cases (find s key (task_id (int64 (team_seq s key + 1))))) [
      | inl e ↦ e
      | inr (t, e) ↦
          let v = w.entry key (task_id (int64 (team_seq s key + 1))) t e in
          absurd (
            omega (
              arith,
              v.below,
              w.bounded key,
              task_id-injective (int64 (team_seq s key + 1)) v.number (omega (arith, w.bounded key))
                  (omega (arith, v.below, w.bounded key)) v.numbered,
            ))
    ]

seq-create :
    (s : TaskStore) (namespace team_name subject description : String) (blocked_by : List String)
    (now key : String)
    → team_seq (create s namespace team_name subject description blocked_by now).0 key ≡ (
        if ns_team_key namespace team_name == key
        then int64 (team_seq s key + 1)
        else team_seq s key)
unfolding create
seq-create s namespace team_name subject description blocked_by now key =
    let k = ns_team_key namespace team_name in
    ground (arith, lookup-insert k key (int64 (team_seq s k + 1)) s.seq, ==_iff k key)

create-IsEntry :
    (s : TaskStore) (namespace team_name subject description : String) (blocked_by : List String)
    (now : String)
    → let made = create s namespace team_name subject description blocked_by now in
      IsEntry (team_seq made.0 (ns_team_key namespace team_name)) made.1.id made.1
unfolding create new_task
create-IsEntry s namespace team_name subject description blocked_by now =
    let k = ns_team_key namespace team_name in
    record {
      named = refl;
      number = int64 (team_seq s k + 1);
      numbered = refl;
      below = ground (
        arith,
        seq-create s namespace team_name subject description blocked_by now k,
        ==_iff k k,
      );
      idle = λ _. refl;
    }

create-IsWellFormed :
    (b : ℕ) (s : TaskStore) (namespace team_name subject description : String)
    (blocked_by : List String) (now : String)
    → IsWellFormed b s
    → b + 1 < 2 ^ 63
    → IsWellFormed (b + 1) (create s namespace team_name subject description blocked_by now).0
create-IsWellFormed b s namespace team_name subject description blocked_by now w h =
    let made = create s namespace team_name subject description blocked_by now in
    record {
      entry = λ key j u e.
          IsEntry-of_update s (team_seq made.0) (ns_team_key namespace team_name) made.1.id made.1
            (λ key j t f.
              IsEntry-mono
                (ground (
                  arith,
                  seq-create s namespace team_name subject description blocked_by now key,
                  w.bounded key,
                ))
                (w.entry key j t f))
            (create-IsEntry s namespace team_name subject description blocked_by now) key j u
            (sym (find-create s namespace team_name subject description blocked_by now key j) ∙ e);
      bounded = λ key. ground (
        arith,
        seq-create s namespace team_name subject description blocked_by now key,
        w.bounded key,
      );
    }

seq-delete_team :
    (s : TaskStore) (namespace team_name key : String)
    → team_seq (delete_team s namespace team_name) key
      ≡ (if ns_team_key namespace team_name == key then 0 else team_seq s key)
unfolding delete_team
seq-delete_team s namespace team_name key =
    ground (arith, lookup-delete (ns_team_key namespace team_name) key s.seq)

delete_team-IsWellFormed :
    (b : ℕ) (s : TaskStore) (namespace team_name : String)
    → IsWellFormed b s
    → IsWellFormed b (delete_team s namespace team_name)
delete_team-IsWellFormed b s namespace team_name w =
    let k = ns_team_key namespace team_name in
    record {
      entry = λ key j t e. elim (Bool-cases (k == key)) [
        | inl p ↦ absurd (ground (arith, find-delete_team s namespace team_name key j, p, e))
        | inr p ↦
            let same : team_seq (delete_team s namespace team_name) key ≡ team_seq s key =
              ground (arith, seq-delete_team s namespace team_name key, p) in
            rw same
              (w.entry key j t (ground (arith, find-delete_team s namespace team_name key j, p, e)))
      ];
      bounded = λ key. ground (arith, seq-delete_team s namespace team_name key, w.bounded key);
    }
