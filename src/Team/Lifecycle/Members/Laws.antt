-- ===== src/Team/Lifecycle/Members/Laws.antt =====
-- The members that a started team has, and what a replaced member is told.
use aistio.Prelude.{
  subst, ℕ, String, ◌≡◌, refl, sym, ap, ◌∙◌, inl, inr, Bool, true, ◌&&◌, Option, none, some, List,
  [], ◌∷◌, ◌++◌, arith, ◌==◌, comparable_text, keep, map, Bool-cases, Option-cases,
}
use mathlib.Core.List.{append-nil, append_assoc}
use aistio.Api.Message
use aistio.Api.Session.{AgentSession}
use aistio.Kube.Stored.{IsStored}
use aistio.Api.Team.{
  team_meta, team_status, AgentTeam, AgentTeamStatus, TeamPhase, TeamMemberSpec, TeamMemberStatus,
  MemberPhase, MemberOrigin,
}
use aistio.Kube.{Client, Wrote, written, conflict, write_failed}
use aistio.Team.Stores.{TaskStoreInterface}
use aistio.Team.TaskStore.{TeamTask, is_completed, is_in_progress}
use aistio.Team.Spawner.{
  Spawning, TeamContext, InterruptedTask, spawn_lead_session, spawn_member_session, written_or,
}
use aistio.Team.Lifecycle.{
  Managed, Gathered, static_status, completed_entry, interrupted_entry, lead_status,
}
use aistio.Team.Lifecycle.Ends.{is_written}
use aistio.Team.Lifecycle.Members.{
  write_status, started, with_no_tasks, with_members, spawn_members, start_team, gather_tasks,
  gather,
}

-- A member works in the session that was made for it, or none was and it has failed.
abbrev pub IsSpawned : Option AgentSession → TeamMemberStatus → Type 0
IsSpawned none x = (x.phase ≡ MemberPhase.failed) × (x.session_id ≡ "")
IsSpawned (some sess) x = (x.phase ≡ MemberPhase.working) × (x.session_id ≡ sess.metadata.name)

abbrev pub done_by : String → TeamTask → Bool
done_by name t = (t.owner == name) && is_completed t.state

abbrev pub broken_by : String → TeamTask → Bool
broken_by name t = (t.owner == name) && is_in_progress t.state

-- The last of the tasks, or the one given.
abbrev pub last_of : Option InterruptedTask → List TeamTask → Option InterruptedTask
last_of o [] = o
last_of o (t ∷ ts) = last_of (some (interrupted_entry t)) ts

module _ {S : Type 0} (tasks : TaskStoreInterface S) where
  abbrev pub unclaim_each : String → String → S → List TeamTask → S
  unclaim_each namespace team_name s [] = s
  unclaim_each namespace team_name s (t ∷ ts) =
      unclaim_each namespace team_name (tasks.unclaim s namespace team_name t.id).0 ts

module _ {S : Type 0} (sessions : Client S AgentSession) (teams : Client S AgentTeam)
    (messages : Client S Message.TeamMessage) (tasks : TaskStoreInterface S)
    (to_json : TeamContext → Option String) (rfc3339 : ℕ → String) (quote : String → String) where
  -- Each member of the specification, in order, has a status of its name and agent, that of what came
  -- of the attempt to make a session for it in the state that the ones before it left.
  abbrev pub AreStarted :
      Spawning S → AgentTeam → ℕ → List TeamMemberSpec → List TeamMemberStatus → Type 0
  AreStarted w team now [] [] = Unit
  AreStarted w team now [] (x ∷ xs) = ⊥
  AreStarted w team now (m ∷ ms) [] = ⊥
  AreStarted w team now (m ∷ ms) (x ∷ xs) =
      let r = spawn_member_session sessions to_json rfc3339 w team m now in
      (x.name ≡ m.name)
      × (x.agent_ref ≡ m.agent_ref.name)
      × (x.origin ≡ MemberOrigin.static)
      × IsSpawned r.1 x
      × AreStarted r.0 (with_members team (team.status.members ++ (x ∷ []))) now ms xs

  gather_tasks-exact :
      (namespace team_name name : String) (ts : List TeamTask) (g : Gathered S)
      → let r =
          gather_tasks sessions teams messages tasks to_json rfc3339 quote namespace team_name name
            ts g in
        (r.completed ≡ g.completed ++ map completed_entry (keep (done_by name) ts))
        × (r.interrupted ≡ last_of g.interrupted (keep (broken_by name) ts))
        × (r.api ≡ unclaim_each tasks namespace team_name g.api (keep (broken_by name) ts))
  unfolding gather_tasks
  gather_tasks-exact namespace team_name name [] g = (sym (append-nil g.completed), refl, refl)
  gather_tasks-exact namespace team_name name (t ∷ ts) g =
      let ih = gather_tasks-exact namespace team_name name ts in
      let entries = g.completed ++ (completed_entry t ∷ []) in
      let told = some (interrupted_entry t) in
      let s' = (tasks.unclaim g.api namespace team_name t.id).0 in
      elim (Bool-cases (done_by name t)) [
        | inl d ↦ elim (Bool-cases (broken_by name t)) [
          | inl b ↦
              let r = ih (record { api = s'; completed = entries; interrupted = told }) in
              rw (gather_tasks, d, b) (r.0 ∙ append_assoc g.completed _ _, r.1, r.2)
          | inr b ↦
              let r = ih (record g { completed = entries }) in
              rw (gather_tasks, d, b) (r.0 ∙ append_assoc g.completed _ _, r.1, r.2)
        ]
        | inr d ↦ elim (Bool-cases (broken_by name t)) [
          | inl b ↦ rw (gather_tasks, d, b) (ih (record g { api = s'; interrupted = told }))
          | inr b ↦ rw (gather_tasks, d, b) (ih g)
        ]
      ]

  -- The context of a recovery session lists exactly the tasks that the member completed, in the
  -- order of the store; exactly its tasks in progress are unclaimed, each once and in that order,
  -- and the last of them is the interrupted task.
  pub gather_exact :
      (s : S) (team : AgentTeam) (m : TeamMemberStatus) (name : String)
      → let r = gather sessions teams messages tasks to_json rfc3339 quote s team m name in
        let namespace = team.metadata.namespace in
        let all = tasks.list s namespace team.metadata.name in
        let broken = keep (broken_by name) all in
        (r.1.completed_tasks ≡ map completed_entry (keep (done_by name) all))
        × (r.1.interrupted_task ≡ last_of none broken)
        × (r.0 ≡ unclaim_each tasks namespace team.metadata.name s broken)
  unfolding gather
  gather_exact s team m name =
      let namespace = team.metadata.namespace in
      gather_tasks-exact namespace team.metadata.name name
        (tasks.list s namespace team.metadata.name)
        (record { api = s; completed = []; interrupted = none })

  static_status-IsSpawned :
      (m : TeamMemberSpec) (o : Option AgentSession) → IsSpawned o (static_status m o)
  unfolding static_status
  static_status-IsSpawned m none = (refl, refl)
  static_status-IsSpawned m (some sess) = (refl, refl)

  -- The loop over the members adds their statuses and changes nothing else.
  spawn_members-started :
      (w : Spawning S) (team : AgentTeam) (ms : List TeamMemberSpec) (now : ℕ)
      → (xs : List TeamMemberStatus) × ((spawn_members sessions teams messages tasks to_json rfc3339
            quote w team ms now).1
          ≡ with_members team (team.status.members ++ xs))
        × AreStarted w team now ms xs
  unfolding spawn_members static_status
  spawn_members-started w team [] now =
      ([], ap (with_members team) (sym (append-nil team.status.members)), tt)
  spawn_members-started w team (m ∷ ms) now =
      let r = spawn_member_session sessions to_json rfc3339 w team m now in
      let x = static_status m r.1 in
      let before = team.status.members in
      let (xs, e, started) =
        spawn_members-started r.0 (with_members team (before ++ (x ∷ []))) ms now in
      (
        x ∷ xs,
        e ∙ ap (with_members team) (append_assoc before (x ∷ []) xs),
        (refl, refl, refl, static_status-IsSpawned m r.1, started),
      )

  -- The team runs, its lead has the session that was made for it, and the members of the
  -- specification were started after it.
  abbrev pub HasStarted : Spawning S → AgentTeam → ℕ → AgentTeamStatus → Type 0
  HasStarted w team now st =
      let lead = spawn_lead_session sessions to_json rfc3339 w team now in
      (session : AgentSession) × (lead.1 ≡ some session)
      × (st.phase ≡ TeamPhase.running)
      × (st.lead ≡ some (lead_status team session.metadata.name))
      × AreStarted lead.0
          (started sessions teams messages tasks to_json rfc3339 quote team session.metadata.name
            (rfc3339 now))
          now team.spec.members st.members

  written_status :
      (P : AgentTeamStatus → Type 0) (s : S) (t : AgentTeam)
      → IsStored team_meta team_status teams
      → is_written (teams.update_status s t).1 ≡ true
      → P t.status
      → P (written_or t (teams.update_status s t).1).status
  written_status P s t stored h p = go (teams.update_status s t).1 refl h
    where
      go :
          (r : Wrote AgentTeam)
          → (teams.update_status s t).1 ≡ r
          → is_written r ≡ true
          → P (written_or t r).status
      go (written b) e h = subst P (sym (stored.read_back s t b e).1) p
      go conflict e h = cc
      go write_failed e h = cc

  -- A team that starts without an error runs, has a lead with the session made for it, and has one
  -- member for each that its specification names, in that order: of the name and the agent named,
  -- static, and working in the session that was made for it or, where none was, failed.
  pub start_team_members :
      (w : Spawning S) (team : AgentTeam) (now : ℕ)
      → IsStored team_meta team_status teams
      → (start_team sessions teams messages tasks to_json rfc3339 quote w team now).ok ≡ true
      → HasStarted w team now
          (start_team sessions teams messages tasks to_json rfc3339 quote w team now).team.status
  unfolding start_team
  start_team_members w team now stored h =
      let lead = spawn_lead_session sessions to_json rfc3339 w team now in
      elim (Option-cases lead.1) [
        | inl n ↦ absurd (ground (arith, h, n))
        | inr (session, n) ↦
            let before : AgentTeam =
              started sessions teams messages tasks to_json rfc3339 quote team session.metadata.name
                (rfc3339 now) in
            let r =
              spawn_members sessions teams messages tasks to_json rfc3339 quote lead.0 before
                team.spec.members now in
            let (xs, e, all) = spawn_members-started lead.0 before team.spec.members now in
            let has : HasStarted w team now r.1.status =
              subst (λ (x : AgentTeam). HasStarted w team now x.status) (sym e)
                (session, n, refl, refl, all) in
            let ready : AgentTeam =
              with_no_tasks sessions teams messages tasks to_json rfc3339 quote r.1 in
            let q : start_team sessions teams messages tasks to_json rfc3339 quote w team now
                ≡ write_status sessions teams messages tasks to_json rfc3339 quote r.0 ready =
              rw (start_team, n) refl in
            subst (λ (x : Managed S). HasStarted w team now x.team.status) (sym q)
              (written_status (HasStarted w team now) r.0.api ready stored (rw (start_team, n) at h)
                has)
      ]
