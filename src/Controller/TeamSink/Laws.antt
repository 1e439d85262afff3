-- ===== src/Controller/TeamSink/Laws.antt =====
-- What the API server holds after an event of a team.
use aistio.Prelude.{
  subst, String, ◌≡◌, refl, sym, ap, ◌∙◌, ◌⊎◌, inl, inr, Bool, true, false, Option, none, some,
  List, [], ◌∷◌, arith, ◌==◌, ==_iff, comparable_text, if◌then◌else◌, Bool-cases,
}
use aistio.Prelude.Dict.{lookup}
use aistio.Api.Team.{
  team_meta, team_status, AgentTeam, AgentTeamStatus, TeamPhase, MemberPhase, TeamMemberStatus,
}
use aistio.Kube.{Client, Got, found, not_found, get_failed, Wrote, written, conflict, write_failed}
use aistio.Kube.Retry.{Outcome, succeeded, conflicted, errored, IsRetry, Runs-last}
use aistio.Kube.Stored.{IsStored}
use aistio.Kube.Updates.{Holds, written-Holds, retried-Holds}
use aistio.Team.Stores.{TaskStoreInterface}
use aistio.Controller.TeamSink.{
  TeamEventReport, set_member_phase, lead_decides, completed_team, write_team, with_team,
  write_phase, phase_body, phase_map, update_member_phase, summary_body, update_task_summary,
  flagged, complete_got, complete_body, announce, recorded, handle_complete_team,
}

-- The first member of the name, if there is one, is in the phase.
abbrev pub IsInPhase : String → MemberPhase → List TeamMemberStatus → Type 0
IsInPhase name phase [] = Unit
IsInPhase name phase (m ∷ ms) =
    ((m.name ≡ name) × (m.phase ≡ phase)) ⊎ (((m.name == name) ≡ false) × IsInPhase name phase ms)

abbrev MemberCase :
    String → MemberPhase → List TeamMemberStatus → Option (List TeamMemberStatus) → Type 0
MemberCase name phase ms none = IsInPhase name phase ms
MemberCase name phase ms (some ms') = IsInPhase name phase ms'

set_member_phase-IsInPhase :
    (name : String) (phase : MemberPhase) (ms : List TeamMemberStatus)
    → MemberCase name phase ms (set_member_phase name phase ms)
unfolding set_member_phase
set_member_phase-IsInPhase name phase [] = tt
set_member_phase-IsInPhase name phase (m ∷ ms) =
    after m ms (m.name == name) (set_member_phase name phase ms) refl
      (set_member_phase-IsInPhase name phase ms)
  where
    after :
        (m : TeamMemberStatus) (ms : List TeamMemberStatus) (b : Bool)
        (rest : Option (List TeamMemberStatus))
        → (m.name == name) ≡ b
        → MemberCase name phase ms rest
        → MemberCase name phase (m ∷ ms) (
            if b
            then some (record m { phase = phase } ∷ ms)
            else elim rest [ none ↦ none | some ms' ↦ some (m ∷ ms') ])
    after m ms true rest e h = inl ((==_iff m.name name).0 e, refl)
    after m ms false none e h = inr (e, h)
    after m ms false (some ms') e h = inr (e, h)

module _ {S : Type 0} (teams : Client S AgentTeam) (tasks : TaskStoreInterface S)
    (retry_on_conflict : (X : Type 0) → (X → X × Outcome) → X → X × Outcome) where
  -- The API server holds the team, with a status of which `P` holds.
  abbrev pub HoldsTeam : (AgentTeamStatus → Type 0) → S → String → String → Type 0
  HoldsTeam = Holds team_meta team_status teams

  module _ (stored : IsStored team_meta team_status teams)
      (retried : (X : Type 0) → IsRetry (retry_on_conflict X)) where
    -- An accepted write of a status is found under the name that the team was read by.
    pub write_team-HoldsTeam :
        (P : AgentTeamStatus → Type 0) (s : S) (namespace name : String) (t new : AgentTeam)
        → teams.get s namespace name ≡ found t
        → new.metadata ≡ t.metadata
        → P new.status
        → (write_team teams tasks retry_on_conflict s new).1 ≡ succeeded
        → HoldsTeam P (write_team teams tasks retry_on_conflict s new).0 namespace name
    write_team-HoldsTeam P s namespace name t new g m p w =
        written-Holds team_meta team_status teams stored P s namespace name t new g m p w

    with_team-found :
        (P : AgentTeamStatus → Type 0) (s : S) (namespace name : String)
        (f : S → AgentTeam → S × Outcome)
        → ((t : AgentTeam)
            → teams.get s namespace name ≡ found t
            → (f s t).1 ≡ succeeded
            → HoldsTeam P (f s t).0 namespace name)
        → (with_team teams tasks retry_on_conflict f s (teams.get s namespace name)).1 ≡ succeeded
        → HoldsTeam P
            (with_team teams tasks retry_on_conflict f s (teams.get s namespace name)).0
            namespace
            name
    with_team-found P s namespace name f step h = go (teams.get s namespace name) refl h
      where
        go :
            (g : Got AgentTeam)
            → teams.get s namespace name ≡ g
            → (with_team teams tasks retry_on_conflict f s g).1 ≡ succeeded
            → HoldsTeam P (with_team teams tasks retry_on_conflict f s g).0 namespace name
        go not_found e h = cc
        go get_failed e h = cc
        go (found t) e h = step t e h

    -- What holds after each run without an error holds at the end of the retries.
    pub retried-HoldsTeam :
        (P : AgentTeamStatus → Type 0) (namespace name : String) (body : S → S × Outcome) (s : S)
        → ((u : S) → (body u).1 ≡ succeeded → HoldsTeam P (body u).0 namespace name)
        → (retry_on_conflict S body s).1 ≡ succeeded
        → HoldsTeam P (retry_on_conflict S body s).0 namespace name
    retried-HoldsTeam P namespace name body s each h =
        retried-Holds team_meta team_status teams stored P namespace name body s
          (retry_on_conflict S) (retried S) each h

    write_phase-HoldsTeam :
        (s : S) (namespace : String) (evt : TeamEventReport) (phase : MemberPhase) (t : AgentTeam)
        → teams.get s namespace evt.team_id ≡ found t
        → (write_phase teams tasks retry_on_conflict evt.member_name phase s t).1 ≡ succeeded
        → HoldsTeam
            (λ st. IsInPhase evt.member_name phase st.members)
            (write_phase teams tasks retry_on_conflict evt.member_name phase s t).0
            namespace
            evt.team_id
    write_phase-HoldsTeam s namespace evt phase t g h =
        phased (set_member_phase evt.member_name phase t.status.members)
          (set_member_phase-IsInPhase evt.member_name phase t.status.members) h
      where
        phased :
            (o : Option (List TeamMemberStatus))
            → MemberCase evt.member_name phase t.status.members o
            → (elim o as (λ x. S × Outcome) [
              | none ↦ (s, succeeded)
              | some ms ↦
                  write_team teams tasks retry_on_conflict s
                    (record t { status = record t.status { members = ms } })
            ]).1
              ≡ succeeded
            → HoldsTeam
                (λ st. IsInPhase evt.member_name phase st.members)
                (elim o as (λ x. S × Outcome) [
                  | none ↦ (s, succeeded)
                  | some ms ↦
                      write_team teams tasks retry_on_conflict s
                        (record t { status = record t.status { members = ms } })
                ]).0
                namespace
                evt.team_id
        phased none c h = (t, g, c)
        phased (some ms) c h =
            write_team-HoldsTeam (λ st. IsInPhase evt.member_name phase st.members) s namespace
              evt.team_id t (record t { status = record t.status { members = ms } }) g refl c h

    -- After an event of a member whose retries end without an error, the API server holds the team,
    -- and the first member of that name, if the team has one, is in the phase of the event.
    pub member_phase_written :
        (s : S) (namespace : String) (evt : TeamEventReport) (phase : MemberPhase)
        → lookup evt.event_type phase_map ≡ some phase
        → (retry_on_conflict S (phase_body teams tasks retry_on_conflict namespace evt phase) s).1
          ≡ succeeded
        → HoldsTeam
            (λ st. IsInPhase evt.member_name phase st.members)
            (update_member_phase teams tasks retry_on_conflict s namespace evt)
            namespace
            evt.team_id
    unfolding update_member_phase phase_body
    member_phase_written s namespace evt phase e h =
        rw (update_member_phase, e)
          (retried-HoldsTeam (λ st. IsInPhase evt.member_name phase st.members) namespace
            evt.team_id (phase_body teams tasks retry_on_conflict namespace evt phase) s
            (λ u k.
              with_team-found (λ st. IsInPhase evt.member_name phase st.members) u namespace
                evt.team_id (write_phase teams tasks retry_on_conflict evt.member_name phase)
                (write_phase-HoldsTeam u namespace evt phase) k)
            h)

    -- After the summary of the tasks is written, its retries ending without an error, the API server
    -- holds the team with the summary that the task store gave before them.
    pub task_summary_written :
        (s : S) (namespace team_name : String)
        → (retry_on_conflict S
            (summary_body teams tasks retry_on_conflict namespace team_name
              (tasks.get_summary s namespace team_name))
            s).1
          ≡ succeeded
        → HoldsTeam
            (λ st. st.tasks ≡ some (tasks.get_summary s namespace team_name))
            (update_task_summary teams tasks retry_on_conflict s namespace team_name)
            namespace
            team_name
    unfolding update_task_summary summary_body
    task_summary_written s namespace team_name h =
        let summary = tasks.get_summary s namespace team_name in
        let P : AgentTeamStatus → Type 0 = λ st. st.tasks ≡ some summary in
        let write : S → AgentTeam → S × Outcome = λ u t.
          write_team teams tasks retry_on_conflict u
            (record t { status = record t.status { tasks = some summary } }) in
        retried-HoldsTeam P namespace team_name
          (summary_body teams tasks retry_on_conflict namespace team_name summary) s
          (λ u k.
            with_team-found P u namespace team_name write
              (λ t g w.
                write_team-HoldsTeam P u namespace team_name t
                  (record t { status = record t.status { tasks = some summary } }) g refl refl w)
              k)
          h

    announced :
        (namespace name : String) (r : (S × Bool) × Outcome) (t : AgentTeam)
        → (announce teams tasks retry_on_conflict namespace name r).1 ≡ some t
        → (r.1 ≡ succeeded)
          × (r.0.1 ≡ true)
          × (teams.get r.0.0 namespace name ≡ found t)
          × ((announce teams tasks retry_on_conflict namespace name r).0 ≡ r.0.0)
    announced namespace name ((s, true), succeeded) t h =
        (refl, refl, read (teams.get s namespace name) h, refl)
      where
        read : (g : Got AgentTeam) → recorded teams tasks retry_on_conflict g ≡ some t → g ≡ found t
        read not_found h = cc
        read get_failed h = cc
        read (found u) h = cc
    announced namespace name ((s, false), succeeded) t h = cc
    announced namespace name ((s, c), conflicted) t h = cc
    announced namespace name ((s, c), errored) t h = cc

    flagged_lem :
        (r : S × Wrote AgentTeam) (c : Bool)
        → (flagged teams tasks retry_on_conflict r c).1 ≡ succeeded
        → (b : AgentTeam) × (r.1 ≡ written b)
          × ((flagged teams tasks retry_on_conflict r c).0.0 ≡ r.0)
    flagged_lem (s, written b) c h = (b, refl, refl)
    flagged_lem (s, conflict) c h = cc
    flagged_lem (s, write_failed) c h = cc

    -- What a run of the body did that ended without an error and set the variable.
    completed_by :
        (s : S) (c : Bool) (namespace name : String)
        → (complete_body teams tasks retry_on_conflict namespace name (s, c)).1 ≡ succeeded
        → (complete_body teams tasks retry_on_conflict namespace name (s, c)).0.1 ≡ true
        → (t b : AgentTeam) × (teams.get s namespace name ≡ found t)
          × (lead_decides t.spec.config ≡ true)
          × ((teams.update_status s (completed_team t)).1 ≡ written b)
          × ((complete_body teams tasks retry_on_conflict namespace name (s, c)).0.0
              ≡ (teams.update_status s (completed_team t)).0)
    unfolding complete_body
    completed_by s c namespace name h k = go (teams.get s namespace name) refl h k
      where
        go :
            (g : Got AgentTeam)
            → teams.get s namespace name ≡ g
            → (complete_got teams tasks retry_on_conflict s c g).1 ≡ succeeded
            → (complete_got teams tasks retry_on_conflict s c g).0.1 ≡ true
            → (t b : AgentTeam) × (teams.get s namespace name ≡ found t)
              × (lead_decides t.spec.config ≡ true)
              × ((teams.update_status s (completed_team t)).1 ≡ written b)
              × ((complete_got teams tasks retry_on_conflict s c g).0.0
                  ≡ (teams.update_status s (completed_team t)).0)
        go not_found e h k = cc
        go get_failed e h k = cc
        go (found t) e h k = elim (Bool-cases (lead_decides t.spec.config)) [
          | inr p ↦ absurd (ground (arith, k, p))
          | inl p ↦
              let (b, w, f) =
                flagged_lem (teams.update_status s (completed_team t)) c (rw p at h) in
              (t, b, e, p, w, rw p f)
        ]

    -- `TeamCompleted` is recorded only for a team that the API server holds as completed, after
    -- the sink read it with the policy that the lead decides and its status write was accepted.
    pub team_completed_only :
        (s : S) (namespace : String) (evt : TeamEventReport) (t : AgentTeam)
        → (handle_complete_team teams tasks retry_on_conflict s namespace evt).1 ≡ some t
        → (t.status.phase ≡ TeamPhase.completed)
          × (teams.get
                (handle_complete_team teams tasks retry_on_conflict s namespace evt).0
                namespace
                evt.team_id
              ≡ found t)
          × ((u : S) × (before : AgentTeam) × (teams.get u namespace evt.team_id ≡ found before)
              × (lead_decides before.spec.config ≡ true)
              × ((teams.update_status u (completed_team before)).1 ≡ written t))
    unfolding handle_complete_team
    team_completed_only s namespace evt t h =
        let name = evt.team_id in
        let body : S × Bool → (S × Bool) × Outcome =
          complete_body teams tasks retry_on_conflict namespace name in
        let r = retry_on_conflict (S × Bool) body (s, false) in
        let (ok, flag, now, end) = announced namespace name r t h in
        let (v, _, e) =
          Runs-last {0} (λ (x : S × Bool). Unit) body (s, false) r (λ x p. tt)
            (retried (S × Bool) body (s, false)) tt in
        let (before, b, g, lead, w, last) =
          completed_by v.0 v.1 namespace name (ap (λ x. x.1) (sym e) ∙ ok)
            (ap (λ x. x.0.1) (sym e) ∙ flag) in
        let (f, st) = stored.read_back v.0 (completed_team before) b w in
        let (kn, nn) = stored.found_key v.0 namespace name before g in
        let there : teams.get r.0.0 namespace name ≡ found b =
          subst (λ x. teams.get x namespace name ≡ found b) (sym (ap (λ x. x.0.0) e ∙ last))
            (subst
              (λ x. teams.get (teams.update_status v.0 (completed_team before)).0 x name ≡ found b)
              kn
              (subst
                (λ x.
                  teams.get (teams.update_status v.0 (completed_team before)).0
                    before.metadata.namespace x
                  ≡ found b)
                nn f)) in
        let q : b ≡ t = same (sym there ∙ now) in
        (
          ap (λ x. x.status.phase) (sym q) ∙ ap (λ x. x.phase) st,
          subst (λ x. teams.get x namespace name ≡ found t) (sym end) now,
          (
            v.0,
            before,
            g,
            lead,
            subst (λ x. (teams.update_status v.0 (completed_team before)).1 ≡ written x) q w,
          ),
        )
      where
        same : {b t : AgentTeam} → found b ≡ found t → b ≡ t
        same h = cc
