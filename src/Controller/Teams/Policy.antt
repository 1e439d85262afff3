-- ===== src/Controller/Teams/Policy.antt =====
-- When a team whose tasks are all complete is shut down.
use aistio.Prelude.{
  ℕ, String, ◌≡◌, refl, sym, ap, ◌∙◌, subst, Bool, true, false, Option, none, [], ◌∷◌,
  comparable_text, if◌then◌else◌,
}
use aistio.Api.Message
use aistio.Api.Task
use aistio.Api.Session.{AgentSession}
use aistio.Api.Team.{AgentTeam, TeamPhase, team_meta, team_status}
use aistio.Kube.{Client, Wrote, written, conflict, write_failed}
use aistio.Kube.Stored.{IsStored}
use aistio.Kube.Updates.{Holds}
use aistio.Team.Router.{get_member_location}
use aistio.Team.Lifecycle.Ends.{is_written, terminate_all_sessions, complete_team}
use aistio.Controller.Teams.{Reconciled}
use aistio.Controller.Teams.Finalizer.{IsUnrouted, delete_own-IsUnrouted, unrouted-location}
use aistio.Kube.Retry.{Outcome}
use aistio.Team.Stores.{TaskStoreInterface}
use aistio.Team.Spawner.{Spawning, TeamContext}
use aistio.Team.Lifecycle.{Duration, check_timeout, check_all_complete}
use aistio.Controller.{settled, retry_after, failed_with}
use aistio.Controller.Teams.Phases.{handle_running, legacy_handle_running, policy_all_complete}

module _ {S : Type 0} (sessions : Client S AgentSession) (teams : Client S AgentTeam)
    (messages : Client S Message.TeamMessage) (task_objects : Client S Task.TeamTask)
    (tasks : TaskStoreInterface S)
    (retry_on_conflict : (X : Type 0) → (X → X × Outcome) → X → X × Outcome)
    (to_json : TeamContext → Option String) (rfc3339 : ℕ → String) (quote : String → String)
    (parse_duration : String → Option Duration) (parse_time : String → Option ℕ) where
  complete_team-Holds :
      (w : Spawning S) (team : AgentTeam)
      → IsStored team_meta team_status teams
      → (complete_team sessions teams messages tasks w team).ok ≡ true
      → Holds team_meta team_status teams
          (λ st. st.phase ≡ TeamPhase.completed)
          (complete_team sessions teams messages tasks w team).world.api
          team.metadata.namespace
          team.metadata.name
  unfolding complete_team
  complete_team-Holds w team stored h = go (teams.update_status s sent).1 refl h
    where
      sent : AgentTeam
      sent = record team { status = record team.status { phase = TeamPhase.completed } }

      s : S
      s = terminate_all_sessions sessions teams messages tasks w.api sent

      go :
          (r : Wrote AgentTeam)
          → (teams.update_status s sent).1 ≡ r
          → is_written r ≡ true
          → Holds team_meta team_status teams
              (λ st. st.phase ≡ TeamPhase.completed)
              (teams.update_status s sent).0
              team.metadata.namespace
              team.metadata.name
      go (written b) e h = let (f, q) = stored.read_back s sent b e in (b, f, ap (λ st. st.phase) q)
      go conflict e h = cc
      go write_failed e h = cc

  complete_team-IsUnrouted :
      (w : Spawning S) (team : AgentTeam)
      → IsUnrouted
          (complete_team sessions teams messages tasks w team).world.router
          team.metadata.name
  unfolding complete_team
  complete_team-IsUnrouted w team = delete_own-IsUnrouted w.router team.metadata.name

  no_error : (b : Bool) → (if b then settled else failed_with 0).error ≡ false → b ≡ true
  no_error true h = refl
  no_error false h = cc

  -- The team is stored as completed, and the replica holds no location of a member of it.
  abbrev pub IsShutDown : Spawning S → AgentTeam → Type 0
  IsShutDown w team =
      Holds team_meta team_status teams (λ st. st.phase ≡ TeamPhase.completed) w.api
        team.metadata.namespace team.metadata.name
      × ((member : String) → get_member_location w.router team.metadata.name member ≡ none)

  -- A running team that has not exceeded its duration, whose tasks are all complete and whose
  -- shutdown policy is not `all-complete`, is stored as completed and loses its locations where the
  -- reconciler has a lifecycle and ends without an error, and is left as it is where the reconciler
  -- has none.
  pub all_complete_diverges :
      (w : Spawning S) (team : AgentTeam) (now : ℕ)
      → IsStored team_meta team_status teams
      → check_timeout parse_duration parse_time team now ≡ false
      → check_all_complete team ≡ true
      → policy_all_complete sessions teams messages task_objects tasks retry_on_conflict to_json
          rfc3339 quote parse_duration parse_time team.spec.config
        ≡ false
      → (handle_running sessions teams messages task_objects tasks retry_on_conflict to_json rfc3339
          quote parse_duration parse_time w team now).result.error
        ≡ false
      → IsShutDown
          (handle_running sessions teams messages task_objects tasks retry_on_conflict to_json
            rfc3339 quote parse_duration parse_time w team now).world
          team
        × (legacy_handle_running sessions teams messages task_objects tasks retry_on_conflict
              to_json rfc3339 quote parse_duration parse_time w team now
            ≡ record { world = w; result = retry_after 30; events = [] })
  unfolding handle_running legacy_handle_running check_timeout
  all_complete_diverges w team now stored c a p h =
      let m = complete_team sessions teams messages tasks w team in
      let r : Reconciled S = record {
        world = m.world;
        result = if m.ok then settled else failed_with 0;
        events = "AllComplete" ∷ [];
      } in
      let q : handle_running sessions teams messages task_objects tasks retry_on_conflict to_json
            rfc3339 quote parse_duration parse_time w team now
          ≡ r =
        rw (handle_running, c, a) refl in
      let ok : m.ok ≡ true =
        no_error m.ok (ap (λ (x : Reconciled S). x.result.error) (sym q) ∙ h) in
      let gone = complete_team-IsUnrouted w team in
      (
        subst (λ (x : Reconciled S). IsShutDown x.world team) (sym q)
            (
              complete_team-Holds w team stored ok,
              λ member. unrouted-location m.world.router team.metadata.name member gone,
            ),
        rw (legacy_handle_running, c, p) refl,
      )
