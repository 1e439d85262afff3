-- ===== src/Controller/Teams/Finalizer.antt =====
-- The finalizer stands before the first member and goes after the last.
use aistio.Prelude.{
  subst, ℕ, String, ◌≡◌, refl, sym, ap, ◌∙◌, ◌⊎◌, inl, inr, Bool, true, false, Option, none, arith,
  ==_iff, comparable_text, if◌then◌else◌, Bool-cases,
}
use aistio.Prelude.Dict.{lookup, lookup-delete}
use aistio.Api.Message
use aistio.Api.Task
use aistio.Api.Session.{AgentSession}
use aistio.Api.Team.{AgentTeam}
use aistio.Kube.{Client, Got, found, not_found, get_failed}
use aistio.Kube.Retry.{Outcome}
use aistio.Team.Router
use aistio.Team.Router.{get_member_location}
use aistio.Team.Stores.{TaskStoreInterface}
use aistio.Team.Spawner.{Spawning, TeamContext}
use aistio.Team.Lifecycle.{Duration}
use aistio.Team.Lifecycle.Ends.{complete_team, cleanup_team_state}
use aistio.Controller.Teams.{Reconciled, team_finalizer, contains}
use aistio.Controller.Teams.Phases.{reconcile, reconcile_got, handle_deletion, cleanup_team_tasks}

-- The replica has no location for any member of the team.
abbrev pub IsUnrouted : Router.MessageRouter → String → Type 0
IsUnrouted r team_name = lookup team_name r.locations ≡ none

delete_team-IsUnrouted :
    (r : Router.MessageRouter) (team_name other : String)
    → IsUnrouted r team_name
    → IsUnrouted (Router.delete_team r other) team_name
unfolding Router.delete_team
delete_team-IsUnrouted r team_name other h =
    ground (arith, h, lookup-delete other team_name r.locations)

pub delete_own-IsUnrouted :
    (r : Router.MessageRouter) (team_name : String)
    → IsUnrouted (Router.delete_team r team_name) team_name
unfolding Router.delete_team
delete_own-IsUnrouted r team_name =
    ground (arith, lookup-delete team_name team_name r.locations, ==_iff team_name team_name)

pub unrouted-location :
    (r : Router.MessageRouter) (team_name member : String)
    → IsUnrouted r team_name
    → get_member_location r team_name member ≡ none
unfolding get_member_location
unrouted-location r team_name member h = ground (arith, h)

module _ {S : Type 0} (sessions : Client S AgentSession) (teams : Client S AgentTeam)
    (messages : Client S Message.TeamMessage) (task_objects : Client S Task.TeamTask)
    (tasks : TaskStoreInterface S)
    (retry_on_conflict : (X : Type 0) → (X → X × Outcome) → X → X × Outcome)
    (to_json : TeamContext → Option String) (rfc3339 : ℕ → String) (quote : String → String)
    (parse_duration : String → Option Duration) (parse_time : String → Option ℕ) where
  got_finalizer :
      (lifecycle : Bool) (w : Spawning S) (now : ℕ) (g : Got AgentTeam)
      → ((reconcile_got sessions teams messages task_objects tasks retry_on_conflict to_json rfc3339
            quote parse_duration parse_time lifecycle w now g).world.router
          ≡ w.router)
        ⊎ ((team : AgentTeam) × (g ≡ found team)
            × (contains team_finalizer team.metadata.finalizers ≡ true))
  unfolding handle_deletion
  got_finalizer lifecycle w now not_found = inl refl
  got_finalizer lifecycle w now get_failed = inl refl
  got_finalizer lifecycle w now (found team) =
      elim (Bool-cases (contains team_finalizer team.metadata.finalizers)) [
        | inl f ↦ inr (team, refl, f)
        | inr f ↦ inl (elim (Bool-cases team.metadata.deleting) [
          | inl d ↦ ground (arith, f, d)
          | inr d ↦ ground (arith, f, d)
        ])
      ]

  -- No reconciliation registers a member with the router, or removes one, unless the team that it
  -- read has the finalizer.
  pub finalizer_first :
      (lifecycle : Bool) (w : Spawning S) (namespace name : String) (now : ℕ)
      → ((reconcile sessions teams messages task_objects tasks retry_on_conflict to_json rfc3339
            quote parse_duration parse_time lifecycle w namespace name now).world.router
          ≡ w.router)
        ⊎ ((team : AgentTeam) × (teams.get w.api namespace name ≡ found team)
            × (contains team_finalizer team.metadata.finalizers ≡ true))
  unfolding reconcile
  finalizer_first lifecycle w namespace name now =
      got_finalizer lifecycle w now (teams.get w.api namespace name)

  if_true : {B : Type 0} (b : Bool) (x y : B) → b ≡ true → (if b then x else y) ≡ x
  if_true true x y h = refl
  if_true false x y h = cc

  deletion-IsUnrouted :
      (w : Spawning S) (team : AgentTeam)
      → contains team_finalizer team.metadata.finalizers ≡ true
      → IsUnrouted
          (handle_deletion sessions teams messages task_objects tasks retry_on_conflict to_json
            rfc3339 quote parse_duration parse_time true w team).world.router
          team.metadata.name
  unfolding handle_deletion cleanup_team_tasks cleanup_team_state complete_team
  deletion-IsUnrouted w team f =
      let m = complete_team sessions teams messages tasks w team in
      let gone : IsUnrouted (Router.delete_team m.world.router m.team.metadata.name)
          team.metadata.name =
        delete_team-IsUnrouted m.world.router team.metadata.name m.team.metadata.name
          (delete_own-IsUnrouted w.router team.metadata.name) in
      subst (λ (r : Reconciled S). IsUnrouted r.world.router team.metadata.name)
        (sym (if_true (contains team_finalizer team.metadata.finalizers) _ _ f)) gone

  -- After a reconciliation, by a reconciler with a lifecycle, of a team that is being deleted and has
  -- the finalizer, the replica's registry of locations, which only informs, holds none for any
  -- member of the team.
  pub deleted_team_unrouted :
      (w : Spawning S) (namespace name : String) (now : ℕ) (team : AgentTeam) (member : String)
      → teams.get w.api namespace name ≡ found team
      → team.metadata.deleting ≡ true
      → contains team_finalizer team.metadata.finalizers ≡ true
      → get_member_location
          (reconcile sessions teams messages task_objects tasks retry_on_conflict to_json rfc3339
            quote parse_duration parse_time true w namespace name now).world.router
          team.metadata.name
          member
        ≡ none
  unfolding reconcile
  deleted_team_unrouted w namespace name now team member g d f =
      let e : reconcile sessions teams messages task_objects tasks retry_on_conflict to_json rfc3339
            quote parse_duration parse_time true w namespace name now
          ≡ handle_deletion sessions teams messages task_objects tasks retry_on_conflict to_json
              rfc3339 quote parse_duration parse_time true w team =
        ap
          (reconcile_got sessions teams messages task_objects tasks retry_on_conflict to_json
            rfc3339 quote parse_duration parse_time true w now)
          g
        ∙ if_true team.metadata.deleting _ _ d in
      let gone : IsUnrouted
          (handle_deletion sessions teams messages task_objects tasks retry_on_conflict to_json
            rfc3339 quote parse_duration parse_time true w team).world.router
          team.metadata.name =
        deletion-IsUnrouted w team f in
      unrouted-location _ team.metadata.name member
        (subst (λ (r : Reconciled S). IsUnrouted r.world.router team.metadata.name) (sym e) gone)
