-- ===== src/Controller/Teams/Timeout.antt =====
-- A team that exceeds its duration.
use aistio.Prelude.{ℕ, String, ◌≡◌, refl, true, false, Option, some, arith, ==_iff, comparable_text}
use aistio.Api.Message
use aistio.Api.Task
use aistio.Api.Session.{AgentSession}
use aistio.Api.Team.{AgentTeam, AgentTeamStatus, TeamPhase, team_meta, team_status}
use aistio.Kube.{Client, Got, found, not_found, get_failed}
use aistio.Kube.Retry.{Outcome, succeeded, conflicted, errored, IsRetry}
use aistio.Kube.Stored.{IsStored}
use aistio.Team.Stores.{TaskStoreInterface}
use aistio.Team.Spawner.{Spawning, TeamContext}
use aistio.Team.Lifecycle.{Duration, check_timeout, condition_text}
use aistio.Team.Lifecycle.Conditions.{find_condition, set_team_condition_lookup}
use aistio.Controller.TeamSink.Laws.{HoldsTeam, write_team-HoldsTeam, retried-HoldsTeam}
use aistio.Controller.Teams.{timeout_condition, timed_out, outcome_result}
use aistio.Controller.Teams.Phases.{fail_got, fail_body, handle_running}

-- The team has failed, and its Ready condition says that it timed out.
abbrev pub HasTimedOut : ℕ → AgentTeamStatus → Type 0
HasTimedOut now st =
    (st.phase ≡ TeamPhase.failed)
    × (find_condition (timeout_condition now) st.conditions ≡ some (timeout_condition now))

timed_out-HasTimedOut : (t : AgentTeam) (now : ℕ) → HasTimedOut now (timed_out t now).status
unfolding timed_out
timed_out-HasTimedOut t now =
    let cond = timeout_condition now in
    (
      refl,
      ground (
        arith,
        set_team_condition_lookup cond cond t.status.conditions,
        ==_iff (condition_text cond.type) (condition_text cond.type),
      ),
    )

no_error : (o : Outcome) → (outcome_result o).error ≡ false → o ≡ succeeded
no_error succeeded h = refl
no_error conflicted h = cc
no_error errored h = cc

module _ {S : Type 0} (sessions : Client S AgentSession) (teams : Client S AgentTeam)
    (messages : Client S Message.TeamMessage) (task_objects : Client S Task.TeamTask)
    (tasks : TaskStoreInterface S)
    (retry_on_conflict : (X : Type 0) → (X → X × Outcome) → X → X × Outcome)
    (to_json : TeamContext → Option String) (rfc3339 : ℕ → String) (quote : String → String)
    (parse_duration : String → Option Duration) (parse_time : String → Option ℕ) where
  module _ (stored : IsStored team_meta team_status teams)
      (retried : (X : Type 0) → IsRetry (retry_on_conflict X)) where
    fail_got-timed_out :
        (s : S) (namespace name : String) (now : ℕ) (g : Got AgentTeam)
        → teams.get s namespace name ≡ g
        → (fail_got sessions teams messages task_objects tasks retry_on_conflict to_json rfc3339
            quote parse_duration parse_time s now g).1
          ≡ succeeded
        → HoldsTeam teams tasks retry_on_conflict
            (HasTimedOut now)
            (fail_got sessions teams messages task_objects tasks retry_on_conflict to_json rfc3339
              quote parse_duration parse_time s now g).0
            namespace
            name
    unfolding timed_out
    fail_got-timed_out s namespace name now not_found e h = cc
    fail_got-timed_out s namespace name now get_failed e h = cc
    fail_got-timed_out s namespace name now (found t) e h =
        write_team-HoldsTeam teams tasks retry_on_conflict stored retried (HasTimedOut now) s
          namespace name t (timed_out t now) e refl (timed_out-HasTimedOut t now) h

    -- A running team that exceeds its duration is failed: where the reconciliation ends without an
    -- error, the API server holds the team in that phase, with the Ready condition of the timeout.
    pub timeout_fails :
        (w : Spawning S) (team : AgentTeam) (now : ℕ)
        → check_timeout parse_duration parse_time team now ≡ true
        → (handle_running sessions teams messages task_objects tasks retry_on_conflict to_json
            rfc3339 quote parse_duration parse_time w team now).result.error
          ≡ false
        → HoldsTeam teams tasks retry_on_conflict
            (HasTimedOut now)
            (handle_running sessions teams messages task_objects tasks retry_on_conflict to_json
              rfc3339 quote parse_duration parse_time w team now).world.api
            team.metadata.namespace
            team.metadata.name
    unfolding handle_running fail_body
    timeout_fails w team now c h =
        let namespace = team.metadata.namespace in
        let name = team.metadata.name in
        let body : S → S × Outcome =
          fail_body sessions teams messages task_objects tasks retry_on_conflict to_json rfc3339
            quote parse_duration parse_time team now in
        let ok : (retry_on_conflict S body w.api).1 ≡ succeeded =
          no_error (retry_on_conflict S body w.api).1 (rw (handle_running, c) at h) in
        rw (handle_running, c)
          (retried-HoldsTeam teams tasks retry_on_conflict stored retried (HasTimedOut now)
            namespace name body w.api
            (λ u k. fail_got-timed_out u namespace name now (teams.get u namespace name) refl k) ok)
