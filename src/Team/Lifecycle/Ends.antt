-- ===== src/Team/Lifecycle/Ends.antt =====
-- internal/team/lifecycle.go: how a team ends, and what is removed with it.
use aistio.Prelude.{ℕ, String, Bool, true, false, none, some, List, [], ◌∷◌}
use aistio.Api.Meta.{false_status}
use aistio.Api.Common.{Condition, ready}
use aistio.Api.Message
use aistio.Api.Session.{AgentSession}
use aistio.Api.Team.{AgentTeam, TeamPhase}
use aistio.Kube.{Client, Wrote, written, conflict, write_failed}
use aistio.Team.KubeTaskStore.{labels_of}
use aistio.Team.Router
use aistio.Team.Stores.{TaskStoreInterface}
use aistio.Team.Spawner.{Spawning, written_or}
use aistio.Team.Lifecycle.{Managed, set_team_condition, with_terminate}

abbrev pub is_written : {A : Type 0} → Wrote A → Bool
is_written (written a) = true
is_written conflict = false
is_written write_failed = false

module _ {S : Type 0} (sessions : Client S AgentSession) (teams : Client S AgentTeam)
    (messages : Client S Message.TeamMessage) (tasks : TaskStoreInterface S) where
  -- The loop over the listed sessions; an error is only logged.
  unfoldable pub terminate_each : S → List AgentSession → S
  terminate_each s [] = s
  terminate_each s (sess ∷ rest) = terminate_each (sessions.update s (with_terminate sess)).0 rest

  unfoldable pub terminate_all_sessions : S → AgentTeam → S
  terminate_all_sessions s team =
      elim (sessions.list s team.metadata.namespace (labels_of team.metadata.name)) [
        | none ↦ s
        | some items ↦ terminate_each s items
      ]

  -- The sessions end, the routes go, and the status is written.
  abbrev pub close_team : Spawning S → AgentTeam → Managed S
  close_team w team =
      let r = teams.update_status (terminate_all_sessions w.api team) team in
      record {
        world = record { api = r.0; router = Router.delete_team w.router team.metadata.name };
        team = written_or team r.1;
        ok = is_written r.1;
      }

  unfoldable pub complete_team : Spawning S → AgentTeam → Managed S
  complete_team w team =
      close_team w (record team { status = record team.status { phase = TeamPhase.completed } })

  unfoldable pub fail_team : Spawning S → AgentTeam → String → ℕ → Managed S
  fail_team w team reason now =
      let cond : Condition = record {
        type = ready;
        status = false_status;
        last_transition_time = now;
        reason = "TeamFailed";
        message = reason;
      } in
      close_team w (record team {
        status = record team.status {
          phase = TeamPhase.failed;
          conditions = set_team_condition cond team.status.conditions;
        };
      })

  unfoldable pub cleanup_team_state : Spawning S → AgentTeam → Spawning S
  cleanup_team_state w team =
      let s = tasks.delete_team w.api team.metadata.namespace team.metadata.name in
      record {
        api = messages.delete_all_of s team.metadata.namespace (labels_of team.metadata.name);
        router = Router.delete_team w.router team.metadata.name;
      }
