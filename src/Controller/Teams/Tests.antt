-- ===== src/Controller/Teams/Tests.antt =====
-- The team of the samples, running, deleted, past its duration and with all its tasks complete.
use aistio.Prelude.{
  ℕ, String, ◌≡◌, ◌≢◌, refl, true, false, Option, none, some, [], ◌∷◌, comparable_text,
  comparable_number,
}
use aistio.Prelude.Decimal.{show}
use aistio.Prelude.Dict.{lookup, insert}
use aistio.Team.Spawner.{Spawning}
use aistio.Api.Team.{AgentTeam, TeamLifecycle, team_meta, team_status}
use aistio.Kube.Memory.{no_objects}
use aistio.Kube.Retry.{retry_up_to, retry_up_to-IsRetry}
use aistio.Kube.Stored.{single-IsStored}
use aistio.Team.Router.{get_member_location, register_member, new_message_router}
use aistio.Team.Samples.{crew, teams, tasks, retry, sessions, messages, to_json, replica}
use aistio.Team.Lifecycle.Ends.{complete_team, terminate_all_sessions, terminate_each}
use aistio.Team.Lifecycle.{Duration, forward, check_timeout, check_all_complete, has_passed}
use aistio.Controller.{retry_after}
use aistio.Controller.TeamSink.Laws.{HoldsTeam}
use aistio.Controller.Teams.{team_finalizer, timed_out}
use aistio.Controller.Teams.Phases.{fail_body, handle_running, legacy_handle_running, reconcile}
use aistio.Controller.Teams.Timeout.{HasTimedOut, timeout_fails}
use aistio.Controller.Teams.Finalizer.{deleted_team_unrouted}
use aistio.Controller.Teams.Policy.{IsShutDown, all_complete_diverges}

abbrev quote : String → String
quote s = s

abbrev parse_duration : String → Option Duration
parse_duration s = some (forward 60)

abbrev parse_time : String → Option ℕ
parse_time s = some 0

abbrev hour : TeamLifecycle
hour = record { max_duration = "1m"; ttl_after_completed = ""; ttl_after_failed = "" }

abbrev limited : AgentTeam
limited = record crew { spec = record crew.spec { lifecycle = some hour } }

is_late : check_timeout parse_duration parse_time limited 100 ≡ true
unfolding check_timeout has_passed
is_late = refl

no_trouble :
    (handle_running sessions teams messages no_objects tasks retry to_json show quote parse_duration
      parse_time replica limited 100).result.error
    ≡ false
unfolding handle_running check_timeout has_passed fail_body retry_up_to timed_out
no_trouble = refl

timeout_fails_example :
    HoldsTeam teams tasks retry
      (HasTimedOut 100)
      (handle_running sessions teams messages no_objects tasks retry to_json show quote
        parse_duration parse_time replica limited 100).world.api
      "default"
      "crew"
timeout_fails_example =
    timeout_fails sessions teams messages no_objects tasks retry to_json show quote parse_duration
      parse_time (single-IsStored team_meta team_status) (λ X. retry_up_to-IsRetry 4) replica
      limited 100 is_late no_trouble

abbrev deleted : AgentTeam
deleted = record crew {
  metadata = record crew.metadata { deleting = true; finalizers = team_finalizer ∷ [] };
}

-- A replica on which Ann is connected.
abbrev ann_connected : Spawning AgentTeam
ann_connected = record {
  api = deleted;
  router = register_member new_message_router "crew" (record {
    member_name = "ann";
    agent_name = "coder";
    instance_ref = "coder-0";
    instance_ip = "10.0.0.7";
    session_id = "s1";
    connected = true;
  });
}

was_routed : get_member_location ann_connected.router "crew" "ann" ≢ none
unfolding get_member_location register_member new_message_router lookup insert
was_routed = λ e. cc

deleted_team_unrouted_example :
    get_member_location
      (reconcile sessions teams messages no_objects tasks retry to_json show quote parse_duration
        parse_time true ann_connected "default" "crew" 5).world.router
      "crew"
      "ann"
    ≡ none
deleted_team_unrouted_example =
    deleted_team_unrouted sessions teams messages no_objects tasks retry to_json show quote
      parse_duration parse_time ann_connected "default" "crew" 5 deleted "ann" refl refl refl

abbrev finished : AgentTeam
finished = record crew {
  status = record crew.status {
    tasks = some (record { total = 2; pending = 0; in_progress = 0; completed = 2 });
  };
}

in_time : check_timeout parse_duration parse_time finished 5 ≡ false
unfolding check_timeout
in_time = refl

is_finished : check_all_complete finished ≡ true
unfolding check_all_complete
is_finished = refl

no_trouble_ending :
    (handle_running sessions teams messages no_objects tasks retry to_json show quote parse_duration
      parse_time replica finished 5).result.error
    ≡ false
unfolding handle_running check_timeout check_all_complete complete_team terminate_all_sessions
    terminate_each
no_trouble_ending = refl

all_complete_diverges_example :
    IsShutDown sessions teams messages no_objects tasks retry to_json show quote parse_duration
      parse_time
      (handle_running sessions teams messages no_objects tasks retry to_json show quote
        parse_duration parse_time replica finished 5).world
      finished
    × (legacy_handle_running sessions teams messages no_objects tasks retry to_json show quote
          parse_duration parse_time replica finished 5
        ≡ record { world = replica; result = retry_after 30; events = [] })
all_complete_diverges_example =
    all_complete_diverges sessions teams messages no_objects tasks retry to_json show quote
      parse_duration parse_time replica finished 5 (single-IsStored team_meta team_status) in_time
      is_finished refl no_trouble_ending
