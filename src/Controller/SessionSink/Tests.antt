-- ===== src/Controller/SessionSink/Tests.antt =====
-- A session that is reported with some tokens, on a server that holds it without.
use aistio.Prelude.{ltb, ◌==◌, ℕ, ◌≡◌, refl, none, [], comparable_text, comparable_number}
use aistio.Prelude.Decimal.{show}
use aistio.Api.Agent.{Agent}
use aistio.Api.Session.{AgentSession, SessionPhase, session_meta, session_status}
use aistio.Kube.{Client}
use aistio.Kube.Memory.{no_objects}
use aistio.Kube.Retry.{Outcome, succeeded, retry_up_to, retry_up_to-IsRetry}
use aistio.Kube.Stored.{single, single-IsStored}
use aistio.Kube.Updates.{Holds}
use aistio.Admission.Samples.{meta_of, image_agent}
use aistio.Controller.SessionSink.{
  ObservedSession, Naming, sanitize_session_name, first_chars, observe_body,
  upsert_observed_session,
}
use aistio.Controller.SessionSink.Laws.{Shows, upsert_observed_session-Shows}

abbrev naming : Naming ℕ
naming = record {
  is_dns1123_subdomain = λ id. id == "s1";
  sha1_hex = λ id. "3f786850e387550fdab836ed7e6dc881de23001b";
  controller_reference = λ agent. none;
  is_positive = λ p. ltb 0 p;
  ratio = show;
}

abbrev idle_session : AgentSession
idle_session = record {
  metadata = meta_of "s1";
  spec = record {
    agent_ref = record { kind = ""; name = "crew"; namespace = "" };
    commands = none;
  };
  status = record {
    phase = SessionPhase.idle;
    instance_ref = "";
    instance_ip = "";
    started_at = "monday";
    last_active_at = "";
    message_count = 0;
    token_usage = none;
    state = none;
    conditions = [];
  };
}

abbrev report : ObservedSession ℕ
report = record {
  id = "s1";
  phase = SessionPhase.active;
  message_count = 4;
  prompt_tokens = 30;
  completion_tokens = 12;
  context_pressure = 7;
  started_at = "";
  last_active_at = "tuesday";
}

abbrev agents : Client AgentSession Agent
agents = no_objects

abbrev sessions : Client AgentSession AgentSession
sessions = single session_meta

abbrev retry : (X : Type 0) → (X → X × Outcome) → X → X × Outcome
retry X = retry_up_to 4

hashed : sanitize_session_name naming "S 1" ≡ "session-3f786850e387550f"
unfolding sanitize_session_name first_chars
hashed = refl

upserts :
    (upsert_observed_session naming agents sessions retry idle_session image_agent report).1
    ≡ succeeded
unfolding upsert_observed_session observe_body retry_up_to sanitize_session_name
upserts = refl

upsert_observed_session-Shows_example :
    Holds session_meta session_status sessions
      (Shows naming agents sessions retry report)
      (upsert_observed_session naming agents sessions retry idle_session image_agent report).0
      "default"
      (sanitize_session_name naming "s1")
upsert_observed_session-Shows_example =
    upsert_observed_session-Shows naming agents sessions retry
      (single-IsStored session_meta session_status) (λ X. retry_up_to-IsRetry 4) idle_session
      image_agent report upserts
