-- ===== src/Controller/SessionSink.antt =====
-- internal/controller/asdp_sink.go: the sessions that an instance reports, as AgentSession objects. The
-- test for a name that Kubernetes allows, the digest of an id in hexadecimal and the owner reference
-- to an agent, of libraries, are parameters; so are the context pressure's type, its test and its
-- format. A count of tokens, an `int64`, is its two's complement pattern. Logs are left out.
pub mod Laws
mod Tests
use aistio.Prelude.{
  zero, suc, ◌<>◌, ◌&&◌, ℕ, ◌+◌, ◌%◌, ◌^◌, String, Bool, true, false, ◌||◌, Option, none, some,
  List, [], ◌∷◌, ltb, ◌==◌, comparable_text, if◌then◌else◌,
}
use aistio.Api.Meta.{OwnerReference}
use aistio.Api.Agent.{Agent}
use aistio.Api.Session.{AgentSession, AgentSessionStatus, SessionPhase, SessionState, TokenUsage}
use aistio.Kube.{Client, Got, found, not_found, get_failed, Wrote, written, conflict, write_failed}
use aistio.Kube.Retry.{Outcome, succeeded, conflicted, errored, outcome_of}

pub record ObservedSession (F : Type 0) : Type 0 where
  pub id : String
  pub phase : SessionPhase
  pub message_count : ℕ
  pub prompt_tokens : ℕ
  pub completion_tokens : ℕ
  pub context_pressure : F
  pub started_at : String
  pub last_active_at : String

abbrev pub or_else : String → String → String
or_else new old = if new == "" then old else new

-- The agent's controller reference, `none` where it cannot be set.
pub record Naming (F : Type 0) : Type 0 where
  pub is_dns1123_subdomain : String → Bool
  pub sha1_hex : String → String
  pub controller_reference : Agent → Option OwnerReference
  pub is_positive : F → Bool
  pub ratio : F → String

-- `s[:n]`, of a text that is long enough.
unfoldable pub first_chars : ℕ → String → String
first_chars zero s = ""
first_chars (suc n) String.[] = ""
first_chars (suc n) (String.◌∷◌ c s) = String.◌∷◌ c (first_chars n s)

-- `v > 0` on an `int64`.
unfoldable pub is_positive_int64 : ℕ → Bool
is_positive_int64 v = ltb 0 v && ltb v (2 ^ 63)

module _ {F : Type 0} (naming : Naming F) where
  unfoldable pub sanitize_session_name : String → String
  sanitize_session_name id =
      if naming.is_dns1123_subdomain id
      then id
      else "session-" <> first_chars 16 (naming.sha1_hex id)

  unfoldable pub reported_session : Agent → OwnerReference → ObservedSession F → AgentSession
  reported_session agent owner o = record {
    metadata = record {
      name = sanitize_session_name o.id;
      namespace = agent.metadata.namespace;
      generate_name = "";
      labels = ("agentscope.io/agent", agent.metadata.name) ∷ [];
      annotations = ("agentscope.io/session-id", o.id) ∷ [];
      finalizers = [];
      owner_references = owner ∷ [];
      uid = "";
      resource_version = 0;
      creation_timestamp = 0;
      deleting = false;
    };
    spec = record {
      agent_ref = record { kind = ""; name = agent.metadata.name; namespace = "" };
      commands = none;
    };
    status = record {
      phase = SessionPhase.unset;
      instance_ref = "";
      instance_ip = "";
      started_at = "";
      last_active_at = "";
      message_count = 0;
      token_usage = none;
      state = none;
      conditions = [];
    };
  }

  abbrev pub usage_of : ObservedSession F → TokenUsage
  usage_of o = record {
    prompt_tokens = o.prompt_tokens;
    completion_tokens = o.completion_tokens;
    total_tokens = (o.prompt_tokens + o.completion_tokens) % 2 ^ 64;
  }

  abbrev pub pressure_of : ObservedSession F → SessionState
  pressure_of o = record {
    summary = "";
    current_iter = 0;
    context_pressure =
        some (record { used_tokens = 0; max_tokens = 0; ratio = naming.ratio o.context_pressure });
    tasks = [];
  }

  -- The status after a report; what the report leaves empty stays as it was.
  unfoldable pub observed_status : AgentSessionStatus → ObservedSession F → AgentSessionStatus
  observed_status st o = record st {
    phase = o.phase;
    message_count = o.message_count;
    started_at = or_else o.started_at st.started_at;
    last_active_at = or_else o.last_active_at st.last_active_at;
    token_usage =
        if is_positive_int64 o.prompt_tokens || is_positive_int64 o.completion_tokens
        then some (usage_of o)
        else st.token_usage;
    state = if naming.is_positive o.context_pressure then some (pressure_of o) else st.state;
  }

  module _ {S : Type 0} (agents : Client S Agent) (sessions : Client S AgentSession)
      (retry_on_conflict : (X : Type 0) → (X → X × Outcome) → X → X × Outcome) where
    -- `some` state to go on in, or `none` with the state of an error.
    abbrev pub create_owned : S → Agent → ObservedSession F → Option OwnerReference → S × Bool
    create_owned s agent o none = (s, false)
    create_owned s agent o (some owner) =
        let r = sessions.create s (reported_session agent owner o) in
        (r.0, elim r.1 [ none ↦ false | some made ↦ true ])

    abbrev pub ensure : S → Agent → ObservedSession F → Got AgentSession → S × Bool
    ensure s agent o (found existing) = (s, true)
    ensure s agent o get_failed = (s, false)
    ensure s agent o not_found = create_owned s agent o (naming.controller_reference agent)

    abbrev pub observe_got : S → ObservedSession F → Got AgentSession → S × Outcome
    observe_got s o not_found = (s, errored)
    observe_got s o get_failed = (s, errored)
    observe_got s o (found fresh) =
        let r =
          sessions.update_status s (record fresh { status = observed_status fresh.status o }) in
        (r.0, outcome_of r.1)

    unfoldable pub observe_body : Agent → ObservedSession F → S → S × Outcome
    observe_body agent o s =
        observe_got s o (sessions.get s agent.metadata.namespace (sanitize_session_name o.id))

    -- The outcome `succeeded` is that there is no error.
    unfoldable pub upsert_observed_session : S → Agent → ObservedSession F → S × Outcome
    upsert_observed_session s agent o =
        let r =
          ensure s agent o (sessions.get s agent.metadata.namespace (sanitize_session_name o.id)) in
        if r.1 then retry_on_conflict S (observe_body agent o) r.0 else (r.0, errored)

    unfoldable pub upsert_each : S → Agent → List (ObservedSession F) → S
    upsert_each s agent [] = s
    upsert_each s agent (o ∷ os) = upsert_each (upsert_observed_session s agent o).0 agent os

    unfoldable pub apply_session_report : S → String → String → List (ObservedSession F) → S
    apply_session_report s namespace agent_name reports = elim (agents.get s namespace agent_name) [
      | not_found ↦ s
      | get_failed ↦ s
      | found agent ↦ upsert_each s agent reports
    ]
