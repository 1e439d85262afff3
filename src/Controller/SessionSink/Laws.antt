-- ===== src/Controller/SessionSink/Laws.antt =====
-- What the API server holds of a session after it was reported.
use aistio.Prelude.{
  ℕ, ◌%◌, ◌^◌, ◌≤◌, [], ◌+◌, String, ◌≡◌, refl, ◌⊎◌, ◌↔◌, inl, inr, Bool, true, false, ◌||◌, some,
  arith, ltb, ◌==◌, ==_iff, comparable_text, Bool-cases, if◌then◌else◌,
}
use aistio.Api.Agent.{Agent}
use aistio.Api.Session.{AgentSession, AgentSessionStatus, session_meta, session_status}
use aistio.Kube.{Client, Got, found, not_found, get_failed}
use aistio.Kube.Retry.{Outcome, succeeded, IsRetry}
use aistio.Kube.Stored.{IsStored}
use aistio.Kube.Updates.{Holds, written-Holds, retried-Holds}
use aistio.Controller.SessionSink.{
  ObservedSession, Naming, sanitize_session_name, is_positive_int64, pressure_of, usage_of,
  observed_status, ensure, observe_got, observe_body, upsert_observed_session,
}

module _ {F S : Type 0} (naming : Naming F) (agents : Client S Agent)
    (sessions : Client S AgentSession)
    (retry_on_conflict : (X : Type 0) → (X → X × Outcome) → X → X × Outcome) where
  -- The status has what the report has: the phase, the number of messages, the times that it gives,
  -- where a count of tokens is positive, the counts and their sum, and where the context pressure is
  -- positive, its ratio.
  abbrev pub Shows : ObservedSession F → AgentSessionStatus → Type 0
  Shows o st =
      (st.phase ≡ o.phase)
      × (st.message_count ≡ o.message_count)
      × ((o.started_at ≡ "") ⊎ (st.started_at ≡ o.started_at))
      × ((o.last_active_at ≡ "") ⊎ (st.last_active_at ≡ o.last_active_at))
      × ((((o.prompt_tokens ≡ 0) ⊎ (2 ^ 63 ≤ o.prompt_tokens))
            × ((o.completion_tokens ≡ 0) ⊎ (2 ^ 63 ≤ o.completion_tokens)))
          ⊎ (st.token_usage
              ≡ some (record {
                prompt_tokens = o.prompt_tokens;
                completion_tokens = o.completion_tokens;
                total_tokens = (o.prompt_tokens + o.completion_tokens) % 2 ^ 64;
              })))
      × ((naming.is_positive o.context_pressure ≡ false)
          ⊎ (st.state
              ≡ some (record {
                summary = "";
                current_iter = 0;
                context_pressure = some (record {
                  used_tokens = 0;
                  max_tokens = 0;
                  ratio = naming.ratio o.context_pressure;
                });
                tasks = [];
              })))

  not_positive : (v : ℕ) → is_positive_int64 v ≡ false → (v ≡ 0) ⊎ (2 ^ 63 ≤ v)
  unfolding is_positive_int64
  not_positive v h = elim (Bool-cases (ltb 0 v)) [
    | inl e ↦ inr (ground (arith, h, e))
    | inr e ↦ inl (ground (arith, e))
  ]

  or_false : (a b : Bool) → (a || b) ≡ false → (a ≡ false) × (b ≡ false)
  or_false true b h = cc
  or_false false b h = (refl, h)

  observed_status-Shows :
      (st : AgentSessionStatus) (o : ObservedSession F) → Shows o (observed_status naming st o)
  unfolding observed_status
  observed_status-Shows st o = (
    refl,
    refl,
    either o.started_at st.started_at (o.started_at == "") (==_iff o.started_at ""),
    either o.last_active_at st.last_active_at (o.last_active_at == "") (==_iff o.last_active_at ""),
    used (is_positive_int64 o.prompt_tokens || is_positive_int64 o.completion_tokens) refl,
    pressed (naming.is_positive o.context_pressure) refl,
  )
    where
      either :
          (x y : String) (b : Bool) → (b ≡ true) ↔ (x ≡ "") → (x ≡ "") ⊎ ((if b then y else x) ≡ x)
      either x y true e = inl (e.0 refl)
      either x y false e = inr refl

      used :
          (b : Bool)
          → (is_positive_int64 o.prompt_tokens || is_positive_int64 o.completion_tokens) ≡ b
          → (((o.prompt_tokens ≡ 0) ⊎ (2 ^ 63 ≤ o.prompt_tokens))
              × ((o.completion_tokens ≡ 0) ⊎ (2 ^ 63 ≤ o.completion_tokens)))
            ⊎ ((if b then some (usage_of naming o) else st.token_usage) ≡ some (usage_of naming o))
      used true e = inr refl
      used false e =
          let p : is_positive_int64 o.prompt_tokens ≡ false =
            (or_false (is_positive_int64 o.prompt_tokens) _ e).0 in
          let c : is_positive_int64 o.completion_tokens ≡ false =
            (or_false (is_positive_int64 o.prompt_tokens) _ e).1 in
          inl (not_positive o.prompt_tokens p, not_positive o.completion_tokens c)

      pressed :
          (b : Bool)
          → naming.is_positive o.context_pressure ≡ b
          → (naming.is_positive o.context_pressure ≡ false)
            ⊎ ((if b then some (pressure_of naming o) else st.state) ≡ some (pressure_of naming o))
      pressed true e = inr refl
      pressed false e = inl e

  module _ (stored : IsStored session_meta session_status sessions)
      (retried : (X : Type 0) → IsRetry (retry_on_conflict X)) where
    observe_got-Holds :
        (s : S) (namespace name : String) (o : ObservedSession F) (g : Got AgentSession)
        → sessions.get s namespace name ≡ g
        → (observe_got naming agents sessions retry_on_conflict s o g).1 ≡ succeeded
        → Holds session_meta session_status sessions
            (Shows o)
            (observe_got naming agents sessions retry_on_conflict s o g).0
            namespace
            name
    observe_got-Holds s namespace name o not_found e h = cc
    observe_got-Holds s namespace name o get_failed e h = cc
    observe_got-Holds s namespace name o (found t) e h =
        written-Holds session_meta session_status sessions stored (Shows o) s namespace name t
          (record t { status = observed_status naming t.status o }) e refl
          (observed_status-Shows t.status o) h

    -- After a reported session is upserted without an error, the API server holds a session of its
    -- sanitized name in the agent's namespace, which shows the report: its phase and number of
    -- messages, the times that it gives, its tokens where a count is positive, and its context
    -- pressure where that is positive.
    pub upsert_observed_session-Shows :
        (s : S) (agent : Agent) (o : ObservedSession F)
        → (upsert_observed_session naming agents sessions retry_on_conflict s agent o).1 ≡ succeeded
        → Holds session_meta session_status sessions
            (Shows o)
            (upsert_observed_session naming agents sessions retry_on_conflict s agent o).0
            agent.metadata.namespace
            (sanitize_session_name naming o.id)
    unfolding upsert_observed_session observe_body
    upsert_observed_session-Shows s agent o h =
        let namespace = agent.metadata.namespace in
        let name = sanitize_session_name naming o.id in
        let r =
          ensure naming agents sessions retry_on_conflict s agent o
            (sessions.get s namespace name) in
        let body : S → S × Outcome =
          observe_body naming agents sessions retry_on_conflict agent o in
        elim (Bool-cases r.1) [
          | inr e ↦ absurd (ground (arith, h, e))
          | inl e ↦
              rw (upsert_observed_session, e)
                (retried-Holds session_meta session_status sessions stored (Shows o) namespace name
                  body r.0 (retry_on_conflict S) (retried S)
                  (λ u k.
                    observe_got-Holds u namespace name o (sessions.get u namespace name) refl k)
                  (rw (upsert_observed_session, e) at h))
        ]
