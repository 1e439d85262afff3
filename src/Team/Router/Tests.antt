-- ===== src/Team/Router/Tests.antt =====
-- A server that keeps what it is sent, and refuses the third message.
use aistio.Prelude.{
  inl, inr, arith, Bool-cases, ◌++◌, String, ◌≡◌, refl, ◌↔◌, false, none, some, List, [], ◌∷◌, Memᴰ,
  length, ltb, if◌then◌else◌, comparable_text, comparable_number,
}
use aistio.Prelude.Decimal.{show}
use aistio.Prelude.Dict.{lookup}
use aistio.Api.Message
use aistio.Api.Session.{AgentSession, SessionPhase}
use aistio.Api.Team.{AgentTeam}
use aistio.Kube.{Client, not_found, write_failed}
use aistio.Kube.Memory.{no_objects}
use aistio.Team.Router.{distinct_roles, send_to}
use aistio.Team.Router.Laws.{
  AreRoles, IsRole, distinct_roles_exact, IsLogged, IsSentTo, send_to_recipients,
}

abbrev hello : Message.TeamMessage
hello = record {
  metadata = record {
    name = "m1";
    namespace = "default";
    generate_name = "";
    labels = [];
    annotations = [];
    finalizers = [];
    owner_references = [];
    uid = "";
    resource_version = 1;
    creation_timestamp = 0;
    deleting = false;
  };
  spec = record {
    team_ref = "crew";
    from = "ann";
    to = "bob";
    content = "hi";
    kind = "message";
    nonce = "";
  };
  status = record { delivered = false; delivered_at = ""; attempts = 0 };
}

abbrev messages : Client (List Message.TeamMessageSpec) Message.TeamMessage
messages = record {
  get = λ s namespace name. not_found;
  list = λ s namespace labels. some (hello ∷ hello ∷ hello ∷ []);
  create = λ s a. if ltb (length s) 2 then (s ++ (a.spec ∷ []), some a) else (s, none);
  update = λ s a. (s, write_failed);
  update_status = λ s a. (s, write_failed);
  delete = λ s a. (s, false);
  delete_all_of = λ s namespace labels. s;
}

abbrev sessions : Client (List Message.TeamMessageSpec) AgentSession
sessions = no_objects

abbrev teams : Client (List Message.TeamMessageSpec) AgentTeam
teams = no_objects

abbrev names : List String
names = "ann" ∷ "bob" ∷ "cem" ∷ "dan" ∷ []

-- The sender is skipped, and the third recipient's message is refused.
sent_two :
    length (send_to messages sessions teams show [] "default" "crew" "ann" "hi" 7 names).messages
    ≡ 2
unfolding send_to
sent_two = refl

abbrev session_of : String → AgentSession
session_of role = record {
  metadata = record hello.metadata { labels = ("agentscope.io/team-role", role) ∷ [] };
  spec = record {
    agent_ref = record { kind = ""; name = "coder"; namespace = "" };
    commands = none;
  };
  status = record {
    phase = SessionPhase.active;
    instance_ref = "";
    instance_ip = "";
    started_at = "";
    last_active_at = "";
    message_count = 0;
    token_usage = none;
    state = none;
    conditions = [];
  };
}

-- Ann has two sessions, and one session has no role.
abbrev team_sessions : List AgentSession
team_sessions = session_of "ann" ∷ session_of "" ∷ session_of "bob" ∷ session_of "ann" ∷ []

two_roles : distinct_roles [] team_sessions ≡ "ann" ∷ "bob" ∷ []
unfolding distinct_roles lookup
two_roles = refl

distinct_roles_exact_example :
    AreRoles (distinct_roles [] team_sessions)
    × ((role : String) → Memᴰ role (distinct_roles [] team_sessions) ↔ IsRole team_sessions role)
distinct_roles_exact_example = distinct_roles_exact team_sessions

own_log : List Message.TeamMessageSpec → List Message.TeamMessageSpec
own_log s = s

messages-IsLogged : IsLogged own_log messages
unfolding own_log
messages-IsLogged s a b h = elim (Bool-cases (ltb (length s) 2)) [
  | inl e ↦ ground (arith, e)
  | inr e ↦ absurd (ground (arith, h, e))
]

send_to_recipients_example :
    IsSentTo messages own_log "crew" "ann" "hi" [] names
      (send_to messages sessions teams show [] "default" "crew" "ann" "hi" 7 names)
send_to_recipients_example =
    send_to_recipients messages sessions teams show own_log messages-IsLogged [] "default" "crew"
      "ann" "hi" 7 names
