-- ===== src/Controller/Outbox/Tests.antt =====
-- A message to a member whose instance is connected, and whose deliveries fail.
use aistio.Prelude.{String, ◌≡◌, refl, Bool, true, false, none, some, [], ◌∷◌, comparable_text}
use aistio.Prelude.Decimal.{show}
use aistio.Api.Meta.{ObjectMeta}
use aistio.Api.Message.{TeamMessage}
use aistio.Api.Session.{AgentSession, SessionPhase}
use aistio.Kube.{Client, Got, found}
use aistio.Kube.Stored.{single}
use aistio.Prelude.Dict.{lookup}
use aistio.Controller.Outbox.{
  TeamEventDeliverer, reconcile, deliver, deliver_to, record_delivery, attempted, marked_delivered,
}
use aistio.Controller.Outbox.Delivery.{IsRun, IsDue, IsHandedOver, reconcile_hands_over}

abbrev message_meta : TeamMessage → ObjectMeta
message_meta m = m.metadata

abbrev named : String → ObjectMeta
named name = record {
  name = name;
  namespace = "default";
  generate_name = "";
  labels = [];
  annotations = [];
  finalizers = [];
  owner_references = [];
  uid = "";
  resource_version = 1;
  creation_timestamp = 0;
  deleting = false;
}

abbrev hello : TeamMessage
hello = record {
  metadata = named "m1";
  spec = record {
    team_ref = "crew";
    from = "ann";
    to = "bob";
    content = "hello";
    kind = "message";
    nonce = "";
  };
  status = record { delivered = false; delivered_at = ""; attempts = 3 };
}

abbrev bob : AgentSession
bob = record {
  metadata = named "bob-1";
  spec = record {
    agent_ref = record { kind = "Agent"; name = "coder"; namespace = "" };
    commands = none;
  };
  status = record {
    phase = SessionPhase.active;
    instance_ref = "";
    instance_ip = "";
    started_at = "";
    last_active_at = "";
    message_count = 0;
    token_usage = none;
    state = none;
    conditions = [];
  };
}

abbrev messages : Client TeamMessage TeamMessage
messages = single message_meta

abbrev sessions : Client TeamMessage AgentSession
sessions = record {
  get = λ s namespace name. found bob;
  list = λ s namespace labels. some (bob ∷ []);
  create = λ s a. (s, none);
  update = λ s a. (s, aistio.Kube.write_failed);
  update_status = λ s a. (s, aistio.Kube.write_failed);
  delete = λ s a. (s, false);
  delete_all_of = λ s namespace labels. s;
}

-- An instance is connected, and takes a message exactly where the replica is up.
abbrev flaky : TeamEventDeliverer Bool
flaky = record {
  deliver_team_event = λ d namespace instance_id team_id event_type member_name content. (d, d);
  get_connected_instance = λ d namespace agent_name. some "a";
}

abbrev asked : Got TeamMessage
asked = messages.get hello "default" "m1"

-- A replica that is down counts the attempt, and one that is up marks the message.
counts : (reconcile messages sessions flaky show hello false "default" "m1" 1).0.status.attempts ≡ 4
unfolding reconcile deliver deliver_to record_delivery attempted marked_delivered lookup
counts = refl

marks :
    (reconcile messages sessions flaky show hello true "default" "m1" 1).0.status.delivered ≡ true
unfolding reconcile deliver deliver_to record_delivery attempted marked_delivered lookup
marks = refl

reconcile_hands_over_example :
    let r = reconcile messages sessions flaky show hello true "default" "m1" 1 in
    IsRun messages sessions flaky show hello true asked 1 r
    × ((msg : TeamMessage) (sess : AgentSession) (instance_id : String)
        → asked ≡ found msg
        → IsDue messages sessions flaky show hello true msg sess instance_id
        → IsHandedOver messages sessions flaky show hello true msg instance_id 1 r)
reconcile_hands_over_example =
    reconcile_hands_over messages sessions flaky show hello true "default" "m1" 1
