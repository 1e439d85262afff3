-- ===== src/Controller/Outbox.antt =====
-- internal/controller/teamevent_watcher.go: the delivery of the messages that Team.Router enqueues.
-- The deliverer is the interface of the watcher, and Asdp.Distributor the implementation. Logs,
-- metrics and trace spans are left out, and so is the registration with the manager. A run is one
-- function on the state of the API server; runs of several replicas at once are not modelled. The
-- attempts, an `int32`, are counted only from below five.
pub mod Delivery
mod Tests
use aistio.Prelude.{
  ℕ, ◌+◌, String, Bool, true, false, Option, none, some, List, [], ◌∷◌, leb, ◌==◌, comparable_text,
  comparable_number, if◌then◌else◌,
}
use aistio.Prelude.Dict.{Dict, lookup}
use aistio.Api.Message.{TeamMessage}
use aistio.Api.Session.{AgentSession}
use aistio.Kube.{Client, Got, found, not_found, get_failed, Wrote, written, conflict, write_failed}
use aistio.Team.Router.{text_or_empty}
use aistio.Asdp.Distributor
use aistio.Asdp.Distributor.{Distributor}
use aistio.Controller.{Result, settled, retry_after, failed_with}

pub record TeamEventDeliverer (D : Type 0) : Type 0 where
  pub deliver_team_event : D → String → String → String → String → String → String → D × Bool
  pub get_connected_instance : D → String → String → Option String

unfoldable pub distributor : TeamEventDeliverer Distributor
distributor = record {
  deliver_team_event = Distributor.deliver_team_event;
  get_connected_instance = Distributor.get_connected_instance;
}

-- `msg.Status.Attempts++` after a delivery that failed.
unfoldable pub attempted : TeamMessage → TeamMessage
attempted msg = record msg { status = record msg.status { attempts = msg.status.attempts + 1 } }

unfoldable pub marked_delivered : TeamMessage → String → TeamMessage
marked_delivered msg at = record msg {
  status = record { delivered = true; delivered_at = at; attempts = msg.status.attempts + 1 };
}

abbrev pub recipient_labels : TeamMessage → Dict String String
recipient_labels msg =
    ("agentscope.io/team", msg.spec.team_ref) ∷ ("agentscope.io/team-role", msg.spec.to) ∷ []

abbrev pub after_status : {A : Type 0} → Wrote A → Result
after_status (written b) = settled
after_status conflict = retry_after 2
after_status write_failed = retry_after 2

module _ {S D : Type 0} (messages : Client S TeamMessage) (sessions : Client S AgentSession)
    (deliverer : TeamEventDeliverer D) (rfc3339 : ℕ → String) where
  -- What follows the call of the deliverer; an error of the status write after a failed delivery
  -- is ignored.
  unfoldable pub record_delivery : S → TeamMessage → ℕ → Bool → S × Result
  record_delivery s msg now false = ((messages.update_status s (attempted msg)).0, retry_after 5)
  record_delivery s msg now true =
      let r = messages.update_status s (marked_delivered msg (rfc3339 now)) in
      (r.0, after_status r.1)

  unfoldable pub deliver_to : S → D → TeamMessage → AgentSession → ℕ → S × D × Result
  deliver_to s d msg sess now =
      let agent_name = text_or_empty (lookup "agentscope.io/agent" sess.metadata.labels) in
      elim (deliverer.get_connected_instance d msg.metadata.namespace agent_name) [
        | none ↦ (s, d, retry_after 10)
        | some instance_id ↦
            let (d', ok) =
              deliverer.deliver_team_event d msg.metadata.namespace instance_id msg.spec.team_ref
                msg.spec.kind msg.spec.to msg.spec.content in
            let (s', result) = record_delivery s msg now ok in (s', d', result)
      ]

  abbrev pub deliver_first : S → D → TeamMessage → Option (List AgentSession) → ℕ → S × D × Result
  deliver_first s d msg none now = (s, d, failed_with 5)
  deliver_first s d msg (some []) now = (s, d, retry_after 5)
  deliver_first s d msg (some (sess ∷ _)) now = deliver_to s d msg sess now

  -- With a deliverer.
  unfoldable pub deliver : S → D → TeamMessage → ℕ → S × D × Result
  deliver s d msg now =
      if msg.status.delivered
      then (s, d, settled)
      else if leb 5 msg.status.attempts
      then (s, d, settled)
      else if msg.spec.to == ""
      then (s, d, settled)
      else deliver_first s d msg (sessions.list s msg.metadata.namespace (recipient_labels msg)) now

  abbrev pub reconcile_got : S → D → Got TeamMessage → ℕ → S × D × Result
  reconcile_got s d not_found now = (s, d, settled)
  reconcile_got s d get_failed now = (s, d, failed_with 0)
  reconcile_got s d (found msg) now = deliver s d msg now

  unfoldable pub reconcile : S → D → String → String → ℕ → S × D × Result
  reconcile s d namespace name now = reconcile_got s d (messages.get s namespace name) now

  abbrev pub wait_got : Got TeamMessage → Result
  wait_got not_found = settled
  wait_got get_failed = failed_with 0
  wait_got (found msg) =
      if msg.status.delivered
      then settled
      else if leb 5 msg.status.attempts
      then settled
      else retry_after 5

  -- `Reconcile` where the deliverer is nil.
  unfoldable pub reconcile_without_deliverer : S → String → String → Result
  reconcile_without_deliverer s namespace name = wait_got (messages.get s namespace name)
