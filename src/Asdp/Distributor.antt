-- ===== src/Asdp/Distributor.antt =====
-- internal/asdp/distributor.go: pushes of configuration and of events to the connected instances.
-- Logs and trace spans are left out.
pub mod Laws
mod Tests
use aistio.Prelude.{
  ℕ, String, Bool, true, false, Option, none, some, List, [], ◌∷◌, ◌==◌, comparable_text,
  comparable_number, if◌then◌else◌,
}
use aistio.Prelude.Dict.{lookup}
use aistio.Asdp.Protocol.{
  ConfigPush, SessionCommand, TeamEvent, Downstream, push, session_cmd, event,
}
use aistio.Asdp.Server.{
  Connection, Server, send, get_connection, get_connections_for_agent, list_connections,
}
use aistio.Asdp.Snapshot.{
  Codec, ConfigSnapshot, SnapshotStore, Update, stored, unchanged, marshal_error, update_snapshot,
  get_all_snapshots, delete_agent,
}

pub record Distributor : Type 0 where
  pub server : Server
  pub snapshots : SnapshotStore

-- `config_push` of a snapshot.
unfoldable pub config_push : ConfigSnapshot → Downstream
config_push snapshot = push (record {
  config_type = snapshot.cfg_type;
  version = snapshot.version;
  resources = snapshot.resources;
  nonce = snapshot.nonce;
})

-- One message to each connection; an error is only logged.
unfoldable pub send_each : Server → List ℕ → Downstream → Server
send_each s [] msg = s
send_each s (ref ∷ refs) msg = send_each (send s ref msg).0 refs msg

-- Each message to one connection; an error is only logged.
unfoldable pub send_snapshots : Server → ℕ → List ConfigSnapshot → Server
send_snapshots s ref [] = s
send_snapshots s ref (snap ∷ snaps) = send_snapshots (send s ref (config_push snap)).0 ref snaps

-- What follows the update of the snapshots; the error is `false`.
unfoldable pub push_update :
    Distributor → String → String → SnapshotStore → Update → Distributor × Bool
push_update d namespace agent_name snapshots marshal_error =
    (record d { snapshots = snapshots }, false)
push_update d namespace agent_name snapshots (unchanged old) =
    (record d { snapshots = snapshots }, true)
push_update d namespace agent_name snapshots (stored snapshot) =
    let conns = get_connections_for_agent d.server namespace agent_name in
    (
      record { server = send_each d.server conns (config_push snapshot); snapshots = snapshots },
      true,
    )

module _ {R : Type 0} where
  unfoldable pub push_config : Codec R → Distributor → String → String → ℕ → R → Distributor × Bool
  push_config codec d namespace agent_name cfg_type resources =
      let u = update_snapshot codec d.snapshots namespace agent_name cfg_type resources in
      push_update d namespace agent_name u.0 u.1

unfoldable pub forget_agent : Distributor → String → String → Distributor
forget_agent d namespace agent_name = record d {
  snapshots = delete_agent d.snapshots namespace agent_name;
}

unfoldable pub push_full_sync : Distributor → String → String → String → Distributor
push_full_sync d namespace agent_name instance_id =
    elim (get_connection d.server namespace instance_id) [
      | none ↦ d
      | some conn ↦ record d {
        server = send_snapshots d.server conn (get_all_snapshots d.snapshots namespace agent_name);
      }
    ]

-- A message to one instance; an instance that is not connected is no error.
unfoldable pub send_to_instance : Distributor → String → String → Downstream → Distributor × Bool
send_to_instance d namespace instance_id msg =
    elim (get_connection d.server namespace instance_id) [
      | none ↦ (d, true)
      | some conn ↦ let r = send d.server conn msg in (record d { server = r.0 }, r.1)
    ]

unfoldable pub send_session_command :
    Distributor → String → String → String → String → Distributor × Bool
send_session_command d namespace instance_id session_id command =
    send_to_instance d namespace instance_id
      (session_cmd (record { session_id = session_id; command = command; params = "" }))

instance_of : Option Connection → Option String
instance_of none = none
instance_of (some c) = some c.instance_id

first_instance : Server → List ℕ → Option String
unfolding instance_of
first_instance s [] = none
first_instance s (ref ∷ refs) = instance_of (lookup ref s.heap)

unfoldable pub get_connected_instance : Distributor → String → String → Option String
unfolding first_instance
get_connected_instance d namespace agent_name =
    first_instance d.server (get_connections_for_agent d.server namespace agent_name)

abbrev pub team_event_message : String → String → String → String → Downstream
team_event_message team_id event_type member_name payload = event (record {
  team_id = team_id;
  event_type = event_type;
  member_name = member_name;
  task_id = "";
  payload = payload;
  timestamp = 0;
})

unfoldable pub send_team_event :
    Distributor → String → String → String → String → String → String → Distributor × Bool
send_team_event d namespace instance_id team_id event_type member_name payload =
    send_to_instance d namespace instance_id
      (team_event_message team_id event_type member_name payload)

-- The bytes of a string are the string.
unfoldable pub deliver_team_event :
    Distributor → String → String → String → String → String → String → Distributor × Bool
deliver_team_event d namespace instance_id team_id event_type member_name content =
    send_team_event d namespace instance_id team_id event_type member_name content

in_namespace : Server → String → ℕ → Bool
in_namespace s namespace ref = elim (lookup ref s.heap) [
  | none ↦ false
  | some c ↦ c.namespace == namespace
]

-- The loop sends as it tests; no send changes a connection's namespace.
unfoldable pub broadcast_to : Server → String → List ℕ → Downstream → Server
unfolding in_namespace
broadcast_to s namespace [] msg = s
broadcast_to s namespace (ref ∷ refs) msg =
    broadcast_to (if in_namespace s namespace ref then (send s ref msg).0 else s) namespace refs msg

unfoldable pub broadcast_team_event :
    Distributor → String → String → String → String → String → Distributor
broadcast_team_event d namespace team_id event_type member_name payload = record d {
  server =
      broadcast_to d.server namespace (list_connections d.server)
        (team_event_message team_id event_type member_name payload);
}
