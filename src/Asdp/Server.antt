-- ===== src/Asdp/Server.antt =====
-- internal/asdp/server.go: the registered connections. A `*Connection` is a number into the heap,
-- since the server compares pointers; the gauge of connections is the number of increments and
-- that of decrements. The gRPC server and the TLS material are not modelled.
pub mod Invariant
pub mod Registry
mod Tests
use aistio.Prelude.{
  ℕ, ◌+◌, String, ◌<>◌, Bool, true, false, ◌&&◌, Option, none, some, List, [], ◌∷◌, ◌++◌, ◌==◌,
  comparable_text, comparable_number, if◌then◌else◌, ltb, keep, length,
}
use aistio.Prelude.Dict.{Dict, lookup, insert, delete, values}
use aistio.Asdp.Protocol.{Downstream}

pub record Connection : Type 0 where
  pub agent_name : String
  pub instance_id : String
  pub namespace : String
  pub runtime : String
  pub sdk_version : String
  pub capabilities : List String
  pub session_affinity : String
  -- The buffer of the channel to the writer, the oldest message first.
  pub send_ch : List Downstream
  -- Is there a cancel function, and has it been called?
  pub has_cancel : Bool
  pub cancelled : Bool

pub record Server : Type 0 where
  pub connections : Dict String ℕ
  pub heap : Dict ℕ Connection
  pub next : ℕ
  pub gauge_up : ℕ
  pub gauge_down : ℕ

unfoldable pub send_ch_size : ℕ
send_ch_size = 64

unfoldable pub get_instance_key : String → String → String
get_instance_key namespace instance_id = namespace <> "/" <> instance_id

unfoldable pub close_connection : Connection → Connection
close_connection c = if c.has_cancel then record c { cancelled = true } else c

-- The message is queued, or the buffer is full and the connection is closed; `false` is the error.
unfoldable pub send_connection : Connection → Downstream → Connection × Bool
unfolding send_ch_size
send_connection c msg =
    if ltb (length c.send_ch) send_ch_size
    then (record c { send_ch = c.send_ch ++ (msg ∷ []) }, true)
    else (close_connection c, false)

unfoldable pub new_server : Server
new_server = record { connections = []; heap = []; next = 0; gauge_up = 0; gauge_down = 0 }

-- `&Connection{...}`
unfoldable pub allocate : Server → Connection → Server × ℕ
allocate s c = (record s { heap = insert s.next c s.heap; next = s.next + 1 }, s.next)

-- The effect of a method of a connection on the heap; every pointer in use has an object.
unfoldable pub update_connection : Server → ℕ → (Connection → Connection) → Server
update_connection s ref f = elim (lookup ref s.heap) [
  | none ↦ s
  | some c ↦ record s { heap = insert ref (f c) s.heap }
]

unfoldable pub close : Server → ℕ → Server
close s ref = update_connection s ref close_connection

unfoldable pub send : Server → ℕ → Downstream → Server × Bool
send s ref msg = elim (lookup ref s.heap) [
  | none ↦ (s, false)
  | some c ↦ let r = send_connection c msg in (record s { heap = insert ref r.0 s.heap }, r.1)
]

abbrev close_all : Server → List ℕ → Server
close_all s [] = s
close_all s (ref ∷ refs) = close_all (close s ref) refs

unfoldable pub stop : Server → Server
stop s = record (close_all s (values s.connections)) { connections = [] }

unfoldable pub register_connection : Server → ℕ → Server
register_connection s ref = elim (lookup ref s.heap) [
  | none ↦ s
  | some c ↦ record s {
    connections = insert (get_instance_key c.namespace c.instance_id) ref s.connections;
    gauge_up = s.gauge_up + 1;
  }
]

-- The current registration is removed only when it is the caller's own connection.
unfoldable pub unregister_connection_if_match : Server → String → String → ℕ → Server × Bool
unregister_connection_if_match s namespace instance_id ref =
    let key = get_instance_key namespace instance_id in
    elim (lookup key s.connections) [
      | none ↦ (s, false)
      | some current ↦
          let closed = close s current in
          if current == ref
          then (
            record closed {
              connections = delete key closed.connections;
              gauge_down = closed.gauge_down + 1;
            },
            true,
          )
          else (s, false)
    ]

unfoldable pub get_connection : Server → String → String → Option ℕ
get_connection s namespace instance_id =
    lookup (get_instance_key namespace instance_id) s.connections

unfoldable pub serves : Server → String → String → ℕ → Bool
serves s namespace agent_name ref = elim (lookup ref s.heap) [
  | none ↦ false
  | some c ↦ (c.namespace == namespace) && (c.agent_name == agent_name)
]

unfoldable pub get_connections_for_agent : Server → String → String → List ℕ
get_connections_for_agent s namespace agent_name =
    keep (serves s namespace agent_name) (values s.connections)

unfoldable pub list_connections : Server → List ℕ
list_connections s = values s.connections

unfoldable pub connection_count : Server → ℕ
connection_count s = length s.connections
