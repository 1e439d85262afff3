-- ===== src/Asdp/Service.antt =====
-- internal/asdp/service.go: one stream, from its first message on. The messages received are the
-- argument; those sent on the stream before the writer starts, the metrics and the calls of the
-- event sink are returned. `ConfigType.String` and the handshake's texts are parameters.
pub mod Streams
mod Tests
use aistio.Prelude.{
  ℕ, String, Bool, true, false, Option, none, some, List, [], ◌∷◌, ◌++◌, if◌then◌else◌,
}
use aistio.Asdp.Protocol.{
  UpstreamMeta, ConnectRequest, ConnectResponse, ConfigAck, SessionReport, TeamEventReport,
  Upstream, connect, config_ack, session_report, team_event, heartbeat, unknown, beat,
}
use aistio.Asdp.Server.{Connection, allocate, register_connection, send}
use aistio.Asdp.Handshake.{Peer, handle_connect, disconnect, rejected}
use aistio.Asdp.Distributor.{Distributor, push_full_sync}

-- `Upstream`: the payload with its envelope.
pub record Envelope : Type 0 where
  pub meta : Option UpstreamMeta
  pub payload : Upstream

pub data Effect : Type 0 where
  record_config_push : String → String → String → String → Effect
  record_config_nack : String → String → String → Effect
  session_reported : String → String → String → SessionReport → Effect
  team_event_reported : String → String → TeamEventReport → Effect

module _ (config_type_name : ℕ → String) where
  unfoldable pub handle_config_ack : UpstreamMeta → ConfigAck → List Effect
  handle_config_ack meta ack =
      let kind = config_type_name ack.config_type in
      if ack.accepted
      then record_config_push meta.namespace meta.agent_name kind "ack" ∷ []
      else record_config_push meta.namespace meta.agent_name kind "nack"
        ∷ record_config_nack meta.namespace meta.agent_name kind
        ∷ []

  -- `has_sink` is `s.server.eventSink != nil`.
  unfoldable pub handle_session_report : Bool → UpstreamMeta → SessionReport → List Effect
  handle_session_report has_sink meta report =
      if has_sink
      then session_reported meta.namespace meta.agent_name meta.instance_id report ∷ []
      else []

  unfoldable pub handle_team_event : Bool → UpstreamMeta → TeamEventReport → List Effect
  handle_team_event has_sink meta report =
      if has_sink then team_event_reported meta.namespace meta.agent_name report ∷ [] else []

  -- One message of the receive loop.
  unfoldable pub dispatch :
      Bool → UpstreamMeta → ℕ → Distributor → Upstream → Distributor × List Effect
  dispatch has_sink meta conn d (config_ack ack) = (d, handle_config_ack meta ack)
  dispatch has_sink meta conn d (session_report report) =
      (d, handle_session_report has_sink meta report)
  dispatch has_sink meta conn d (team_event report) = (d, handle_team_event has_sink meta report)
  dispatch has_sink meta conn d (heartbeat timestamp) =
      (record d { server = (send d.server conn (beat timestamp)).0 }, [])
  dispatch has_sink meta conn d (connect req) = (d, [])
  dispatch has_sink meta conn d unknown = (d, [])

  -- The receive loop, to the end of the stream.
  unfoldable pub receive :
      Bool → UpstreamMeta → ℕ → Distributor → List Upstream → Distributor × List Effect
  receive has_sink meta conn d [] = (d, [])
  receive has_sink meta conn d (msg ∷ msgs) =
      let (d', effects) = dispatch has_sink meta conn d msg in
      let (last, rest) = receive has_sink meta conn d' msgs in (last, effects ++ rest)

abbrev new_connection : UpstreamMeta → ConnectRequest → Connection
new_connection meta req = record {
  agent_name = meta.agent_name;
  instance_id = meta.instance_id;
  namespace = meta.namespace;
  runtime = req.runtime;
  sdk_version = req.sdk_version;
  capabilities = req.capabilities;
  session_affinity = req.session_affinity;
  send_ch = [];
  has_cancel = true;
  cancelled = false;
}

-- Registration and the full sync that follows it.
unfoldable pub open_stream : Distributor → UpstreamMeta → ConnectRequest → Distributor × ℕ
open_stream d meta req =
    let (server, conn) = allocate d.server (new_connection meta req) in
    let registered = record d { server = register_connection server conn } in
    (push_full_sync registered meta.namespace meta.agent_name meta.instance_id, conn)

-- The teardown when the stream ends.
unfoldable pub close_stream : Distributor → UpstreamMeta → ℕ → Distributor
close_stream d meta conn = record d {
  server = disconnect d.server meta.namespace meta.instance_id conn;
}

module _ (quote : String → String) (version : String) where
  -- The answer to the first message, and the request to go on with when it is accepted. A failing
  -- `stream.Send` of the answer ends the stream like a refusal, with the same server.
  unfoldable pub answer :
      Distributor
      → Peer
      → Envelope
      → (Distributor × ConnectResponse) × Option (UpstreamMeta × ConnectRequest)
  answer d peer first = elim first.payload [
    | connect req ↦ elim first.meta [
      | none ↦ ((d, rejected quote version "UpstreamMeta is required"), none)
      | some meta ↦
          let (server, response) = handle_connect quote version d.server peer meta in
          (
            (record d { server = server }, response),
            if response.accepted then some (meta, req) else none,
          )
    ]
    | _ ↦ ((d, rejected quote version "first message must be ConnectRequest"), none)
  ]

  -- A whole stream with no other activity in between.
  unfoldable pub serve :
      (ℕ → String)
      → Bool
      → Distributor
      → Peer
      → Envelope
      → List Upstream
      → Distributor × List Effect
  serve config_type_name has_sink d peer first msgs =
      let ((d', response), next) = answer d peer first in
      elim next [
        | none ↦ (d', [])
        | some (meta, req) ↦
            let (opened, conn) = open_stream d' meta req in
            let (last, effects) = receive config_type_name has_sink meta conn opened msgs in
            (close_stream last meta conn, effects)
      ]
