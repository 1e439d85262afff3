-- ===== src/Asdp/Service/Tests.antt =====
-- A stream with one heartbeat.
use aistio.Prelude.{
  ℕ, String, ◌≡◌, true, none, [], ◌∷◌, ◌==◌, comparable_text, comparable_number, if◌then◌else◌,
}
use aistio.Prelude.Dict.{lookup}
use aistio.Asdp.Protocol.{UpstreamMeta, ConnectRequest, heartbeat}
use aistio.Asdp.Snapshot.{new_snapshot_store}
use aistio.Asdp.Server.{new_server, get_instance_key}
use aistio.Asdp.Distributor.{Distributor}
use aistio.Asdp.Service.{receive, open_stream, close_stream}
use aistio.Asdp.Service.Streams.{stream_unregisters}

abbrev fresh : Distributor
fresh = record { server = new_server; snapshots = new_snapshot_store }

abbrev crew_meta : UpstreamMeta
crew_meta = record { agent_name = "crew"; instance_id = "a"; namespace = "default"; timestamp = 0 }

abbrev request : ConnectRequest
request = record { runtime = "java"; sdk_version = "1.0"; capabilities = []; session_affinity = "" }

abbrev number_name : ℕ → String
number_name n = "AGENT"

stream_unregisters_example :
    let r = open_stream fresh crew_meta request in
    let last = (receive number_name true crew_meta r.1 r.0 (heartbeat 7 ∷ [])).0 in
    lookup "default/a" (close_stream last crew_meta r.1).server.connections ≡ (
      if get_instance_key "default" "a" == "default/a"
      then none
      else lookup "default/a" fresh.server.connections)
stream_unregisters_example =
    stream_unregisters number_name true crew_meta fresh request (heartbeat 7 ∷ []) "default/a"
