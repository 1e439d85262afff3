-- ===== src/Asdp/Distributor/Tests.antt =====
-- A push to an agent with one instance.
use aistio.Prelude.{String, true, false, some, [], comparable_number, comparable_text}
use aistio.Asdp.Snapshot.{Codec, ConfigSnapshot, SnapshotStore, new_snapshot_store, store_snapshot}
use aistio.Asdp.Server.{Connection, new_server, allocate, register_connection}
use aistio.Asdp.Distributor.{Distributor}

abbrev text_codec : Codec String
text_codec = record { marshal = some; digest = λ s. s }

abbrev instance_a : Connection
instance_a = record {
  agent_name = "crew";
  instance_id = "a";
  namespace = "default";
  runtime = "java";
  sdk_version = "1.0";
  capabilities = [];
  session_affinity = "";
  send_ch = [];
  has_cancel = true;
  cancelled = false;
}

abbrev one_connection : Distributor
one_connection = record {
  server = register_connection (allocate new_server instance_a).0 0;
  snapshots = new_snapshot_store;
}

abbrev first_snapshot : SnapshotStore × ConfigSnapshot
first_snapshot = store_snapshot text_codec new_snapshot_store "default/crew" 2 "tools"
