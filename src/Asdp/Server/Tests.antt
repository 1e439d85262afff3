-- ===== src/Asdp/Server/Tests.antt =====
-- Two instances of one agent, and the first of them reconnecting.
use aistio.Prelude.{
  String, ◌≡◌, ◌≢◌, ◌↔◌, refl, true, false, none, some, List, [], ◌∷◌, arith, comparable_number,
  comparable_text, ◌==◌, if◌then◌else◌,
}
use aistio.Prelude.Dict.{lookup, insert}
use aistio.Prelude.Text.{NoSlash}
use aistio.Asdp.Protocol.{beat}
use aistio.Asdp.Server.{
  Connection, Server, get_instance_key, new_server, allocate, register_connection,
  unregister_connection_if_match, get_connection,
}
use aistio.Asdp.Server.Invariant.{IsRegistry}
use aistio.Asdp.Server.Invariant.Runs.{
  Event, allocated, registered, sent, step, run, run_new-IsRegistry,
}
use aistio.Asdp.Server.Registry.{unregister_exact, reconnect_survives}

abbrev instance_a : Connection
instance_a = record {
  agent_name = "crew";
  instance_id = "a";
  namespace = "default";
  runtime = "java";
  sdk_version = "1.0";
  capabilities = [];
  session_affinity = "";
  send_ch = [];
  has_cancel = true;
  cancelled = false;
}

abbrev script : List Event
script = allocated instance_a ∷ registered 0 ∷ sent 0 (beat 1) ∷ []

abbrev connected : Server
connected = run new_server script

connected_first : get_connection connected "default" "a" ≡ some 0
unfolding run step allocate register_connection new_server get_connection get_instance_key lookup
    insert aistio.Asdp.Server.send
connected_first = refl

run_new-IsRegistry_example : IsRegistry connected
run_new-IsRegistry_example = run_new-IsRegistry script

unregister_exact_example :
    let r = unregister_connection_if_match connected "default" "a" 0 in
    let key = get_instance_key "default" "a" in
    ((r.1 ≡ true) ↔ (get_connection connected "default" "a" ≡ some 0))
    × ((k : String)
        → lookup k r.0.connections ≡ (
            if r.1
            then (if key == k then none else lookup k connected.connections)
            else lookup k connected.connections))
unregister_exact_example = unregister_exact connected "default" "a" 0

older : 0 ≢ connected.next
unfolding run step allocate register_connection new_server get_instance_key lookup insert
    aistio.Asdp.Server.send
older = omega arith

reconnect_survives_example :
    let r =
      register_connection (allocate connected instance_a).0 (allocate connected instance_a).1 in
    (get_connection r "default" "a" ≡ some (allocate connected instance_a).1)
    × (unregister_connection_if_match r "default" "a" 0 ≡ (r, false))
reconnect_survives_example = reconnect_survives connected instance_a 0 older

abbrev namespace_ab : String
namespace_ab = "ab"

abbrev instance_x : String
instance_x = "x"

ab-NoSlash : NoSlash namespace_ab
ab-NoSlash = (ground arith, (ground arith, tt))
