-- ===== src/Asdp/Server/Invariant/Runs.antt =====
-- Every run of the streams, in any interleaving, keeps the registry in order.
use aistio.Prelude.{
  ℕ, ◌≤◌, String, refl, List, [], ◌∷◌, arith, comparable_text, comparable_number, length,
}
use aistio.Prelude.Dict.{lookup}
use aistio.Asdp.Protocol.{Downstream}
use aistio.Asdp.Server.{
  Connection, Server, close_connection, send_connection, new_server, allocate, update_connection,
  close, send, stop, register_connection, unregister_connection_if_match,
}
use aistio.Asdp.Server.Invariant.{
  IsRegistry, IsMethod, close-IsMethod, send-IsMethod, update_connection-IsRegistry, send-update,
  register-IsRegistry, allocate-IsRegistry, unregister-IsRegistry, stop-IsRegistry,
}

-- What the streams and the controllers do, one locked or channel operation at a time.
pub data Event : Type 0 where
  allocated : Connection → Event
  registered closed drained : ℕ → Event
  sent : ℕ → Downstream → Event
  unregistered : String → String → ℕ → Event
  stopped : Event

abbrev take_first : Connection → Connection
take_first c = record c { send_ch = elim c.send_ch [ [] ↦ [] | msg ∷ rest ↦ rest ] }

-- A new connection comes with an empty buffer.
unfoldable pub step : Server → Event → Server
step s (allocated c) = (allocate s (record c { send_ch = [] })).0
step s (registered ref) = register_connection s ref
step s (closed ref) = close s ref
step s (drained ref) = update_connection s ref take_first
step s (sent ref msg) = (send s ref msg).0
step s (unregistered namespace instance_id ref) =
    (unregister_connection_if_match s namespace instance_id ref).0
step s stopped = stop s

unfoldable pub run : Server → List Event → Server
run s [] = s
run s (e ∷ es) = run (step s e) es

take_first-IsMethod : IsMethod take_first
take_first-IsMethod c = (refl, shorter c.send_ch)
  where
    shorter :
        (xs : List Downstream)
        → length xs ≤ 64
        → length (elim xs [ [] ↦ [] | msg ∷ rest ↦ rest ]) ≤ 64
    shorter [] h = h
    shorter (x ∷ xs) h = omega arith

pub step-IsRegistry : (s : Server) (e : Event) → IsRegistry s → IsRegistry (step s e)
unfolding step close
step-IsRegistry s (allocated c) w =
    allocate-IsRegistry s (record c { send_ch = [] }) (omega arith) w
step-IsRegistry s (registered ref) w = register-IsRegistry s ref w
step-IsRegistry s (closed ref) w =
    update_connection-IsRegistry s ref close_connection close-IsMethod w
step-IsRegistry s (drained ref) w =
    update_connection-IsRegistry s ref take_first take_first-IsMethod w
step-IsRegistry s (sent ref msg) w =
    rw (send-update s ref msg)
      (update_connection-IsRegistry s ref (λ c. (send_connection c msg).0) (send-IsMethod msg) w)
step-IsRegistry s (unregistered namespace instance_id ref) w =
    unregister-IsRegistry s namespace instance_id ref w
step-IsRegistry s stopped w = stop-IsRegistry s w

run-IsRegistry : (s : Server) (es : List Event) → IsRegistry s → IsRegistry (run s es)
unfolding run
run-IsRegistry s [] w = w
run-IsRegistry s (e ∷ es) w = run-IsRegistry (step s e) es (step-IsRegistry s e w)

-- After any run of a new server: every buffer holds at most 64 messages, no object has a number
-- that is still to be given, and every key of the registry leads to an existing connection whose
-- own namespace and instance make up that key.
pub run_new-IsRegistry : (es : List Event) → IsRegistry (run new_server es)
unfolding new_server lookup
run_new-IsRegistry es = run-IsRegistry new_server es (λ ref c h. cc, λ key ref h. cc)
