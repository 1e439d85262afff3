-- ===== src/Asdp/Service/Streams.antt =====
-- A whole stream, from its first message to its teardown.
use aistio.Prelude.{
  inl, inr, ℕ, String, ◌≡◌, refl, ap, ◌∙◌, Bool, none, some, List, [], ◌∷◌, arith, ◌==◌, ==_iff,
  comparable_text, comparable_number, Option-cases, if◌then◌else◌,
}
use aistio.Prelude.Dict.{lookup, lookup-insert}
use aistio.Asdp.Protocol.{
  UpstreamMeta, ConnectRequest, Upstream, Downstream, connect, config_ack, session_report,
  team_event, heartbeat, unknown, beat,
}
use aistio.Asdp.Snapshot.{ConfigSnapshot, get_all_snapshots}
use aistio.Asdp.Server.{
  Server, allocate, register_connection, send, get_connection, get_instance_key,
}
use aistio.Asdp.Server.Registry.{unregister_exact}
use aistio.Asdp.Handshake.{disconnect}
use aistio.Asdp.Distributor.{Distributor, push_full_sync, send_snapshots, config_push}
use aistio.Asdp.Service.{dispatch, receive, new_connection, open_stream, close_stream}

send-connections :
    (s : Server) (ref : ℕ) (msg : Downstream) → (send s ref msg).0.connections ≡ s.connections
unfolding send
send-connections s ref msg = elim (Option-cases (lookup ref s.heap)) [
  | inl e ↦ ground (arith, e)
  | inr (c, e) ↦ ground (arith, e)
]

send_snapshots-connections :
    (s : Server) (ref : ℕ) (snaps : List ConfigSnapshot)
    → (send_snapshots s ref snaps).connections ≡ s.connections
unfolding send_snapshots
send_snapshots-connections s ref [] = refl
send_snapshots-connections s ref (snap ∷ snaps) =
    send_snapshots-connections (send s ref (config_push snap)).0 ref snaps
    ∙ send-connections s ref (config_push snap)

push_full_sync-connections :
    (d : Distributor) (namespace agent_name instance_id : String)
    → (push_full_sync d namespace agent_name instance_id).server.connections ≡ d.server.connections
unfolding push_full_sync
push_full_sync-connections d namespace agent_name instance_id =
    elim (Option-cases (get_connection d.server namespace instance_id)) [
      | inl e ↦ ground (arith, e)
      | inr (c, e) ↦ ground (
        arith,
        e,
        send_snapshots-connections d.server c (get_all_snapshots d.snapshots namespace agent_name),
      )
    ]

module _ (name : ℕ → String) (has_sink : Bool) (meta : UpstreamMeta) where
  dispatch-connections :
      (conn : ℕ) (d : Distributor) (msg : Upstream)
      → (dispatch name has_sink meta conn d msg).0.server.connections ≡ d.server.connections
  unfolding dispatch
  dispatch-connections conn d (config_ack ack) = refl
  dispatch-connections conn d (session_report report) = refl
  dispatch-connections conn d (team_event report) = refl
  dispatch-connections conn d (heartbeat timestamp) =
      send-connections d.server conn (beat timestamp)
  dispatch-connections conn d (connect req) = refl
  dispatch-connections conn d unknown = refl

  receive-connections :
      (conn : ℕ) (d : Distributor) (msgs : List Upstream)
      → (receive name has_sink meta conn d msgs).0.server.connections ≡ d.server.connections
  unfolding receive
  receive-connections conn d [] = refl
  receive-connections conn d (msg ∷ msgs) =
      receive-connections conn (dispatch name has_sink meta conn d msg).0 msgs
      ∙ dispatch-connections conn d msg

  open_stream-lookup :
      (d : Distributor) (req : ConnectRequest) (k : String)
      → let r = open_stream d meta req in
        lookup k r.0.server.connections ≡ (
          if get_instance_key meta.namespace meta.instance_id == k
          then some r.1
          else lookup k d.server.connections)
  unfolding open_stream allocate register_connection
  open_stream-lookup d req k =
      let c = new_connection meta req in
      let key = get_instance_key meta.namespace meta.instance_id in
      let server = register_connection (allocate d.server c).0 d.server.next in
      ap (λ x. lookup k x)
        (push_full_sync-connections (record d { server = server }) meta.namespace meta.agent_name
          meta.instance_id)
      ∙ ground (
        arith,
        ==_iff d.server.next d.server.next,
        lookup-insert d.server.next d.server.next c d.server.heap,
        lookup-insert key k d.server.next d.server.connections,
      )

  -- A stream that nothing interrupts leaves no registration of its instance when it ends, whatever
  -- messages it received and however its buffer filled, and every other registration as it was
  -- when the stream opened.
  pub stream_unregisters :
      (d : Distributor) (req : ConnectRequest) (msgs : List Upstream) (k : String)
      → let r = open_stream d meta req in
        let last = (receive name has_sink meta r.1 r.0 msgs).0 in
        lookup k (close_stream last meta r.1).server.connections ≡ (
          if get_instance_key meta.namespace meta.instance_id == k
          then none
          else lookup k d.server.connections)
  unfolding close_stream disconnect get_connection
  stream_unregisters d req msgs k =
      let r = open_stream d meta req in
      let last = (receive name has_sink meta r.1 r.0 msgs).0 in
      let key = get_instance_key meta.namespace meta.instance_id in
      let kept = receive-connections r.1 r.0 msgs in
      let now : get_connection last.server meta.namespace meta.instance_id ≡ some r.1 =
        ap (λ x. lookup key x) kept
        ∙ ground (arith, open_stream-lookup d req key, ==_iff key key) in
      let (b, l) = unregister_exact last.server meta.namespace meta.instance_id r.1 in
      ground (arith, b.1 now, l k, ap (λ x. lookup k x) kept, open_stream-lookup d req k)
