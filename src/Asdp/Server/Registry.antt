-- ===== src/Asdp/Server/Registry.antt =====
-- Who is registered after a connect, a disconnect and a reconnect.
use aistio.Prelude.{
  ℕ, String, ◌≡◌, ◌≢◌, ◌↔◌, inl, inr, true, false, none, some, arith, ◌==◌, ==_iff, comparable_text,
  comparable_number, if◌then◌else◌, Bool-cases, Option-cases,
}
use aistio.Prelude.Dict.{lookup, lookup-insert, lookup-delete}
use aistio.Prelude.Text.{NoSlash, slash-injective}
use aistio.Asdp.Server.{
  Connection, Server, get_instance_key, allocate, update_connection, close, register_connection,
  unregister_connection_if_match, get_connection,
}

close-connections : (s : Server) (ref : ℕ) → (close s ref).connections ≡ s.connections
unfolding close update_connection
close-connections s ref = elim (Option-cases (lookup ref s.heap)) [
  | inl e ↦ ground (arith, e)
  | inr (c, e) ↦ ground (arith, e)
]

-- Two instances, whose namespaces hold no slash, have the same key only if they are the same.
pub get_instance_key-injective :
    (namespace instance_id namespace' instance_id' : String)
    → NoSlash namespace
    → NoSlash namespace'
    → get_instance_key namespace instance_id ≡ get_instance_key namespace' instance_id'
    → (namespace ≡ namespace') × (instance_id ≡ instance_id')
unfolding get_instance_key
get_instance_key-injective n i n' i' h h' e = slash-injective n n' i i' h h' e

-- A disconnect removes the instance's registration exactly when that is the caller's own
-- connection, and it says so. Every other registration stays as it was, and so does this one when
-- a newer connection has replaced the caller's.
pub unregister_exact :
    (s : Server) (namespace instance_id : String) (ref : ℕ)
    → let r = unregister_connection_if_match s namespace instance_id ref in
      let key = get_instance_key namespace instance_id in
      ((r.1 ≡ true) ↔ (get_connection s namespace instance_id ≡ some ref))
      × ((k : String)
          → lookup k r.0.connections ≡ (
              if r.1
              then (if key == k then none else lookup k s.connections)
              else lookup k s.connections))
unfolding unregister_connection_if_match get_connection
unregister_exact s namespace instance_id ref =
    let key = get_instance_key namespace instance_id in
    elim (Option-cases (lookup key s.connections)) [
      | inl e ↦ (ground (arith, e), λ k. ground (arith, e))
      | inr (current, e) ↦ elim (Bool-cases (current == ref)) [
        | inl p ↦ (
          ground (arith, e, p, ==_iff current ref),
          λ k. ground (arith, e, p, close-connections s current, lookup-delete key k s.connections),
        )
        | inr p ↦ (ground (arith, e, p, ==_iff current ref), λ k. ground (arith, e, p))
      ]
    ]

-- A stream that reconnects while the old one of its instance still stands: the new connection is
-- registered, and the old stream's late disconnect does not remove it.
pub reconnect_survives :
    (s : Server) (c : Connection) (old : ℕ)
    → old ≢ s.next
    → let (allocated, fresh) = allocate s c in
      let registered = register_connection allocated fresh in
      let late = unregister_connection_if_match registered c.namespace c.instance_id old in
      (get_connection registered c.namespace c.instance_id ≡ some fresh)
      × (late ≡ (registered, false))
unfolding allocate register_connection get_connection unregister_connection_if_match
reconnect_survives s c old n =
    let key = get_instance_key c.namespace c.instance_id in
    let h = lookup-insert s.next s.next c s.heap in
    let same = ==_iff s.next s.next in
    let k = lookup-insert key key s.next s.connections in
    let same_key = ==_iff key key in
    (
      ground (arith, h, same, k, same_key),
      ground (arith, h, same, k, same_key, n, ==_iff s.next old),
    )
