-- ===== src/Asdp/Server/Invariant.antt =====
-- The registry of connections is kept in order by every operation.
pub mod Runs
use aistio.Prelude.{
  ℕ, ◌+◌, ◌≤◌, ◌<◌, String, ◌≡◌, refl, ◌∙◌, inl, inr, true, some, List, [], ◌∷◌, arith, ◌==◌,
  ==_iff, comparable_text, comparable_number, Bool-cases, Option-cases, length, length-append, ltb,
}
use aistio.Prelude.Dict.{lookup, insert, delete, values, lookup-insert, lookup-delete}
use aistio.Asdp.Protocol.{Downstream}
use aistio.Asdp.Server.{
  Connection, Server, send_ch_size, get_instance_key, close_connection, send_connection, new_server,
  allocate, update_connection, close, send, close_all, stop, register_connection,
  unregister_connection_if_match,
}

abbrev key_of : Connection → String
key_of c = get_instance_key c.namespace c.instance_id

-- The buffer of a channel holds at most 64 messages, and an object is older than the counter.
abbrev pub IsSound : ℕ → ℕ → Connection → Type 0
IsSound next ref c = (ref < next) × (length c.send_ch ≤ 64)

-- Every object is sound, and what a key leads to is an object with that key.
abbrev pub IsRegistry : Server → Type 0
IsRegistry s =
    ((ref : ℕ) (c : Connection) → lookup ref s.heap ≡ some c → IsSound s.next ref c)
    × ((key : String) (ref : ℕ)
        → lookup key s.connections ≡ some ref
        → (c : Connection) × (lookup ref s.heap ≡ some c) × (key_of c ≡ key))

-- A method of a connection keeps its key and the bound of its buffer.
abbrev IsMethod : (Connection → Connection) → Type 0
IsMethod f =
    (c : Connection)
    → (key_of (f c) ≡ key_of c) × (length c.send_ch ≤ 64 → length (f c).send_ch ≤ 64)

close-IsMethod : IsMethod close_connection
unfolding close_connection
close-IsMethod c = elim (Bool-cases c.has_cancel) [
  | inl e ↦ rw e (refl, λ h. h)
  | inr e ↦ rw e (refl, λ h. h)
]

send-IsMethod : (msg : Downstream) → IsMethod (λ c. (send_connection c msg).0)
unfolding send_connection send_ch_size
send-IsMethod msg c = elim (Bool-cases (ltb (length c.send_ch) 64)) [
  | inl e ↦ rw e (refl, λ h. ground (arith, e, length-append c.send_ch (msg ∷ [])))
  | inr e ↦ rw e (close-IsMethod c)
]

update_connection-IsRegistry :
    (s : Server) (ref : ℕ) (f : Connection → Connection)
    → IsMethod f
    → IsRegistry s
    → IsRegistry (update_connection s ref f)
unfolding update_connection
update_connection-IsRegistry s ref f m w = elim (Option-cases (lookup ref s.heap)) [
  | inl e ↦ rw (update_connection, e) w
  | inr (c, e) ↦ rw (update_connection, e) (sound c e, leads c e)
]
  where
    sound :
        (c : Connection)
        → lookup ref s.heap ≡ some c
        → (r : ℕ) (d : Connection) → lookup r (insert ref (f c) s.heap) ≡ some d
        → IsSound s.next r d
    sound c e r d h = elim (Bool-cases (ref == r)) [
      | inl p ↦
          let q : ref ≡ r = (==_iff ref r).0 p in
          let hd : f c ≡ d = ground (arith, h, p, lookup-insert ref r (f c) s.heap) in
          rw (← q, ← hd) ((w.0 ref c e).0, (m c).1 (w.0 ref c e).1)
      | inr p ↦ w.0 r d (ground (arith, h, p, lookup-insert ref r (f c) s.heap))
    ]

    leads :
        (c : Connection)
        → lookup ref s.heap ≡ some c
        → (key : String) (r : ℕ) → lookup key s.connections ≡ some r
        → (d : Connection) × (lookup r (insert ref (f c) s.heap) ≡ some d) × (key_of d ≡ key)
    leads c e key r h =
        let (d, hd, k) = w.1 key r h in
        elim (Bool-cases (ref == r)) [
          | inl p ↦
              let q : ref ≡ r = (==_iff ref r).0 p in
              (
                f c,
                ground (arith, p, lookup-insert ref r (f c) s.heap),
                (m c).0 ∙ same c d e hd q ∙ k,
              )
          | inr p ↦ (d, ground (arith, p, hd, lookup-insert ref r (f c) s.heap), k)
        ]
      where
        same :
            (c d : Connection)
            → lookup ref s.heap ≡ some c
            → lookup r s.heap ≡ some d
            → ref ≡ r
            → key_of c ≡ key_of d
        same c d e hd q = cc

send-update :
    (s : Server) (ref : ℕ) (msg : Downstream)
    → (send s ref msg).0 ≡ update_connection s ref (λ c. (send_connection c msg).0)
unfolding send update_connection
send-update s ref msg = elim (Option-cases (lookup ref s.heap)) [
  | inl e ↦ ground (arith, e)
  | inr (c, e) ↦ ground (arith, e)
]

close_all-IsRegistry : (s : Server) (refs : List ℕ) → IsRegistry s → IsRegistry (close_all s refs)
unfolding close
close_all-IsRegistry s [] w = w
close_all-IsRegistry s (ref ∷ refs) w =
    close_all-IsRegistry (close s ref) refs
      (update_connection-IsRegistry s ref close_connection close-IsMethod w)

-- Removing keys keeps what the others lead to.
fewer-IsRegistry :
    (s : Server) (key : String)
    → IsRegistry s
    → IsRegistry (record s { connections = delete key s.connections })
fewer-IsRegistry s key w = (
  w.0,
  λ k ref h. elim (Bool-cases (key == k)) [
    | inl p ↦ absurd (gone k ref h p)
    | inr p ↦ w.1 k ref (ground (arith, h, p, lookup-delete key k s.connections))
  ],
)
  where
    gone :
        (k : String) (ref : ℕ)
        → lookup k (delete key s.connections) ≡ some ref
        → (key == k) ≡ true
        → ⊥
    gone k ref h p = ground (arith, h, p, lookup-delete key k s.connections)

close-connections : (s : Server) (ref : ℕ) → (close s ref).connections ≡ s.connections
unfolding close update_connection
close-connections s ref = elim (Option-cases (lookup ref s.heap)) [
  | inl e ↦ rw (close, update_connection, e) refl
  | inr (c, e) ↦ rw (close, update_connection, e) refl
]

register-IsRegistry : (s : Server) (ref : ℕ) → IsRegistry s → IsRegistry (register_connection s ref)
unfolding register_connection
register-IsRegistry s ref w = elim (Option-cases (lookup ref s.heap)) [
  | inl e ↦ rw (register_connection, e) w
  | inr (c, e) ↦ rw (register_connection, e) (w.0, leads c e)
]
  where
    leads :
        (c : Connection)
        → lookup ref s.heap ≡ some c
        → (key : String) (r : ℕ) → lookup key (insert (key_of c) ref s.connections) ≡ some r
        → (d : Connection) × (lookup r s.heap ≡ some d) × (key_of d ≡ key)
    leads c e key r h = elim (Bool-cases (key_of c == key)) [
      | inl p ↦
          let q : ref ≡ r = ground (arith, h, p, lookup-insert (key_of c) key ref s.connections) in
          (c, rw (← q) e, (==_iff (key_of c) key).0 p)
      | inr p ↦ w.1 key r (ground (arith, h, p, lookup-insert (key_of c) key ref s.connections))
    ]

allocate-IsRegistry :
    (s : Server) (c : Connection)
    → length c.send_ch ≤ 64
    → IsRegistry s
    → IsRegistry (allocate s c).0
unfolding allocate
allocate-IsRegistry s c b w = (sound, leads)
  where
    sound :
        (r : ℕ) (d : Connection)
        → lookup r (insert s.next c s.heap) ≡ some d
        → IsSound (s.next + 1) r d
    sound r d h = elim (Bool-cases (s.next == r)) [
      | inl p ↦
          let q : s.next ≡ r = (==_iff s.next r).0 p in
          let hd : c ≡ d = ground (arith, h, p, lookup-insert s.next r c s.heap) in
          rw (← q, ← hd) (omega arith, b)
      | inr p ↦
          let old = w.0 r d (ground (arith, h, p, lookup-insert s.next r c s.heap)) in
          (omega (arith, old.0), old.1)
    ]

    leads :
        (key : String) (r : ℕ)
        → lookup key s.connections ≡ some r
        → (d : Connection) × (lookup r (insert s.next c s.heap) ≡ some d) × (key_of d ≡ key)
    leads key r h =
        let (d, hd, k) = w.1 key r h in
        let older = (w.0 r d hd).0 in
        (d, ground (arith, hd, older, lookup-insert s.next r c s.heap, ==_iff s.next r), k)

unregister-IsRegistry :
    (s : Server) (namespace instance_id : String) (ref : ℕ)
    → IsRegistry s
    → IsRegistry (unregister_connection_if_match s namespace instance_id ref).0
unfolding unregister_connection_if_match close
unregister-IsRegistry s namespace instance_id ref w =
    let key = get_instance_key namespace instance_id in
    elim (Option-cases (lookup key s.connections)) [
      | inl e ↦ rw (unregister_connection_if_match, e) w
      | inr (current, e) ↦ elim (Bool-cases (current == ref)) [
        | inl p ↦
            rw (unregister_connection_if_match, e, p)
              (fewer-IsRegistry (close s current) key
                (update_connection-IsRegistry s current close_connection close-IsMethod w))
        | inr p ↦ rw (unregister_connection_if_match, e, p) w
      ]
    ]

stop-IsRegistry : (s : Server) → IsRegistry s → IsRegistry (stop s)
unfolding stop lookup
stop-IsRegistry s w = ((close_all-IsRegistry s (values s.connections) w).0, λ key ref h. cc)
