-- ===== src/Asdp/Distributor/Laws.antt =====
-- Who receives what: the effect of a push on the buffers of the connections.
use aistio.Prelude.{
  ℕ, String, ◌≡◌, refl, ap, true, false, none, some, List, [], ◌∷◌, ◌++◌, ◌<◌, ◌≤◌, ◌||◌, length,
  ◌⊎◌, Memᴰ, arith, comparable_text, comparable_number,
}
use aistio.Asdp.Protocol.{push}
use aistio.Asdp.Snapshot.{
  Codec, SnapshotStore, ConfigSnapshot, Update, unchanged, stored, marshal_error, update_snapshot,
}
use aistio.Asdp.Snapshot.Laws.{update_snapshot_again}
use aistio.Asdp.Server.{Connection, Server}
use aistio.Asdp.Distributor.{Distributor, push_update, push_config}

-- A number stands at most once in the list.
abbrev pub Distinct : List ℕ → Type 0
Distinct [] = Unit
Distinct (r ∷ rs) = (Memᴰ r rs → ⊥) × Distinct rs

push_update-snapshots :
    (d : Distributor) (namespace agent_name : String) (snaps : SnapshotStore) (u : Update)
    → (push_update d namespace agent_name snaps u).0.snapshots ≡ snaps
unfolding push_update
push_update-snapshots d namespace agent_name snaps (stored snap) = refl
push_update-snapshots d namespace agent_name snaps (unchanged old) = refl
push_update-snapshots d namespace agent_name snaps marshal_error = refl

-- The message of the snapshot stands last in the buffer where that had room; where it had none, the
-- connection is closed, if it can be, and nothing else of it changes.
abbrev pub HasTaken : Connection → ConfigSnapshot → Connection → Type 0
HasTaken c snap after =
    ((length c.send_ch < 64)
      × (after ≡ record c {
        send_ch =
            c.send_ch
            ++ (push (record {
              config_type = snap.cfg_type;
              version = snap.version;
              resources = snap.resources;
              nonce = snap.nonce;
            })
                ∷ []);
      }))
    ⊎ ((64 ≤ length c.send_ch) × (after ≡ record c { cancelled = c.has_cancel || c.cancelled }))

module _ {R : Type 0} (codec : Codec R) where
  -- A push whose resources do not encode sends nothing, keeps the snapshots and is an error.
  pub push_config_error :
      (d : Distributor) (namespace agent_name : String) (cfg : ℕ) (r : R)
      → codec.marshal r ≡ none
      → push_config codec d namespace agent_name cfg r ≡ (d, false)
  unfolding push_config push_update update_snapshot
  push_config_error d namespace agent_name cfg r m = ground (arith, m)

  -- Pushing the same resources a second time changes nothing at all: no version, no message.
  pub push_config_idem :
      (d : Distributor) (namespace agent_name : String) (cfg : ℕ) (r : R) (content : String)
      → codec.marshal r ≡ some content
      → let once = (push_config codec d namespace agent_name cfg r).0 in
        push_config codec once namespace agent_name cfg r ≡ (once, true)
  unfolding push_config push_update
  push_config_idem d namespace agent_name cfg r content m =
      let once = (push_config codec d namespace agent_name cfg r).0 in
      let r' = update_snapshot codec d.snapshots namespace agent_name cfg r in
      let (old, u) = update_snapshot_again codec d.snapshots namespace agent_name cfg r content m in
      let v : update_snapshot codec once.snapshots namespace agent_name cfg r
          ≡ (once.snapshots, unchanged old) =
        rw (push_update-snapshots d namespace agent_name r'.0 r'.1) u in
      quiet once old v
    where
      quiet :
          (once : Distributor) (old : ConfigSnapshot)
          → update_snapshot codec once.snapshots namespace agent_name cfg r
            ≡ (once.snapshots, unchanged old)
          → push_config codec once namespace agent_name cfg r ≡ (once, true)
      quiet once old v = ap (λ u. push_update once namespace agent_name u.0 u.1) v
