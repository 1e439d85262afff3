-- ===== src/Asdp/Snapshot/Laws.antt =====
-- When a new version is made, and what it carries.
use aistio.Prelude.{
  ℕ, ◌+◌, ◌%◌, ◌^◌, String, ◌<>◌, ◌≡◌, refl, ap, ◌⊎◌, inl, inr, true, false, some, arith, ◌==◌,
  ==_iff, comparable_text, comparable_number, if◌then◌else◌, Bool-cases, Option-cases,
}
use aistio.Prelude.Decimal.{show_int64}
use aistio.Prelude.Dict.{lookup, insert, lookup-insert}
use aistio.Asdp.Snapshot.{
  Codec, ConfigSnapshot, SnapshotStore, Update, stored, unchanged, marshal_error, agent_key,
  or_empty, get_snapshot_locked, get_snapshot, version_of, generate_nonce, same_content,
  store_snapshot, update_snapshot,
}

-- The snapshot that an update returns.
abbrev pub Returned : Update → ConfigSnapshot → Type 0
Returned (stored a) b = a ≡ b
Returned (unchanged a) b = a ≡ b
Returned marshal_error b = ⊥

module _ {R : Type 0} (codec : Codec R) where
  get-store_snapshot :
      (s : SnapshotStore) (key : String) (cfg : ℕ) (content k : String) (c : ℕ)
      → let r = store_snapshot codec s key cfg content in
        get_snapshot_locked r.0 k c ≡ (
          if key == k
          then (if cfg == c then some r.1 else get_snapshot_locked s k c)
          else get_snapshot_locked s k c)
  unfolding store_snapshot get_snapshot_locked
  get-store_snapshot s key cfg content k c =
      let r = store_snapshot codec s key cfg content in
      ground (
        arith,
        lookup-insert key k (insert cfg r.1 (or_empty (lookup key s.snapshots))) s.snapshots,
        lookup-insert cfg c r.1 (or_empty (lookup key s.snapshots)),
        ==_iff key k,
      )

  version-store_snapshot :
      (s : SnapshotStore) (key : String) (cfg : ℕ) (content k : String) (c : ℕ)
      → version_of (store_snapshot codec s key cfg content).0 k c ≡ (
          if key == k
          then (if cfg == c then (version_of s k c + 1) % 2 ^ 64 else version_of s k c)
          else version_of s k c)
  unfolding store_snapshot
  version-store_snapshot s key cfg content k c =
      let ver = (version_of s key cfg + 1) % 2 ^ 64 in
      ground (
        arith,
        lookup-insert key k (insert cfg ver (or_empty (lookup key s.versions))) s.versions,
        lookup-insert cfg c ver (or_empty (lookup key s.versions)),
        ==_iff key k,
        ==_iff cfg c,
      )

  module _ (s : SnapshotStore) (namespace agent_name : String) (cfg : ℕ) (r : R) (content : String)
      (m : codec.marshal r ≡ some content) where
    abbrev after : SnapshotStore × Update
    after = update_snapshot codec s namespace agent_name cfg r

    abbrev fresh : SnapshotStore × ConfigSnapshot
    fresh = store_snapshot codec s (agent_key namespace agent_name) cfg content

    update_cases :
        ((old : ConfigSnapshot) × (get_snapshot s namespace agent_name cfg ≡ some old)
          × (same_content codec (some old) content ≡ true)
          × (after ≡ (s, unchanged old)))
        ⊎ ((same_content codec (get_snapshot s namespace agent_name cfg) content ≡ false)
            × (after ≡ (fresh.0, stored fresh.1)))
    unfolding update_snapshot get_snapshot same_content
    update_cases =
        elim (Option-cases (get_snapshot_locked s (agent_key namespace agent_name) cfg)) [
          | inl e ↦ inr (rw (e, same_content), ground (arith, m, e))
          | inr (old, e) ↦ elim (Bool-cases (same_content codec (some old) content)) [
            | inl p ↦ inl (old, e, p, ground (arith, m, e, p))
            | inr p ↦ inr (ground (arith, e, p), ground (arith, m, e, p))
          ]
        ]

    fresh_same : same_content codec (some fresh.1) content ≡ true
    unfolding same_content store_snapshot
    fresh_same = (==_iff (codec.digest content) (codec.digest content)).1 refl

    fresh_current : get_snapshot fresh.0 namespace agent_name cfg ≡ some fresh.1
    unfolding get_snapshot
    fresh_current =
        let key = agent_key namespace agent_name in
        ground (arith, get-store_snapshot s key cfg content key cfg, ==_iff key key)

    -- An update whose resources encode leaves as the current snapshot the one that it returns, and
    -- that snapshot has the digest of the new content.
    pub update_snapshot_current :
        (snap : ConfigSnapshot) × (get_snapshot after.0 namespace agent_name cfg ≡ some snap)
        × Returned after.1 snap
        × (same_content codec (some snap) content ≡ true)
    update_snapshot_current = elim update_cases [
      | inl (old, e, p, u) ↦ rw u (old, e, refl, p)
      | inr (p, u) ↦ rw u (fresh.1, fresh_current, refl, fresh_same)
    ]

    -- A new version is made exactly when the content's digest differs from that of the current
    -- snapshot, or there is none; its counter is one more, modulo 2 ^ 64. Otherwise the store
    -- stays as it was.
    pub update_snapshot_version :
        ((same_content codec (get_snapshot s namespace agent_name cfg) content ≡ true)
          × (after.0 ≡ s))
        ⊎ ((same_content codec (get_snapshot s namespace agent_name cfg) content ≡ false)
            × (version_of after.0 (agent_key namespace agent_name) cfg
                ≡ (version_of s (agent_key namespace agent_name) cfg + 1) % 2 ^ 64))
    update_snapshot_version =
        let key = agent_key namespace agent_name in
        elim update_cases [
          | inl (old, e, p, u) ↦ inl (rw e p, rw u)
          | inr (p, u) ↦ inr (
            p,
            rw u (ground (arith, version-store_snapshot s key cfg content key cfg, ==_iff key key)),
          )
        ]

  -- A second update with the same resources changes nothing and returns the current snapshot.
  pub update_snapshot_again :
      (s : SnapshotStore) (namespace agent_name : String) (cfg : ℕ) (r : R) (content : String)
      → codec.marshal r ≡ some content
      → let once = (update_snapshot codec s namespace agent_name cfg r).0 in
        (old : ConfigSnapshot) × (update_snapshot codec once namespace agent_name cfg r
          ≡ (once, unchanged old))
  update_snapshot_again s namespace agent_name cfg r content m =
      let once = (update_snapshot codec s namespace agent_name cfg r).0 in
      let (snap, e, _, p) = update_snapshot_current s namespace agent_name cfg r content m in
      elim (update_cases once namespace agent_name cfg r content m) [
        | inl (old, _, _, u) ↦ (old, u)
        | inr (q, _) ↦ absurd (differ snap e p q)
      ]
    where
      differ :
          (snap : ConfigSnapshot)
          → get_snapshot
              (update_snapshot codec s namespace agent_name cfg r).0
              namespace
              agent_name
              cfg
            ≡ some snap
          → same_content codec (some snap) content ≡ true
          → same_content codec
              (get_snapshot
                (update_snapshot codec s namespace agent_name cfg r).0
                namespace
                agent_name
                cfg)
              content
            ≡ false
          → ⊥
      differ snap e p q = cc (ap (λ o. same_content codec o content) e, p, q)

  -- The current snapshots carry the version and the nonce of their counters.
  abbrev pub IsVersioned : SnapshotStore → Type 0
  IsVersioned s =
      (key : String) (cfg : ℕ) (snap : ConfigSnapshot)
      → get_snapshot_locked s key cfg ≡ some snap
      → (snap.cfg_type ≡ cfg)
        × (snap.version ≡ "v" <> show_int64 (version_of s key cfg))
        × (snap.nonce ≡ generate_nonce codec key cfg (version_of s key cfg))

  store_snapshot-fields :
      (s : SnapshotStore) (key : String) (cfg : ℕ) (content : String)
      → let r = store_snapshot codec s key cfg content in
        (r.1.cfg_type ≡ cfg)
        × (r.1.version ≡ "v" <> show_int64 ((version_of s key cfg + 1) % 2 ^ 64))
        × (r.1.nonce ≡ generate_nonce codec key cfg ((version_of s key cfg + 1) % 2 ^ 64))
  unfolding store_snapshot
  store_snapshot-fields s key cfg content = (refl, refl, refl)

  store_snapshot-IsVersioned :
      (s : SnapshotStore) (key : String) (cfg : ℕ) (content : String)
      → IsVersioned s
      → IsVersioned (store_snapshot codec s key cfg content).0
  store_snapshot-IsVersioned s key cfg content v k c snap h =
      let r = store_snapshot codec s key cfg content in
      let got = get-store_snapshot s key cfg content k c in
      let ver = version-store_snapshot s key cfg content k c in
      elim (Bool-cases (key == k)) [
        | inl p ↦ elim (Bool-cases (cfg == c)) [
          | inl q ↦
              let hk : key ≡ k = (==_iff key k).0 p in
              let hc : cfg ≡ c = (==_iff cfg c).0 q in
              let hs : r.1 ≡ snap = ground (arith, got, h, p, q) in
              let f = store_snapshot-fields s key cfg content in
              let n : version_of r.0 k c ≡ (version_of s key cfg + 1) % 2 ^ 64 =
                ground (arith, ver, p, q, hk, hc) in
              rw (n, ← hs, ← hk, ← hc) f
          | inr q ↦
              let n : version_of r.0 k c ≡ version_of s k c = ground (arith, ver, p, q) in
              rw n (v k c snap (ground (arith, got, h, p, q)))
        ]
        | inr p ↦
            let n : version_of r.0 k c ≡ version_of s k c = ground (arith, ver, p) in
            rw n (v k c snap (ground (arith, got, h, p)))
      ]

  -- Every update keeps the versions and the nonces of the current snapshots in step with the
  -- counters, whatever the resources, also where they do not encode.
  pub update_snapshot-IsVersioned :
      (s : SnapshotStore) (namespace agent_name : String) (cfg : ℕ) (r : R)
      → IsVersioned s
      → IsVersioned (update_snapshot codec s namespace agent_name cfg r).0
  unfolding update_snapshot
  update_snapshot-IsVersioned s namespace agent_name cfg r v =
      elim (Option-cases (codec.marshal r)) [
        | inl e ↦ rw (update_snapshot, e) v
        | inr (content, e) ↦ elim (update_cases s namespace agent_name cfg r content e) [
          | inl (_, _, _, u) ↦ rw u v
          | inr (_, u) ↦
              rw u (store_snapshot-IsVersioned s (agent_key namespace agent_name) cfg content v)
        ]
      ]
