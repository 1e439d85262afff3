-- ===== src/Asdp/Snapshot.antt =====
-- internal/asdp/snapshot.go: the versioned configuration of the agents. `json.Marshal` and the
-- shortened SHA-256 are parameters; a configuration type is its protocol number.
pub mod Laws
mod Tests
use aistio.Prelude.{
  ℕ, ◌+◌, ◌%◌, ◌^◌, String, ◌<>◌, Bool, true, false, Option, none, some, List, [], ◌==◌,
  comparable_text, comparable_number, if◌then◌else◌,
}
use aistio.Prelude.Decimal.{show, show_int64}
use aistio.Prelude.Dict.{Dict, lookup, insert, delete, values}

-- What the store takes from the standard library: the encoding of the resources, which can fail,
-- and the first eight bytes of a digest in hexadecimal.
pub record Codec (R : Type 0) : Type 0 where
  pub marshal : R → Option String
  pub digest : String → String

pub record ConfigSnapshot : Type 0 where
  pub cfg_type : ℕ
  pub version : String
  pub resources : Option String
  pub nonce : String

pub record SnapshotStore : Type 0 where
  pub snapshots : Dict String (Dict ℕ ConfigSnapshot)
  pub versions : Dict String (Dict ℕ ℕ)

pub data Update : Type 0 where
  stored unchanged : ConfigSnapshot → Update
  marshal_error : Update

unfoldable pub new_snapshot_store : SnapshotStore
new_snapshot_store = record { snapshots = []; versions = [] }

unfoldable pub agent_key : String → String → String
agent_key namespace agent_name = namespace <> "/" <> agent_name

-- Go's nil map reads as an empty one.
abbrev pub or_empty {ℓ κ} : {K : Type ℓ} {V : Type κ} → Option (Dict K V) → Dict K V
or_empty none = []
or_empty (some d) = d

abbrev pub or_zero : Option ℕ → ℕ
or_zero none = 0
or_zero (some n) = n

unfoldable pub get_snapshot_locked : SnapshotStore → String → ℕ → Option ConfigSnapshot
get_snapshot_locked s key cfg_type = lookup cfg_type (or_empty (lookup key s.snapshots))

unfoldable pub get_snapshot : SnapshotStore → String → String → ℕ → Option ConfigSnapshot
get_snapshot s namespace agent_name cfg_type =
    get_snapshot_locked s (agent_key namespace agent_name) cfg_type

abbrev pub version_of : SnapshotStore → String → ℕ → ℕ
version_of s key cfg_type = or_zero (lookup cfg_type (or_empty (lookup key s.versions)))

unfoldable pub get_all_snapshots : SnapshotStore → String → String → List ConfigSnapshot
get_all_snapshots s namespace agent_name =
    values (or_empty (lookup (agent_key namespace agent_name) s.snapshots))

unfoldable pub delete_agent : SnapshotStore → String → String → SnapshotStore
delete_agent s namespace agent_name =
    let key = agent_key namespace agent_name in
    record s { snapshots = delete key s.snapshots; versions = delete key s.versions }

module _ {R : Type 0} (codec : Codec R) where
  unfoldable pub generate_nonce : String → ℕ → ℕ → String
  generate_nonce key cfg_type version =
      codec.digest (key <> "/" <> show cfg_type <> "/" <> show_int64 version)

  -- The stored content has the digest of the new one.
  unfoldable pub same_content : Option ConfigSnapshot → String → Bool
  same_content none content = false
  same_content (some existing) content = elim existing.resources [
    | none ↦ false
    | some old ↦ codec.digest old == codec.digest content
  ]

  unfoldable pub store_snapshot :
      SnapshotStore → String → ℕ → String → SnapshotStore × ConfigSnapshot
  store_snapshot s key cfg_type content =
      let ver = (version_of s key cfg_type + 1) % 2 ^ 64 in
      let snapshot : ConfigSnapshot = record {
        cfg_type = cfg_type;
        version = "v" <> show_int64 ver;
        resources = some content;
        nonce = generate_nonce key cfg_type ver;
      } in
      (
        record s {
          snapshots =
              insert key (insert cfg_type snapshot (or_empty (lookup key s.snapshots))) s.snapshots;
          versions = insert key (insert cfg_type ver (or_empty (lookup key s.versions))) s.versions;
        },
        snapshot,
      )

  unchanged_or_stored :
      SnapshotStore → String → ℕ → String → Option ConfigSnapshot → SnapshotStore × Update
  unchanged_or_stored s key cfg_type content existing =
      let fresh : SnapshotStore × Update =
        let (s', snapshot) = store_snapshot s key cfg_type content in (s', stored snapshot) in
      elim existing [
        | none ↦ fresh
        | some old ↦ if same_content (some old) content then (s, unchanged old) else fresh
      ]

  unfoldable pub update_snapshot : SnapshotStore → String → String → ℕ → R → SnapshotStore × Update
  unfolding unchanged_or_stored
  update_snapshot s namespace agent_name cfg_type resources =
      let key = agent_key namespace agent_name in
      elim (codec.marshal resources) [
        | none ↦ (s, marshal_error)
        | some content ↦
            unchanged_or_stored s key cfg_type content (get_snapshot_locked s key cfg_type)
      ]
