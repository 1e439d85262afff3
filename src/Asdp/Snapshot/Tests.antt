-- ===== src/Asdp/Snapshot/Tests.antt =====
-- The snapshots of one agent, with texts as resources and as their own digests.
use aistio.Prelude.{
  ◌+◌, ◌%◌, ◌^◌, String, ◌≡◌, ◌⊎◌, refl, true, false, some, comparable_number, comparable_text,
}
use aistio.Prelude.Dict.{lookup, insert}
use aistio.Asdp.Snapshot.{
  Codec, SnapshotStore, new_snapshot_store, agent_key, get_snapshot, get_snapshot_locked,
  version_of, same_content, store_snapshot, unchanged_or_stored, update_snapshot,
}
use aistio.Asdp.Snapshot.Laws.{update_snapshot_version, IsVersioned, update_snapshot-IsVersioned}

abbrev text_codec : Codec String
text_codec = record { marshal = some; digest = λ s. s }

abbrev once : SnapshotStore
once = (update_snapshot text_codec new_snapshot_store "default" "crew" 2 "tools").0

once_version : version_of once "default/crew" 2 ≡ 1
unfolding update_snapshot unchanged_or_stored store_snapshot new_snapshot_store agent_key
    get_snapshot_locked lookup insert
once_version = refl

update_snapshot_version_example :
    let r = update_snapshot text_codec once "default" "crew" 2 "more tools" in
    ((same_content text_codec (get_snapshot once "default" "crew" 2) "more tools" ≡ true)
      × (r.0 ≡ once))
    ⊎ ((same_content text_codec (get_snapshot once "default" "crew" 2) "more tools" ≡ false)
        × (version_of r.0 (agent_key "default" "crew") 2
            ≡ (version_of once (agent_key "default" "crew") 2 + 1) % 2 ^ 64))
update_snapshot_version_example =
    update_snapshot_version text_codec once "default" "crew" 2 "more tools" "more tools" refl

new-IsVersioned : IsVersioned text_codec new_snapshot_store
unfolding new_snapshot_store get_snapshot_locked lookup
new-IsVersioned key cfg snap h = cc

update_snapshot-IsVersioned_example : IsVersioned text_codec once
update_snapshot-IsVersioned_example =
    update_snapshot-IsVersioned text_codec new_snapshot_store "default" "crew" 2 "tools"
      new-IsVersioned
