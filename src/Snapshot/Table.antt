-- ===== src/Snapshot/Table.antt =====
-- Taking and restoring snapshots (internal/snapshot/snapshot.go).
use aldea.Prelude.{
  ℕ, ◌≡◌, refl, ◌∙◌, Bool, String, none, some, List, [], ◌∷◌, ok, arith, length, take, ◌++◌, ◌<◌,
  ◌≢◌, if◌then◌else◌,
}
use aldea.Prelude.Int.{ℤ, pos}
use aldea.Prelude.Dict.{lookup, insert, lookup-insert}
use aldea.Prelude.Text.{str_eq_iff, str_eq_refl, joined, decimal_text, utf8}
use aldea.Snapshot.{
  Engine, SnapshotMetadata, snapshot_not_found, write_failed, create_snapshot, restore_snapshot,
  dummy_restored_data, hex,
}

-- A snapshot of a named workload's volume that is not empty can be restored, and what is then
-- written is the fixed text, whatever the volume held. An unknown snapshot is refused.
pub restore-create :
    {W : Type 0} (write_file : W → String → List ℕ → W × Bool) (sha256 : List ℕ → List ℕ)
    (now at : ℤ) (workload_id : String) (content : List ℕ) (e : Engine) (path : String) (w : W)
    → workload_id ≢ ""
    → 0 < length content
    → (meta : SnapshotMetadata) × ((create_snapshot sha256 now at workload_id (some content) e).1
        ≡ ok meta)
      × (meta.size_bytes ≡ pos (length content))
      × (restore_snapshot write_file meta.snapshot_id path
            (create_snapshot sha256 now at workload_id (some content) e).0
            w
          ≡ (
            (write_file w path dummy_restored_data).0,
            (if (write_file w path dummy_restored_data).1 then none else some write_failed),
          ))
      × ((id : String)
          → lookup id e ≡ none
          → restore_snapshot write_file id path e w ≡ (w, some snapshot_not_found))
unfolding create_snapshot restore_snapshot
restore-create write_file sha256 now at workload_id content e path w named filled =
    let id = joined ("snap-" ∷ workload_id ∷ "-" ∷ decimal_text now ∷ []) in
    let meta : SnapshotMetadata = record {
      snapshot_id = id;
      workload_id = workload_id;
      storage_file_id = utf8 "p2p-file-" ++ hex (take 8 (sha256 content));
      size_bytes = pos (length content);
      created_at = at;
    } in
    let same = str_eq_refl id in
    let found : lookup id (insert id meta e) ≡ some meta =
      lookup-insert id id meta e ∙ rw same refl in
    (
      meta,
      refl,
      refl,
      ground (arith, found, str_eq_iff workload_id "", named, filled),
      λ k n. ground (arith, n),
    )
