-- ===== src/Snapshot.antt =====
-- internal/snapshot/snapshot.go: the table of volume snapshots. The volume's content is an argument,
-- `none` where it cannot be read; SHA-256, writing a file and the clock are parameters. As in
-- the source, restoring writes a fixed text.
pub mod Table
use aldea.Prelude.{
  ℕ, ◌≡◌, Bool, true, false, not, ◌||◌, ◌&&◌, String, Option, none, some, List, [], ◌∷◌, ◌++◌,
  Result, ok, err, if◌then◌else◌, length, take, ◌/◌, ◌%◌, ltb, ◌+◌,
}
use aldea.Prelude.Int.{ℤ, pos, ltb_ℤ}
use aldea.Prelude.Dict.{Dict, lookup, insert}
use aldea.Prelude.Text.{str_eq, utf8, decimal_text, joined}

pub data SnapshotError : Type 0 where
  snapshot_not_found : SnapshotError
  invalid_volume : SnapshotError
  write_failed : SnapshotError

-- `storage_file_id` is kept as its bytes.
pub record SnapshotMetadata : Type 0 where
  pub snapshot_id : String
  pub workload_id : String
  pub storage_file_id : List ℕ
  pub size_bytes : ℤ
  pub created_at : ℤ

abbrev pub Engine : Type 0
Engine = Dict SnapshotMetadata

abbrev hex_digit : ℕ → ℕ
hex_digit n = if ltb n 10 then 0x30 + n else 0x57 + n

-- `hex.EncodeToString`
unfoldable pub hex : List ℕ → List ℕ
hex [] = []
hex (b ∷ rest) = hex_digit (b / 16) ∷ hex_digit (b % 16) ∷ hex rest

unfoldable pub create_snapshot :
    (List ℕ → List ℕ)
    → ℤ
    → ℤ
    → String
    → Option (List ℕ)
    → Engine
    → Engine × Result SnapshotError SnapshotMetadata
create_snapshot sha256 now_unix created_at workload_id none e = (e, err invalid_volume)
create_snapshot sha256 now_unix created_at workload_id (some content) e =
    let id = joined ("snap-" ∷ workload_id ∷ "-" ∷ decimal_text now_unix ∷ []) in
    let meta : SnapshotMetadata = record {
      snapshot_id = id;
      workload_id = workload_id;
      storage_file_id = utf8 "p2p-file-" ++ hex (take 8 (sha256 content));
      size_bytes = pos (length content);
      created_at = created_at;
    } in
    (insert id meta e, ok meta)

abbrev pub dummy_restored_data : List ℕ
dummy_restored_data = utf8 "postgres-database-snapshot-content-v1"

-- Writing a file gives the files after it, and whether it succeeded.
unfoldable pub restore_snapshot :
    {W : Type 0}
    → (W → String → List ℕ → W × Bool)
    → String
    → String
    → Engine
    → W
    → W × Option SnapshotError
restore_snapshot write_file id target_path e w = elim (lookup id e) [
  | none ↦ (w, some snapshot_not_found)
  | some meta ↦
      if ltb_ℤ (pos 0) meta.size_bytes && not (str_eq meta.workload_id "")
      then (let (w', written) = write_file w target_path dummy_restored_data in
          (w', if written then none else some write_failed))
      else (w, none)
]

-- In the order of the map's entries, which Go leaves open.
unfoldable pub list_snapshots : String → Engine → List SnapshotMetadata
list_snapshots workload_id [] = []
list_snapshots workload_id ((_, meta) ∷ e) =
    if str_eq workload_id "" || str_eq meta.workload_id workload_id
    then meta ∷ list_snapshots workload_id e
    else list_snapshots workload_id e
