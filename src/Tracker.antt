-- ===== src/Tracker.antt =====
-- internal/tracker/tracker.go: the coordinator's store of nodes, files and shard placements.
-- The three bbolt buckets and the JSON codecs are the section's parameter `Backend`; an `int64`
-- is a ℤ with Go's wrap-around. Each method is one transaction: it fails and changes nothing, or
-- gives the new store.
pub mod Nodes
pub mod Placement
pub mod Files
pub mod Samples
mod Tests
use aldea.Prelude.{
  ℕ, ◌≡◌, Bool, true, false, ◌&&◌, String, Option, none, some, List, [], ◌∷◌, if◌then◌else◌, keep,
  length, take, ltb, Result, ok, err, ◌>>=◌, or_fail,
}
use aldea.Prelude.Int.{ℤ, pos, negsuc, sub64, ltb_ℤ, leb_ℤ}
use aldea.Prelude.Dict.{Dict}
use aldea.Prelude.Sort.{sort_slice}
use aldea.Backend.{Bucket, Codec}

pub record NodeMetadata : Type 0 where
  pub node_id : String
  pub address : String
  pub storage_allocated : ℤ
  pub storage_used : ℤ
  pub last_seen : ℤ
  pub is_healthy : Bool

pub record FileMetadata : Type 0 where
  pub file_id : String
  pub file_name : String
  pub size : ℤ
  pub chunk_count : ℤ
  pub created_at : ℤ

pub record ShardPlacement : Type 0 where
  pub shard_id : String
  pub file_id : String
  pub chunk_index : ℤ
  pub shard_index : ℤ
  pub node_id : String
  pub original_chunk_size : ℤ

-- The store's third-party parts.
pub record Backend (B R : Type 0) : Type 0 where
  pub bucket : Bucket B R
  pub node_codec : Codec NodeMetadata R
  pub file_codec : Codec FileMetadata R
  pub placement_codec : Codec (List ShardPlacement) R

pub record Store (B : Type 0) : Type 0 where
  pub nodes : B
  pub files : B
  pub placements : B

-- `slice_panic` is the run-time panic of a slice bound below zero.
pub data StoreError : Type 0 where
  insufficient_nodes file_not_found marshal_failed unmarshal_failed put_failed slice_panic :
      StoreError

-- `StorageAllocated - StorageUsed`.
unfoldable pub free_space : NodeMetadata → ℤ
free_space n = sub64 n.storage_allocated n.storage_used

unfoldable pub is_eligible : ℤ → NodeMetadata → Bool
is_eligible required n = n.is_healthy && leb_ℤ required (free_space n)

-- The order of `sort.Slice`: more free space first.
unfoldable pub more_free : NodeMetadata → NodeMetadata → Bool
more_free a b = ltb_ℤ (free_space b) (free_space a)

-- What `SelectPlacementNodes` does with the list of all nodes.
unfoldable pub select_from : List NodeMetadata → ℤ → ℤ → Result StoreError (List NodeMetadata)
select_from nodes count required =
    let eligible = keep (is_eligible required) nodes in
    if ltb_ℤ (pos (length eligible)) count then err insufficient_nodes else elim count [
      | pos n ↦ ok (take n (sort_slice more_free eligible))
      | negsuc _ ↦ err slice_panic
    ]

-- The callback of `ForEach`: the first value that does not decode ends the walk.
unfoldable pub decode_all : {A R : Type 0} → Codec A R → Dict R → Result StoreError (List A)
decode_all c [] = ok []
decode_all c ((_, r) ∷ rest) = do
  a ← or_fail (c.unmarshal r) unmarshal_failed
  more ← decode_all c rest
  ok (a ∷ more)

module _ {B R : Type 0} (be : Backend B R) where
  open be use {bucket, node_codec, file_codec, placement_codec}

  unfoldable pub register_node : Store B → NodeMetadata → Result StoreError (Store B)
  register_node s node = do
    raw ← or_fail (node_codec.marshal node) marshal_failed
    b ← or_fail (bucket.put s.nodes node.node_id raw) put_failed
    ok (record s { nodes = b })

  unfoldable pub list_nodes : Store B → Result StoreError (List NodeMetadata)
  list_nodes s = decode_all node_codec (bucket.entries s.nodes)

  unfoldable pub select_placement_nodes : Store B → ℤ → ℤ → Result StoreError (List NodeMetadata)
  select_placement_nodes s count required = do
    nodes ← list_nodes s
    select_from nodes count required

  -- Both writes stand in one transaction.
  unfoldable pub save_file_placement :
      Store B → FileMetadata → List ShardPlacement → Result StoreError (Store B)
  save_file_placement s file placements = do
    file_data ← or_fail (file_codec.marshal file) marshal_failed
    files ← or_fail (bucket.put s.files file.file_id file_data) put_failed
    placement_data ← or_fail (placement_codec.marshal placements) marshal_failed
    placed ← or_fail (bucket.put s.placements file.file_id placement_data) put_failed
    ok (record s { files = files; placements = placed })

  unfoldable pub list_files : Store B → Result StoreError (List FileMetadata)
  list_files s = decode_all file_codec (bucket.entries s.files)

  -- A file with no placement entry has no placements.
  placements_or_nil : Option R → Result StoreError (List ShardPlacement)
  placements_or_nil none = ok []
  placements_or_nil (some raw) = or_fail (placement_codec.unmarshal raw) unmarshal_failed

  unfoldable pub get_file_placement :
      Store B → String → Result StoreError (FileMetadata × List ShardPlacement)
  unfolding placements_or_nil
  get_file_placement s file_id = do
    file_bytes ← or_fail (bucket.get s.files file_id) file_not_found
    file ← or_fail (file_codec.unmarshal file_bytes) unmarshal_failed
    placements ← placements_or_nil (bucket.get s.placements file_id)
    ok (file, placements)
