-- ===== src/Repair/Tests.antt =====
-- Instances of the theorems on internal/repair/repair.go: one node has failed, and its two shards move.
use aldea.Prelude.{
  ◌≡◌, refl, ap, false, String, some, List, [], ◌∷◌, map, Result, ok, ◌⊎◌, replicate,
}
use aldea.Prelude.Int.{ℤ, pos, sub64, wrap64, ◌-ℤ◌}
use aldea.Prelude.Dict.{insert}
use aldea.Prelude.Sort.{sort_slice}
use aldea.Samples.{Table, put_in}
use aldea.Crypto.{encrypt, decrypt}
use aldea.Erasure.{Encoder, encode, reconstruct, index_shards, place, rebuild}
use aldea.Tracker.{
  Store, NodeMetadata, ShardPlacement, list_nodes, select_placement_nodes, select_from, decode_all,
  is_eligible, more_free, free_space, save_file_placement, get_file_placement,
}
use aldea.Tracker.Samples.{Value, backend, empty, node, file, node_value}
use aldea.Client.{Bytes}
use aldea.Client.Download.{
  usable, node_by_id, group, chunk_indices, insert_key, empty_shards, set_content,
}
use aldea.Client.Samples.{copies, platform}
use aldea.Repair.{
  Field, Links, RepairError, contains, any_lost, gather, fetch_plain, replace_one, replace_lost,
  rebuild_chunk, repair_chunks, repair_file, has_failed,
}
use aldea.Repair.Repaired.{repair_file-relocated}
use aldea.Repair.Relocated.{relocated}

abbrev spare : NodeMetadata
spare = node "n3" (pos 100) (pos 50)

-- The store knows the spare node alone.
abbrev with_spare : Store (Table Value)
with_spare = record empty { nodes = put_in ([], tt) "n3" (node_value spare) }

abbrev key : Bytes
key = 0x4b ∷ []

-- A node gives every shard, sealed under the key, and takes every shard.
abbrev links : Links (Unit {0})
links = record {
  fetch = λ n id w. (w, ok (7 ∷ 7 ∷ 0x4b ∷ 11 ∷ 22 ∷ 33 ∷ []));
  upload = λ n id content w. (w, ok tt);
  random = λ n w. (w, some (replicate n 7));
}

abbrev placed : ℤ → String → ShardPlacement
placed i id = record {
  shard_id = "s";
  file_id = "f1";
  chunk_index = pos 0;
  shard_index = i;
  node_id = id;
  original_chunk_size = pos 3;
}

abbrev placements : List ShardPlacement
placements = placed (pos 0) "n1" ∷ placed (pos 1) "n2" ∷ placed (pos 2) "n1" ∷ []

abbrev enc : Encoder
enc = record { data_shards = 1; parity_shards = 7; rs = copies }

abbrev healthy : List NodeMetadata
healthy = node "n2" (pos 9) (pos 50) ∷ []

abbrev before : Field (Table Value) (Unit {0})
before = record { store = with_spare; world = tt; repaired = 0 }

abbrev run : Field (Table Value) (Unit {0}) × Result RepairError (Unit {0})
run =
    repair_file backend platform links key ("n1" ∷ []) (λ cis. cis) enc healthy file placements
      before

selected_run : select_placement_nodes backend with_spare (pos 1) (pos 0) ≡ ok (spare ∷ [])
unfolding select_placement_nodes list_nodes decode_all insert select_from is_eligible more_free
    free_space sub64 wrap64 ◌-ℤ◌ sort_slice
selected_run = refl

repaired_run : run.1 ≡ ok tt
unfolding repair_file repair_chunks replace_lost replace_one rebuild_chunk gather fetch_plain
    any_lost contains usable node_by_id group chunk_indices insert_key empty_shards set_content
    select_placement_nodes list_nodes decode_all insert select_from is_eligible more_free free_space
    save_file_placement encode reconstruct index_shards place rebuild encrypt decrypt sub64 wrap64
    ◌-ℤ◌ sort_slice
repaired_run = refl

listed_run : list_nodes backend with_spare ≡ ok (spare ∷ [])
unfolding list_nodes decode_all insert
listed_run = refl

sound_run : has_failed (pos 70) (pos 60) spare ≡ false
unfolding sub64 wrap64 ◌-ℤ◌
sound_run = refl

repair_file-relocated_example :
    (run.0.store ≡ with_spare) × (map (relocated ("n1" ∷ []) spare) placements ≡ placements)
    ⊎ (get_file_placement backend run.0.store "f1"
        ≡ ok (file, map (relocated ("n1" ∷ []) spare) placements))
repair_file-relocated_example =
    repair_file-relocated backend platform links key ("n1" ∷ []) spare (λ cis. cis) enc healthy file
      placements before run.0 (λ cs c h. h) selected_run (ap (λ r. (run.0, r)) repaired_run)
