-- ===== src/Tracker/Samples.antt =====
-- A concrete store of internal/tracker/tracker.go for the tests, its values kept as they are.
use aldea.Prelude.{◌≡◌, true, String, Option, none, some, List, [], ◌∷◌, arith}
use aldea.Prelude.Int.{ℤ, pos}
use aldea.Prelude.Dict.{lookup}
use aldea.Samples.{Table, table_bucket}
use aldea.Tracker.{Backend, Store, NodeMetadata, FileMetadata, ShardPlacement}
use aldea.Tracker.Nodes.{IsNodeStore}

pub data Value : Type 0 where
  node_value : NodeMetadata → Value
  file_value : FileMetadata → Value
  placements_value : List ShardPlacement → Value

abbrev pub node_in : Value → Option NodeMetadata
node_in (node_value n) = some n
node_in (file_value f) = none
node_in (placements_value ps) = none

abbrev pub file_in : Value → Option FileMetadata
file_in (node_value n) = none
file_in (file_value f) = some f
file_in (placements_value ps) = none

abbrev pub placements_in : Value → Option (List ShardPlacement)
placements_in (node_value n) = none
placements_in (file_value f) = none
placements_in (placements_value ps) = some ps

pub node_back : (n : NodeMetadata) (r : Value) → some (node_value n) ≡ some r → node_in r ≡ some n
node_back n r e = ground (arith, e)

pub file_back : (f : FileMetadata) (r : Value) → some (file_value f) ≡ some r → file_in r ≡ some f
file_back f r e = ground (arith, e)

pub placements_back :
    (ps : List ShardPlacement) (r : Value)
    → some (placements_value ps) ≡ some r
    → placements_in r ≡ some ps
placements_back ps r e = ground (arith, e)

abbrev pub backend : Backend (Table Value) Value
backend = record {
  bucket = table_bucket;
  node_codec = record {
    marshal = λ n. some (node_value n);
    unmarshal = node_in;
    unmarshal-marshal = node_back;
  };
  file_codec = record {
    marshal = λ f. some (file_value f);
    unmarshal = file_in;
    unmarshal-marshal = file_back;
  };
  placement_codec = record {
    marshal = λ ps. some (placements_value ps);
    unmarshal = placements_in;
    unmarshal-marshal = placements_back;
  };
}

abbrev pub empty : Store (Table Value)
empty = record { nodes = ([], tt); files = ([], tt); placements = ([], tt) }

pub empty-IsNodeStore : IsNodeStore backend empty
unfolding lookup
empty-IsNodeStore = record { filed = λ k r e. absurd (ground (arith, e)) }

-- A node with an identifier, some free space, and the time of its last report.
abbrev pub node : String → ℤ → ℤ → NodeMetadata
node id free seen = record {
  node_id = id;
  address = "10.0.0.7:9000";
  storage_allocated = free;
  storage_used = pos 0;
  last_seen = seen;
  is_healthy = true;
}

abbrev pub file : FileMetadata
file = record {
  file_id = "f1";
  file_name = "a.txt";
  size = pos 3;
  chunk_count = pos 1;
  created_at = pos 9;
}

abbrev pub placements : List ShardPlacement
placements =
    record {
      shard_id = "s1";
      file_id = "f1";
      chunk_index = pos 0;
      shard_index = pos 0;
      node_id = "n1";
      original_chunk_size = pos 3;
    }
    ∷ []
