-- ===== src/TrackerServer/Tests.antt =====
-- Runs and instances of the theorems on cmd/trackerd/server.go.
use aldea.Prelude.{
  ◌≡◌, ◌⊎◌, ◌&&◌, refl, Bool, true, false, Option, some, none, List, [], ◌∷◌, ◌++◌, ok, arith,
  if◌then◌else◌,
}
use aldea.Prelude.Int.{ℤ, pos}
use aldea.Prelude.Text.{str_eq, str_eq_iff}
use aldea.Config.{TrackerConfig}
use aldea.Backend.{JsonStream}
use aldea.Samples.{Table, put_in, constant_codec, constant_stream}
use aldea.Tracker.{
  Store, NodeMetadata, FileMetadata, ShardPlacement, register_node, save_file_placement,
}
use aldea.Tracker.Samples.{
  Value, backend, empty, node, file, placements, file_value, placements_value,
}
use aldea.TrackerServer.{Bytes, Request, PlacementRecord, Platform, body_of}
use aldea.TrackerServer.Guarded.{register, save, fetch, serve, serve_changes, fetch-save}

abbrev placed : PlacementRecord
placed = record { file = file; placements = placements }

abbrev write_numbers : ℤ → ℤ → ℤ → ℤ → ℤ → ℤ → Option Bytes
write_numbers (pos a) (pos b) (pos c) (pos d) (pos e) (pos f) = some (a ∷ b ∷ c ∷ d ∷ e ∷ f ∷ [])
write_numbers _ _ _ _ _ _ = none

abbrev write_placed : FileMetadata → List ShardPlacement → Option Bytes
write_placed f (p ∷ []) =
    if str_eq f.file_id "f1"
      && str_eq f.file_name "a.txt"
      && (str_eq p.shard_id "s1" && str_eq p.file_id "f1" && str_eq p.node_id "n1")
    then write_numbers f.size f.chunk_count f.created_at p.chunk_index p.shard_index
        p.original_chunk_size
    else none
write_placed f _ = none

abbrev read_placed : Bytes → Bool → Option PlacementRecord
read_placed (a ∷ b ∷ c ∷ d ∷ e ∷ f ∷ _) fails = some (record {
  file = record {
    file_id = "f1";
    file_name = "a.txt";
    size = pos a;
    chunk_count = pos b;
    created_at = pos c;
  };
  placements =
      record {
        shard_id = "s1";
        file_id = "f1";
        chunk_index = pos d;
        shard_index = pos e;
        node_id = "n1";
        original_chunk_size = pos f;
      }
      ∷ [];
})
read_placed _ fails = none

read-write_placed :
    (f : FileMetadata) (ps : List ShardPlacement) (raw rest : Bytes) (fails : Bool)
    → write_placed f ps ≡ some raw
    → read_placed (raw ++ (10 ∷ rest)) fails ≡ some (record { file = f; placements = ps })
read-write_placed f [] raw rest fails h = absurd (ground (arith, h))
read-write_placed f (p ∷ q ∷ ps) raw rest fails h = absurd (ground (arith, h))
read-write_placed f (p ∷ []) raw rest fails h = ground (
  arith,
  h,
  str_eq_iff f.file_id "f1",
  str_eq_iff f.file_name "a.txt",
  str_eq_iff p.shard_id "s1",
  str_eq_iff p.file_id "f1",
  str_eq_iff p.node_id "n1",
)

-- A stream codec that knows one file with one placement, whatever their numbers.
abbrev placement_json : JsonStream PlacementRecord
placement_json = record {
  marshal = λ r. write_placed r.file r.placements;
  decode = read_placed;
  decode-marshal = λ r raw rest fails h. read-write_placed r.file r.placements raw rest fails h;
}

abbrev platform : Platform (Table Value) Value
platform = record {
  backend = backend;
  node_json = constant_codec (node "n1" (pos 100) (pos 5));
  nodes_json = constant_stream [];
  select_json = constant_stream (record { count = pos 1; required_space = pos 10 });
  placement_json = placement_json;
  error_text = λ e. "error";
}

abbrev config : TrackerConfig
config = record { listen_addr = ":8000"; db_path = "/data/db"; network_key = "k" }

abbrev request : Request
request = record {
  key = "k";
  body = record { content = 3 ∷ 1 ∷ 9 ∷ 0 ∷ 0 ∷ 3 ∷ 10 ∷ []; fails = true };
}

abbrev whole : Request
whole = record { key = "k"; body = record { content = 1 ∷ []; fails = false } }

abbrev saved : Store (Table Value)
saved = record empty {
  files = put_in ([], tt) "f1" (file_value file);
  placements = put_in ([], tt) "f1" (placements_value placements);
}

saved_run : save_file_placement backend empty file placements ≡ ok saved
unfolding save_file_placement
saved_run = refl

serve_changes_example :
    ((serve platform config register empty whole).0 ≡ empty)
    ⊎ ((str_eq "k" "k" ≡ true)
        × (((raw : Bytes) × (n : NodeMetadata) × (register ≡ register)
              × (some (1 ∷ []) ≡ some raw)
              × (some (node "n1" (pos 100) (pos 5)) ≡ some n)
              × (register_node backend empty n ≡ ok (serve platform config register empty whole).0))
            ⊎ ((req : PlacementRecord) × (register ≡ save)
                × (body_of placement_json whole ≡ some req)
                × (save_file_placement backend empty req.file req.placements
                    ≡ ok (serve platform config register empty whole).0))))
serve_changes_example = serve_changes platform config register empty whole

fetch-save_example :
    ((serve platform config save empty request).0 ≡ saved)
    × ((serve platform config save empty request).1.status ≡ 200)
    × ((serve platform config (fetch "f1") saved request).0 ≡ saved)
    × ((serve platform config (fetch "f1") saved request).1.status ≡ 200)
    × ((serve platform config (fetch "f1") saved request).1.body ≡ 3 ∷ 1 ∷ 9 ∷ 0 ∷ 0 ∷ 3 ∷ 10 ∷ [])
    × (read_placed (serve platform config (fetch "f1") saved request).1.body false ≡ some placed)
fetch-save_example =
    fetch-save platform config empty saved request request placed (3 ∷ 1 ∷ 9 ∷ 0 ∷ 0 ∷ 3 ∷ []) refl
      refl refl saved_run refl
