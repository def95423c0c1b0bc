-- ===== src/Client/Tests.antt =====
-- Runs and instances of the theorems on cmd/aldea/put.go and get.go.
use aldea.Prelude.{
  ℕ, ◌≡◌, refl, ap, true, false, ◌||◌, String, Option, none, some, List, [], ◌∷◌, Result, ok, arith,
}
use aldea.Prelude.Int.{pos}
use aldea.Prelude.Text.{str_eq, decimal_text, utf8, hex_text}
use aldea.Chunker.{split, split_loop, effective_size, read_full}
use aldea.Chunker.Reassemble.{append_to}
use aldea.Config.{ClientConfig, decoded_salt}
use aldea.Crypto.{encrypt, derive_key}
use aldea.Erasure.{encode, index_shards, new_encoder}
use aldea.Tracker.{FileMetadata, ShardPlacement}
use aldea.Client.{Bytes, ClientError, Services, setup, shard_id_of}
use aldea.Client.Upload.{
  OpenFile, run_put, put_file, put_chunks, put_chunk, put_shards, encrypt_shard, encrypt_shards,
  random_hex, save_upload,
}
use aldea.Client.Download.{run_get, chunk_indices, insert_key, group, node_by_id}
use aldea.Client.Ids.{shard_id_of_injective}
use aldea.Client.Network.{View}
use aldea.Client.RoundTrip.{run_get-run_put, AreReachable}
use aldea.Client.Serving.{run_put_succeeds}
use aldea.Client.Samples.{
  copies, copies-IsReedSolomon, memory, memory-IsNetwork, memory-IsServing, with_nodes, platform,
}

abbrev config : ClientConfig
config = record { tracker_addr = "t"; network_key = "K"; salt = "s" }

abbrev key : Bytes
key = 0x4b ∷ []

setup_run : setup platform (ok config) ≡ ok (config, key)
unfolding setup decoded_salt derive_key utf8
setup_run = refl

abbrev content : Bytes
content = 11 ∷ 22 ∷ 33 ∷ []

abbrev file : OpenFile
file = record {
  name = "f.txt";
  size = pos 3;
  content = record { remaining = content; fails = false };
}

abbrev services : ClientConfig → Services View
services cfg = memory

-- Nothing is stored, and all nodes answer.
abbrev fresh : View
fresh = record { nodes = []; files = λ id. none; held = λ a id. none; up = λ a. true }

abbrev uploaded : View × Result ClientError String
uploaded = run_put platform services (ok config) (some file) fresh

abbrev file_id : String
file_id = "07070707070707070707070707070707"

uploaded_run : uploaded.1 ≡ ok file_id
unfolding run_put put_file put_chunks put_chunk put_shards encrypt_shard encrypt_shards random_hex
    save_upload setup decoded_salt derive_key utf8 split split_loop effective_size read_full encode
    index_shards new_encoder encrypt shard_id_of decimal_text hex_text
uploaded_run = refl

abbrev found_of : Option (FileMetadata × List ShardPlacement) → FileMetadata × List ShardPlacement
found_of none = (
  record { file_id = ""; file_name = ""; size = pos 0; chunk_count = pos 0; created_at = pos 0 },
  [],
)
found_of (some f) = f

abbrev placed : FileMetadata × List ShardPlacement
placed = found_of (uploaded.0.files file_id)

-- Four of the eight nodes are down.
abbrev half_down : View
half_down = record uploaded.0 {
  up = λ a. str_eq a "e" || str_eq a "f" || str_eq a "g" || str_eq a "h";
}

placed_run : uploaded.0.files file_id ≡ some (placed.0, placed.1)
unfolding run_put put_file put_chunks put_chunk put_shards encrypt_shard encrypt_shards random_hex
    save_upload setup decoded_salt derive_key utf8 split split_loop effective_size read_full encode
    index_shards new_encoder encrypt shard_id_of decimal_text hex_text
placed_run = refl

reachable_run : AreReachable 4 (with_nodes half_down) placed.1
unfolding run_put put_file put_chunks put_chunk put_shards encrypt_shard encrypt_shards random_hex
    save_upload setup decoded_salt derive_key utf8 split split_loop effective_size read_full encode
    index_shards new_encoder encrypt shard_id_of decimal_text hex_text chunk_indices insert_key
    group node_by_id
reachable_run = (omega arith, tt)

run_get-run_put_example :
    (v' : View) × (run_get platform services (ok config) append_to (some []) file_id half_down
      ≡ (v', ok content))
run_get-run_put_example =
    run_get-run_put platform copies refl copies-IsReedSolomon (omega arith) services with_nodes
      (ok config) config key setup_run memory-IsNetwork file file_id fresh uploaded.0 half_down
      placed.0 placed.1 (ap (λ r. (uploaded.0, r)) uploaded_run) refl refl placed_run placed_run
      reachable_run

abbrev third : ℕ
third = 2

shard_id_of_injective_example : (third ≡ 2) × (third ≡ 2)
shard_id_of_injective_example = shard_id_of_injective "f" third 2 third 2 refl

run_put_succeeds_example :
    (w' : View) × (id : String) × (run_put platform services (ok config) (some file) fresh
      ≡ (w', ok id))
run_put_succeeds_example =
    run_put_succeeds platform copies refl copies-IsReedSolomon services (ok config) config key
      setup_run refl file fresh memory-IsServing refl
