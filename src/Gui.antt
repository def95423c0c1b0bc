-- ===== src/Gui.antt =====
-- gui/app.go: the state of the desktop application and what its window calls. The lock makes each
-- call one step. The clock (in nanoseconds), the random source and the directory of shards are
-- parameters; the token's parameters are those of `Invite`.
pub mod Reachable
pub mod Joining
mod Tests
use aldea.Prelude.{
  ℕ, ◌+◌, ◌*◌, not, Bool, true, false, String, Option, none, some, List, [], ◌∷◌, ◌++◌, replicate,
  Result, ok, err, if◌then◌else◌, length, map,
}
use aldea.Prelude.Int.{ℤ, pos, pos_part, leb_ℤ, add64}
use aldea.Prelude.Dict.{Dict}
use aldea.Prelude.Text.{decimal_text, joined}
use aldea.Prelude.Eff.{Eff, ◌>>=◌, ◌>>◌, pure, lift}
use aldea.Backend.{Codec, Base64}
use aldea.Chunker.{Chunk, split}
use aldea.Crypto.{encrypt, new_salt, derive_key}
use aldea.Erasure.{Encoder, Shard, encode, new_encoder}
use aldea.Invite.{InviteToken, InviteError, new_token_manager, create_token, validate_and_use, unix}
use aldea.Metrics.{Collector, PeerMetric, new_collector, get_snapshot}
use aldea.Runtime.{
  Engine, ContainerState, ContainerStatus, new_engine, list_workloads, state_running, state_stopped,
  state_error,
}
use aldea.Scheduler.{Float}
use aldea.Client.{Bytes, Platform}
use aldea.Client.Upload.{split_result}

pub record FileDto : Type 0 where
  pub file_id : String
  pub file_name : String
  pub size : ℤ
  pub created_at : ℤ

pub record NodeStatusDto : Type 0 where
  pub configured : Bool
  pub node_id : String
  pub tracker_addr : String
  pub storage_allocated : ℤ
  pub storage_used : ℤ
  pub peer_count : ℤ
  pub is_healthy : Bool
  pub state_label : String

pub record ComputeWorkloadDto : Type 0 where
  pub workload_id : String
  pub name : String
  pub image : String
  pub state : String
  pub ip_address : List ℕ

pub record PeerMetricDto : Type 0 where
  pub node_id : String
  pub os : String
  pub latency_ms : ℤ
  pub is_healthy : Bool

pub record NetworkMetricsDto (F : Type 0) : Type 0 where
  pub upload_speed : F
  pub download_speed : F
  pub peers : List PeerMetricDto

pub record App : Type 0 where
  pub configured : Bool
  pub paused : Bool
  pub node_id : String
  pub tracker_addr : String
  pub network_key : Bytes
  pub signing_key : Bytes
  pub storage_alloc : ℤ
  pub files : List FileDto
  pub runtime_engine : Engine
  pub metrics_collector : Collector

pub data GuiError : Type 0 where
  random_failed bad_allocation split_failed encoder_failed salt_failed key_failed : GuiError
  encode_failed encrypt_failed write_failed : GuiError
  token_failed : InviteError → GuiError

-- 5 GB.
abbrev pub default_alloc : ℕ
default_alloc = 5 * 1024 * 1024 * 1024

-- The two keys are what `rand.Read` left in the buffers.
unfoldable pub new_app : Bytes → Bytes → App
new_app signing_key net_key = record {
  configured = false;
  paused = false;
  node_id = "";
  tracker_addr = "";
  network_key = net_key;
  signing_key = signing_key;
  storage_alloc = pos default_alloc;
  files = [];
  runtime_engine = new_engine;
  metrics_collector = new_collector;
}

-- 24 hours, in nanoseconds.
abbrev pub invite_ttl : ℤ
invite_ttl = pos (24 * 3600 * 1_000_000_000)

module _ (hmac : Bytes → Bytes → Bytes) (base64 : Base64) (tokens : Codec InviteToken Bytes) where
  abbrev pub created : Result InviteError Bytes → Result GuiError Bytes
  created (ok tok) = ok tok
  created (err e) = err (token_failed e)

  -- The state is set before the token is made.
  unfoldable pub create_network :
      Option Bytes → Option String → ℤ → String → App → App × Result GuiError Bytes
  create_network none random_id now tracker_addr a = (a, err random_failed)
  create_network (some net_key) random_id now tracker_addr a =
      let m = new_token_manager a.signing_key in
      (
        record a {
          network_key = net_key;
          tracker_addr = tracker_addr;
          node_id = "node-gui-owner";
          configured = true;
        },
        created (
            create_token hmac base64 tokens m random_id now tracker_addr net_key invite_ttl
              (pos 10)),
      )

  -- What `JoinNetwork` does with a validated token.
  abbrev pub joined_with : App → Result InviteError InviteToken → App × Result GuiError (Unit {0})
  joined_with a (err e) = (a, err (token_failed e))
  joined_with a (ok tok) = (
    record a {
      tracker_addr = tok.tracker_addr;
      network_key = tok.network_key;
      node_id = "node-gui-member";
      configured = true;
    },
    ok tt,
  )

  -- The token manager is made for this call and dropped after it.
  unfoldable pub join_network : ℤ → Bytes → App → App × Result GuiError (Unit {0})
  join_network now token a =
      joined_with a
        (validate_and_use hmac base64 tokens (new_token_manager a.signing_key) now token).1

abbrev pub is_paused : App → Bool
is_paused a = a.paused

unfoldable pub pause_node : Bool → App → App
pause_node paused a = record a { paused = paused }

-- The sizes of the entries, `none` where `Info` fails.
unfoldable pub sum_infos : ℤ → List (Option ℤ) → ℤ
sum_infos used [] = used
sum_infos used (none ∷ infos) = sum_infos used infos
sum_infos used (some n ∷ infos) = sum_infos (add64 used n) infos

unfoldable pub get_node_status : List (Option ℤ) → App → NodeStatusDto
get_node_status infos a = record {
  configured = a.configured;
  node_id = a.node_id;
  tracker_addr = a.tracker_addr;
  storage_allocated = a.storage_alloc;
  storage_used = sum_infos (pos 0) infos;
  peer_count = pos 0;
  is_healthy = not a.paused;
  state_label = if a.paused then "PAUSED" else "ONLINE";
}

unfoldable pub set_storage_allocation : ℤ → App → App × Result GuiError (Unit {0})
set_storage_allocation allocated a =
    if leb_ℤ allocated (pos 0)
    then (a, err bad_allocation)
    else (record a { storage_alloc = allocated }, ok tt)

abbrev pub list_files : App → List FileDto
list_files a = a.files

-- The system: the clock, `rand.Read` of so many bytes, and a write of a file among the shards.
pub record System (W : Type 0) : Type 0 where
  pub clock : W → W × ℤ
  pub random : ℕ → W → W × Option Bytes
  pub write_shard : String → Bytes → W → W × Bool

-- `size <= 0` stands for 1 MB.
unfoldable pub upload_size : ℤ → ℤ
upload_size size = if leb_ℤ size (pos 0) then pos (1024 * 1024) else size

module _ {W : Type 0} (p : Platform) (sys : System W) where
  -- `crypto.NewSalt`, which reads 32 bytes.
  abbrev salted : Eff W GuiError Bytes
  salted w = let (w', salt) = sys.random 32 w in lift salt_failed (new_salt salt) w'

  unfoldable pub seal_shard : Bytes → Shard → Eff W GuiError Bytes
  seal_shard key shard w =
      let (w', drawn) = sys.random p.aead.nonce_size w in
      lift encrypt_failed (encrypt p.aead drawn shard.content key) w'

  abbrev written : W × Bool → W × Result GuiError (Unit {0})
  written (w, true) = (w, ok tt)
  written (w, false) = (w, err write_failed)

  -- `"%s_c%d_s%d.shard"`
  abbrev pub shard_file_name : String → ℕ → ℕ → String
  shard_file_name file_id chunk i =
      joined
        (file_id ∷ "_c" ∷ decimal_text (pos chunk) ∷ "_s" ∷ decimal_text (pos i) ∷ ".shard" ∷ [])

  -- The loop over the shards of a chunk, from shard `i` on.
  unfoldable pub write_shards : Bytes → String → ℕ → ℕ → List Shard → Eff W GuiError (Unit {0})
  write_shards key file_id chunk i [] = pure tt
  write_shards key file_id chunk i (shard ∷ shards) = do
    ct ← seal_shard key shard
    (λ w. written (sys.write_shard (shard_file_name file_id chunk i) ct w))
    write_shards key file_id chunk (i + 1) shards

  -- The loop over the chunks, from chunk `c` on.
  unfoldable pub write_chunks :
      Bytes → Encoder → String → ℕ → List Chunk → Eff W GuiError (Unit {0})
  write_chunks key enc file_id c [] = pure tt
  write_chunks key enc file_id c (chunk ∷ chunks) = do
    shards ← lift encode_failed (encode enc chunk.content)
    write_shards key file_id c 0 shards
    write_chunks key enc file_id (c + 1) chunks

  abbrev pub reading_clock : Eff W GuiError ℤ
  reading_clock w = let (w', now) = sys.clock w in (w', ok now)

  -- The shards of the file on the disk, and its identifier. The content is as many times the
  -- letter A as the size says.
  unfoldable pub store_file : ℤ → Bytes → Eff W GuiError String
  store_file size network_key = do
    chunks ← lift split_failed (
        split_result (
          split p.sha256 (record { remaining = replicate (pos_part size) b'A'; fails = false })
            (pos (4 * 1024 * 1024))))
    enc ← lift encoder_failed (new_encoder p.rs_new (pos 4) (pos 4))
    salt ← salted
    key ← lift key_failed (derive_key p.argon2 network_key salt)
    now ← reading_clock
    let file_id = joined ("file-" ∷ decimal_text now ∷ [])
    write_chunks key enc file_id 0 chunks
    pure file_id

  abbrev pub with_file : App → String → String → ℤ → ℤ → App
  with_file a file_id file_name size now = record a {
    files =
        a.files
        ++ (record { file_id = file_id; file_name = file_name; size = size; created_at = unix now }
            ∷ []);
  }

  -- The application after the upload.
  unfoldable pub upload_file : String → ℤ → App → Eff W GuiError App
  upload_file file_name size a = do
    file_id ← store_file (upload_size size) a.network_key
    now ← reading_clock
    pure (with_file a file_id file_name (upload_size size) now)

-- `string(c.State)`
abbrev state_text : ContainerState → String
state_text state_running = "running"
state_text state_stopped = "stopped"
state_text state_error = "error"

abbrev workload_of : ContainerStatus → ComputeWorkloadDto
workload_of c = record {
  workload_id = c.workload_id;
  name = c.name;
  image = c.image;
  state = state_text c.state;
  ip_address = c.ip_address;
}

unfoldable pub get_compute_workloads : App → List ComputeWorkloadDto
get_compute_workloads a = map workload_of (list_workloads a.runtime_engine)

-- The peers, in the order of the map's entries.
unfoldable pub peers_of : Dict PeerMetric → List PeerMetricDto
peers_of [] = []
peers_of ((id, m) ∷ peers) =
    record { node_id = id; os = "linux"; latency_ms = m.latency_ms; is_healthy = m.is_healthy }
    ∷ peers_of peers

unfoldable pub get_network_metrics : {F : Type 0} → Float F → App → NetworkMetricsDto F
get_network_metrics fl a =
    let snapshot = get_snapshot fl a.metrics_collector in
    record {
      upload_speed = fl.div (fl.of_int snapshot.bytes_sent_total) (fl.of_int (pos 1024));
      download_speed = fl.div (fl.of_int snapshot.bytes_received_total) (fl.of_int (pos 1024));
      peers = peers_of snapshot.peers;
    }
