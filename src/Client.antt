-- ===== src/Client.antt =====
-- cmd/aldea: what the client's upload (Upload, put.go) and download (Download, get.go) share. The
-- calls of the tracker and of the storage nodes are the fields of `Services`, which Calls fills
-- with the HTTP requests; the state `W` is the network and all else outside the program.
pub mod Upload
pub mod Download
pub mod Messages
pub mod Calls
pub mod Ids
pub mod Network
pub mod Stored
pub mod Uploaded
pub mod Grouping
pub mod Recovered
pub mod Downloaded
pub mod RoundTrip
pub mod Serving
pub mod Samples
mod Tests
use aldea.Prelude.{
  ℕ, ◌≡◌, ◌&&◌, Bool, true, false, String, Option, none, some, List, [], ◌∷◌, ◌+◌, Result, ok, err,
  ◌>>=◌, or_fail, if◌then◌else◌, keep,
}
use aldea.Prelude.Int.{ℤ, pos, eqb_ℤ, ltb_ℤ}
use aldea.Prelude.Text.{str_eq, utf8, decimal_text, joined}
use aldea.Prelude.Eff.{Eff}
use aldea.Chunker.{ReassembleError}
use aldea.Config.{ClientConfig, ConfigError, decoded_salt}
use aldea.Crypto.{Aead, Argon2, derive_key}
use aldea.Erasure.{RsEncoder, default_data_shards, default_parity_shards}
use aldea.Tracker.{NodeMetadata, FileMetadata, ShardPlacement}

abbrev pub Bytes : Type 0
Bytes = List ℕ

pub data ClientError : Type 0 where
  config_failed salt_failed key_failed open_failed split_failed encoder_failed : ClientError
  encode_failed encrypt_failed reconstruct_failed create_failed : ClientError
  request_failed bad_status malformed_reply message_failed : ClientError
  index_panic : ClientError
  reassemble_failed : ReassembleError → ClientError

-- What the client asks of the network and of the system.
pub record Services (W : Type 0) : Type 0 where
  pub select_nodes : ℕ → Eff W ClientError (List NodeMetadata)
  pub put_shard : NodeMetadata → String → Bytes → Eff W ClientError (Unit {0})
  pub save_file_placement : FileMetadata → List ShardPlacement → Eff W ClientError (Unit {0})
  pub get_file_placement : String → Eff W ClientError (FileMetadata × List ShardPlacement)
  pub list_nodes : Eff W ClientError (List NodeMetadata)
  pub get_shard : NodeMetadata → String → Eff W ClientError Bytes
  -- `rand.Read` of so many bytes, and the clock in seconds.
  pub random : ℕ → W → W × Option Bytes
  pub clock : W → W × ℤ

-- The program's other third-party parts.
pub record Platform : Type 0 where
  pub sha256 : Bytes → Bytes
  pub argon2 : Argon2
  pub aead : Aead
  pub rs_new : ℕ → ℕ → Option RsEncoder
  pub decode_base64 : String → Option Bytes

-- An error of a callee, wrapped.
abbrev pub wrap : {E A : Type 0} → ClientError → Result E A → Result ClientError A
wrap e (ok a) = ok a
wrap e (err _) = err e

-- The first steps of both commands: the configuration and the key of the network's files.
unfoldable pub setup :
    Platform → Result ConfigError ClientConfig → Result ClientError (ClientConfig × Bytes)
setup p loaded = do
  cfg ← wrap config_failed loaded
  salt ← wrap salt_failed (decoded_salt p.decode_base64 cfg)
  key ← wrap key_failed (derive_key p.argon2 (utf8 cfg.network_key) salt)
  ok (cfg, key)

-- `"%s-c%d-s%d"`
unfoldable pub shard_id_of : String → ℤ → ℕ → String
shard_id_of file_id chunk i =
    joined (file_id ∷ "-c" ∷ decimal_text chunk ∷ "-s" ∷ decimal_text (pos i) ∷ [])
