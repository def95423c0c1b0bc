-- ===== src/Client/Upload.antt =====
-- cmd/aldea/put.go: `runPut`.
use aldea.Prelude.{
  ℕ, ◌+◌, String, Option, none, some, List, [], ◌∷◌, ◌++◌, length, replicate, Result, ok, err,
}
use aldea.Prelude.Int.{ℤ, pos}
use aldea.Prelude.Text.{hex_text}
use aldea.Prelude.Eff.{Eff, ◌>>=◌, ◌>>◌, pure, fail, lift}
use aldea.Chunker.{Chunk, Reader, SplitError, split}
use aldea.Config.{ClientConfig, ConfigError}
use aldea.Crypto.{encrypt}
use aldea.Erasure.{Encoder, Shard, encode, new_encoder, default_data_shards, default_parity_shards}
use aldea.Tracker.{NodeMetadata, FileMetadata, ShardPlacement}
use aldea.Client.{
  Bytes, ClientError, Services, Platform, setup, shard_id_of, wrap, open_failed, split_failed,
  encoder_failed, encode_failed, encrypt_failed, index_panic,
}

-- An opened file: its name and size, and its content.
pub record OpenFile : Type 0 where
  pub name : String
  pub size : ℤ
  pub content : Reader

-- The model's fuel never runs out: see `Chunker.Split`.
abbrev pub split_result : Option (Result SplitError (List Chunk)) → Result ClientError (List Chunk)
split_result none = err split_failed
split_result (some r) = wrap split_failed r

-- The buffer after `rand.Read`, whose error is ignored.
abbrev pub bytes_or_zero : ℕ → Option Bytes → Bytes
bytes_or_zero n none = replicate n 0
bytes_or_zero n (some b) = b

module _ {W : Type 0} (p : Platform) (s : Services W) where
  -- `Encrypt` of one shard with a nonce from the random source.
  unfoldable pub encrypt_shard : Bytes → Shard → Eff W ClientError Bytes
  encrypt_shard key shard w =
      let (w', nonce) = s.random p.aead.nonce_size w in
      lift encrypt_failed (encrypt p.aead nonce shard.content key) w'

  unfoldable pub encrypt_shards : Bytes → List Shard → Eff W ClientError (List Bytes)
  encrypt_shards key [] = pure []
  encrypt_shards key (shard ∷ shards) = do
    ct ← encrypt_shard key shard
    rest ← encrypt_shards key shards
    pure (ct ∷ rest)

  -- The placement of shard `i` of a chunk.
  abbrev pub placement_of : String → Chunk → ℕ → NodeMetadata → ShardPlacement
  placement_of file_id chunk i node = record {
    shard_id = shard_id_of file_id chunk.index i;
    file_id = file_id;
    chunk_index = chunk.index;
    shard_index = pos i;
    node_id = node.node_id;
    original_chunk_size = pos (length chunk.content);
  }

  -- The loop over the nodes, from shard `i` on. A node too many is an index out of range.
  unfoldable pub put_shards :
      String → Chunk → ℕ → List NodeMetadata → List Bytes → Eff W ClientError (List ShardPlacement)
  put_shards file_id chunk i [] cts = pure []
  put_shards file_id chunk i (node ∷ nodes) [] = fail index_panic
  put_shards file_id chunk i (node ∷ nodes) (ct ∷ cts) = do
    s.put_shard node (shard_id_of file_id chunk.index i) ct
    rest ← put_shards file_id chunk (i + 1) nodes cts
    pure (placement_of file_id chunk i node ∷ rest)

  unfoldable pub put_chunk :
      Bytes → Encoder → String → Chunk → Eff W ClientError (List ShardPlacement)
  put_chunk key enc file_id chunk = do
    shards ← lift encode_failed (encode enc chunk.content)
    cts ← encrypt_shards key shards
    nodes ← s.select_nodes (length shards)
    put_shards file_id chunk 0 nodes cts

  unfoldable pub put_chunks :
      Bytes → Encoder → String → List Chunk → Eff W ClientError (List ShardPlacement)
  put_chunks key enc file_id [] = pure []
  put_chunks key enc file_id (chunk ∷ chunks) = do
    ps ← put_chunk key enc file_id chunk
    rest ← put_chunks key enc file_id chunks
    pure (ps ++ rest)

  -- `randomHex(16)`; without an error from the source the bytes are its.
  unfoldable pub random_hex : ℕ → Eff W ClientError String
  random_hex n w = let (w', b) = s.random n w in (w', ok (hex_text (bytes_or_zero n b)))

  -- The metadata of an uploaded file.
  abbrev pub metadata_of : String → OpenFile → List Chunk → ℤ → FileMetadata
  metadata_of file_id file chunks now = record {
    file_id = file_id;
    file_name = file.name;
    size = file.size;
    chunk_count = pos (length chunks);
    created_at = now;
  }

  unfoldable pub save_upload :
      String → OpenFile → List Chunk → List ShardPlacement → Eff W ClientError String
  save_upload file_id file chunks placements w =
      let (w', now) = s.clock w in
      (s.save_file_placement (metadata_of file_id file chunks now) placements >> pure file_id) w'

  -- What follows the opening of the file.
  unfoldable pub put_file : Bytes → OpenFile → Eff W ClientError String
  put_file key file = do
    chunks ← lift split_failed (split_result (split p.sha256 file.content (pos 0)))
    enc ←
        lift encoder_failed
          (new_encoder p.rs_new (pos default_data_shards) (pos default_parity_shards))
    file_id ← random_hex 16
    placements ← put_chunks key enc file_id chunks
    save_upload file_id file chunks placements

-- `runPut`, up to what it prints. The services belong to the loaded configuration; `none` is a file
-- that cannot be opened.
unfoldable pub run_put :
    {W : Type 0}
    → Platform
    → (ClientConfig → Services W)
    → Result ConfigError ClientConfig
    → Option OpenFile
    → Eff W ClientError String
run_put p services loaded none w = elim (setup p loaded) [
  | ok (cfg, key) ↦ (w, err open_failed)
  | err e ↦ (w, err e)
]
run_put p services loaded (some file) w = elim (setup p loaded) [
  | ok (cfg, key) ↦ put_file p (services cfg) key file w
  | err e ↦ (w, err e)
]
