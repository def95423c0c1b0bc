-- ===== src/Client/Serving.antt =====
-- When an upload (cmd/aldea/put.go) succeeds.
use aldea.Prelude.{
  ℕ, suc, ◌+◌, ◌≡◌, ◌<◌, refl, sym, ap, ◌∙◌, true, false, String, some, List, [], ◌∷◌, ◌++◌, length,
  Result, ok, arith,
}
use aldea.Prelude.Int.{pos}
use aldea.Prelude.Text.{hex_text}
use aldea.Prelude.Eff.{pure, lift, ◌>>=◌, run_step}
use aldea.Chunker.{Chunk}
use aldea.Config.{ClientConfig, ConfigError}
use aldea.Crypto.{encrypt}
use aldea.Erasure.{
  Encoder, Shard, RsEncoder, encode, index_shards, new_encoder, total_shards, default_data_shards,
  default_parity_shards,
}
use aldea.Erasure.RoundTrip.{IsReedSolomon, encode_filled}
use aldea.Tracker.{NodeMetadata, FileMetadata, ShardPlacement}
use aldea.Client.{Bytes, Services, Platform, setup, encode_failed, shard_id_of}
use aldea.Client.Upload.{
  OpenFile, encrypt_shard, encrypt_shards, placement_of, put_shards, put_chunk, put_chunks,
  random_hex, save_upload, put_file, run_put, bytes_or_zero, metadata_of,
}
use aldea.Client.Uploaded.{IsNumbered, length-index_shards}
use aldea.Client.RoundTrip.{split-IsSound}

-- The calls that an upload makes are answered: the tracker has as many nodes as are asked for, every node takes
-- every shard, the tracker saves, and the random source gives bytes.
pub record IsServing {W : Type 0} (s : Services W) (n : ℕ) : Type 0 where
  pub selects :
      (w : W)
      → (w' : W) × (nodes : List NodeMetadata) × (s.select_nodes n w ≡ (w', ok nodes))
        × (length nodes ≡ n)
  pub puts :
      (node : NodeMetadata) (id : String) (content : Bytes) (w : W)
      → (w' : W) × (s.put_shard node id content w ≡ (w', ok tt))
  pub saves :
      (file : FileMetadata) (placements : List ShardPlacement) (w : W)
      → (w' : W) × (s.save_file_placement file placements w ≡ (w', ok tt))
  pub randomness : (k : ℕ) (w : W) → (b : Bytes) × ((s.random k w).1 ≡ some b)

module _ (p : Platform) (key : Bytes) (enc : Encoder)
    (law : IsReedSolomon enc.data_shards enc.parity_shards enc.rs)
    (accepted : p.aead.accepts_key key ≡ true) {W : Type 0} (s : Services W)
    (serving : IsServing s (total_shards enc)) where
  encrypt_shard_succeeds :
      (shard : Shard) (w : W)
      → (w' : W) × (ct : Bytes) × (encrypt_shard p s key shard w ≡ (w', ok ct))
  unfolding encrypt_shard encrypt
  encrypt_shard_succeeds shard w =
      let (b, drawn) = serving.randomness p.aead.nonce_size w in
      (
        (s.random p.aead.nonce_size w).0,
        b ++ p.aead.seal key b shard.content,
        rw (encrypt_shard, accepted, drawn) refl,
      )

  encrypt_shards_succeeds :
      (shards : List Shard) (w : W)
      → (w' : W) × (cts : List Bytes) × (encrypt_shards p s key shards w ≡ (w', ok cts))
        × (length cts ≡ length shards)
  unfolding encrypt_shards
  encrypt_shards_succeeds [] w = (w, [], refl, refl)
  encrypt_shards_succeeds (shard ∷ shards) w =
      let (w₁, ct, e₁) = encrypt_shard_succeeds shard w in
      let (w₂, cts, e₂, n) = encrypt_shards_succeeds shards w₁ in
      let more = encrypt_shards p s key shards in
      (
        w₂,
        ct ∷ cts,
        run_step (encrypt_shard p s key shard) (λ ct. more >>= λ rest. pure (ct ∷ rest)) w w₁ ct e₁
            ∙ run_step more (λ rest. pure (ct ∷ rest)) w₁ w₂ cts e₂,
        ap suc n,
      )

  put_shards_succeeds :
      (file_id : String) (chunk : Chunk) (i : ℕ) (nodes : List NodeMetadata) (cts : List Bytes)
      (w : W)
      → length nodes ≡ length cts
      → (w' : W) × (pls : List ShardPlacement) × (put_shards p s file_id chunk i nodes cts w
          ≡ (w', ok pls))
  unfolding put_shards
  put_shards_succeeds file_id chunk i [] cts w n = (w, [], refl)
  put_shards_succeeds file_id chunk i (node ∷ nodes) [] w n = absurd (omega arith)
  put_shards_succeeds file_id chunk i (node ∷ nodes) (ct ∷ cts) w n =
      let id = shard_id_of file_id chunk.index i in
      let more = put_shards p s file_id chunk (i + 1) nodes cts in
      let (w₁, e₁) = serving.puts node id ct w in
      let (w₂, pls, e₂) = put_shards_succeeds file_id chunk (i + 1) nodes cts w₁ (omega arith) in
      (
        w₂,
        placement_of p s file_id chunk i node ∷ pls,
        run_step (s.put_shard node id ct)
              (λ _. more >>= λ rest. pure (placement_of p s file_id chunk i node ∷ rest)) w w₁ tt e₁
            ∙ run_step more (λ rest. pure (placement_of p s file_id chunk i node ∷ rest)) w₁ w₂ pls
                e₂,
      )

  encode_succeeds :
      (content : Bytes)
      → 0 < length content
      → (shards : List Shard) × (encode enc content ≡ ok shards)
        × (length shards ≡ total_shards enc)
  encode_succeeds [] n = absurd (omega arith)
  encode_succeeds (b ∷ rest) n = (
    index_shards 0 (law.shards (b ∷ rest)),
    encode_filled enc law b rest,
    length-index_shards 0 (law.shards (b ∷ rest)) ∙ law.counted b rest,
  )

  put_chunk_succeeds :
      (file_id : String) (chunk : Chunk) (w : W)
      → 0 < length chunk.content
      → (w' : W) × (pls : List ShardPlacement) × (put_chunk p s key enc file_id chunk w
          ≡ (w', ok pls))
  unfolding put_chunk
  put_chunk_succeeds file_id chunk w full =
      let (shards, encoded, n) = encode_succeeds chunk.content full in
      let (w₁, cts, e₁, m) = encrypt_shards_succeeds shards w in
      let (w₂, nodes, e₂, k) = serving.selects w₁ in
      let (w₃, pls, e₃) = put_shards_succeeds file_id chunk 0 nodes cts w₂ (k ∙ sym n ∙ sym m) in
      let place = λ (cts : List Bytes) (nodes : List NodeMetadata).
        put_shards p s file_id chunk 0 nodes cts in
      let select =
        λ (shards : List Shard) (cts : List Bytes). s.select_nodes (length shards) >>= place cts in
      let seal = λ (shards : List Shard). encrypt_shards p s key shards >>= select shards in
      let ask : s.select_nodes (length shards) w₁ ≡ (w₂, ok nodes) =
        ap (λ c. s.select_nodes c w₁) n ∙ e₂ in
      let start : lift encode_failed (encode enc chunk.content) w ≡ (w, ok shards) =
        rw encoded refl in
      (
        w₃,
        pls,
        run_step (lift encode_failed (encode enc chunk.content)) seal w w shards start
            ∙ run_step (encrypt_shards p s key shards) (select shards) w w₁ cts e₁
            ∙ run_step (s.select_nodes (length shards)) (place cts) w₁ w₂ nodes ask
            ∙ e₃,
      )

  put_chunks_succeeds :
      (file_id : String) (k : ℕ) (cs : List Chunk) (w : W)
      → IsNumbered k cs
      → (w' : W) × (pls : List ShardPlacement) × (put_chunks p s key enc file_id cs w
          ≡ (w', ok pls))
  unfolding put_chunks
  put_chunks_succeeds file_id k [] w n = (w, [], refl)
  put_chunks_succeeds file_id k (c ∷ cs) w (_, full, n) =
      let (w₁, g, e₁) = put_chunk_succeeds file_id c w full in
      let (w₂, rest, e₂) = put_chunks_succeeds file_id (k + 1) cs w₁ n in
      let more = put_chunks p s key enc file_id cs in
      (
        w₂,
        g ++ rest,
        run_step (put_chunk p s key enc file_id c) (λ g. more >>= λ rest. pure (g ++ rest)) w w₁ g
              e₁
            ∙ run_step more (λ rest. pure (g ++ rest)) w₁ w₂ rest e₂,
      )

  save_upload_succeeds :
      (file_id : String) (file : OpenFile) (chunks : List Chunk) (pls : List ShardPlacement) (w : W)
      → (w' : W) × (save_upload p s file_id file chunks pls w ≡ (w', ok file_id))
  unfolding save_upload
  save_upload_succeeds file_id file chunks pls w =
      let meta = metadata_of p s file_id file chunks (s.clock w).1 in
      let (w', saved) = serving.saves meta pls (s.clock w).0 in
      (w', run_step (s.save_file_placement meta pls) (λ _. pure file_id) (s.clock w).0 w' tt saved)

  put_file_succeeds :
      (file : OpenFile) (w : W)
      → new_encoder p.rs_new (pos default_data_shards) (pos default_parity_shards) ≡ ok enc
      → file.content.fails ≡ false
      → (w' : W) × (file_id : String) × (put_file p s key file w ≡ (w', ok file_id))
  unfolding put_file random_hex
  put_file_succeeds file w ne sound =
      let (chunks, cut, _, n, _) = split-IsSound p.sha256 file.content sound in
      let id = hex_text (bytes_or_zero 16 (s.random 16 w).1) in
      let (w₁, pls, stored) = put_chunks_succeeds id 0 chunks (s.random 16 w).0 n in
      let (w₂, saved) = save_upload_succeeds id file chunks pls w₁ in
      let keep_file = λ (pls : List ShardPlacement). save_upload p s id file chunks pls in
      let step : put_file p s key file w
          ≡ (put_chunks p s key enc id chunks >>= keep_file) (s.random 16 w).0 =
        rw (cut, ne) refl in
      (
        w₂,
        id,
        step
            ∙ run_step (put_chunks p s key enc id chunks) keep_file (s.random 16 w).0 w₁ pls stored
            ∙ saved,
      )

module _ (p : Platform) (rs : RsEncoder)
    (rs_is : p.rs_new default_data_shards default_parity_shards ≡ some rs)
    (law : IsReedSolomon default_data_shards default_parity_shards rs) {W : Type 0}
    (services : ClientConfig → Services W) (loaded : Result ConfigError ClientConfig)
    (cfg : ClientConfig) (key : Bytes) (ready : setup p loaded ≡ ok (cfg, key))
    (accepted : p.aead.accepts_key key ≡ true) where
  -- With a configuration that loads, a key that the cipher accepts, a file that can be read to its end, and a tracker
  -- and nodes that answer every call of the upload, `put` succeeds: it ends with a file identifier.
  pub run_put_succeeds :
      (file : OpenFile) (w : W)
      → IsServing (services cfg) 8
      → file.content.fails ≡ false
      → (w' : W) × (file_id : String) × (run_put p services loaded (some file) w ≡ (w', ok file_id))
  unfolding run_put
  run_put_succeeds file w serving sound =
      let enc : Encoder = record {
        data_shards = default_data_shards;
        parity_shards = default_parity_shards;
        rs = rs;
      } in
      let ne : new_encoder p.rs_new (pos default_data_shards) (pos default_parity_shards) ≡ ok enc =
        unfold new_encoder in rw rs_is refl in
      let put : run_put p services loaded (some file) w ≡ put_file p (services cfg) key file w =
        rw (run_put, ready) refl in
      let (w', file_id, done) =
        put_file_succeeds p key enc law accepted (services cfg) serving file w ne sound in
      (w', file_id, put ∙ done)
