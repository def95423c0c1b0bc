-- ===== src/Client/Download.antt =====
-- cmd/aldea/get.go: `runGet`. Maps are read by lookup; a map's keys, sorted, are inserted in order.
use aldea.Prelude.{
  ℕ, suc, zero, ◌+◌, String, Option, none, some, List, [], ◌∷◌, Result, ok, err, Bool, true, false,
  if◌then◌else◌, keep,
}
use aldea.Prelude.Int.{ℤ, pos, pos_part, eqb_ℤ, ltb_ℤ, leb_ℤ}
use aldea.Prelude.Text.{str_eq}
use aldea.Prelude.Eff.{Eff, ◌>>=◌, pure, lift, continue}
use aldea.Chunker.{Chunk, reassemble}
use aldea.Config.{ClientConfig, ConfigError}
use aldea.Crypto.{decrypt, CryptoError}
use aldea.Erasure.{
  Encoder, Shard, reconstruct, new_encoder, total_shards, default_data_shards,
  default_parity_shards,
}
use aldea.Tracker.{NodeMetadata, ShardPlacement}
use aldea.Client.{
  Bytes, ClientError, Services, Platform, setup, encoder_failed, reconstruct_failed, create_failed,
  reassemble_failed, index_panic,
}

-- `nodeByID[id]`: the last node with the identifier.
unfoldable pub node_by_id : List NodeMetadata → String → Option NodeMetadata
node_by_id [] id = none
node_by_id (n ∷ ns) id = elim (node_by_id ns id) [
  | some m ↦ some m
  | none ↦ if str_eq n.node_id id then some n else none
]

-- `byChunk[ci]`
unfoldable pub group : ℤ → List ShardPlacement → List ShardPlacement
group ci ps = keep (λ p. eqb_ℤ p.chunk_index ci) ps

-- The keys of `byChunk` in order, each once.
unfoldable pub insert_key : ℤ → List ℤ → List ℤ
insert_key k [] = k ∷ []
insert_key k (j ∷ js) =
    if ltb_ℤ k j then k ∷ j ∷ js else if eqb_ℤ k j then j ∷ js else j ∷ insert_key k js

unfoldable pub chunk_indices : List ShardPlacement → List ℤ
chunk_indices [] = []
chunk_indices (p ∷ ps) = insert_key p.chunk_index (chunk_indices ps)

-- The shards before the download: numbered from `i`, and empty.
unfoldable pub empty_shards : ℕ → ℕ → List Shard
empty_shards i zero = []
empty_shards i (suc n) = record { index = pos i; content = [] } ∷ empty_shards (i + 1) n

-- `rawShards[i].Data = plaintext`
unfoldable pub set_content : List Shard → ℕ → Bytes → List Shard
set_content [] i d = []
set_content (s ∷ ss) zero d = record s { content = d } ∷ ss
set_content (s ∷ ss) (suc i) d = s ∷ set_content ss i d

abbrev pub plain_of : Result CryptoError Bytes → Option Bytes
plain_of (ok plain) = some plain
plain_of (err e) = none

-- What is done with the answer of `getShard`.
unfoldable pub usable : {W E : Type 0} → Platform → Bytes → W × Result E Bytes → W × Option Bytes
usable p key (w, err e) = (w, none)
usable p key (w, ok []) = (w, none)
usable p key (w, ok (b ∷ rest)) = (w, plain_of (decrypt p.aead (b ∷ rest) key))

module _ {W : Type 0} (p : Platform) (s : Services W) where
  -- The shard of one placement, where its node is known, answers and gives a shard that decrypts.
  unfoldable pub fetch_plain : Bytes → List NodeMetadata → ShardPlacement → W → W × Option Bytes
  fetch_plain key nodes pl w = elim (node_by_id nodes pl.node_id) [
    | none ↦ (w, none)
    | some node ↦ usable p key (s.get_shard node pl.shard_id w)
  ]

  -- The loop over a chunk's placements, with `rawShards` and `originalChunkSize`.
  unfoldable pub gather :
      Bytes
      → List NodeMetadata
      → ℕ
      → List ShardPlacement
      → List Shard
      → ℤ
      → Eff W ClientError (List Shard × ℤ)
  gather key nodes total [] raw size w = (w, ok (raw, size))
  gather key nodes total (pl ∷ pls) raw size w = elim (leb_ℤ (pos total) pl.shard_index) [
    | true ↦ gather key nodes total pls raw size w
    | false ↦
        let (w', found) = fetch_plain key nodes pl w in
        elim found [
          | none ↦ gather key nodes total pls raw pl.original_chunk_size w'
          | some plain ↦ elim (ltb_ℤ pl.shard_index (pos 0)) [
            | true ↦ (w', err index_panic)
            | false ↦
                gather key nodes total pls (set_content raw (pos_part pl.shard_index) plain)
                  pl.original_chunk_size w'
          ]
        ]
  ]

  unfoldable pub get_chunk :
      Bytes → Encoder → List NodeMetadata → List ShardPlacement → ℤ → Eff W ClientError Chunk
  get_chunk key enc nodes placements ci = do
    gathered ←
        gather key nodes (total_shards enc) (group ci placements)
          (empty_shards 0 (total_shards enc)) (pos 0)
    content ← lift reconstruct_failed (reconstruct enc gathered.0 gathered.1)
    pure (record { index = ci; content = content; hash = p.sha256 content })

  unfoldable pub get_chunks :
      Bytes
      → Encoder
      → List NodeMetadata
      → List ShardPlacement
      → List ℤ
      → Eff W ClientError (List Chunk)
  get_chunks key enc nodes placements [] = pure []
  get_chunks key enc nodes placements (ci ∷ rest) = do
    chunk ← get_chunk key enc nodes placements ci
    chunks ← get_chunks key enc nodes placements rest
    pure (chunk ∷ chunks)

  -- The chunks of a file, up to the creation of the output.
  unfoldable pub get_file : Bytes → String → Eff W ClientError (List Chunk)
  get_file key file_id = do
    found ← s.get_file_placement file_id
    nodes ← s.list_nodes
    enc ←
        lift encoder_failed
          (new_encoder p.rs_new (pos default_data_shards) (pos default_parity_shards))
    get_chunks key enc nodes found.1 (chunk_indices found.1)

-- `Reassemble` into the created output; a write gives the output after it, and whether it succeeded.
unfoldable pub write_output :
    {O : Type 0} → Platform → (O → Bytes → O × Bool) → Option O → List Chunk → Result ClientError O
write_output p write none chunks = err create_failed
write_output p write (some out) chunks =
    let (out', failed) = reassemble p.sha256 write chunks out in
    elim failed [ none ↦ ok out' | some e ↦ err (reassemble_failed e) ]

-- `runGet`, up to what it prints: the output as it is written.
unfoldable pub run_get :
    {W O : Type 0}
    → Platform
    → (ClientConfig → Services W)
    → Result ConfigError ClientConfig
    → (O → Bytes → O × Bool)
    → Option O
    → String
    → Eff W ClientError O
run_get p services loaded write output file_id w = elim (setup p loaded) [
  | err e ↦ (w, err e)
  | ok (cfg, key) ↦
      continue (get_file p (services cfg) key file_id w)
        (λ chunks w'. (w', write_output p write output chunks))
]
