-- ===== src/Repair.antt =====
-- internal/repair/repair.go: the shards of failed nodes, rebuilt and placed anew. The tracker's store,
-- the network and the count of repaired shards are the state, `Field`; a Go map is walked in an
-- order that is a parameter. The messages to the nodes are the fields of `Links`, which
-- `fetch_shard` and `upload_shard` fill.
pub mod Moves
pub mod Relocated
pub mod Repaired
pub mod Marking
mod Tests
use aldea.Prelude.{
  ℕ, ◌+◌, ◌≡◌, ◌==◌, not, ◌||◌, ◌&&◌, Bool, true, false, String, Option, none, some, List, [], ◌∷◌,
  Result, ok, err, if◌then◌else◌, get_elem?, length,
}
use aldea.Prelude.Int.{ℤ, pos, negsuc, eqb_ℤ, ltb_ℤ, sub64}
use aldea.Prelude.Text.{str_eq}
use aldea.Prelude.Eff.{Eff, ◌>>=◌, ◌>>◌, pure, fail, lift}
use aldea.Http.{status_ok}
use aldea.Crypto.{encrypt}
use aldea.Erasure.{
  Encoder, Shard, encode, reconstruct, new_encoder, total_shards, default_data_shards,
  default_parity_shards,
}
use aldea.Tracker.{
  Backend, Store, StoreError, NodeMetadata, FileMetadata, ShardPlacement, register_node, list_nodes,
  list_files, get_file_placement, save_file_placement, select_placement_nodes,
}
use aldea.Client.{
  Bytes, ClientError, Platform, request_failed, bad_status, message_failed, malformed_reply,
}
use aldea.Client.Messages.{Transport, Reply, send_shard, ask_shard, read_answer}
use aldea.Client.Download.{node_by_id, group, chunk_indices, empty_shards, set_content, usable}

pub data RepairError : Type 0 where
  store_failed : StoreError → RepairError
  encoder_failed reconstruct_failed encode_failed encrypt_failed upload_failed index_panic :
      RepairError

-- The fields of `Repairer` that reach out.
pub record Links (W : Type 0) : Type 0 where
  pub fetch : NodeMetadata → String → Eff W ClientError Bytes
  pub upload : NodeMetadata → String → Bytes → Eff W ClientError (Unit {0})
  pub random : ℕ → W → W × Option Bytes

module _ {W : Type 0} (t : Transport W) (network_key : Bytes) where
  -- An answer without the shard is an error, as every status but 200 is.
  unfoldable pub fetch_shard : NodeMetadata → String → Eff W ClientError Bytes
  fetch_shard node shard_id = do
    r ← ask_shard t "repairer" network_key node shard_id
    (if r.status == status_ok then pure tt else fail bad_status)
    answer ← read_answer t "repairer" network_key r
    (if answer.found then pure (answer.content) else fail malformed_reply)

  unfoldable pub upload_shard : NodeMetadata → String → Bytes → Eff W ClientError (Unit {0})
  upload_shard node shard_id content = send_shard t "repairer" network_key node shard_id content

pub record Field (B W : Type 0) : Type 0 where
  pub store : Store B
  pub world : W
  pub repaired : ℕ

-- Membership in the map `unhealthyNodes`.
unfoldable pub contains : List String → String → Bool
contains [] id = false
contains (x ∷ xs) id = str_eq x id || contains xs id

-- The test of the first loop.
abbrev pub has_failed : ℤ → ℤ → NodeMetadata → Bool
has_failed now timeout n = not n.is_healthy || ltb_ℤ timeout (sub64 now n.last_seen)

-- `missingInChunk`
unfoldable pub any_lost : List String → List ShardPlacement → Bool
any_lost unhealthy [] = false
any_lost unhealthy (pl ∷ pls) = contains unhealthy pl.node_id || any_lost unhealthy pls

-- An index into a slice, whose panic is an error here.
abbrev pub at_index : List Shard → ℤ → Result RepairError Shard
at_index shards (negsuc _) = err index_panic
at_index shards (pos i) = elim (get_elem? shards i) [ none ↦ err index_panic | some s ↦ ok s ]

-- `rawShards[p.ShardIndex].Data = plain`
abbrev pub write_at : List Shard → ℤ → Bytes → Result RepairError (List Shard)
write_at shards (negsuc _) d = err index_panic
write_at shards (pos i) d =
    if ltb_ℤ (pos i) (pos (length shards)) then ok (set_content shards i d) else err index_panic

-- `newNodes[0]`
abbrev pub first_of : List NodeMetadata → Result RepairError NodeMetadata
first_of [] = err index_panic
first_of (n ∷ ns) = ok n

-- An error that is passed on as it is.
abbrev pub raise : {S A : Type 0} → Result RepairError A → Eff S RepairError A
raise (ok a) = pure a
raise (err e) = fail e

module _ {B R : Type 0} (be : Backend B R) where
  -- The first loop: the store, the identifiers of the failed nodes, and the other nodes. That
  -- `RegisterNode` may fail is ignored.
  abbrev pub registered : Store B → Result StoreError (Store B) → Store B
  registered s (ok s') = s'
  registered s (err _) = s

  unfoldable pub mark_failed :
      ℤ → ℤ → List NodeMetadata → Store B → Store B × List String × List NodeMetadata
  mark_failed now timeout [] s = (s, [], [])
  mark_failed now timeout (n ∷ ns) s = elim (has_failed now timeout n) [
    | true ↦
        let (s', failed, sound) =
          mark_failed now timeout ns
            (registered s (register_node be s (record n { is_healthy = false }))) in
        (s', n.node_id ∷ failed, sound)
    | false ↦ let (s', failed, sound) = mark_failed now timeout ns s in (s', failed, n ∷ sound)
  ]

  module _ {W : Type 0} (p : Platform) (links : Links W) (key : Bytes)
      (unhealthy : List String) where
    -- A call of the world.
    abbrev at_world :
        {A : Type 0} → RepairError → Eff W ClientError A → Eff (Field B W) RepairError A
    at_world e m f =
        let (w', r) = m f.world in
        elim r [ ok a ↦ (record f { world = w' }, ok a) | err _ ↦ (record f { world = w' }, err e) ]

    -- A call of the store that only reads.
    abbrev reading : {A : Type 0} → (Store B → Result StoreError A) → Eff (Field B W) RepairError A
    reading read f = elim (read f.store) [ ok a ↦ (f, ok a) | err e ↦ (f, err (store_failed e)) ]

    -- `Encrypt` with a nonce from the random source.
    abbrev sealed : Bytes → Eff (Field B W) RepairError Bytes
    sealed content f =
        let (w', drawn) = links.random p.aead.nonce_size f.world in
        lift encrypt_failed (encrypt p.aead drawn content key) (record f { world = w' })

    abbrev count_one : Eff (Field B W) RepairError (Unit {0})
    count_one f = (record f { repaired = f.repaired + 1 }, ok tt)

    -- The shard of a placement whose node is not failed, where it is had.
    unfoldable pub fetch_plain : List NodeMetadata → ShardPlacement → W → W × Option Bytes
    fetch_plain healthy pl w = elim (node_by_id healthy pl.node_id) [
      | none ↦ (w, none)
      | some node ↦ usable p key (links.fetch node pl.shard_id w)
    ]

    -- The loop that fills `rawShards`, and `originalChunkSize`.
    unfoldable pub gather :
        List NodeMetadata
        → List ShardPlacement
        → List Shard
        → ℤ
        → Eff (Field B W) RepairError (List Shard × ℤ)
    gather healthy [] raw size f = (f, ok (raw, size))
    gather healthy (pl ∷ pls) raw size f = elim (contains unhealthy pl.node_id) [
      | true ↦ gather healthy pls raw pl.original_chunk_size f
      | false ↦
          let (w', found) = fetch_plain healthy pl f.world in
          let f' : Field B W = record f { world = w' } in
          elim found [
            | none ↦ gather healthy pls raw pl.original_chunk_size f'
            | some plain ↦ elim (write_at raw pl.shard_index plain) [
              | err e ↦ (f', err e)
              | ok raw' ↦ gather healthy pls raw' pl.original_chunk_size f'
            ]
          ]
    ]

    -- One lost shard, encrypted and placed at the node that the store selects.
    unfoldable pub replace_one :
        List Shard → ShardPlacement → Eff (Field B W) RepairError ShardPlacement
    replace_one fresh pl = do
      chosen ← reading (λ s. select_placement_nodes be s (pos 1) (pos 0))
      node ← raise (first_of chosen)
      shard ← raise (at_index fresh pl.shard_index)
      ct ← sealed shard.content
      at_world upload_failed (links.upload node pl.shard_id ct)
      count_one
      pure (record pl { node_id = node.node_id })

    -- The loop over `updatedPlacements` for chunk `ci`, and whether it placed a shard.
    unfoldable pub replace_lost :
        List Shard
        → ℤ
        → List ShardPlacement
        → Eff (Field B W) RepairError (List ShardPlacement × Bool)
    replace_lost fresh ci [] = pure ([], false)
    replace_lost fresh ci (pl ∷ pls) =
        elim (eqb_ℤ pl.chunk_index ci && contains unhealthy pl.node_id) [
          | false ↦ replace_lost fresh ci pls >>= λ rest. pure (pl ∷ rest.0, rest.1)
          | true ↦ replace_one fresh pl >>= λ placed.
              (replace_lost fresh ci pls >>= λ rest. pure (placed ∷ rest.0, true))
        ]

    -- A chunk of which a shard is lost: its content from the other shards, and fresh shards of it.
    unfoldable pub rebuild_chunk :
        Encoder → List NodeMetadata → List ShardPlacement → Eff (Field B W) RepairError (List Shard)
    rebuild_chunk enc healthy chunk = do
      gathered ← gather healthy chunk (empty_shards 0 (total_shards enc)) (pos 0)
      content ← lift reconstruct_failed (reconstruct enc gathered.0 gathered.1)
      lift encode_failed (encode enc content)

    -- The loop over the chunks, with `updatedPlacements` and `fileNeedsUpdate`.
    unfoldable pub repair_chunks :
        Encoder
        → List NodeMetadata
        → List ShardPlacement
        → List ℤ
        → List ShardPlacement
        → Bool
        → Eff (Field B W) RepairError (List ShardPlacement × Bool)
    repair_chunks enc healthy placements [] updated dirty = pure (updated, dirty)
    repair_chunks enc healthy placements (ci ∷ cis) updated dirty =
        elim (any_lost unhealthy (group ci placements)) [
          | false ↦ repair_chunks enc healthy placements cis updated dirty
          | true ↦ rebuild_chunk enc healthy (group ci placements) >>= λ fresh.
              (replace_lost fresh ci updated >>= λ done.
              repair_chunks enc healthy placements cis done.0 (done.1 || dirty))
        ]

    -- A write of the store.
    abbrev saving : FileMetadata → List ShardPlacement → Eff (Field B W) RepairError (Unit {0})
    saving file pls f = elim (save_file_placement be f.store file pls) [
      | ok s ↦ (record f { store = s }, ok tt)
      | err e ↦ (f, err (store_failed e))
    ]

    -- The callback: `order` is the order in which the map `byChunk` is walked.
    unfoldable pub repair_file :
        (List ℤ → List ℤ)
        → Encoder
        → List NodeMetadata
        → FileMetadata
        → List ShardPlacement
        → Eff (Field B W) RepairError (Unit {0})
    repair_file order enc healthy file placements = do
      done ←
          repair_chunks enc healthy placements (order (chunk_indices placements)) placements false
      if done.1 then saving file done.0 else pure tt

    -- The loop of `iterateFiles`: a file that the store cannot give is passed over.
    unfoldable pub repair_files :
        (List ℤ → List ℤ)
        → Encoder
        → List NodeMetadata
        → List FileMetadata
        → Eff (Field B W) RepairError (Unit {0})
    repair_files order enc healthy [] s = (s, ok tt)
    repair_files order enc healthy (f ∷ fs) s = elim (get_file_placement be s.store f.file_id) [
      | err _ ↦ repair_files order enc healthy fs s
      | ok found ↦
          (repair_file order enc healthy found.0 found.1 >> repair_files order enc healthy fs) s
    ]

  -- The store, the world, the count and the error.
  unfoldable pub inspect_and_repair :
      {W : Type 0}
      → Platform
      → Links W
      → Bytes
      → (List ℤ → List ℤ)
      → ℤ
      → ℤ
      → Store B
      → W
      → Field B W × Result RepairError (Unit {0})
  inspect_and_repair {W = W} p links key order now timeout s w = elim (list_nodes be s) [
    | err e ↦ (record { store = s; world = w; repaired = 0 }, err (store_failed e))
    | ok nodes ↦
        let (s', unhealthy, healthy) = mark_failed now timeout nodes s in
        let f : Field B W = record { store = s'; world = w; repaired = 0 } in
        elim unhealthy [
          | [] ↦ (f, ok tt)
          | id ∷ ids ↦
              (lift encoder_failed
                    (new_encoder p.rs_new (pos default_data_shards) (pos default_parity_shards))
                  >>= λ enc.
                      (reading p links key (id ∷ ids) (list_files be) >>= λ files.
                      repair_files p links key (id ∷ ids) order enc healthy files))
                f
        ]
  ]
