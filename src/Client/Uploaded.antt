-- ===== src/Client/Uploaded.antt =====
-- The upload of a file (cmd/aldea/put.go): when it succeeds, all chunks are stored, and the tracker
-- has the placements.
use aldea.Prelude.{
  ℕ, ◌+◌, ◌≡◌, ◌<◌, ◌≤◌, refl, sym, ap, subst, ◌∙◌, inl, String, some, List, [], ◌∷◌, ◌++◌, length,
  ok, All, arith, ok_unique,
}
use aldea.Prelude.Int.{pos}
use aldea.Prelude.Eff.{inversion, lift-ok, pure-ok, lift, pure, ◌>>=◌}
use aldea.Chunker.{Chunk, split}
use aldea.Erasure.{
  Encoder, Shard, index_shards, encode, new_encoder, default_data_shards, default_parity_shards,
}
use aldea.Erasure.RoundTrip.{IsReedSolomon, encode_filled}
use aldea.Tracker.{NodeMetadata, FileMetadata, ShardPlacement}
use aldea.Client.{Bytes, Services, Platform, encode_failed}
use aldea.Client.Upload.{
  OpenFile, encrypt_shards, put_shards, put_chunk, put_chunks, save_upload, random_hex, put_file,
  metadata_of,
}
use aldea.Client.Network.{View, IsNetwork, Keeps, Keeps-refl, Keeps-trans, Keeps-weaken}
use aldea.Client.Download.{node_by_id}
use aldea.Client.Stored.{
  StoredFrom, StoredFrom-kept, encrypt_shards-AllSealed, put_shards-StoredFrom,
}

pub length-index_shards : (i : ℕ) (raw : List Bytes) → length (index_shards i raw) ≡ length raw
unfolding index_shards
length-index_shards i [] = refl
length-index_shards i (b ∷ raw) = omega (arith, length-index_shards (i + 1) raw)

abbrev pub concat : List (List ShardPlacement) → List ShardPlacement
concat [] = []
concat (g ∷ gs) = g ++ concat gs

-- The chunks are numbered from `k` on, and none is empty.
abbrev pub IsNumbered : ℕ → List Chunk → Type 0
IsNumbered k [] = Unit
IsNumbered k (c ∷ cs) = (c.index ≡ pos k) × (0 < length c.content) × IsNumbered (k + 1) cs

module _ (p : Platform) (key : Bytes) (enc : Encoder)
    (law : IsReedSolomon enc.data_shards enc.parity_shards enc.rs) (file_id : String) where
  -- Every shard of every chunk is where the placements of the chunk say.
  abbrev pub StoredAll : View → ℕ → List Chunk → List (List ShardPlacement) → Type 0
  StoredAll v k [] [] = Unit
  StoredAll v k [] (g ∷ gs) = ⊥
  StoredAll v k (c ∷ cs) [] = ⊥
  StoredAll v k (c ∷ cs) (g ∷ gs) =
      StoredFrom p key file_id k (length c.content) v 0 (law.shards c.content) g
      × StoredAll v (k + 1) cs gs

  pub StoredAll-kept :
      (v v' : View) (k l : ℕ) (cs : List Chunk) (gs : List (List ShardPlacement))
      → k + length cs ≤ l
      → Keeps file_id l 0 v v'
      → StoredAll v k cs gs
      → StoredAll v' k cs gs
  StoredAll-kept v v' k l [] [] n h f = tt
  StoredAll-kept v v' k l [] (g ∷ gs) n h f = f
  StoredAll-kept v v' k l (c ∷ cs) [] n h f = f
  StoredAll-kept v v' k l (c ∷ cs) (g ∷ gs) n h f = (
    StoredFrom-kept p key file_id k (length c.content) v v' 0 l (law.shards c.content) g
        (omega arith) h f.0,
    StoredAll-kept v v' (k + 1) l cs gs (omega arith) h f.1,
  )

  encode_shape :
      (content : Bytes) (shards : List Shard)
      → 0 < length content
      → encode enc content ≡ ok shards
      → shards ≡ index_shards 0 (law.shards content)
  encode_shape [] shards n e = absurd (omega arith)
  encode_shape (b ∷ rest) shards n e =
      ok_unique (encode enc (b ∷ rest)) shards (index_shards 0 (law.shards (b ∷ rest))) e
        (encode_filled enc law b rest)

  module _ {W : Type 0} (s : Services W) (view : W → View) (net : IsNetwork s view)
      (z : 0 < p.aead.nonce_size) where
    put_chunk-StoredFrom :
        (chunk : Chunk) (k : ℕ) (w w' : W) (pls : List ShardPlacement)
        → chunk.index ≡ pos k
        → 0 < length chunk.content
        → put_chunk p s key enc file_id chunk w ≡ (w', ok pls)
        → Keeps file_id k 0 (view w) (view w')
          × StoredFrom p key file_id k
              (length chunk.content)
              (view w')
              0
              (law.shards chunk.content)
              pls
    unfolding put_chunk
    put_chunk-StoredFrom chunk k w w' pls x n e =
        let raw = law.shards chunk.content in
        let place = λ (shards : List Shard) (cts : List Bytes) (nodes : List NodeMetadata).
          put_shards p s file_id chunk 0 nodes cts in
        let select = λ (shards : List Shard) (cts : List Bytes).
          s.select_nodes (length shards) >>= place shards cts in
        let seal = λ (shards : List Shard). encrypt_shards p s key shards >>= select shards in
        let (w₁, shards, e₁, f₁) =
          inversion (lift encode_failed (encode enc chunk.content)) seal w w' pls e in
        let (v₁, shape) = lift-ok encode_failed (encode enc chunk.content) w w₁ shards e₁ in
        let shape' : shards ≡ index_shards 0 raw = encode_shape chunk.content shards n shape in
        let (w₂, cts, e₂, f₂) =
          inversion (encrypt_shards p s key shards) (select shards) w₁ w' pls f₁ in
        let (v₂, sealed) =
          encrypt_shards-AllSealed p key s view net z 0 raw w₁ w₂ cts
            (subst (λ t. encrypt_shards p s key t w₁ ≡ (w₂, ok cts)) shape' e₂) in
        let (w₃, nodes, e₃, f₃) =
          inversion (s.select_nodes (length shards)) (place shards cts) w₂ w' pls f₂ in
        let (v₃, count, known) = net.selects (length shards) w₂ w₃ nodes e₃ in
        let count' : length nodes ≡ length raw =
          count ∙ ap length shape' ∙ length-index_shards 0 raw in
        let known' =
          subst (λ v. All (λ x. node_by_id v.nodes x.node_id ≡ some x) nodes) (sym v₃) known in
        let (kept, stored) =
          put_shards-StoredFrom p key s view net file_id chunk k 0 nodes raw cts w₃ w' pls x sealed
            count' known' f₃ in
        let before : view w₃ ≡ view w = v₃ ∙ v₂ ∙ ap view v₁ in
        (subst (λ v. Keeps file_id k 0 v (view w')) before kept, stored)

    put_chunks-StoredAll :
        (k : ℕ) (cs : List Chunk) (w w' : W) (pls : List ShardPlacement)
        → IsNumbered k cs
        → put_chunks p s key enc file_id cs w ≡ (w', ok pls)
        → (gs : List (List ShardPlacement)) × (pls ≡ concat gs)
          × Keeps file_id k 0 (view w) (view w')
          × StoredAll (view w') k cs gs
    unfolding put_chunks
    put_chunks-StoredAll k [] w w' pls n e =
        let (same, none_placed) = pure-ok [] pls w w' e in
        ([], none_placed, Keeps-refl file_id k 0 (view w) (view w') (ap view same), tt)
    put_chunks-StoredAll k (c ∷ cs) w w' pls (x, filled, n) e =
        let more = put_chunks p s key enc file_id cs in
        let (w₁, g, e₁, f₁) =
          inversion (put_chunk p s key enc file_id c) (λ g. more >>= λ rest. pure (g ++ rest)) w w'
            pls e in
        let (w₂, rest, e₂, f₂) = inversion more (λ rest. pure (g ++ rest)) w₁ w' pls f₁ in
        let (same, placed) = pure-ok (g ++ rest) pls w₂ w' f₂ in
        let (kept₁, stored) = put_chunk-StoredFrom c k w w₁ g x filled e₁ in
        let (gs, parts, kept₂, all) = put_chunks-StoredAll (k + 1) cs w₁ w₂ rest n e₂ in
        let size = length c.content in
        let here =
          StoredFrom-kept p key file_id k size (view w₁) (view w₂) 0 (k + 1) (law.shards c.content)
            g (omega arith) kept₂ stored in
        let kept : Keeps file_id k 0 (view w) (view w₂) =
          Keeps-trans file_id k 0 (view w) (view w₁) (view w₂) kept₁
            (Keeps-weaken file_id k 0 (k + 1) 0 (view w₁) (view w₂) (inl (omega arith)) kept₂) in
        (
          g ∷ gs,
          placed ∙ ap (g ++◌) parts,
          subst (λ v. Keeps file_id k 0 (view w) (view v)) (sym same) kept,
          subst (λ v. StoredAll (view v) k (c ∷ cs) (g ∷ gs)) (sym same) (here, all),
        )

module _ (p : Platform) (key : Bytes) (enc : Encoder)
    (law : IsReedSolomon enc.data_shards enc.parity_shards enc.rs) where
  -- What is known of an upload that has succeeded.
  pub record IsUploaded (file_id : String) (chunks : List Chunk) (v : View) : Type 0 where
    pub meta : FileMetadata
    pub groups : List (List ShardPlacement)
    pub saved : v.files file_id ≡ some (meta, concat groups)
    pub stored : StoredAll p key enc law file_id v 0 chunks groups

module _ (p : Platform) (key : Bytes) (enc : Encoder)
    (law : IsReedSolomon enc.data_shards enc.parity_shards enc.rs) {W : Type 0} (s : Services W)
    (view : W → View) (net : IsNetwork s view) (z : 0 < p.aead.nonce_size) where
  save_upload-IsUploaded :
      (file_id result : String) (file : OpenFile) (chunks : List Chunk)
      (groups : List (List ShardPlacement)) (w w' : W)
      → StoredAll p key enc law file_id (view w) 0 chunks groups
      → save_upload p s file_id file chunks (concat groups) w ≡ (w', ok result)
      → (result ≡ file_id) × IsUploaded p key enc law file_id chunks (view w')
  unfolding save_upload
  save_upload-IsUploaded file_id result file chunks groups w w' stored e =
      let ticked : view (s.clock w).0 ≡ view w = net.clocks w in
      let (w₁, now) = s.clock w in
      let meta = metadata_of p s file_id file chunks now in
      let (w₂, _, e₁, f₁) =
        inversion (s.save_file_placement meta (concat groups)) (λ _. pure file_id) w₁ w' result e in
      let (same, result_is) = pure-ok file_id result w₂ w' f₁ in
      let (nodes_kept, held_kept, saved) = net.saves meta (concat groups) w₁ w₂ e₁ in
      let kept : Keeps file_id (length chunks) 0 (view w₁) (view w₂) =
        (nodes_kept, λ a id b. ap (λ h. h a id) held_kept) in
      let stored₂ =
        StoredAll-kept p key enc law file_id (view w₁) (view w₂) 0 (length chunks) chunks groups
          (omega arith) kept
          (subst (λ v. StoredAll p key enc law file_id v 0 chunks groups) (sym ticked) stored) in
      (
        result_is,
        subst (λ v. IsUploaded p key enc law file_id chunks (view v)) (sym same)
            (record { meta = meta; groups = groups; saved = saved; stored = stored₂ }),
      )

  -- An upload that succeeds has cut the file, and has stored its chunks.
  pub put_file-IsUploaded :
      (file : OpenFile) (chunks : List Chunk) (file_id : String) (w w' : W)
      → new_encoder p.rs_new (pos default_data_shards) (pos default_parity_shards) ≡ ok enc
      → split p.sha256 file.content (pos 0) ≡ some (ok chunks)
      → IsNumbered 0 chunks
      → put_file p s key file w ≡ (w', ok file_id)
      → IsUploaded p key enc law file_id chunks (view w')
  unfolding put_file random_hex
  put_file-IsUploaded file chunks file_id w w' ne cut n e =
      let keep_file =
        λ (id : String) (pls : List ShardPlacement). save_upload p s id file chunks pls in
      let put = λ (id : String). put_chunks p s key enc id chunks >>= keep_file id in
      let step : put_file p s key file w ≡ (random_hex p s 16 >>= put) w = rw (cut, ne) refl in
      let e₀ : (random_hex p s 16 >>= put) w ≡ (w', ok file_id) = sym step ∙ e in
      let (w₁, id, e₁, f₁) = inversion (random_hex p s 16) put w w' file_id e₀ in
      let (w₂, pls, e₂, f₂) =
        inversion (put_chunks p s key enc id chunks) (keep_file id) w₁ w' file_id f₁ in
      let (groups, parts, _, all) =
        put_chunks-StoredAll p key enc law id s view net z 0 chunks w₁ w₂ pls n e₂ in
      let (same, done) =
        save_upload-IsUploaded id file_id file chunks groups w₂ w' all
          (subst (λ x. save_upload p s id file chunks x w₂ ≡ (w', ok file_id)) parts f₂) in
      subst (λ x. IsUploaded p key enc law x chunks (view w')) (sym same) done
