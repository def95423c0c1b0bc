-- ===== src/Client/Downloaded.antt =====
-- The download (cmd/aldea/get.go) of a file that is stored.
use aldea.Prelude.{
  ℕ, suc, ◌+◌, ◌≡◌, ◌<◌, refl, sym, ap, subst, ◌∙◌, String, List, [], ◌∷◌, length, ok, arith, drop,
  length-take,
}
use aldea.Prelude.Int.{pos}
use aldea.Prelude.Eff.{pure, lift, ◌>>=◌, run_step}
use aldea.Chunker.{Chunk}
use aldea.Chunker.Split.{IsChunking}
use aldea.Erasure.{Encoder, total_shards, new_encoder, default_data_shards, default_parity_shards}
use aldea.Erasure.RoundTrip.{IsReedSolomon}
use aldea.Tracker.{NodeMetadata, FileMetadata, ShardPlacement}
use aldea.Client.{Bytes, Services, Platform, encoder_failed}
use aldea.Client.Download.{get_chunk, get_chunks, get_file, chunk_indices}
use aldea.Client.Network.{View, IsNetwork}
use aldea.Client.Grouping.{IsGrouped, AllFound, concat-AllFound, numbers, chunk_indices-concat}
use aldea.Client.Uploaded.{IsNumbered, StoredAll, IsUploaded, concat}
use aldea.Client.Recovered.{counted, StoredFrom-InChunk, get_chunk-StoredFrom, EnoughAnswer}

-- Numbered chunks that carry the checksums of what they hold.
abbrev pub IsSound : (Bytes → Bytes) → ℕ → List Chunk → Type 0
IsSound sha256 k [] = Unit
IsSound sha256 k (c ∷ cs) =
    (c.index ≡ pos k)
    × (c.hash ≡ sha256 c.content)
    × (0 < length c.content)
    × IsSound sha256 (k + 1) cs

pub IsChunking-IsSound :
    (sha256 : Bytes → Bytes) (size k : ℕ) (text : Bytes) (cs : List Chunk)
    → 0 < size
    → IsChunking sha256 size k text cs
    → IsSound sha256 k cs × IsNumbered k cs
IsChunking-IsSound sha256 size k text [] z h = (tt, tt)
IsChunking-IsSound sha256 size k text (c ∷ cs) z (x, content, hash, filled, h) =
    let (sound, n) = IsChunking-IsSound sha256 size (k + 1) (drop size text) cs z h in
    let full : 0 < length c.content = rw content (omega (arith, length-take size text)) in
    ((x, hash, full, sound), (x, full, n))

module _ (p : Platform) (key : Bytes) (enc : Encoder)
    (law : IsReedSolomon enc.data_shards enc.parity_shards enc.rs) {W : Type 0} (s : Services W)
    (view : W → View) (net : IsNetwork s view) (file_id : String)
    (filled : 0 < total_shards enc) where
  pub StoredAll-IsGrouped :
      (v : View) (k : ℕ) (cs : List Chunk) (gs : List (List ShardPlacement))
      → IsNumbered k cs
      → StoredAll p key enc law file_id v k cs gs
      → IsGrouped k gs × (length gs ≡ length cs)
  StoredAll-IsGrouped v k [] [] n f = (tt, refl)
  StoredAll-IsGrouped v k [] (g ∷ gs) n f = absurd f
  StoredAll-IsGrouped v k (c ∷ cs) [] n f = absurd f
  StoredAll-IsGrouped v k (c ∷ cs) (g ∷ gs) (x, full, n) (f, fs) =
      let (here, l) =
        StoredFrom-InChunk p key s view net file_id k (length c.content) v 0 (law.shards c.content)
          g f in
      let (rest, m) = StoredAll-IsGrouped v (k + 1) cs gs n fs in
      (
        (here, omega (arith, l, counted p key enc law s view net file_id c.content full), rest),
        ap suc m,
      )

  get_chunks-StoredAll :
      (k : ℕ) (cs : List Chunk) (gs : List (List ShardPlacement)) (placements : List ShardPlacement)
      (w : W)
      → IsSound p.sha256 k cs
      → StoredAll p key enc law file_id (view w) k cs gs
      → AllFound placements k gs
      → EnoughAnswer enc.data_shards (view w) gs
      → (w' : W) × (get_chunks p s key enc (view w).nodes placements (numbers k (length gs)) w
          ≡ (w', ok cs))
  unfolding get_chunks
  get_chunks-StoredAll k [] [] placements w n f found enough = (w, refl)
  get_chunks-StoredAll k [] (g ∷ gs) placements w n f found enough = absurd f
  get_chunks-StoredAll k (c ∷ cs) [] placements w n f found enough = absurd f
  get_chunks-StoredAll k (c ∷ cs) (g ∷ gs) placements w (x, h, full, n) (f, fs) (found, founds)
        (enough, enoughs) =
      let (w₁, same, got) =
        get_chunk-StoredFrom p key enc law s view net file_id c k g placements w filled x h full f
          found enough in
      let more = get_chunks p s key enc (view w).nodes placements (numbers (k + 1) (length gs)) in
      let (w₂, gots) =
        get_chunks-StoredAll (k + 1) cs gs placements w₁ n
          (subst (λ v. StoredAll p key enc law file_id v (k + 1) cs gs) (sym same) fs) founds
          (subst (λ v. EnoughAnswer enc.data_shards v gs) (sym same) enoughs) in
      let gots' : more w₁ ≡ (w₂, ok cs) =
        subst
          (λ v.
            get_chunks p s key enc v.nodes placements (numbers (k + 1) (length gs)) w₁
            ≡ (w₂, ok cs))
          same gots in
      (
        w₂,
        run_step (get_chunk p s key enc (view w).nodes placements (pos k))
              (λ c. more >>= λ cs. pure (c ∷ cs)) w w₁ c got
            ∙ run_step more (λ cs. pure (c ∷ cs)) w₁ w₂ cs gots',
      )

  pub get_file-IsUploaded :
      (chunks : List Chunk) (w : W) (up : IsUploaded p key enc law file_id chunks (view w))
      → new_encoder p.rs_new (pos default_data_shards) (pos default_parity_shards) ≡ ok enc
      → IsSound p.sha256 0 chunks
      → IsNumbered 0 chunks
      → EnoughAnswer enc.data_shards (view w) up.groups
      → (w' : W) × (get_file p s key file_id w ≡ (w', ok chunks))
  unfolding get_file
  get_file-IsUploaded chunks w up ne sound n enough =
      let (grouped, _) = StoredAll-IsGrouped (view w) 0 chunks up.groups n up.stored in
      let placements = concat up.groups in
      let in_order = chunk_indices-concat 0 up.groups grouped in
      let (w₁, same₁, found) = net.finds file_id w (up.meta, placements) up.saved in
      let (w₂, same₂, listed) = net.lists w₁ in
      let same : view w₂ ≡ view w = same₂ ∙ same₁ in
      let (w₃, got) =
        get_chunks-StoredAll 0 chunks up.groups placements w₂ sound
          (subst (λ v. StoredAll p key enc law file_id v 0 chunks up.groups) (sym same) up.stored)
          (concat-AllFound 0 up.groups grouped)
          (subst (λ v. EnoughAnswer enc.data_shards v up.groups) (sym same) enough) in
      let read = λ (nodes : List NodeMetadata) (found : FileMetadata × List ShardPlacement).
        lift {W = W} encoder_failed
          (new_encoder p.rs_new (pos default_data_shards) (pos default_parity_shards))
        >>= λ enc. get_chunks p s key enc nodes found.1 (chunk_indices found.1) in
      let rest = λ (found : FileMetadata × List ShardPlacement).
        s.list_nodes >>= λ nodes. read nodes found in
      let got₁ : get_chunks p s key enc (view w₁).nodes placements (numbers 0 (length up.groups)) w₂
          ≡ (w₃, ok chunks) =
        subst
          (λ v.
            get_chunks p s key enc v.nodes placements (numbers 0 (length up.groups)) w₂
            ≡ (w₃, ok chunks))
          same₂ got in
      (
        w₃,
        run_step (s.get_file_placement file_id) rest w w₁ (up.meta, placements) found
            ∙ run_step s.list_nodes (λ nodes. read nodes (up.meta, placements)) w₁ w₂
                (view w₁).nodes listed
            ∙ rw (ne, in_order) got₁,
      )
