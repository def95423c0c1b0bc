-- ===== src/Client/RoundTrip.antt =====
-- Upload and download together (cmd/aldea/put.go and get.go).
use aldea.Prelude.{
  ℕ, ◌+◌, ◌≡◌, ◌<◌, ◌≤◌, refl, sym, ap, subst, ◌∙◌, inl, inr, false, String, some, none, List, [],
  ◌∷◌, length, Result, ok, err, All, arith, Bool-cases,
}
use aldea.Prelude.Int.{pos}
use aldea.Chunker.{Chunk, Reader, split, effective_size, reassemble}
use aldea.Chunker.Split.{split-IsChunking, effective_size_pos}
use aldea.Chunker.Reassemble.{append_to, reassemble-split}
use aldea.Config.{ClientConfig, ConfigError}
use mathlib.Core.List.{map}
use aldea.Erasure.{
  Encoder, RsEncoder, total_shards, new_encoder, default_data_shards, default_parity_shards,
}
use aldea.Erasure.RoundTrip.{IsReedSolomon, count_true}
use aldea.Tracker.{FileMetadata, ShardPlacement}
use aldea.Client.{Bytes, Services, Platform, setup, split_failed}
use aldea.Client.Upload.{OpenFile, put_file, run_put}
use aldea.Client.Download.{get_file, write_output, run_get, chunk_indices, group}
use aldea.Client.Network.{View, IsNetwork}
use aldea.Client.Grouping.{AllFound, concat-AllFound, numbers, chunk_indices-concat}
use aldea.Client.Uploaded.{
  IsNumbered, StoredAll, IsUploaded, StoredAll-kept, put_file-IsUploaded, concat,
}
use aldea.Client.Downloaded.{IsSound, IsChunking-IsSound, StoredAll-IsGrouped, get_file-IsUploaded}
use aldea.Client.Recovered.{EnoughAnswer, reachable}

-- Of every chunk that a list of placements names, at least `n` placements are at nodes that answer.
abbrev pub AreReachable : ℕ → View → List ShardPlacement → Type 0
AreReachable n v pls =
    All (λ ci. n ≤ count_true (map (reachable v) (group ci pls))) (chunk_indices pls)

AreReachable-EnoughAnswer :
    (n k : ℕ) (v : View) (pls : List ShardPlacement) (gs : List (List ShardPlacement))
    → AllFound pls k gs
    → All (λ ci. n ≤ count_true (map (reachable v) (group ci pls))) (numbers k (length gs))
    → EnoughAnswer n v gs
AreReachable-EnoughAnswer n k v pls [] f a = tt
AreReachable-EnoughAnswer n k v pls (g ∷ gs) (e, f) (h, a) = (
  subst (λ x. n ≤ count_true (map (reachable v) x)) e h,
  AreReachable-EnoughAnswer n (k + 1) v pls gs f a,
)

-- The file's chunks, as the upload cuts it: they are sound, and put together they are its content.
pub split-IsSound :
    (sha256 : Bytes → Bytes) (r : Reader)
    → r.fails ≡ false
    → (cs : List Chunk) × (split sha256 r (pos 0) ≡ some (ok cs))
      × IsSound sha256 0 cs
      × IsNumbered 0 cs
      × (reassemble sha256 append_to cs [] ≡ (r.remaining, none))
split-IsSound sha256 r h =
    let (cs, e, whole) = reassemble-split sha256 r (pos 0) h in
    let (cs', e', k) = (split-IsChunking sha256 r (pos 0)).0 h in
    let same : cs' ≡ cs = ground (arith, e, e') in
    let (sound, n) =
      IsChunking-IsSound sha256 (effective_size (pos 0)) 0 r.remaining cs'
        (effective_size_pos (pos 0)) k in
    (cs, e, subst (IsSound sha256 0) same sound, subst (IsNumbered 0) same n, whole)

within : (n : ℕ) → 0 + n ≤ n
within n = omega arith

module _ (p : Platform) (key : Bytes) (enc : Encoder)
    (law : IsReedSolomon enc.data_shards enc.parity_shards enc.rs) {W : Type 0} (s : Services W)
    (view : W → View) (net : IsNetwork s view)
    (ne : new_encoder p.rs_new (pos default_data_shards) (pos default_parity_shards) ≡ ok enc)
    (filled : 0 < total_shards enc) (z : 0 < p.aead.nonce_size) where
  put_broken :
      (file : OpenFile) (file_id : String) (w w' : W)
      → put_file p s key file w ≡ (w', ok file_id)
      → file.content.fails ≡ false
  unfolding put_file
  put_broken file file_id w w' e = elim (Bool-cases file.content.fails) [
    | inr f ↦ f
    | inl t ↦
        let cut = (split-IsChunking p.sha256 file.content (pos 0)).1 t in
        let refused : put_file p s key file w ≡ (w, err split_failed) = rw cut refl in
        absurd (ground (arith, e, refused))
  ]

  -- An upload, and a download of what it stored.
  get_file-put_file :
      (file : OpenFile) (file_id : String) (w w' v : W) (meta : FileMetadata)
      (pls : List ShardPlacement)
      → put_file p s key file w ≡ (w', ok file_id)
      → (view v).nodes ≡ (view w').nodes
      → (view v).held ≡ (view w').held
      → (view w').files file_id ≡ some (meta, pls)
      → (view v).files file_id ≡ some (meta, pls)
      → AreReachable enc.data_shards (view v) pls
      → (v' : W) × (chunks : List Chunk) × (get_file p s key file_id v ≡ (v', ok chunks))
        × (reassemble p.sha256 append_to chunks [] ≡ (file.content.remaining, none))
  get_file-put_file file file_id w w' v meta pls e nodes held there here enough =
      let (chunks, cut, sound, n, whole) =
        split-IsSound p.sha256 file.content (put_broken file file_id w w' e) in
      let up = put_file-IsUploaded p key enc law s view net z file chunks file_id w w' ne cut n e in
      let placed : (up.meta, concat up.groups) ≡ (meta, pls) = ground (arith, up.saved, there) in
      let stored : StoredAll p key enc law file_id (view v) 0 chunks up.groups =
        StoredAll-kept p key enc law file_id (view w') (view v) 0 (length chunks) chunks up.groups
          (within (length chunks)) (nodes, λ a id b. ap (λ h. h a id) held) up.stored in
      let up_v : IsUploaded p key enc law file_id chunks (view v) = record {
        meta = up.meta;
        groups = up.groups;
        saved = here ∙ ap some (sym placed);
        stored = stored;
      } in
      let (grouped, _) =
        StoredAll-IsGrouped p key enc law s view net file_id filled (view v) 0 chunks up.groups n
          stored in
      let enough' : AreReachable enc.data_shards (view v) (concat up.groups) =
        subst (AreReachable enc.data_shards (view v)) (ap (λ x. x.1) (sym placed)) enough in
      let answers =
        AreReachable-EnoughAnswer enc.data_shards 0 (view v) (concat up.groups) up.groups
          (concat-AllFound 0 up.groups grouped)
          (subst
            (λ cis.
              All
                (λ ci.
                  enc.data_shards
                  ≤ count_true (map (reachable (view v)) (group ci (concat up.groups))))
                cis)
            (chunk_indices-concat 0 up.groups grouped) enough') in
      let (v', got) =
        get_file-IsUploaded p key enc law s view net file_id filled chunks v up_v ne sound n
          answers in
      (v', chunks, got, whole)

module _ (p : Platform) (rs : RsEncoder)
    (rs_is : p.rs_new default_data_shards default_parity_shards ≡ some rs)
    (law : IsReedSolomon default_data_shards default_parity_shards rs) (z : 0 < p.aead.nonce_size)
    {W : Type 0} (services : ClientConfig → Services W) (view : W → View)
    (loaded : Result ConfigError ClientConfig) (cfg : ClientConfig) (key : Bytes)
    (ready : setup p loaded ≡ ok (cfg, key)) (net : IsNetwork (services cfg) view) where
  -- When `put` has succeeded, `get` of the file identifier that it printed writes the file's
  -- content, as long as the tracker still has the file and its nodes, the nodes still hold what
  -- they held, and of each chunk the nodes of at least four placements answer.
  pub run_get-run_put :
      (file : OpenFile) (file_id : String) (w w' v : W) (meta : FileMetadata)
      (pls : List ShardPlacement)
      → run_put p services loaded (some file) w ≡ (w', ok file_id)
      → (view v).nodes ≡ (view w').nodes
      → (view v).held ≡ (view w').held
      → (view w').files file_id ≡ some (meta, pls)
      → (view v).files file_id ≡ some (meta, pls)
      → AreReachable default_data_shards (view v) pls
      → (v' : W) × (run_get p services loaded append_to (some []) file_id v
          ≡ (v', ok file.content.remaining))
  unfolding run_put run_get write_output
  run_get-run_put file file_id w w' v meta pls e nodes held there here enough =
      let enc : Encoder = record {
        data_shards = default_data_shards;
        parity_shards = default_parity_shards;
        rs = rs;
      } in
      let s = services cfg in
      let ne : new_encoder p.rs_new (pos default_data_shards) (pos default_parity_shards) ≡ ok enc =
        unfold new_encoder in rw rs_is refl in
      let put : run_put p services loaded (some file) w ≡ put_file p s key file w =
        rw (run_put, ready) refl in
      let (v', chunks, got, whole) =
        get_file-put_file p key enc law s view net ne (omega arith) z file file_id w w' v meta pls
          (sym put ∙ e) nodes held there here enough in
      let written : write_output p append_to (some []) chunks ≡ ok file.content.remaining =
        rw (write_output, ap (λ r. r.1) whole, ap (λ r. r.0) whole) refl in
      (v', rw (run_get, ready, got, written) refl)
