-- ===== src/Client/Recovered.antt =====
-- The download (cmd/aldea/get.go) of what is stored: a chunk of which enough nodes answer is got back.
use mathlib.Core.List.{append_assoc}
use aldea.Prelude.{
  ℕ, suc, ◌+◌, ◌≡◌, ◌<◌, ◌≤◌, refl, sym, ap, subst, ◌∙◌, ◌⊎◌, inl, inr, Bool, true, false, String,
  Option, some, none, List, [], ◌∷◌, ◌++◌, length, ok, err, All, map, arith, Bool-cases,
  if◌then◌else◌, length-append, length-map,
}
use aldea.Prelude.Int.{ℤ, pos, pos_part, leb_ℤ, ltb_ℤ}
use aldea.Prelude.Eff.{Eff, continue, pure, lift, ◌>>=◌}
use aldea.Chunker.{Chunk}
use aldea.Erasure.{Encoder, Shard, index_shards, total_shards, reconstruct}
use aldea.Erasure.RoundTrip.{IsReedSolomon, survivors_of, count_true, reconstruct_filled}
use aldea.Tracker.{NodeMetadata, ShardPlacement}
use aldea.Client.{Bytes, ClientError, Services, Platform, reconstruct_failed}
use aldea.Client.Download.{
  node_by_id, group, empty_shards, set_content, usable, fetch_plain, gather, get_chunk, plain_of,
}
use aldea.Client.Network.{View, IsNetwork, answer_of}
use aldea.Client.Grouping.{InChunk}
use aldea.Client.Stored.{IsStored, StoredFrom, IsSealed}

-- Whether the node of a placement is known and answers.
abbrev pub answers : View → Option NodeMetadata → Bool
answers v none = false
answers v (some node) = v.up node.address

abbrev pub reachable : View → ShardPlacement → Bool
reachable v pl = answers v (node_by_id v.nodes pl.node_id)

set_content-middle :
    (done rest : List Shard) (x : Shard) (d : Bytes)
    → set_content (done ++ x ∷ rest) (length done) d ≡ done ++ record x { content = d } ∷ rest
unfolding set_content
set_content-middle [] rest x d = refl
set_content-middle (y ∷ done) rest x d = ap (◌∷◌ y) (set_content-middle done rest x d)

module _ (p : Platform) (key : Bytes) {W : Type 0} (s : Services W) (view : W → View)
    (net : IsNetwork s view) (file_id : String) (k size : ℕ) where
  fetch_known :
      (pl : ShardPlacement) (node : NodeMetadata) (nodes : List NodeMetadata) (w : W)
      → node_by_id nodes pl.node_id ≡ some node
      → fetch_plain p s key nodes pl w ≡ usable p key (s.get_shard node pl.shard_id w)
  unfolding fetch_plain
  fetch_known pl node nodes w e = rw (fetch_plain, e) refl

  usable-IsSealed :
      (b ct : Bytes) (w : W)
      → IsSealed p key b ct
      → usable {E = ClientError} p key (w, ok ct) ≡ (w, some b)
  unfolding usable
  usable-IsSealed b [] w sealed = absurd (omega (arith, sealed.0))
  usable-IsSealed b (c ∷ ct) w sealed = ap (λ r. (w, plain_of r)) sealed.1

  usable_failed : (e : ClientError) (w : W) → usable p key (w, err e) ≡ (w, none)
  unfolding usable
  usable_failed e w = refl

  -- One placement: the shard where its node answers, and else nothing.
  fetch_plain-IsStored :
      (i : ℕ) (b : Bytes) (pl : ShardPlacement) (w : W)
      → IsStored p key file_id k size (view w) i b pl
      → (w' : W) × (view w' ≡ view w)
        × (fetch_plain p s key (view w).nodes pl w
            ≡ (w', if reachable (view w) pl then some b else none))
  fetch_plain-IsStored i b pl w (c, x, z, d, node, ct, known, held, sealed) =
      let (w', same, when_up, when_down) = net.gets node pl.shard_id w in
      let asked = fetch_known pl node (view w).nodes w known in
      elim (Bool-cases ((view w).up node.address)) [
        | inl up ↦
            let reach : reachable (view w) pl ≡ true = ap (answers (view w)) known ∙ up in
            let answer = when_up up ∙ ap (λ h. (w', ok (answer_of h))) held in
            (w', same, rw reach (asked ∙ ap (usable p key) answer ∙ usable-IsSealed b ct w' sealed))
        | inr down ↦
            let (e, failed) = when_down down in
            let reach : reachable (view w) pl ≡ false = ap (answers (view w)) known ∙ down in
            (w', same, rw reach (asked ∙ ap (usable p key) failed ∙ usable_failed e w'))
      ]

  -- One round of the loop, for a shard that is in range.
  abbrev filed : List Shard → ℕ → Option Bytes → List Shard
  filed raw i none = raw
  filed raw i (some b) = set_content raw i b

  gather_round :
      (nodes : List NodeMetadata) (total i : ℕ) (pl : ShardPlacement) (pls : List ShardPlacement)
      (raw : List Shard) (n : ℤ) (w w₁ : W) (found : Option Bytes)
      → pl.shard_index ≡ pos i
      → i < total
      → fetch_plain p s key nodes pl w ≡ (w₁, found)
      → gather p s key nodes total (pl ∷ pls) raw n w
        ≡ gather p s key nodes total pls (filed raw i found) pl.original_chunk_size w₁
  unfolding gather
  gather_round nodes total i pl pls raw n w w₁ none x l e =
      let low : leb_ℤ (pos total) pl.shard_index ≡ false =
        ap (leb_ℤ (pos total)) x ∙ ground arith in
      rw (gather, low, ap (λ r. r.1) e, ap (λ r. r.0) e) refl
  gather_round nodes total i pl pls raw n w w₁ (some b) x l e =
      let low : leb_ℤ (pos total) pl.shard_index ≡ false =
        ap (leb_ℤ (pos total)) x ∙ ground arith in
      let natural : ltb_ℤ pl.shard_index (pos 0) ≡ false =
        ap (λ j. ltb_ℤ j (pos 0)) x ∙ ground arith in
      rw (gather, low, ap (λ r. r.1) e, natural, ap (λ r. r.0) e)
        (ap
          (λ j.
            gather p s key nodes total pls (set_content raw (pos_part j) b) pl.original_chunk_size
              w₁)
          x)

  -- The list of shards after a round.
  filed_middle :
      (done rest : List Shard) (i : ℕ) (b : Bytes) (f : Bool)
      → length done ≡ i
      → filed (done ++ record { index = pos i; content = [] } ∷ rest) i (if f then some b else none)
        ≡ (done
            ++ (if f
                then record { index = pos i; content = b }
                else record { index = pos i; content = [] })
              ∷ [])
          ++ rest
  filed_middle done rest i b true l =
      let x : Shard = record { index = pos i; content = [] } in
      subst
        (λ j.
          set_content (done ++ x ∷ rest) j b
          ≡ (done ++ record { index = pos i; content = b } ∷ []) ++ rest)
        l
        (set_content-middle done rest x b
          ∙ sym (append_assoc done (record { index = pos i; content = b } ∷ []) rest))
  filed_middle done rest i b false l =
      sym (append_assoc done (record { index = pos i; content = [] } ∷ []) rest)

  gather-StoredFrom :
      (total i : ℕ) (raw : List Bytes) (pls : List ShardPlacement) (done : List Shard) (n : ℤ)
      (w : W)
      → length done ≡ i
      → i + length raw ≡ total
      → StoredFrom p key file_id k size (view w) i raw pls
      → (0 < length raw) ⊎ (n ≡ pos size)
      → (w' : W) × (view w' ≡ view w)
        × (gather p s key (view w).nodes total pls (done ++ empty_shards i (length raw)) n w ≡ (
          w',
          ok (done ++ survivors_of (map (reachable (view w)) pls) (index_shards i raw), pos size),
        ))
  unfolding gather empty_shards index_shards
  gather-StoredFrom total i [] [] done n w l t f (inl o) = absurd (omega arith)
  gather-StoredFrom total i [] [] done n w l t f (inr o) =
      (w, refl, ap (λ m. (w, ok (done ++ [], m))) o)
  gather-StoredFrom total i [] (pl ∷ pls) done n w l t f o = absurd f
  gather-StoredFrom total i (b ∷ raw) [] done n w l t f o = absurd f
  gather-StoredFrom total i (b ∷ raw) (pl ∷ pls) done n w l t (f, fs) o =
      let nodes = (view w).nodes in
      let reach = reachable (view w) pl in
      let gap = empty_shards (i + 1) (length raw) in
      let here : Shard =
        if reach
        then record { index = pos i; content = b }
        else record { index = pos i; content = [] } in
      let (w₁, same, fetched) = fetch_plain-IsStored i b pl w f in
      let round =
        gather_round nodes total i pl pls (done ++ record { index = pos i; content = [] } ∷ gap) n w
          w₁ (if reach then some b else none) f.1 (omega arith) fetched in
      let after =
        ap (λ r. gather p s key nodes total pls r pl.original_chunk_size w₁)
          (filed_middle done gap i b reach l) in
      let (w₂, same₂, rest) =
        gather-StoredFrom total (i + 1) raw pls (done ++ here ∷ []) pl.original_chunk_size w₁
          (omega (arith, length-append done (here ∷ []))) (omega arith)
          (subst (λ v. StoredFrom p key file_id k size v (i + 1) raw pls) (sym same) fs)
          (inr f.2) in
      (
        w₂,
        same₂ ∙ same,
        round
            ∙ after
            ∙ subst
                (λ v.
                  gather p s key v.nodes total pls ((done ++ here ∷ []) ++ gap)
                    pl.original_chunk_size w₁
                  ≡ (
                    w₂,
                    ok (
                      (done ++ here ∷ [])
                          ++ survivors_of (map (reachable v) pls) (index_shards (i + 1) raw),
                      pos size,
                    ),
                  ))
                same rest
            ∙ ap (λ ss. (w₂, ok (ss, pos size)))
                (append_assoc done (here ∷ [])
                  (survivors_of (map (reachable (view w)) pls) (index_shards (i + 1) raw))),
      )

  pub StoredFrom-InChunk :
      (v : View) (i : ℕ) (raw : List Bytes) (pls : List ShardPlacement)
      → StoredFrom p key file_id k size v i raw pls
      → InChunk k pls × (length pls ≡ length raw)
  StoredFrom-InChunk v i [] [] f = (tt, refl)
  StoredFrom-InChunk v i [] (pl ∷ pls) f = absurd f
  StoredFrom-InChunk v i (b ∷ raw) [] f = absurd f
  StoredFrom-InChunk v i (b ∷ raw) (pl ∷ pls) f =
      let (here, n) = StoredFrom-InChunk v (i + 1) raw pls f.1 in ((f.0.0, here), ap suc n)

-- Of each chunk, at least so many nodes answer.
abbrev pub EnoughAnswer : ℕ → View → List (List ShardPlacement) → Type 0
EnoughAnswer n v groups = All (λ g. n ≤ count_true (map (reachable v) g)) groups

module _ (p : Platform) (key : Bytes) (enc : Encoder)
    (law : IsReedSolomon enc.data_shards enc.parity_shards enc.rs) {W : Type 0} (s : Services W)
    (view : W → View) (net : IsNetwork s view) (file_id : String) where
  pub counted :
      (content : Bytes) → 0 < length content → length (law.shards content) ≡ total_shards enc
  counted [] n = absurd (omega arith)
  counted (b ∷ rest) n = law.counted b rest

  reconstruct_content :
      (flags : List Bool) (content : Bytes)
      → 0 < length content
      → length flags ≡ total_shards enc
      → enc.data_shards ≤ count_true flags
      → reconstruct enc
          (survivors_of flags (index_shards 0 (law.shards content)))
          (pos (length content))
        ≡ ok content
  reconstruct_content flags [] n l e = absurd (omega arith)
  reconstruct_content flags (b ∷ rest) n l e = reconstruct_filled enc law flags b rest l e

  pub get_chunk-StoredFrom :
      (chunk : Chunk) (k : ℕ) (g placements : List ShardPlacement) (w : W)
      → 0 < total_shards enc
      → chunk.index ≡ pos k
      → chunk.hash ≡ p.sha256 chunk.content
      → 0 < length chunk.content
      → StoredFrom p key file_id k (length chunk.content) (view w) 0 (law.shards chunk.content) g
      → group (pos k) placements ≡ g
      → enc.data_shards ≤ count_true (map (reachable (view w)) g)
      → (w' : W) × (view w' ≡ view w)
        × (get_chunk p s key enc (view w).nodes placements (pos k) w ≡ (w', ok chunk))
  unfolding get_chunk
  get_chunk-StoredFrom chunk k g placements w t x h n f found enough =
      let raw = law.shards chunk.content in
      let size = length chunk.content in
      let flags = map (reachable (view w)) g in
      let full = counted chunk.content n in
      let (w', same, gathered) =
        gather-StoredFrom p key s view net file_id k size (length raw) 0 raw g [] (pos 0) w refl
          (omega arith) f (inl (omega (arith, full))) in
      let gathered' : gather p s key (view w).nodes (total_shards enc) (group (pos k) placements)
            (empty_shards 0 (total_shards enc)) (pos 0) w
          ≡ (w', ok (survivors_of flags (index_shards 0 raw), pos size)) =
        rw (found, sym full) gathered in
      let back =
        reconstruct_content flags chunk.content n
          (length-map g (reachable (view w))
            ∙ (StoredFrom-InChunk p key s view net file_id k size (view w) 0 raw g f).1
            ∙ full)
          enough in
      let finish : List Shard × ℤ → Eff W ClientError Chunk = λ r.
        lift reconstruct_failed (reconstruct enc r.0 r.1) >>= λ content.
        pure (record { index = pos k; content = content; hash = p.sha256 content }) in
      let rebuilt : record { index = pos k; content = chunk.content; hash = p.sha256 chunk.content }
          ≡ chunk =
        rw (sym x, sym h) refl in
      (w', same, ap (λ r. continue r finish) gathered' ∙ rw back (ap (λ c. (w', ok c)) rebuilt))
