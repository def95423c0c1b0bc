-- ===== src/Repair/Moves.antt =====
-- What a repair (internal/repair/repair.go) does to the placements of a file.
use aldea.Prelude.{
  ◌≡◌, refl, sym, ap, subst, ◌∙◌, String, List, [], ◌∷◌, Result, Result-cases, ok_unique, ◌+◌, ok,
  err, arith, Bool-cases, Option-cases, inl, inr,
}
use aldea.Prelude.Int.{ℤ, pos}
use aldea.Prelude.Eff.{Eff, inversion, pure-ok, lift-ok, pure, lift, ◌>>=◌, ◌>>◌}
use aldea.Erasure.{Shard, Encoder, encode, reconstruct, total_shards}
use aldea.Crypto.{encrypt}
use aldea.Tracker.{Backend, Store, StoreError, NodeMetadata, ShardPlacement, select_placement_nodes}
use aldea.Client.{Bytes, Platform, ClientError}
use aldea.Client.Download.{empty_shards}
use aldea.Repair.{
  Field, Links, RepairError, contains, reading, raise, first_of, at_index, at_world, sealed,
  count_one, fetch_plain, write_at, gather, replace_one, rebuild_chunk, encrypt_failed,
  store_failed, upload_failed, reconstruct_failed, encode_failed,
}

module _ {B R W : Type 0} (be : Backend B R) (p : Platform) (links : Links W) (key : Bytes)
    (unhealthy : List String) where
  -- The store and the count are as they were.
  abbrev pub Same : Field B W → Field B W → Type 0
  Same f f' = (f'.store ≡ f.store) × (f'.repaired ≡ f.repaired)

  pub Same-refl : (f f' : Field B W) → f' ≡ f → Same f f'
  Same-refl f f' e = (ap (λ x. x.store) e, ap (λ x. x.repaired) e)

  pub Same-trans : (f g h : Field B W) → Same f g → Same g h → Same f h
  Same-trans f g h (a, b) (c, d) = (c ∙ a, d ∙ b)

  reading-ok :
      {A : Type 0} (read : Store B → Result StoreError A) (f f' : Field B W) (a : A)
      → reading be p links key unhealthy read f ≡ (f', ok a)
      → (f' ≡ f) × (read f.store ≡ ok a)
  reading-ok read f f' a e = elim (Result-cases (read f.store)) [
    | inl (b, t) ↦
        let step : reading be p links key unhealthy read f ≡ (f, ok b) = rw (reading, t) refl in
        let (same, value) = pure-ok {E = RepairError} b a f f' (sym step ∙ e) in
        (same, t ∙ ap ok (sym value))
    | inr (x, t) ↦
        let step : reading be p links key unhealthy read f ≡ (f, err (store_failed x)) =
          rw (reading, t) refl in
        absurd (ground (arith, e, step))
  ]

  raise-ok :
      {A : Type 0} (r : Result RepairError A) (f f' : Field B W) (a : A)
      → raise {S = Field B W} r f ≡ (f', ok a)
      → (f' ≡ f) × (r ≡ ok a)
  raise-ok (ok b) f f' a e = let (same, value) = pure-ok b a f f' e in (same, ap ok (sym value))
  raise-ok (err x) f f' a e = absurd (ground (arith, e))

  at_world-Same :
      {A : Type 0} (x : RepairError) (m : Eff W ClientError A) (f f' : Field B W) (a : A)
      → at_world be p links key unhealthy x m f ≡ (f', ok a)
      → Same f f'
  at_world-Same x m f f' a e = elim (Result-cases (m f.world).1) [
    | inl (b, t) ↦
        let step : at_world be p links key unhealthy x m f
            ≡ (record f { world = (m f.world).0 }, ok b) =
          rw (at_world, t) refl in
        let same : f' ≡ record f { world = (m f.world).0 } = ap (λ r. r.0) (sym e ∙ step) in
        Same-refl (record f { world = (m f.world).0 }) f' same
    | inr (y, t) ↦
        let step : at_world be p links key unhealthy x m f
            ≡ (record f { world = (m f.world).0 }, err x) =
          rw (at_world, t) refl in
        absurd (ground (arith, e, step))
  ]

  sealed-Same :
      (content ct : Bytes) (f f' : Field B W)
      → sealed be p links key unhealthy content f ≡ (f', ok ct)
      → Same f f'
  sealed-Same content ct f f' e =
      let (w', drawn) = links.random p.aead.nonce_size f.world in
      let f₁ : Field B W = record f { world = w' } in
      Same-refl f₁ f' (lift-ok encrypt_failed (encrypt p.aead drawn content key) f₁ f' ct e).0

  pub replace_one-ok :
      (fresh : List Shard) (pl placed : ShardPlacement) (f f' : Field B W) (node : NodeMetadata)
      → select_placement_nodes be f.store (pos 1) (pos 0) ≡ ok (node ∷ [])
      → replace_one be p links key unhealthy fresh pl f ≡ (f', ok placed)
      → (f'.store ≡ f.store)
        × (f'.repaired ≡ f.repaired + 1)
        × (placed ≡ record pl { node_id = node.node_id })
  unfolding replace_one
  replace_one-ok fresh pl placed f f' node selected e =
      let select = λ (s : Store B). select_placement_nodes be s (pos 1) (pos 0) in
      let finish = λ (n : NodeMetadata).
        count_one be p links key unhealthy >> pure (record pl { node_id = n.node_id }) in
      let send = λ (n : NodeMetadata) (ct : Bytes).
        at_world be p links key unhealthy upload_failed (links.upload n pl.shard_id ct)
        >> finish n in
      let seal = λ (n : NodeMetadata) (shard : Shard).
        sealed be p links key unhealthy shard.content >>= send n in
      let pick =
        λ (n : NodeMetadata). raise {S = Field B W} (at_index fresh pl.shard_index) >>= seal n in
      let first =
        λ (chosen : List NodeMetadata). raise {S = Field B W} (first_of chosen) >>= pick in
      let (f₁, chosen, e₁, r₁) =
        inversion (reading be p links key unhealthy select) first f f' placed e in
      let (s₁, got) = reading-ok select f f₁ chosen e₁ in
      let (f₂, n, e₂, r₂) = inversion (raise (first_of chosen)) pick f₁ f' placed r₁ in
      let (s₂, head) = raise-ok (first_of chosen) f₁ f₂ n e₂ in
      let (f₃, shard, e₃, r₃) =
        inversion (raise (at_index fresh pl.shard_index)) (seal n) f₂ f' placed r₂ in
      let (s₃, _) = raise-ok (at_index fresh pl.shard_index) f₂ f₃ shard e₃ in
      let (f₄, ct, e₄, r₄) =
        inversion (sealed be p links key unhealthy shard.content) (send n) f₃ f' placed r₃ in
      let s₄ = sealed-Same shard.content ct f₃ f₄ e₄ in
      let (f₅, u, e₅, r₅) =
        inversion (at_world be p links key unhealthy upload_failed (links.upload n pl.shard_id ct))
          (λ _. finish n) f₄ f' placed r₄ in
      let s₅ = at_world-Same upload_failed (links.upload n pl.shard_id ct) f₄ f₅ u e₅ in
      let (last, value) =
        pure-ok {E = RepairError} (record pl { node_id = n.node_id }) placed
          (record f₅ { repaired = f₅.repaired + 1 }) f' r₅ in
      let one : chosen ≡ node ∷ [] = ok_unique (select f.store) chosen (node ∷ []) got selected in
      let that : n ≡ node =
        ok_unique (first_of (node ∷ [])) n node (ap first_of (sym one) ∙ head) refl in
      let before : f₃ ≡ f = s₃ ∙ s₂ ∙ s₁ in
      let (store, count) = Same-trans f₃ f₄ f₅ s₄ s₅ in
      (
        ap (λ x. x.store) last ∙ store ∙ ap (λ x. x.store) before,
        ap (λ x. x.repaired) last ∙ ap (λ c. c + 1) (count ∙ ap (λ x. x.repaired) before),
        value ∙ ap (λ x. record pl { node_id = x.node_id }) that,
      )

  -- Fetching shards acts on the world alone.
  pub gather-Same :
      (healthy : List NodeMetadata) (pls : List ShardPlacement) (raw : List Shard) (size : ℤ)
      (f : Field B W)
      → Same f (gather be p links key unhealthy healthy pls raw size f).0
  unfolding gather
  gather-Same healthy [] raw size f = (refl, refl)
  gather-Same healthy (pl ∷ pls) raw size f =
      let (w₁, found) = fetch_plain be p links key unhealthy healthy pl f.world in
      let f₁ : Field B W = record f { world = w₁ } in
      elim (Bool-cases (contains unhealthy pl.node_id)) [
        | inl t ↦ rw (gather, t) (gather-Same healthy pls raw pl.original_chunk_size f)
        | inr t ↦ elim (Option-cases found) [
          | inl e ↦ rw (gather, t, e) (gather-Same healthy pls raw pl.original_chunk_size f₁)
          | inr (plain, e) ↦ elim (Result-cases (write_at raw pl.shard_index plain)) [
            | inl (raw', g) ↦
                rw (gather, t, e, g) (gather-Same healthy pls raw' pl.original_chunk_size f₁)
            | inr (x, g) ↦ rw (gather, t, e, g) (refl, refl)
          ]
        ]
      ]

  pub rebuild_chunk-Same :
      (enc : Encoder) (healthy : List NodeMetadata) (chunk : List ShardPlacement) (f f' : Field B W)
      (fresh : List Shard)
      → rebuild_chunk be p links key unhealthy enc healthy chunk f ≡ (f', ok fresh)
      → Same f f'
  unfolding rebuild_chunk
  rebuild_chunk-Same enc healthy chunk f f' fresh e =
      let total = total_shards enc in
      let again = λ (content : Bytes). lift {W = Field B W} encode_failed (encode enc content) in
      let solve = λ (g : List Shard × ℤ).
        lift {W = Field B W} reconstruct_failed (reconstruct enc g.0 g.1) >>= again in
      let collect = gather be p links key unhealthy healthy chunk (empty_shards 0 total) (pos 0) in
      let (f₁, g, e₁, r₁) = inversion collect solve f f' fresh e in
      let (f₂, content, e₂, r₂) =
        inversion (lift reconstruct_failed (reconstruct enc g.0 g.1)) again f₁ f' fresh r₁ in
      let (s₂, _) = lift-ok reconstruct_failed (reconstruct enc g.0 g.1) f₁ f₂ content e₂ in
      let (s₃, _) = lift-ok encode_failed (encode enc content) f₂ f' fresh r₂ in
      let s₁ : Same f f₁ =
        subst (Same f) (ap (λ x. x.0) e₁)
          (gather-Same healthy chunk (empty_shards 0 total) (pos 0) f) in
      Same-trans f f₁ f' s₁ (Same-refl f₁ f' (s₃ ∙ s₂))
