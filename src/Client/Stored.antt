-- ===== src/Client/Stored.antt =====
-- What the upload (cmd/aldea/put.go) has stored when it succeeds: every shard of every chunk,
-- encrypted, at the node that its placement names.
use aldea.Prelude.{
  ℕ, ◌+◌, ◌≡◌, ◌<◌, refl, sym, ap, ◌∙◌, subst, ◌⊎◌, inl, inr, String, Option, none, some, List, [],
  ◌∷◌, ◌++◌, length, ok, All, arith, Bool-cases, length-append,
}
use aldea.Prelude.Int.{pos}
use aldea.Prelude.Text.{str_eq_refl, str_eq_iff}
use aldea.Prelude.Eff.{inversion, pure-ok, lift-ok, pure, ◌>>=◌}
use aldea.Chunker.{Chunk}
use aldea.Crypto.{encrypt, decrypt}
use aldea.Crypto.Sealing.{decrypt-encrypt}
use aldea.Erasure.{Shard, index_shards}
use aldea.Tracker.{NodeMetadata, ShardPlacement}
use aldea.Client.{Bytes, Services, Platform, shard_id_of, encrypt_failed}
use aldea.Client.Upload.{encrypt_shard, encrypt_shards, placement_of, put_shards}
use aldea.Client.Download.{node_by_id}
use aldea.Client.Network.{
  View, IsNetwork, with_shard, Keeps, Keeps-refl, Keeps-trans, Keeps-weaken, IsBefore,
  shard_id_of-IsBefore,
}

module _ (p : Platform) (key : Bytes) where
  -- A ciphertext that is sent and read back gives the plaintext.
  abbrev pub IsSealed : Bytes → Bytes → Type 0
  IsSealed plain ct = (0 < length ct) × (decrypt p.aead ct key ≡ ok plain)

  abbrev pub AllSealed : List Bytes → List Bytes → Type 0
  AllSealed [] [] = Unit
  AllSealed (s ∷ ss) (c ∷ cs) = IsSealed s c × AllSealed ss cs
  AllSealed [] (c ∷ cs) = ⊥
  AllSealed (s ∷ ss) [] = ⊥

  encrypt-IsSealed :
      (drawn : Option Bytes) (plain ct : Bytes)
      → 0 < p.aead.nonce_size
      → ((b : Bytes) → drawn ≡ some b → length b ≡ p.aead.nonce_size)
      → encrypt p.aead drawn plain key ≡ ok ct
      → IsSealed plain ct
  unfolding encrypt
  encrypt-IsSealed none plain ct z n e = absurd (ground (arith, e))
  encrypt-IsSealed (some b) plain ct z n e = elim (Bool-cases (p.aead.accepts_key key)) [
    | inl k ↦
        let (c, e₁, e₂, _) = (decrypt-encrypt p.aead b plain key [] (n b refl) z).0 k in
        let same : ct ≡ b ++ p.aead.seal key b plain = ground (arith, k, e) in
        let that : c ≡ ct = ground (arith, e, e₁) in
        (
          rw same (omega (arith, length-append b (p.aead.seal key b plain), n b refl, z)),
          subst (λ x. decrypt p.aead x key ≡ ok plain) that e₂,
        )
    | inr k ↦ absurd (ground (arith, k, e))
  ]

  module _ {W : Type 0} (s : Services W) (view : W → View) (net : IsNetwork s view)
      (z : 0 < p.aead.nonce_size) where
    encrypt_shard-IsSealed :
        (shard : Shard) (w w' : W) (ct : Bytes)
        → encrypt_shard p s key shard w ≡ (w', ok ct)
        → (view w' ≡ view w) × IsSealed shard.content ct
    unfolding encrypt_shard
    encrypt_shard-IsSealed shard w w' ct e =
        let (v, n) = net.randomness p.aead.nonce_size w in
        let (w₁, drawn) = s.random p.aead.nonce_size w in
        let (same, sealed) =
          lift-ok encrypt_failed (encrypt p.aead drawn shard.content key) w₁ w' ct e in
        (ap view same ∙ v, encrypt-IsSealed drawn shard.content ct z n sealed)

    pub encrypt_shards-AllSealed :
        (i : ℕ) (raw : List Bytes) (w w' : W) (cts : List Bytes)
        → encrypt_shards p s key (index_shards i raw) w ≡ (w', ok cts)
        → (view w' ≡ view w) × AllSealed raw cts
    unfolding encrypt_shards index_shards
    encrypt_shards-AllSealed i [] w w' cts e = ground (arith, e)
    encrypt_shards-AllSealed i (b ∷ raw) w w' cts e =
        let shard : Shard = record { index = pos i; content = b } in
        let shards = index_shards (i + 1) raw in
        let (w₁, ct, e₁, f₁) =
          inversion (encrypt_shard p s key shard)
            (λ ct. encrypt_shards p s key shards >>= λ rest. pure (ct ∷ rest)) w w' cts e in
        let (w₂, rest, e₂, f₂) =
          inversion (encrypt_shards p s key shards) (λ rest. pure (ct ∷ rest)) w₁ w' cts f₁ in
        let (v₁, one) = encrypt_shard-IsSealed shard w w₁ ct e₁ in
        let (v₂, all) = encrypt_shards-AllSealed (i + 1) raw w₁ w₂ rest e₂ in
        let (same, consed) = pure-ok (ct ∷ rest) cts w₂ w' f₂ in
        (ap view same ∙ v₂ ∙ v₁, subst (AllSealed (b ∷ raw)) (sym consed) (one, all))

  module _ (file_id : String) (k size : ℕ) where
    -- Shard `i` of chunk `k`, which has `size` bytes, is where its placement says.
    abbrev pub IsStored : View → ℕ → Bytes → ShardPlacement → Type 0
    IsStored v i b pl =
        (pl.chunk_index ≡ pos k)
        × (pl.shard_index ≡ pos i)
        × (pl.original_chunk_size ≡ pos size)
        × (pl.shard_id ≡ shard_id_of file_id (pos k) i)
        × (node : NodeMetadata) × (ct : Bytes) × (node_by_id v.nodes pl.node_id ≡ some node)
        × (v.held node.address pl.shard_id ≡ some ct)
        × IsSealed b ct

    -- The shards from `i` on are.
    abbrev pub StoredFrom : View → ℕ → List Bytes → List ShardPlacement → Type 0
    StoredFrom v i [] [] = Unit
    StoredFrom v i [] (pl ∷ pls) = ⊥
    StoredFrom v i (b ∷ raw) [] = ⊥
    StoredFrom v i (b ∷ raw) (pl ∷ pls) = IsStored v i b pl × StoredFrom v (i + 1) raw pls

    IsStored-kept :
        (v v' : View) (i l j : ℕ) (b : Bytes) (pl : ShardPlacement)
        → (k < l) ⊎ (k ≡ l) × (i < j)
        → Keeps file_id l j v v'
        → IsStored v i b pl
        → IsStored v' i b pl
    IsStored-kept v v' i l j b pl o (n, h) (c, x, z, d, node, ct, known, held, sealed) =
        let before : IsBefore file_id l j pl.shard_id =
          rw d (shard_id_of-IsBefore file_id k i l j o) in
        (
          c,
          x,
          z,
          d,
          node,
          ct,
          ap (λ ns. node_by_id ns pl.node_id) n ∙ known,
          h node.address pl.shard_id before ∙ held,
          sealed,
        )

    pub StoredFrom-kept :
        (v v' : View) (i l : ℕ) (raw : List Bytes) (pls : List ShardPlacement)
        → k < l
        → Keeps file_id l 0 v v'
        → StoredFrom v i raw pls
        → StoredFrom v' i raw pls
    StoredFrom-kept v v' i l [] [] o h f = tt
    StoredFrom-kept v v' i l [] (pl ∷ pls) o h f = f
    StoredFrom-kept v v' i l (b ∷ raw) [] o h f = f
    StoredFrom-kept v v' i l (b ∷ raw) (pl ∷ pls) o h f = (
      IsStored-kept v v' i l 0 b pl (inl o) h f.0,
      StoredFrom-kept v v' (i + 1) l raw pls o h f.1,
    )

  -- A shard that is accepted leaves those before it alone.
  with_shard-Keeps :
      (file_id : String) (k i : ℕ) (v : View) (address : String) (ct : Bytes)
      → Keeps file_id k i v (with_shard v address (shard_id_of file_id (pos k) i) ct)
  with_shard-Keeps file_id k i v address ct = (
    refl,
    λ a id before. elim (str_eq_iff id (shard_id_of file_id (pos k) i)) [
      | inl (t, e) ↦ absurd (before k i (inr (refl, omega arith)) e)
      | inr (t, e) ↦ ground (arith, t)
    ],
  )

  with_shard-held :
      (v : View) (address id : String) (ct : Bytes)
      → (with_shard v address id ct).held address id ≡ some ct
  with_shard-held v address id ct = ground (arith, str_eq_refl address, str_eq_refl id)

  module _ {W : Type 0} (s : Services W) (view : W → View) (net : IsNetwork s view)
      (file_id : String) where
    pub put_shards-StoredFrom :
        (chunk : Chunk) (k i : ℕ) (nodes : List NodeMetadata) (raw cts : List Bytes) (w w' : W)
        (pls : List ShardPlacement)
        → chunk.index ≡ pos k
        → AllSealed raw cts
        → length nodes ≡ length raw
        → All (λ x. node_by_id (view w).nodes x.node_id ≡ some x) nodes
        → put_shards p s file_id chunk i nodes cts w ≡ (w', ok pls)
        → Keeps file_id k i (view w) (view w')
          × StoredFrom file_id k (length chunk.content) (view w') i raw pls
    unfolding put_shards
    put_shards-StoredFrom chunk k i [] [] cts w w' pls x a n known e =
        let (same, none_placed) = pure-ok [] pls w w' e in
        (
          Keeps-refl file_id k i (view w) (view w') (ap view same),
          subst (StoredFrom file_id k (length chunk.content) (view w') i []) (sym none_placed) tt,
        )
    put_shards-StoredFrom chunk k i [] (b ∷ raw) cts w w' pls x a n known e = absurd (omega arith)
    put_shards-StoredFrom chunk k i (node ∷ nodes) [] cts w w' pls x a n known e =
        absurd (omega arith)
    put_shards-StoredFrom chunk k i (node ∷ nodes) (b ∷ raw) [] w w' pls x a n known e = absurd a
    put_shards-StoredFrom chunk k i (node ∷ nodes) (b ∷ raw) (ct ∷ cts) w w' pls x a n known e =
        let id = shard_id_of file_id chunk.index i in
        let more = put_shards p s file_id chunk (i + 1) nodes cts in
        let (w₁, _, e₁, f₁) =
          inversion (s.put_shard node id ct)
            (λ _. more >>= λ rest. pure (placement_of p s file_id chunk i node ∷ rest)) w w' pls
            e in
        let (w₂, rest, e₂, f₂) =
          inversion more (λ rest. pure (placement_of p s file_id chunk i node ∷ rest)) w₁ w' pls
            f₁ in
        let (same, placed) = pure-ok (placement_of p s file_id chunk i node ∷ rest) pls w₂ w' f₂ in
        let v₁ : view w₁ ≡ with_shard (view w) node.address id ct = net.puts node id ct w w₁ e₁ in
        let ids : id ≡ shard_id_of file_id (pos k) i = ap (λ c. shard_id_of file_id c i) x in
        let kept₁ : Keeps file_id k i (view w) (view w₁) =
          subst (Keeps file_id k i (view w))
            (ap (λ d. with_shard (view w) node.address d ct) (sym ids) ∙ sym v₁)
            (with_shard-Keeps file_id k i (view w) node.address ct) in
        let known₁ : All (λ x. node_by_id (view w₁).nodes x.node_id ≡ some x) (node ∷ nodes) =
          subst (λ ns. All (λ x. node_by_id ns x.node_id ≡ some x) (node ∷ nodes)) (sym kept₁.0)
            known in
        let held₁ : (view w₁).held node.address id ≡ some ct =
          ap (λ v. v.held node.address id) v₁ ∙ with_shard-held (view w) node.address id ct in
        let (kept₂, stored) =
          put_shards-StoredFrom chunk k (i + 1) nodes raw cts w₁ w₂ rest x a.1 (omega arith)
            known₁.1 e₂ in
        let size = length chunk.content in
        let placement = placement_of p s file_id chunk i node in
        let first : IsStored file_id k size (view w₂) i b placement =
          IsStored-kept file_id k size (view w₁) (view w₂) i k (i + 1) b placement
            (inr (refl, omega arith)) kept₂ (x, refl, refl, ids, node, ct, known₁.0, held₁, a.0) in
        let kept : Keeps file_id k i (view w) (view w₂) =
          Keeps-trans file_id k i (view w) (view w₁) (view w₂) kept₁ (
            Keeps-weaken file_id k i k (i + 1) (view w₁) (view w₂) (inr (refl, omega arith))
              kept₂) in
        (
          subst (λ v. Keeps file_id k i (view w) (view v)) (sym same) kept,
          rw (same, placed) (first, stored),
        )
