-- ===== src/ShardServer/Access.antt =====
-- Who changes the shards of cmd/noded/server.go, and what is read back.
use aldea.Prelude.{
  ◌≡◌, refl, ◌⊎◌, inl, inr, true, false, String, Option, none, some, arith, length, ok, ap, ◌∙◌,
  Result-cases, Option-cases, Bool-cases,
}
use aldea.Prelude.Int.{ℤ, pos, add64, ltb_ℤ}
use aldea.Prelude.Text.{str_eq_refl}
use aldea.Config.{NodeConfig}
use aldea.Protocol.{
  MessageEnvelope, PutShardRequest, encode, decode, unmarshal_body, type_put_shard_request,
  type_get_shard_request, type_get_shard_response,
}
use aldea.Protocol.Authentic.{decode-encode}
use aldea.ShardServer.{
  Bytes, Platform, storage_used, key, accept_put, handle_put, handle_get, write_response,
}

module _ {B : Type 0} (p : Platform B) (cfg : NodeConfig) where
  open p use {bucket, hmac, envelopes, put_requests, get_requests, get_responses}

  -- The quota lets a request pass.
  abbrev pub HasRoom : B → PutShardRequest → Type 0
  HasRoom db req =
      ltb_ℤ cfg.storage_allocated (add64 (storage_used p cfg db) (pos (length req.content))) ≡ false

  accept_put_write :
      (now : ℤ) (env : MessageEnvelope) (db db' : B) (req : PutShardRequest)
      → unmarshal_body put_requests env ≡ ok req
      → HasRoom db req
      → bucket.put db req.shard_id req.content ≡ some db'
      → (accept_put p cfg now env db).0 ≡ db'
  unfolding accept_put
  accept_put_write now env db db' req u room w = ground (arith, u, room, w)

  accept_put_changes :
      (now : ℤ) (env : MessageEnvelope) (db : B)
      → ((accept_put p cfg now env db).0 ≡ db)
        ⊎ ((req : PutShardRequest) × (unmarshal_body put_requests env ≡ ok req)
            × HasRoom db req
            × (bucket.put db req.shard_id req.content ≡ some (accept_put p cfg now env db).0))
  unfolding accept_put
  accept_put_changes now env db = elim (Result-cases (unmarshal_body put_requests env)) [
    | inr (x, u) ↦ inl (ground (arith, u))
    | inl (req, u) ↦
        elim (Bool-cases (
          ltb_ℤ cfg.storage_allocated (add64 (storage_used p cfg db) (pos (length req.content))))) [
            | inl over ↦ inl (ground (arith, u, over))
            | inr room ↦ elim (Option-cases (bucket.put db req.shard_id req.content)) [
              | inl n ↦ inl (ground (arith, u, room, n))
              | inr (db', n) ↦ inr (req, u, room, ground (arith, u, room, n))
            ]
          ]
  ]

  -- The shards change only by a request that reads, carries the MAC of the network's key, has the
  -- form of a store request and has room under the quota; the change is then its one write.
  pub handle_put_changes :
      (now : ℤ) (body : Option Bytes) (db : B)
      → ((handle_put p cfg now body db).0 ≡ db)
        ⊎ ((raw : Bytes) × (env : MessageEnvelope) × (req : PutShardRequest) × (body ≡ some raw)
            × (decode hmac envelopes raw (key p cfg) ≡ ok env)
            × (unmarshal_body put_requests env ≡ ok req)
            × HasRoom db req
            × (bucket.put db req.shard_id req.content ≡ some (handle_put p cfg now body db).0))
  unfolding handle_put
  handle_put_changes now none db = inl refl
  handle_put_changes now (some raw) db =
      elim (Result-cases (decode hmac envelopes raw (key p cfg))) [
        | inr (x, d) ↦ inl (ground (arith, d))
        | inl (env, d) ↦ elim (accept_put_changes now env db) [
          | inl same ↦ inl (ground (arith, d, same))
          | inr (req, u, room, w) ↦ inr (raw, env, req, refl, d, u, room, ground (arith, d, w))
        ]
      ]

  -- A shard that a member stores, with room for it and a bucket that takes it, is what a member's request for it is
  -- answered with, if the answer can be encoded: the status is 200, and the body decodes under the network's key to the
  -- node's own message of the answer's type, which says that the shard is found and holds its content.
  pub handle_get-handle_put :
      (t₁ t₂ t₃ t₄ : ℤ) (from to : String) (req : PutShardRequest) (put_raw get_raw answer : Bytes)
      (db db' : B)
      → encode hmac envelopes put_requests t₁ type_put_shard_request from req (key p cfg)
        ≡ ok put_raw
      → encode hmac envelopes get_requests t₂ type_get_shard_request to
          (record { shard_id = req.shard_id })
          (key p cfg)
        ≡ ok get_raw
      → HasRoom db req
      → bucket.put db req.shard_id req.content ≡ some db'
      → encode hmac envelopes get_responses t₄ type_get_shard_response cfg.node_id
          (record { shard_id = req.shard_id; content = req.content; found = true })
          (key p cfg)
        ≡ ok answer
      → ((handle_put p cfg t₃ (some put_raw) db).0 ≡ db')
        × ((handle_get p cfg t₄ (some get_raw) db').status ≡ 200)
        × ((env : MessageEnvelope) × (decode hmac envelopes
                (handle_get p cfg t₄ (some get_raw) db').body
                (key p cfg)
              ≡ ok env)
            × (env.msg_type ≡ 4)
            × (env.node_id ≡ cfg.node_id)
            × (unmarshal_body get_responses env
                ≡ ok (record { shard_id = req.shard_id; content = req.content; found = true })))
  unfolding handle_put handle_get write_response
  handle_get-handle_put t₁ t₂ t₃ t₄ from to req put_raw get_raw answer db db' ep eg room w ea =
      let (env, d, _, _, _, u) =
        decode-encode hmac envelopes put_requests t₁ type_put_shard_request from req (key p cfg)
          put_raw ep in
      let (env', d', _, _, _, u') =
        decode-encode hmac envelopes get_requests t₂ type_get_shard_request to
          (record { shard_id = req.shard_id }) (key p cfg) get_raw eg in
      let (reply, d₃, sort, sender, _, content) =
        decode-encode hmac envelopes get_responses t₄ type_get_shard_response cfg.node_id
          (record { shard_id = req.shard_id; content = req.content; found = true }) (key p cfg)
          answer ea in
      let kept = accept_put_write t₃ env db db' req u room w in
      let found = bucket.get-put db db' req.shard_id req.shard_id req.content w in
      let same = str_eq_refl req.shard_id in
      let answered : handle_get p cfg t₄ (some get_raw) db'
          ≡ record { status = 200; body = answer } =
        ground (arith, d', u', found, same, ea) in
      (
        ground (arith, d, kept),
        ap (λ r. r.status) answered,
        (
          reply,
          ap (λ r. decode hmac envelopes r.body (key p cfg)) answered ∙ d₃,
          sort,
          sender,
          content,
        ),
      )
