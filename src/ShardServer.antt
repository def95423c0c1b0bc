-- ===== src/ShardServer.antt =====
-- cmd/noded/server.go: the storage node's HTTP handlers over its bucket of shards. The bucket, the
-- JSON codecs, HMAC-SHA256 and the clock are parameters; a request body is `none` where reading
-- it fails. A handler gives the bucket after it and the response. The server runs handlers
-- concurrently; each is modelled as one step, from the quota check to the write.
pub mod Quota
pub mod Access
mod Tests
use aldea.Prelude.{
  ℕ, ◌≡◌, Bool, true, false, String, Option, none, some, List, [], ◌∷◌, length, if◌then◌else◌,
  Result, ok, err,
}
use aldea.Prelude.Int.{ℤ, pos, add64, ltb_ℤ}
use aldea.Prelude.Text.{utf8}
use aldea.Prelude.Dict.{Dict}
use aldea.Backend.{Bucket, Codec}
use aldea.Config.{NodeConfig}
use aldea.Http.{
  Response, http_error, written, status_bad_request, status_unauthorized,
  status_insufficient_storage, status_internal_server_error,
}
use aldea.Protocol.{
  MessageEnvelope, PutShardRequest, PutShardResponse, GetShardRequest, GetShardResponse, encode,
  decode, unmarshal_body, type_put_shard_response, type_get_shard_response,
}

abbrev pub Bytes : Type 0
Bytes = List ℕ

pub record HealthReportResponse : Type 0 where
  pub node_id : String
  pub storage_used : ℤ
  pub storage_allocated : ℤ
  pub is_healthy : Bool

-- The node's third-party parts.
pub record Platform (B : Type 0) : Type 0 where
  pub bucket : Bucket B Bytes
  pub hmac : Bytes → Bytes → Bytes
  pub envelopes : Codec MessageEnvelope Bytes
  pub put_requests : Codec PutShardRequest Bytes
  pub put_responses : Codec PutShardResponse Bytes
  pub get_requests : Codec GetShardRequest Bytes
  pub get_responses : Codec GetShardResponse Bytes
  pub health_json : HealthReportResponse → Bytes

-- The sum of `storageUsed`, in `int64`.
unfoldable pub sum_sizes : ℤ → Dict Bytes → ℤ
sum_sizes used [] = used
sum_sizes used ((_, v) ∷ rest) = sum_sizes (add64 used (pos (length v))) rest

abbrev pub is_some {ℓ} : {A : Type ℓ} → Option A → Bool
is_some none = false
is_some (some _) = true

-- `data`, which stays nil where the bucket has no value: an empty slice.
abbrev bytes_of : Option Bytes → Bytes
bytes_of none = []
bytes_of (some b) = b

module _ {B : Type 0} (p : Platform B) (cfg : NodeConfig) where
  open p use {bucket, hmac, envelopes, put_requests, put_responses, get_requests, get_responses}

  unfoldable pub storage_used : B → ℤ
  unfolding sum_sizes
  storage_used db = sum_sizes (pos 0) (bucket.entries db)

  abbrev pub key : Bytes
  key = utf8 cfg.network_key

  unfoldable pub write_response : {A : Type 0} → Codec A Bytes → ℤ → ℕ → String → A → Response
  write_response bodies now msg_type node_id body =
      elim (encode hmac envelopes bodies now msg_type node_id body key) [
        | ok encoded ↦ written encoded
        | err _ ↦ http_error "encoding error" status_internal_server_error
      ]

  -- What follows the quota check of `handlePut`.
  unfoldable pub store_shard : ℤ → MessageEnvelope → PutShardRequest → B → B × Response
  store_shard now env req db = elim (bucket.put db req.shard_id req.content) [
    | none ↦ (db, http_error "storage error" status_internal_server_error)
    | some db' ↦ (
      db',
      write_response put_responses now type_put_shard_response env.node_id
          (record { shard_id = req.shard_id; success = true; error = "" }),
    )
  ]

  -- What follows the authentication of `handlePut`.
  unfoldable pub accept_put : ℤ → MessageEnvelope → B → B × Response
  unfolding store_shard
  accept_put now env db = elim (unmarshal_body put_requests env) [
    | err _ ↦ (db, http_error "malformed request" status_bad_request)
    | ok req ↦
        if ltb_ℤ cfg.storage_allocated (add64 (storage_used db) (pos (length req.content)))
        then (db, http_error "storage quota exceeded" status_insufficient_storage)
        else store_shard now env req db
  ]

  unfoldable pub handle_put : ℤ → Option Bytes → B → B × Response
  handle_put now none db = (db, http_error "failed to read body" status_bad_request)
  handle_put now (some body) db = elim (decode hmac envelopes body key) [
    | err _ ↦ (db, http_error "authentication failed" status_unauthorized)
    | ok env ↦ accept_put now env db
  ]

  unfoldable pub handle_get : ℤ → Option Bytes → B → Response
  handle_get now none db = http_error "failed to read body" status_bad_request
  handle_get now (some body) db = elim (decode hmac envelopes body key) [
    | err _ ↦ http_error "authentication failed" status_unauthorized
    | ok env ↦ elim (unmarshal_body get_requests env) [
      | err _ ↦ http_error "malformed request" status_bad_request
      | ok req ↦
          let found = bucket.get db req.shard_id in
          write_response get_responses now type_get_shard_response cfg.node_id
            (record { shard_id = req.shard_id; content = bytes_of found; found = is_some found })
    ]
  ]

  unfoldable pub handle_health : B → Response
  handle_health db = written (
      p.health_json (record {
        node_id = cfg.node_id;
        storage_used = storage_used db;
        storage_allocated = cfg.storage_allocated;
        is_healthy = true;
      }))
