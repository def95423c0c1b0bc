-- ===== src/ShardServer/Tests.antt =====
-- Runs and instances of the theorems on cmd/noded/server.go.
use aldea.Prelude.{
  ℕ, ◌≡◌, ◌≤◌, ◌<◌, ◌^◌, ◌⊎◌, refl, true, Option, none, some, [], ◌∷◌, length, ok, err, arith, ap,
  sym, subst, ◌∙◌, Result,
}
use aldea.Prelude.Int.{pos, add64, wrap64, ◌+ℤ◌}
use aldea.Prelude.Text.{utf8, decimal, bytes_eq}
use aldea.Config.{NodeConfig}
use aldea.Samples.{Table, put_in, table_bucket, constant_codec, plain_mac}
use aldea.Protocol.{
  MessageEnvelope, PutShardRequest, mac_input, calculate_mac, encode, decode, unmarshal_body,
  type_put_shard_request, type_get_shard_request, type_get_shard_response,
}
use aldea.Protocol.Samples.{envelopes, put_requests, get_requests, get_responses}
use aldea.ShardServer.{Bytes, Platform, storage_used, key, handle_put, handle_get}
use aldea.ShardServer.Quota.{total, stored, handle_put-quota}
use aldea.ShardServer.Access.{HasRoom, handle_put_changes, handle_get-handle_put}

abbrev platform : Platform (Table Bytes)
platform = record {
  bucket = table_bucket;
  hmac = plain_mac;
  envelopes = envelopes;
  put_requests = put_requests;
  put_responses = constant_codec (record { shard_id = "s1"; success = true; error = "" });
  get_requests = get_requests;
  get_responses = get_responses;
  health_json = λ h. [];
}

abbrev config : NodeConfig
config = record {
  node_id = "n1";
  listen_addr = ":9000";
  data_dir = "/data";
  storage_allocated = pos 20;
  network_key = "k";
  tracker_addr = ":8000";
}

abbrev empty : Table Bytes
empty = ([], tt)

abbrev request : PutShardRequest
request = record { shard_id = "s1"; content = 1 ∷ 2 ∷ [] }

abbrev filled : Table Bytes
filled = put_in empty "s1" (1 ∷ 2 ∷ [])

-- The MAC: the key `k` and `1:n1:7:` with the content, or `3:n1:8:`.
abbrev put_raw : Bytes
put_raw = 1 ∷ 7 ∷ 10 ∷ 107 ∷ 49 ∷ 58 ∷ 110 ∷ 49 ∷ 58 ∷ 55 ∷ 58 ∷ 1 ∷ 2 ∷ 1 ∷ 2 ∷ []

abbrev get_raw : Bytes
get_raw = 3 ∷ 8 ∷ 8 ∷ 107 ∷ 51 ∷ 58 ∷ 110 ∷ 49 ∷ 58 ∷ 56 ∷ 58 ∷ []

put_encoded :
    encode plain_mac envelopes put_requests
      (pos 7)
      type_put_shard_request
      "n1"
      request
      (key platform config)
    ≡ ok put_raw
unfolding encode calculate_mac mac_input utf8 decimal
put_encoded = refl

get_encoded :
    encode plain_mac envelopes get_requests
      (pos 8)
      type_get_shard_request
      "n1"
      (record { shard_id = request.shard_id })
      (key platform config)
    ≡ ok get_raw
unfolding encode calculate_mac mac_input utf8 decimal
get_encoded = refl

room : HasRoom platform config empty request
unfolding storage_used add64 wrap64 ◌+ℤ◌
room = refl

-- The node's answer: the MAC is the key `k` and `4:n1:9:` with the content.
abbrev answer : Bytes
answer = 4 ∷ 9 ∷ 10 ∷ 107 ∷ 52 ∷ 58 ∷ 110 ∷ 49 ∷ 58 ∷ 57 ∷ 58 ∷ 1 ∷ 2 ∷ 1 ∷ 2 ∷ []

answer_encoded :
    encode plain_mac envelopes get_responses
      (pos 9)
      type_get_shard_response
      "n1"
      (record { shard_id = "s1"; content = 1 ∷ 2 ∷ []; found = true })
      (key platform config)
    ≡ ok answer
unfolding encode calculate_mac mac_input utf8 decimal
answer_encoded = refl

handle_get-handle_put_example :
    ((handle_put platform config (pos 9) (some put_raw) empty).0 ≡ filled)
    × ((handle_get platform config (pos 9) (some get_raw) filled).status ≡ 200)
    × ((env : MessageEnvelope) × (decode plain_mac envelopes
            (handle_get platform config (pos 9) (some get_raw) filled).body
            (key platform config)
          ≡ ok env)
        × (env.msg_type ≡ 4)
        × (env.node_id ≡ "n1")
        × (unmarshal_body get_responses env
            ≡ ok (record { shard_id = "s1"; content = 1 ∷ 2 ∷ []; found = true })))
handle_get-handle_put_example =
    handle_get-handle_put platform config (pos 7) (pos 8) (pos 9) (pos 9) "n1" "n1" request put_raw
      get_raw answer empty filled put_encoded get_encoded room refl answer_encoded

handle_put_changes_example :
    ((handle_put platform config (pos 9) (some put_raw) empty).0 ≡ empty)
    ⊎ ((raw : Bytes) × (env : MessageEnvelope) × (req : PutShardRequest) × (some put_raw ≡ some raw)
        × (decode plain_mac envelopes raw (key platform config) ≡ ok env)
        × (unmarshal_body put_requests env ≡ ok req)
        × HasRoom platform config empty req
        × (some (put_in empty req.shard_id req.content)
            ≡ some (handle_put platform config (pos 9) (some put_raw) empty).0))
handle_put_changes_example = handle_put_changes platform config (pos 9) (some put_raw) empty

abbrev read : MessageEnvelope
read = record {
  msg_type = 1;
  node_id = "n1";
  timestamp = pos 7;
  mac = 107 ∷ 49 ∷ 58 ∷ 110 ∷ 49 ∷ 58 ∷ 55 ∷ 58 ∷ 1 ∷ 2 ∷ [];
  payload = 1 ∷ 2 ∷ [];
}

decoded : decode plain_mac envelopes put_raw (key platform config) ≡ ok read
unfolding decode calculate_mac mac_input utf8 decimal bytes_eq
decoded = refl

unmarshalled : unmarshal_body put_requests read ≡ ok request
unfolding unmarshal_body
unmarshalled = refl

abbrev or_else : Option Bytes → Bytes
or_else none = []
or_else (some b) = b

abbrev result_or : {E : Type 0} → Result E MessageEnvelope → MessageEnvelope
result_or (ok env) = env
result_or (err e) = read

abbrev content_or : {E : Type 0} → Result E PutShardRequest → ℕ
content_or (ok req) = length req.content
content_or (err e) = 0

short :
    (raw : Bytes) (env : MessageEnvelope) (req : PutShardRequest)
    → some put_raw ≡ some raw
    → decode plain_mac envelopes raw (key platform config) ≡ ok env
    → unmarshal_body put_requests env ≡ ok req
    → length req.content < 2 ^ 62
short raw env req b d u =
    let same_env : ok read ≡ ok env =
      sym decoded ∙ ap (λ o. decode plain_mac envelopes (or_else o) (key platform config)) b ∙ d in
    let same_req : ok request ≡ ok req =
      sym unmarshalled ∙ ap (λ r. unmarshal_body put_requests (result_or r)) same_env ∙ u in
    subst (λ n. n < 2 ^ 62) (ap (λ r. content_or r) same_req) (omega arith)

none_stored : stored platform config empty ≤ 20
unfolding stored total
none_stored = omega arith

handle_put-quota_example :
    stored platform config (handle_put platform config (pos 9) (some put_raw) empty).0 ≤ 20
handle_put-quota_example =
    handle_put-quota platform config 20 (pos 9) (some put_raw) empty refl (omega arith) short
      none_stored
