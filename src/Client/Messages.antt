-- ===== src/Client/Messages.antt =====
-- Messages to the storage nodes over HTTP, as cmd/aldea (put.go, get.go) and internal/repair send
-- them. The HTTP client is a parameter: a request is sent, and a reply has a status and a body.
use aldea.Prelude.{
  ℕ, Bool, ◌==◌, String, Option, none, some, List, [], ◌∷◌, Result, ok, err, if◌then◌else◌,
}
use aldea.Prelude.Int.{ℤ}
use aldea.Prelude.Text.{joined}
use aldea.Prelude.Eff.{Eff, ◌>>=◌, pure, fail, lift}
use aldea.Backend.{Codec}
use aldea.Http.{Body, read_all, status_ok}
use aldea.Protocol.{
  MessageEnvelope, PutShardRequest, GetShardRequest, GetShardResponse, encode, decode,
  unmarshal_body, type_put_shard_request, type_get_shard_request,
}
use aldea.Tracker.{NodeMetadata}
use aldea.TrackerServer.{SelectRequest, PlacementRecord}
use aldea.Client.{Bytes, ClientError, request_failed, bad_status, malformed_reply, message_failed}

pub record HttpRequest : Type 0 where
  pub method : String
  pub url : String
  pub key : String
  pub body : Bytes

pub record Reply : Type 0 where
  pub status : ℕ
  pub body : Body

-- The third-party parts of the calls, and of the state that they act on.
pub record Transport (W : Type 0) : Type 0 where
  pub send : HttpRequest → W → W × Option Reply
  -- The clock in nanoseconds.
  pub now : W → W × ℤ
  pub hmac : Bytes → Bytes → Bytes
  pub envelopes : Codec MessageEnvelope Bytes
  pub put_requests : Codec PutShardRequest Bytes
  pub get_requests : Codec GetShardRequest Bytes
  pub get_responses : Codec GetShardResponse Bytes
  pub select_json : SelectRequest → Bytes
  pub placement_json : PlacementRecord → Bytes
  -- `json.Decoder.Decode` of the bytes of a body, and of whether reading it fails after them.
  pub read_placement : Bytes → Bool → Option PlacementRecord
  pub read_nodes : Bytes → Bool → Option (List NodeMetadata)

module _ {W : Type 0} (t : Transport W) where
  abbrev replied : W × Option Reply → W × Result ClientError Reply
  replied (w, none) = (w, err request_failed)
  replied (w, some r) = (w, ok r)

  unfoldable pub request : HttpRequest → Eff W ClientError Reply
  request r w = replied (t.send r w)

  -- The test `resp.StatusCode != http.StatusOK`.
  abbrev pub expect_ok : Reply → Eff W ClientError (Unit {0})
  expect_ok r = if r.status == status_ok then pure tt else fail bad_status

  -- A message to a storage node.
  abbrev to_node : NodeMetadata → String → Bytes → HttpRequest
  to_node node path body = record {
    method = "POST";
    url = joined ("http://" ∷ node.address ∷ path ∷ []);
    key = "";
    body = body;
  }

  module _ (sender : String) (key : Bytes) where
    -- A message, signed at the time that the clock shows.
    unfoldable pub signed : {A : Type 0} → Codec A Bytes → ℕ → A → Eff W ClientError Bytes
    signed bodies msg_type body w =
        let (w', t₁) = t.now w in
        lift message_failed (encode t.hmac t.envelopes bodies t₁ msg_type sender body key) w'

    unfoldable pub send_shard : NodeMetadata → String → Bytes → Eff W ClientError (Unit {0})
    send_shard node shard_id content = do
      raw ←
          signed t.put_requests type_put_shard_request
            (record { shard_id = shard_id; content = content })
      r ← request (to_node node "/shards" raw)
      expect_ok r

    -- The request for a shard, and the reply of the node.
    unfoldable pub ask_shard : NodeMetadata → String → Eff W ClientError Reply
    ask_shard node shard_id = do
      raw ← signed t.get_requests type_get_shard_request (record { shard_id = shard_id })
      request (to_node node "/shards/get" raw)

    -- The message in a node's reply.
    abbrev answer_in : Option Bytes → Result ClientError GetShardResponse
    answer_in none = err malformed_reply
    answer_in (some raw) = elim (decode t.hmac t.envelopes raw key) [
      | err e ↦ err message_failed
      | ok env ↦ elim (unmarshal_body t.get_responses env) [
        | err e ↦ err message_failed
        | ok answer ↦ ok answer
      ]
    ]

    unfoldable pub read_answer : Reply → Eff W ClientError GetShardResponse
    read_answer r w = (w, answer_in (read_all r.body))
