-- ===== src/Protocol/Samples.antt =====
-- Concrete codecs of the messages of internal/protocol/protocol.go, for the tests: they know one
-- node and one shard.
use aldea.Prelude.{
  ◌≡◌, ◌&&◌, true, Option, none, some, [], ◌∷◌, ◌++◌, arith, if◌then◌else◌, length, take, drop,
  take-append, drop-append,
}
use aldea.Prelude.Int.{pos, negsuc}
use aldea.Prelude.Text.{str_eq, str_eq_iff}
use aldea.Backend.{Codec}
use aldea.Protocol.{Bytes, MessageEnvelope, PutShardRequest, GetShardRequest, GetShardResponse}

abbrev pub write_envelope : MessageEnvelope → Option Bytes
write_envelope e =
    if str_eq e.node_id "n1"
    then elim e.timestamp [
      | pos t ↦ some (e.msg_type ∷ t ∷ length e.mac ∷ (e.mac ++ e.payload))
      | negsuc t ↦ none
    ]
    else none

abbrev pub read_envelope : Bytes → Option MessageEnvelope
read_envelope (a ∷ t ∷ n ∷ rest) = some (record {
  msg_type = a;
  node_id = "n1";
  timestamp = pos t;
  mac = take n rest;
  payload = drop n rest;
})
read_envelope _ = none

pub read-write_envelope :
    (e : MessageEnvelope) (r : Bytes) → write_envelope e ≡ some r → read_envelope r ≡ some e
read-write_envelope e r h =
    ground
      (arith, str_eq_iff e.node_id "n1", take-append e.mac e.payload, drop-append e.mac e.payload)

abbrev pub envelopes : Codec MessageEnvelope Bytes
envelopes = record {
  marshal = write_envelope;
  unmarshal = read_envelope;
  unmarshal-marshal = read-write_envelope;
}

abbrev pub write_put : PutShardRequest → Option Bytes
write_put q = if str_eq q.shard_id "s1" then some q.content else none

abbrev pub read_put : Bytes → Option PutShardRequest
read_put b = some (record { shard_id = "s1"; content = b })

pub read-write_put : (q : PutShardRequest) (r : Bytes) → write_put q ≡ some r → read_put r ≡ some q
read-write_put q r h = ground (arith, str_eq_iff q.shard_id "s1")

abbrev pub put_requests : Codec PutShardRequest Bytes
put_requests = record {
  marshal = write_put;
  unmarshal = read_put;
  unmarshal-marshal = read-write_put;
}

abbrev pub write_get : GetShardRequest → Option Bytes
write_get q = if str_eq q.shard_id "s1" then some [] else none

abbrev pub read_get : Bytes → Option GetShardRequest
read_get b = some (record { shard_id = "s1" })

pub read-write_get : (q : GetShardRequest) (r : Bytes) → write_get q ≡ some r → read_get r ≡ some q
read-write_get q r h = ground (arith, str_eq_iff q.shard_id "s1")

abbrev pub get_requests : Codec GetShardRequest Bytes
get_requests = record {
  marshal = write_get;
  unmarshal = read_get;
  unmarshal-marshal = read-write_get;
}

-- The answers that say that the shard is found.
abbrev pub write_answer : GetShardResponse → Option Bytes
write_answer a = if str_eq a.shard_id "s1" && a.found then some a.content else none

abbrev pub read_answer : Bytes → Option GetShardResponse
read_answer b = some (record { shard_id = "s1"; content = b; found = true })

pub read-write_answer :
    (a : GetShardResponse) (r : Bytes) → write_answer a ≡ some r → read_answer r ≡ some a
read-write_answer a r h = ground (arith, str_eq_iff a.shard_id "s1")

abbrev pub get_responses : Codec GetShardResponse Bytes
get_responses = record {
  marshal = write_answer;
  unmarshal = read_answer;
  unmarshal-marshal = read-write_answer;
}
