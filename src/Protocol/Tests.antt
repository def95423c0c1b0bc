-- ===== src/Protocol/Tests.antt =====
-- Runs and instances of the theorems on internal/protocol/protocol.go.
use aldea.Prelude.{◌≡◌, ◌≢◌, ◌⊎◌, refl, none, some, [], ◌∷◌, ◌++◌, length, ok, err}
use aldea.Prelude.Int.{pos}
use aldea.Prelude.Text.{utf8, decimal}
use aldea.Samples.{plain_mac}
use aldea.Protocol.{
  Bytes, MessageEnvelope, PutShardRequest, mac_input, calculate_mac, encode, decode, unmarshal_body,
  malformed_message, invalid_signature,
}
use aldea.Protocol.Authentic.{decode-encode, decode_cases}
use aldea.Protocol.Forgery.{altered, decode-altered}
use aldea.Protocol.Samples.{envelopes, put_requests}

abbrev key : Bytes
key = 107 ∷ []

abbrev request : PutShardRequest
request = record { shard_id = "s1"; content = 1 ∷ 2 ∷ [] }

-- The MAC of type 1, sender `n1`, time 7: the key and `1:n1:7:`, then the payload.
abbrev raw : Bytes
raw = 1 ∷ 7 ∷ 10 ∷ 107 ∷ 49 ∷ 58 ∷ 110 ∷ 49 ∷ 58 ∷ 55 ∷ 58 ∷ 1 ∷ 2 ∷ 1 ∷ 2 ∷ []

encoded : encode plain_mac envelopes put_requests (pos 7) 1 "n1" request key ≡ ok raw
unfolding encode calculate_mac mac_input utf8 decimal
encoded = refl

decode-encode_example :
    (env : MessageEnvelope) × (decode plain_mac envelopes raw key ≡ ok env)
    × (env.msg_type ≡ 1)
    × (env.node_id ≡ "n1")
    × (env.timestamp ≡ pos 7)
    × (unmarshal_body put_requests env ≡ ok request)
decode-encode_example =
    decode-encode plain_mac envelopes put_requests (pos 7) 1 "n1" request key raw encoded

decode_cases_example :
    ((envelopes.unmarshal raw ≡ none)
      × (decode plain_mac envelopes raw key ≡ err malformed_message))
    ⊎ ((env : MessageEnvelope) × (envelopes.unmarshal raw ≡ some env)
        × ((env.mac
                ≡ calculate_mac plain_mac envelopes env.msg_type env.node_id env.timestamp
                    env.payload key)
              × (decode plain_mac envelopes raw key ≡ ok env)
            ⊎ (env.mac
                ≢ calculate_mac plain_mac envelopes env.msg_type env.node_id env.timestamp
                    env.payload key)
              × (decode plain_mac envelopes raw key ≡ err invalid_signature)))
decode_cases_example = decode_cases plain_mac envelopes raw key

abbrev genuine : MessageEnvelope
genuine = record {
  msg_type = 1;
  node_id = "n1:5";
  timestamp = pos 7;
  mac = calculate_mac plain_mac envelopes 1 "n1:5" (pos 7) (9 ∷ []) key;
  payload = 9 ∷ [];
}

abbrev altered_raw : Bytes
altered_raw = 1 ∷ 5 ∷ length genuine.mac ∷ (genuine.mac ++ (decimal (pos 7) ++ (b':' ∷ 9 ∷ [])))

written : envelopes.marshal (altered genuine "n1" (pos 5)) ≡ some altered_raw
unfolding altered
written = refl

ends : utf8 ":5" ≡ b':' ∷ decimal (pos 5)
unfolding utf8 decimal
ends = refl

decode-altered_example :
    decode plain_mac envelopes altered_raw key ≡ ok (altered genuine "n1" (pos 5))
decode-altered_example =
    decode-altered plain_mac envelopes genuine "n1" ":5" (pos 5) key altered_raw refl refl ends
      written
