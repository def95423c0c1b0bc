-- ===== src/Protocol.antt =====
-- internal/protocol/protocol.go: authenticated messages. HMAC-SHA256, the JSON codecs and the
-- clock are parameters; the bytes under the MAC are written out as `fmt.Fprintf` prints them.
pub mod Authentic
pub mod Forgery
pub mod Samples
mod Tests
use aldea.Prelude.{
  ℕ, ◌≡◌, Bool, ◌||◌, String, Option, none, some, List, [], ◌∷◌, ◌++◌, ltb, Result, ok, err, ◌>>=◌,
  ◌>>◌, or_fail, fail_if, not,
}
use aldea.Prelude.Int.{ℤ, pos}
use aldea.Prelude.Text.{utf8, decimal, bytes_eq}
use aldea.Backend.{Codec}

abbrev pub Bytes : Type 0
Bytes = List ℕ

-- `MessageType`, a `uint8` counted from 1.
abbrev pub type_put_shard_request : ℕ
type_put_shard_request = 1

abbrev pub type_put_shard_response : ℕ
type_put_shard_response = 2

abbrev pub type_get_shard_request : ℕ
type_get_shard_request = 3

abbrev pub type_get_shard_response : ℕ
type_get_shard_response = 4

abbrev pub type_health_report_request : ℕ
type_health_report_request = 5

abbrev pub type_health_report_response : ℕ
type_health_report_response = 6

abbrev pub type_relay_session_request : ℕ
type_relay_session_request = 7

abbrev pub type_relay_session_response : ℕ
type_relay_session_response = 8

pub data ProtocolError : Type 0 where
  invalid_signature unsupported_message_type malformed_message marshal_failed : ProtocolError

pub record PutShardRequest : Type 0 where
  pub shard_id : String
  pub content : Bytes

pub record PutShardResponse : Type 0 where
  pub shard_id : String
  pub success : Bool
  pub error : String

pub record GetShardRequest : Type 0 where
  pub shard_id : String

-- A nil slice is an empty one: `omitempty` leaves both out, and neither is told from the other.
pub record GetShardResponse : Type 0 where
  pub shard_id : String
  pub content : Bytes
  pub found : Bool

pub record MessageEnvelope : Type 0 where
  pub msg_type : ℕ
  pub node_id : String
  pub timestamp : ℤ
  pub mac : Bytes
  pub payload : Bytes

-- The bytes that the MAC covers: `"%d:%s:%d:"`, then the payload.
unfoldable pub mac_input : ℕ → String → ℤ → Bytes → Bytes
mac_input msg_type node_id timestamp payload =
    decimal (pos msg_type)
    ++ (b':' ∷ (utf8 node_id ++ (b':' ∷ (decimal timestamp ++ (b':' ∷ payload)))))

-- `hmac key message` is the 32-byte HMAC-SHA256.
module _ (hmac : Bytes → Bytes → Bytes) (envelopes : Codec MessageEnvelope Bytes) where
  unfoldable pub calculate_mac : ℕ → String → ℤ → Bytes → Bytes → Bytes
  calculate_mac msg_type node_id timestamp payload network_key =
      hmac network_key (mac_input msg_type node_id timestamp payload)

  -- `now` is the clock in nanoseconds.
  unfoldable pub encode :
      {A : Type 0} → Codec A Bytes → ℤ → ℕ → String → A → Bytes → Result ProtocolError Bytes
  unfolding calculate_mac
  encode bodies now msg_type node_id body network_key = do
    fail_if (ltb msg_type type_put_shard_request || ltb type_health_report_response msg_type)
        unsupported_message_type
    payload ← or_fail (bodies.marshal body) marshal_failed
    let env : MessageEnvelope = record {
      msg_type = msg_type;
      node_id = node_id;
      timestamp = now;
      mac = calculate_mac msg_type node_id now payload network_key;
      payload = payload;
    }
    or_fail (envelopes.marshal env) marshal_failed

  unfoldable pub decode : Bytes → Bytes → Result ProtocolError MessageEnvelope
  unfolding calculate_mac
  decode raw network_key = do
    env ← or_fail (envelopes.unmarshal raw) malformed_message
    let expected = calculate_mac env.msg_type env.node_id env.timestamp env.payload network_key
    fail_if (not (bytes_eq env.mac expected)) invalid_signature
    ok env

unfoldable pub unmarshal_body :
    {A : Type 0} → Codec A Bytes → MessageEnvelope → Result ProtocolError A
unmarshal_body bodies env = or_fail (bodies.unmarshal env.payload) malformed_message
