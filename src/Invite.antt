-- ===== src/Invite.antt =====
-- internal/invite/invite.go: signed invite tokens with an expiry and a limit of uses. HMAC-SHA256,
-- base64, the JSON codec, the clock and the random identifier are parameters; the bytes under the
-- MAC are written out. Time is in nanoseconds since the epoch. The manager's lock makes the part
-- of `ValidateAndUse` that touches the state one step.
pub mod Tokens
pub mod Limit
pub mod Forgery
pub mod Samples
mod Tests
use aldea.Prelude.{
  ℕ, ◌+◌, ◌/◌, ◌≡◌, Bool, true, false, ◌&&◌, ◌||◌, not, String, Option, none, some, List, [], ◌∷◌,
  ◌++◌, ltb, leb, length, take, drop, if◌then◌else◌, Result, ok, err, ◌>>=◌, ◌>>◌, or_fail, fail_if,
}
use aldea.Prelude.Int.{ℤ, pos, negsuc, ◌+ℤ◌, ltb_ℤ, leb_ℤ}
use aldea.Prelude.Dict.{Dict, lookup, insert}
use aldea.Prelude.Text.{utf8, decimal, bytes_eq}
use aldea.Backend.{Codec, Base64}

abbrev pub Bytes : Type 0
Bytes = List ℕ

pub data InviteError : Type 0 where
  token_expired token_max_uses_exceeded invalid_signature malformed_token : InviteError
  random_failed marshal_failed : InviteError

pub record InviteToken : Type 0 where
  pub token_id : String
  pub tracker_addr : String
  pub network_key : Bytes
  pub expires_at : ℤ
  pub max_uses : ℤ
  pub mac : Bytes

-- The used count of a token is its `TokenUsage`.
pub record TokenManager : Type 0 where
  pub signing_key : Bytes
  pub usage : Dict ℕ

unfoldable pub new_token_manager : Bytes → TokenManager
new_token_manager signing_key = record { signing_key = signing_key; usage = [] }

-- `Time.Unix`: whole seconds, rounded down.
unfoldable pub unix : ℤ → ℤ
unix (pos n) = pos (n / 1_000_000_000)
unix (negsuc n) = negsuc (n / 1_000_000_000)

-- `"aldea1_"`.
abbrev pub prefix : Bytes
prefix = b'a' ∷ b'l' ∷ b'd' ∷ b'e' ∷ b'a' ∷ b'1' ∷ b'_' ∷ []

-- The bytes that the MAC covers: `"%s:%s:%d:%d:"`, then the network key.
unfoldable pub mac_input : InviteToken → Bytes
mac_input tok =
    utf8 tok.token_id
    ++ (b':'
        ∷ (utf8 tok.tracker_addr
            ++ (b':'
                ∷ (decimal tok.expires_at
                    ++ (b':' ∷ (decimal tok.max_uses ++ (b':' ∷ tok.network_key)))))))

abbrev pub used_count : Option ℕ → ℕ
used_count none = 0
used_count (some n) = n

module _ (hmac : Bytes → Bytes → Bytes) (base64 : Base64) (tokens : Codec InviteToken Bytes) where
  unfoldable pub compute_mac : TokenManager → InviteToken → Bytes
  compute_mac m tok = hmac m.signing_key (mac_input tok)

  -- `random_id` is the hexadecimal form of 16 random bytes, if there are any to be had.
  unfoldable pub create_token :
      TokenManager → Option String → ℤ → String → Bytes → ℤ → ℤ → Result InviteError Bytes
  create_token m random_id now tracker_addr network_key ttl max_uses = do
    token_id ← or_fail random_id random_failed
    let expires_at : ℤ = if leb_ℤ ttl (pos 0) then unix (now +ℤ ttl) else unix (now +ℤ ttl)
    let tok : InviteToken = record {
      token_id = token_id;
      tracker_addr = tracker_addr;
      network_key = network_key;
      expires_at = expires_at;
      max_uses = max_uses;
      mac = [];
    }
    raw ← or_fail (tokens.marshal (record tok { mac = compute_mac m tok })) marshal_failed
    ok (prefix ++ base64.encode raw)

  -- The checks that do not look at the usage: form, signature and expiry.
  unfoldable pub check_token : TokenManager → ℤ → Bytes → Result InviteError InviteToken
  check_token m now token_str = do
    fail_if (ltb (length token_str) 7 || not (bytes_eq (take 7 token_str) prefix)) malformed_token
    raw ← or_fail (base64.decode (drop 7 token_str)) malformed_token
    tok ← or_fail (tokens.unmarshal raw) malformed_token
    fail_if (not (bytes_eq tok.mac (compute_mac m tok))) invalid_signature
    fail_if (ltb_ℤ tok.expires_at (unix now)) token_expired
    ok tok

-- The locked part: a first use makes an entry, a use within the limit counts.
unfoldable pub use_token :
    TokenManager → InviteToken → TokenManager × Result InviteError InviteToken
use_token m tok =
    let used = used_count (lookup tok.token_id m.usage) in
    let entered : TokenManager = record m { usage = insert tok.token_id used m.usage } in
    if ltb_ℤ (pos 0) tok.max_uses && leb_ℤ tok.max_uses (pos used)
    then (entered, err token_max_uses_exceeded)
    else (record m { usage = insert tok.token_id (used + 1) m.usage }, ok tok)

module _ (hmac : Bytes → Bytes → Bytes) (base64 : Base64) (tokens : Codec InviteToken Bytes) where
  unfoldable pub validate_and_use :
      TokenManager → ℤ → Bytes → TokenManager × Result InviteError InviteToken
  validate_and_use m now token_str = elim (check_token hmac base64 tokens m now token_str) [
    | ok tok ↦ use_token m tok
    | err e ↦ (m, err e)
  ]
