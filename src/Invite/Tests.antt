-- ===== src/Invite/Tests.antt =====
-- Runs and instances of the theorems on internal/invite/invite.go.
use aldea.Prelude.{
  ◌+◌, ◌≡◌, ◌≤◌, ◌&&◌, refl, false, String, some, [], ◌∷◌, ◌++◌, length, ok, err, arith,
  if◌then◌else◌,
}
use aldea.Prelude.Int.{ℤ, pos, ltb_ℤ, leb_ℤ, ◌+ℤ◌}
use aldea.Prelude.Dict.{lookup}
use aldea.Prelude.Text.{str_eq}
use aldea.Samples.{plain_mac, plain_base64}
use aldea.Invite.{
  Bytes, TokenManager, InviteToken, new_token_manager, token_expired, token_max_uses_exceeded,
  prefix, unix, used_count, mac_input, compute_mac, create_token, validate_and_use,
}
use aldea.Invite.Tokens.{is_ok, validate-create_token}
use aldea.Invite.Limit.{admitted, admitted-le}
use aldea.Invite.Forgery.{altered, validate-altered}
use aldea.Invite.Samples.{tokens}

abbrev key : Bytes
key = 107 ∷ []

abbrev manager : TokenManager
manager = record { signing_key = key; usage = [] }

abbrev hour : ℤ
hour = pos 3_600_000_000_000

abbrev bare : InviteToken
bare = record {
  token_id = "t1";
  tracker_addr = "host:9000";
  network_key = 5 ∷ [];
  expires_at = pos 3600;
  max_uses = pos 2;
  mac = [];
}

abbrev token : InviteToken
token = record bare {
  mac = compute_mac plain_mac plain_base64 (tokens "t1" "host:9000") manager bare;
}

abbrev text : Bytes
text = prefix ++ (3600 ∷ 2 ∷ length token.mac ∷ (token.mac ++ 5 ∷ []))

created :
    create_token plain_mac plain_base64
      (tokens "t1" "host:9000")
      manager
      (some "t1")
      (pos 0)
      "host:9000"
      (5 ∷ [])
      hour
      (pos 2)
    ≡ ok text
unfolding create_token unix ◌+ℤ◌
created = refl

validate-create_token_example :
    let r =
      validate_and_use plain_mac plain_base64 (tokens "t1" "host:9000") manager (pos 9) text in
    let used = used_count (lookup "t1" manager.usage) in
    (tok : InviteToken) × (tok.token_id ≡ "t1")
    × (tok.tracker_addr ≡ "host:9000")
    × (tok.network_key ≡ 5 ∷ [])
    × (tok.max_uses ≡ pos 2)
    × (r.1 ≡ (
        if ltb_ℤ (unix (pos 0 +ℤ hour)) (unix (pos 9))
        then err token_expired
        else if ltb_ℤ (pos 0) (pos 2) && leb_ℤ (pos 2) (pos used)
        then err token_max_uses_exceeded
        else ok tok))
    × ((j : String)
        → used_count (lookup j r.0.usage)
          ≡ used_count (lookup j manager.usage) + (if str_eq j "t1" && is_ok r.1 then 1 else 0))
validate-create_token_example =
    validate-create_token plain_mac plain_base64 (tokens "t1" "host:9000") manager manager "t1"
      (pos 0) (pos 9) "host:9000" (5 ∷ []) hour (pos 2) text created refl

admitted-le_example :
    admitted plain_mac plain_base64
      (tokens "t1" "host:9000")
      "t1"
      2
      (new_token_manager key)
      ((pos 9, text) ∷ (pos 10, text) ∷ (pos 11, text) ∷ [])
    ≤ 2
admitted-le_example =
    admitted-le plain_mac plain_base64 (tokens "t1" "host:9000") "t1" 2 key
      ((pos 9, text) ∷ (pos 10, text) ∷ (pos 11, text) ∷ []) (omega arith)

abbrev altered_raw : Bytes
altered_raw = 3600 ∷ 2 ∷ length token.mac ∷ (token.mac ++ 5 ∷ [])

written : (tokens "t1:host" "9000").marshal (altered token "host" "9000") ≡ some altered_raw
unfolding altered
written = refl

fresh : ltb_ℤ token.expires_at (unix (pos 9)) ≡ false
unfolding unix
fresh = refl

-- The genuine token has no use left.
abbrev worn : TokenManager
worn = record manager { usage = ("t1", 2) ∷ [] }

genuine : token.mac ≡ compute_mac plain_mac plain_base64 (tokens "t1:host" "9000") worn token
unfolding compute_mac mac_input
genuine = refl

unused : used_count (lookup (altered token "host" "9000").token_id worn.usage) ≡ 0
unfolding altered lookup
unused = refl

validate-altered_example :
    let r =
      validate_and_use plain_mac plain_base64
        (tokens "t1:host" "9000")
        worn
        (pos 9)
        (prefix ++ plain_base64.encode altered_raw) in
    (r.1 ≡ ok (altered token "host" "9000"))
    × ((j : String)
        → used_count (lookup j r.0.usage)
          ≡ used_count (lookup j worn.usage)
            + (if str_eq j (altered token "host" "9000").token_id then 1 else 0))
validate-altered_example =
    validate-altered plain_mac plain_base64 (tokens "t1:host" "9000") worn token "host" "9000"
      (pos 9) altered_raw genuine refl written fresh unused
