-- ===== src/Invite/Samples.antt =====
-- A concrete codec of invite tokens for the tests: it knows one identifier and one address.
use aldea.Prelude.{
  ◌≡◌, ◌&&◌, String, Option, none, some, ◌∷◌, ◌++◌, arith, if◌then◌else◌, length, take, drop,
  take-append, drop-append,
}
use aldea.Prelude.Int.{ℤ, pos}
use aldea.Prelude.Text.{str_eq, str_eq_iff}
use aldea.Backend.{Codec}
use aldea.Invite.{Bytes, InviteToken}

abbrev pub write_numbers : ℤ → ℤ → Bytes → Bytes → Option Bytes
write_numbers (pos t) (pos n) mac key = some (t ∷ n ∷ length mac ∷ (mac ++ key))
write_numbers _ _ mac key = none

module _ (id addr : String) where
  abbrev pub write_token : InviteToken → Option Bytes
  write_token tok =
      if str_eq tok.token_id id && str_eq tok.tracker_addr addr
      then write_numbers tok.expires_at tok.max_uses tok.mac tok.network_key
      else none

  abbrev pub read_token : Bytes → Option InviteToken
  read_token (t ∷ n ∷ k ∷ rest) = some (record {
    token_id = id;
    tracker_addr = addr;
    network_key = drop k rest;
    expires_at = pos t;
    max_uses = pos n;
    mac = take k rest;
  })
  read_token _ = none

  pub read-write_token :
      (tok : InviteToken) (r : Bytes) → write_token tok ≡ some r → read_token r ≡ some tok
  read-write_token tok r h = ground (
    arith,
    str_eq_iff tok.token_id id,
    str_eq_iff tok.tracker_addr addr,
    take-append tok.mac tok.network_key,
    drop-append tok.mac tok.network_key,
  )

  abbrev pub tokens : Codec InviteToken Bytes
  tokens = record {
    marshal = write_token;
    unmarshal = read_token;
    unmarshal-marshal = read-write_token;
  }
