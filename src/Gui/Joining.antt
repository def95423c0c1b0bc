-- ===== src/Gui/Joining.antt =====
-- Invite tokens in the desktop application (gui/app.go).
use aldea.Prelude.{
  ℕ, zero, suc, ◌≡◌, refl, ap, ◌∙◌, inl, inr, true, String, some, Result, Result-cases, Bool-cases,
  ok_unique, ok, err, arith, if◌then◌else◌,
}
use aldea.Prelude.Int.{ℤ, pos, ltb_ℤ, ◌+ℤ◌}
use aldea.Prelude.Dict.{lookup}
use aldea.Backend.{Codec, Base64}
use aldea.Invite.{
  InviteToken, InviteError, new_token_manager, validate_and_use, create_token, unix, token_expired,
}
use aldea.Invite.Tokens.{validate-create_token}
use aldea.Client.{Bytes}
use aldea.Gui.{App, created, create_network, join_network, joined_with, token_failed, invite_ttl}

module _ (hmac : Bytes → Bytes → Bytes) (base64 : Base64) (tokens : Codec InviteToken Bytes) where
  -- Joining again and again at one time.
  abbrev pub join_times : ℕ → ℤ → Bytes → App → App
  join_times zero now token a = a
  join_times (suc n) now token a =
      join_times n now token (join_network hmac base64 tokens now token a).0

  join_network-signing_key :
      (now : ℤ) (token : Bytes) (a : App)
      → (join_network hmac base64 tokens now token a).0.signing_key ≡ a.signing_key
  unfolding join_network
  join_network-signing_key now token a =
      elim (Result-cases
        (validate_and_use hmac base64 tokens (new_token_manager a.signing_key) now token).1) [
          | inl (tok, e) ↦ rw (join_network, e) refl
          | inr (x, e) ↦ rw (join_network, e) refl
        ]

  joined_with-answer :
      (a b : App) (r : Result InviteError InviteToken)
      → (joined_with hmac base64 tokens b r).1 ≡ (joined_with hmac base64 tokens a r).1
  joined_with-answer a b (ok tok) = refl
  joined_with-answer a b (err e) = refl

  join_network-answer :
      (now : ℤ) (token : Bytes) (a b : App)
      → b.signing_key ≡ a.signing_key
      → (join_network hmac base64 tokens now token b).1
        ≡ (join_network hmac base64 tokens now token a).1
  unfolding join_network
  join_network-answer now token a b e =
      let validated =
        λ (k : Bytes). (validate_and_use hmac base64 tokens (new_token_manager k) now token).1 in
      ap (λ k. (joined_with hmac base64 tokens b (validated k)).1) e
      ∙ joined_with-answer a b (validated a.signing_key)

  join_times-signing_key :
      (n : ℕ) (now : ℤ) (token : Bytes) (a : App)
      → (join_times n now token a).signing_key ≡ a.signing_key
  join_times-signing_key zero now token a = refl
  join_times-signing_key (suc n) now token a =
      join_times-signing_key n now token (join_network hmac base64 tokens now token a).0
      ∙ join_network-signing_key now token a

  -- The application answers a token as it did before, however often it has been used: a token's limit of uses never
  -- ends its use.
  pub join_network_unlimited :
      (n : ℕ) (now : ℤ) (token : Bytes) (a : App)
      → (join_network hmac base64 tokens now token (join_times n now token a)).1
        ≡ (join_network hmac base64 tokens now token a).1
  join_network_unlimited n now token a =
      join_network-answer now token a (join_times n now token a)
        (join_times-signing_key n now token a)

  created_ok :
      (r : Result InviteError Bytes) (token : Bytes)
      → created hmac base64 tokens r ≡ ok token
      → r ≡ ok token
  created_ok (ok t) token e = ap ok (ok_unique (created hmac base64 tokens (ok t)) t token refl e)
  created_ok (err x) token e = absurd (ground (arith, e))

  -- The token that `CreateNetwork` made lets every application with the same signing key join, until 24 hours
  -- after its creation: it then has the network's address and key and a member's name. After that
  -- the token is refused and the application is as it was.
  pub join_network-create_network :
      (a b a' : App) (net_key : Bytes) (id addr : String) (now later : ℤ) (token : Bytes)
      → create_network hmac base64 tokens (some net_key) (some id) now addr a ≡ (a', ok token)
      → b.signing_key ≡ a.signing_key
      → join_network hmac base64 tokens later token b ≡ (
          if ltb_ℤ (unix (now +ℤ invite_ttl)) (unix later)
          then (b, err (token_failed token_expired))
          else (
            record b {
              tracker_addr = addr;
              network_key = net_key;
              node_id = "node-gui-member";
              configured = true;
            },
            ok tt,
          ))
  unfolding create_network join_network new_token_manager lookup
  join_network-create_network a b a' net_key id addr now later token e same =
      let m = new_token_manager a.signing_key in
      let m' = new_token_manager b.signing_key in
      let made =
        created_ok
          (create_token hmac base64 tokens m (some id) now addr net_key invite_ttl (pos 10)) token
          (ap (λ r. r.1) e) in
      let (tok, _, at, key, _, answer, _) =
        validate-create_token hmac base64 tokens m m' id now later addr net_key invite_ttl (pos 10)
          token made same in
      let tried = (validate_and_use hmac base64 tokens m' later token).1 in
      elim (Bool-cases (ltb_ℤ (unix (now +ℤ invite_ttl)) (unix later))) [
        | inl late ↦
            let refused : tried ≡ err token_expired = rw late at answer in
            rw (join_network, late, refused) refl
        | inr timely ↦
            let admitted : tried ≡ ok tok = rw timely at answer in
            rw (join_network, timely, admitted, at, key) refl
      ]
