-- ===== src/Invite/Forgery.antt =====
-- The text under the MAC of internal/invite/invite.go joins the token's identifier and the
-- tracker's address by a colon, and an address holds colons itself.
use Prim.Native.String.{◌++◌ as str_append}
use mathlib.Core.List.{append_assoc}
use aldea.Prelude.{
  ◌≡◌, refl, ap, sym, ◌∙◌, String, some, ok, ◌∷◌, ◌++◌, arith, true, false, ◌+◌, if◌then◌else◌,
}
use aldea.Prelude.Int.{ℤ, ltb_ℤ}
use aldea.Prelude.Dict.{lookup, lookup-insert}
use aldea.Prelude.Text.{utf8, decimal, utf8-append, bytes_eq, bytes_eq_refl, str_eq, str_eq_iff}
use aldea.Backend.{Codec, Base64}
use aldea.Invite.{
  Bytes, TokenManager, InviteToken, prefix, unix, mac_input, compute_mac, check_token, used_count,
  use_token, validate_and_use,
}
use aldea.Invite.Tokens.{has_prefix}

-- The token with the part of its address before a colon moved into its identifier.
unfoldable pub altered : InviteToken → String → String → InviteToken
altered tok host port = record tok {
  token_id = str_append tok.token_id (str_append ":" host);
  tracker_addr = port;
}

utf8_joined : (a b : String) → utf8 (str_append a (str_append ":" b)) ≡ utf8 a ++ (b':' ∷ utf8 b)
utf8_joined a b =
    utf8-append a (str_append ":" b)
    ∙ ap (λ x. utf8 a ++ x) (utf8-append ":" b ∙ unfold utf8 in refl)

altered_input :
    (tok : InviteToken) (host port : String)
    → tok.tracker_addr ≡ str_append host (str_append ":" port)
    → mac_input (altered tok host port) ≡ mac_input tok
unfolding mac_input altered
altered_input tok host port e =
    let rest =
      b':'
      ∷ (decimal tok.expires_at ++ (b':' ∷ (decimal tok.max_uses ++ (b':' ∷ tok.network_key)))) in
    ap (λ x. x ++ (b':' ∷ (utf8 port ++ rest))) (utf8_joined tok.token_id host)
    ∙ append_assoc (utf8 tok.token_id) (b':' ∷ utf8 host) (b':' ∷ (utf8 port ++ rest))
    ∙ ap (λ x. utf8 tok.token_id ++ (b':' ∷ x))
        (sym (
          ap (λ x. x ++ rest) (ap utf8 e ∙ utf8_joined host port)
          ∙ append_assoc (utf8 host) (b':' ∷ utf8 port) rest))

module _ (hmac : Bytes → Bytes → Bytes) (base64 : Base64) (tokens : Codec InviteToken Bytes) where
  check-altered :
      (m : TokenManager) (tok : InviteToken) (host port : String) (now : ℤ) (raw : Bytes)
      → tok.mac ≡ compute_mac hmac base64 tokens m tok
      → tok.tracker_addr ≡ str_append host (str_append ":" port)
      → tokens.marshal (altered tok host port) ≡ some raw
      → ltb_ℤ tok.expires_at (unix now) ≡ false
      → check_token hmac base64 tokens m now (prefix ++ base64.encode raw)
        ≡ ok (altered tok host port)
  unfolding check_token compute_mac altered
  check-altered m tok host port now raw genuine address written fresh =
      rw
        (
          has_prefix (base64.encode raw),
          base64.decode-encode raw,
          tokens.unmarshal-marshal (altered tok host port) raw written,
        )
        (ground (arith, accepted))
    where
      same : tok.mac ≡ hmac m.signing_key (mac_input (altered tok host port))
      same = genuine ∙ ap (hmac m.signing_key) (sym (altered_input tok host port address))

      accepted : bytes_eq tok.mac (hmac m.signing_key (mac_input (altered tok host port))) ≡ true
      accepted =
          let expected = hmac m.signing_key (mac_input (altered tok host port)) in
          ap (λ x. bytes_eq x expected) same ∙ bytes_eq_refl expected

  -- From a genuine token with an address `host:port` anybody can make, with no knowledge of the key, a token with another
  -- identifier. Before its expiry, and while no use is counted under the new identifier, the manager admits it, whatever
  -- the limit and however often the genuine token was used, and counts the use under the new identifier only.
  pub validate-altered :
      (m : TokenManager) (tok : InviteToken) (host port : String) (now : ℤ) (raw : Bytes)
      → tok.mac ≡ compute_mac hmac base64 tokens m tok
      → tok.tracker_addr ≡ str_append host (str_append ":" port)
      → tokens.marshal (altered tok host port) ≡ some raw
      → ltb_ℤ tok.expires_at (unix now) ≡ false
      → used_count (lookup (altered tok host port).token_id m.usage) ≡ 0
      → let r = validate_and_use hmac base64 tokens m now (prefix ++ base64.encode raw) in
        (r.1 ≡ ok (altered tok host port))
        × ((j : String)
            → used_count (lookup j r.0.usage)
              ≡ used_count (lookup j m.usage)
                + (if str_eq j (altered tok host port).token_id then 1 else 0))
  unfolding validate_and_use use_token
  validate-altered m tok host port now raw genuine address written fresh unused =
      let checked = check-altered m tok host port now raw genuine address written fresh in
      (
        ground (arith, checked, unused),
        λ j. ground (
          arith,
          checked,
          unused,
          lookup-insert j (altered tok host port).token_id 1 m.usage,
          str_eq_iff j (altered tok host port).token_id,
        ),
      )
