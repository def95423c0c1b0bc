-- ===== src/Invite/Tokens.antt =====
-- `CreateToken` and `ValidateAndUse` (internal/invite/invite.go) together.
use aldea.Prelude.{
  ◌+◌, ◌≡◌, refl, inl, inr, Bool, true, false, ◌&&◌, ◌||◌, not, String, some, [], ◌++◌, arith,
  if◌then◌else◌, Result, ok, err, Option-cases, Bool-cases, ltb, length, take,
}
use aldea.Prelude.Int.{ℤ, pos, ltb_ℤ, leb_ℤ, ◌+ℤ◌}
use aldea.Prelude.Dict.{lookup, lookup-insert}
use aldea.Prelude.Text.{str_eq, str_eq_iff, bytes_eq, bytes_eq_refl}
use aldea.Backend.{Codec, Base64}
use aldea.Invite.{
  Bytes, TokenManager, InviteToken, token_expired, token_max_uses_exceeded, prefix, unix,
  used_count, mac_input, compute_mac, create_token, check_token, use_token, validate_and_use,
}

abbrev pub is_ok : {E A : Type 0} → Result E A → Bool
is_ok (ok a) = true
is_ok (err e) = false

-- A text that begins with the prefix passes the first check.
pub has_prefix :
    (x : Bytes)
    → (ltb (length (prefix ++ x)) 7 || not (bytes_eq (take 7 (prefix ++ x)) prefix)) ≡ false
unfolding bytes_eq
has_prefix x = ground arith

use_token_result :
    (m : TokenManager) (tok : InviteToken)
    → (use_token m tok).1 ≡ (
        if ltb_ℤ (pos 0) tok.max_uses
          && leb_ℤ tok.max_uses (pos (used_count (lookup tok.token_id m.usage)))
        then err token_max_uses_exceeded
        else ok tok)
unfolding use_token
use_token_result m tok = ground arith

use_token_counts :
    (m : TokenManager) (tok : InviteToken) (j : String)
    → used_count (lookup j (use_token m tok).0.usage)
      ≡ used_count (lookup j m.usage)
        + (if str_eq j tok.token_id && is_ok (use_token m tok).1 then 1 else 0)
unfolding use_token
use_token_counts m tok j =
    let used = used_count (lookup tok.token_id m.usage) in
    ground (
      arith,
      lookup-insert j tok.token_id used m.usage,
      lookup-insert j tok.token_id (used + 1) m.usage,
      str_eq_iff j tok.token_id,
    )

module _ (hmac : Bytes → Bytes → Bytes) (base64 : Base64) (tokens : Codec InviteToken Bytes) where
  -- A token that was created is recognised by every manager with the same signing key, until it
  -- expires.
  check-create_token :
      (m m' : TokenManager) (id : String) (now later : ℤ) (addr : String) (key : Bytes)
      (ttl max_uses : ℤ) (s : Bytes)
      → create_token hmac base64 tokens m (some id) now addr key ttl max_uses ≡ ok s
      → m'.signing_key ≡ m.signing_key
      → (tok : InviteToken) × (check_token hmac base64 tokens m' later s
          ≡ (if ltb_ℤ (unix (now +ℤ ttl)) (unix later) then err token_expired else ok tok))
        × (tok.token_id ≡ id)
        × (tok.tracker_addr ≡ addr)
        × (tok.network_key ≡ key)
        × (tok.max_uses ≡ max_uses)
  unfolding create_token check_token compute_mac mac_input
  check-create_token m m' id now later addr key ttl max_uses s e same =
      elim (Option-cases (tokens.marshal tok)) [
        | inl n ↦ absurd (ground (arith, n))
        | inr (raw, n) ↦
            let text : s ≡ prefix ++ base64.encode raw = ground (arith, n) in
            (
              tok,
              rw
                  (
                    text,
                    has_prefix (base64.encode raw),
                    base64.decode-encode raw,
                    tokens.unmarshal-marshal tok raw n,
                    same,
                    bytes_eq_refl tok.mac,
                  )
                  (ground arith),
              refl,
              refl,
              refl,
              refl,
            )
      ]
    where
      bare : InviteToken
      bare = record {
        token_id = id;
        tracker_addr = addr;
        network_key = key;
        expires_at = unix (now +ℤ ttl);
        max_uses = max_uses;
        mac = [];
      }

      tok : InviteToken
      tok = record bare { mac = compute_mac hmac base64 tokens m bare }

  -- A token that was created, not expired and not used up, is admitted by a manager with the same
  -- signing key with its address, key and limit, and the use is counted; after its expiry, or
  -- with no uses left, it is refused by that cause and no count changes.
  pub validate-create_token :
      (m m' : TokenManager) (id : String) (now later : ℤ) (addr : String) (key : Bytes)
      (ttl max_uses : ℤ) (s : Bytes)
      → create_token hmac base64 tokens m (some id) now addr key ttl max_uses ≡ ok s
      → m'.signing_key ≡ m.signing_key
      → let r = validate_and_use hmac base64 tokens m' later s in
        let used = used_count (lookup id m'.usage) in
        (tok : InviteToken) × (tok.token_id ≡ id)
        × (tok.tracker_addr ≡ addr)
        × (tok.network_key ≡ key)
        × (tok.max_uses ≡ max_uses)
        × (r.1 ≡ (
            if ltb_ℤ (unix (now +ℤ ttl)) (unix later)
            then err token_expired
            else if ltb_ℤ (pos 0) max_uses && leb_ℤ max_uses (pos used)
            then err token_max_uses_exceeded
            else ok tok))
        × ((j : String)
            → used_count (lookup j r.0.usage)
              ≡ used_count (lookup j m'.usage) + (if str_eq j id && is_ok r.1 then 1 else 0))
  unfolding validate_and_use
  validate-create_token m m' id now later addr key ttl max_uses s e same =
      let (tok, c, i, a, k, n) =
        check-create_token m m' id now later addr key ttl max_uses s e same in
      elim (Bool-cases (ltb_ℤ (unix (now +ℤ ttl)) (unix later))) [
        | inl late ↦
            let c' : check_token hmac base64 tokens m' later s ≡ err token_expired = rw late at c in
            (
              tok,
              i,
              a,
              k,
              n,
              rw (c', late, validate_and_use),
              λ j. rw (c', validate_and_use) (ground arith),
            )
        | inr fresh ↦
            let c' : check_token hmac base64 tokens m' later s ≡ ok tok = rw fresh at c in
            (
              tok,
              i,
              a,
              k,
              n,
              rw (c', fresh, validate_and_use) (rw (← i, ← n) (use_token_result m' tok)),
              λ j. rw (c', validate_and_use) (rw (← i) (use_token_counts m' tok j)),
            )
      ]
