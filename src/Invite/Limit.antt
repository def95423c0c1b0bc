-- ===== src/Invite/Limit.antt =====
-- The limit of uses of internal/invite/invite.go, over any history of calls.
use aldea.Prelude.{
  ℕ, ◌+◌, ◌-◌, ◌≤◌, ◌<◌, ◌≡◌, inl, inr, Bool, true, false, ◌&&◌, String, List, [], ◌∷◌, arith,
  if◌then◌else◌, Result, ok, err, Result-cases,
}
use aldea.Prelude.Int.{ℤ, pos, leb_ℤ}
use aldea.Prelude.Dict.{lookup, lookup-insert}
use aldea.Prelude.Text.{str_eq, str_eq_iff}
use aldea.Backend.{Codec, Base64}
use aldea.Invite.{
  Bytes, TokenManager, new_token_manager, InviteToken, InviteError, used_count, use_token,
  check_token, validate_and_use,
}

-- Whether a call admitted a token with this identifier and this limit.
abbrev pub admits : String → ℕ → Result InviteError InviteToken → Bool
admits id n (err e) = false
admits id n (ok tok) =
    str_eq tok.token_id id && (leb_ℤ tok.max_uses (pos n) && leb_ℤ (pos n) tok.max_uses)

abbrev used : TokenManager → String → ℕ
used m id = used_count (lookup id m.usage)

-- A use never lowers a count, and an admitted one was below its limit and is counted.
use_token-used :
    (m : TokenManager) (tok : InviteToken) (id : String) (n : ℕ)
    → 0 < n
    → (used m id ≤ used (use_token m tok).0 id)
      × (admits id n (use_token m tok).1 ≡ true
          → (used m id < n) × (used (use_token m tok).0 id ≡ used m id + 1))
unfolding use_token
use_token-used m tok id n h = ground (
  arith,
  lookup-insert id tok.token_id (used m tok.token_id) m.usage,
  lookup-insert id tok.token_id (used m tok.token_id + 1) m.usage,
  str_eq_iff id tok.token_id,
  str_eq_iff tok.token_id id,
)

module _ (hmac : Bytes → Bytes → Bytes) (base64 : Base64) (tokens : Codec InviteToken Bytes) where
  -- How many calls of a history admit the identifier under the limit.
  pub admitted : String → ℕ → TokenManager → List (ℤ × Bytes) → ℕ
  admitted id n m [] = 0
  admitted id n m ((now, s) ∷ calls) =
      let r = validate_and_use hmac base64 tokens m now s in
      (if admits id n r.1 then 1 else 0) + admitted id n r.0 calls

  admitted-le-left :
      (id : String) (n : ℕ) (m : TokenManager) (calls : List (ℤ × Bytes))
      → 0 < n
      → admitted id n m calls ≤ n - used m id
  unfolding admitted validate_and_use
  admitted-le-left id n m [] h = omega arith
  admitted-le-left id n m ((now, s) ∷ calls) h =
      elim (Result-cases (check_token hmac base64 tokens m now s)) [
        | inl (tok, e) ↦
            rw (e, validate_and_use)
              (ground (
                arith,
                use_token-used m tok id n h,
                admitted-le-left id n (use_token m tok).0 calls h,
              ))
        | inr (x, e) ↦ rw (e, validate_and_use) (omega (arith, admitted-le-left id n m calls h))
      ]

  -- Whatever tokens are presented to a new manager, at whatever times, a token with a positive limit of uses is
  -- admitted at most that often.
  pub admitted-le :
      (id : String) (n : ℕ) (key : Bytes) (calls : List (ℤ × Bytes))
      → 0 < n
      → admitted id n (new_token_manager key) calls ≤ n
  admitted-le id n key calls h =
      omega (arith, admitted-le-left id n (new_token_manager key) calls h)
