-- ===== src/Protocol/Authentic.antt =====
-- What `Encode` and `Decode` (internal/protocol/protocol.go) promise one another.
use aldea.Prelude.{
  ℕ, ◌≡◌, refl, ◌⊎◌, inl, inr, String, none, some, arith, ◌≢◌, ok, err, Option-cases,
}
use aldea.Prelude.Int.{ℤ}
use aldea.Prelude.Text.{bytes_eq_iff, bytes_eq_refl}
use aldea.Backend.{Codec}
use aldea.Protocol.{
  Bytes, MessageEnvelope, calculate_mac, encode, decode, unmarshal_body, invalid_signature,
  malformed_message,
}

module _ (hmac : Bytes → Bytes → Bytes) (envelopes : Codec MessageEnvelope Bytes) where
  -- A message that was encoded is decoded under the same key, with its type, sender, time and body.
  pub decode-encode :
      {A : Type 0} (bodies : Codec A Bytes) (now : ℤ) (t : ℕ) (id : String) (body : A)
      (key raw : Bytes)
      → encode hmac envelopes bodies now t id body key ≡ ok raw
      → (env : MessageEnvelope) × (decode hmac envelopes raw key ≡ ok env)
        × (env.msg_type ≡ t)
        × (env.node_id ≡ id)
        × (env.timestamp ≡ now)
        × (unmarshal_body bodies env ≡ ok body)
  unfolding encode decode unmarshal_body
  decode-encode bodies now t id body key raw e = elim (Option-cases (bodies.marshal body)) [
    | inl m ↦ absurd (ground (arith, m))
    | inr (payload, m) ↦
        let mac = calculate_mac hmac envelopes t id now payload key in
        let env : MessageEnvelope = record {
          msg_type = t;
          node_id = id;
          timestamp = now;
          mac = mac;
          payload = payload;
        } in
        let written : envelopes.marshal env ≡ some raw = ground (arith, m) in
        (
          env,
          ground (arith, envelopes.unmarshal-marshal env raw written, bytes_eq_refl mac),
          refl,
          refl,
          refl,
          ground (arith, bodies.unmarshal-marshal body payload m),
        )
  ]

  -- `Decode` accepts exactly the envelopes that carry the MAC of their own header and payload; any
  -- other is refused, by its form or by its signature.
  pub decode_cases :
      (raw key : Bytes)
      → ((envelopes.unmarshal raw ≡ none) × (decode hmac envelopes raw key ≡ err malformed_message))
        ⊎ ((env : MessageEnvelope) × (envelopes.unmarshal raw ≡ some env)
            × ((env.mac
                    ≡ calculate_mac hmac envelopes env.msg_type env.node_id env.timestamp
                        env.payload key)
                  × (decode hmac envelopes raw key ≡ ok env)
                ⊎ (env.mac
                    ≢ calculate_mac hmac envelopes env.msg_type env.node_id env.timestamp
                        env.payload key)
                  × (decode hmac envelopes raw key ≡ err invalid_signature)))
  unfolding decode
  decode_cases raw key = elim (Option-cases (envelopes.unmarshal raw)) [
    | inl u ↦ inl (u, ground (arith, u))
    | inr (env, u) ↦ inr (
      env,
      u,
      (elim (bytes_eq_iff env.mac
          (calculate_mac hmac envelopes env.msg_type env.node_id env.timestamp env.payload key)) [
            | inl (t, e) ↦ inl (e, ground (arith, u, t))
            | inr (t, e) ↦ inr (e, ground (arith, u, t))
          ]),
    )
  ]
