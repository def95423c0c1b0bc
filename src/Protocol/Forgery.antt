-- ===== src/Protocol/Forgery.antt =====
-- The header under the MAC of internal/protocol/protocol.go joins its fields by colons, and a node
-- identifier may hold colons itself.
use Prim.Native.String.{◌++◌ as str_append}
use aldea.Prelude.{ℕ, ◌≡◌, refl, ap, ◌∙◌, String, some, ok, ◌∷◌, ◌++◌}
use aldea.Prelude.Int.{ℤ, pos}
use aldea.Prelude.Text.{utf8, decimal, utf8-append, bytes_eq_refl}
use aldea.Backend.{Codec}
use aldea.Protocol.{Bytes, MessageEnvelope, mac_input, calculate_mac, decode}
use mathlib.Core.List.{append_assoc}

-- Text that the colons let wander between the sender's name, the time and the payload.
shifted_input :
    (t : ℕ) (id tail : String) (t₁ t₂ : ℤ) (payload : Bytes)
    → utf8 tail ≡ b':' ∷ decimal t₁
    → mac_input t (str_append id tail) t₂ payload
      ≡ mac_input t id t₁ (decimal t₂ ++ (b':' ∷ payload))
unfolding mac_input
shifted_input t id tail t₁ t₂ payload e =
    ap (λ x. decimal (pos t) ++ (b':' ∷ x))
      (ap (λ x. x ++ (b':' ∷ (decimal t₂ ++ (b':' ∷ payload)))) (utf8-append id tail)
        ∙ append_assoc (utf8 id) (utf8 tail) _
        ∙ ap (λ x. utf8 id ++ (x ++ (b':' ∷ (decimal t₂ ++ (b':' ∷ payload))))) e)

-- The sender's name and time that an altered envelope shows, its payload taking up the rest.
unfoldable pub altered : MessageEnvelope → String → ℤ → MessageEnvelope
altered env id t₁ = record {
  msg_type = env.msg_type;
  node_id = id;
  timestamp = t₁;
  mac = env.mac;
  payload = decimal env.timestamp ++ (b':' ∷ env.payload);
}

module _ (hmac : Bytes → Bytes → Bytes) (envelopes : Codec MessageEnvelope Bytes) where
  -- An accepted message whose sender's name ends in a colon and a number can be altered, with no
  -- knowledge of the key, into one with another name, time and payload that is accepted too.
  pub decode-altered :
      (env : MessageEnvelope) (id tail : String) (t₁ : ℤ) (key raw : Bytes)
      → env.mac
        ≡ calculate_mac hmac envelopes env.msg_type env.node_id env.timestamp env.payload key
      → env.node_id ≡ str_append id tail
      → utf8 tail ≡ b':' ∷ decimal t₁
      → envelopes.marshal (altered env id t₁) ≡ some raw
      → decode hmac envelopes raw key ≡ ok (altered env id t₁)
  unfolding decode altered
  decode-altered env id tail t₁ key raw genuine name ends written =
      rw (envelopes.unmarshal-marshal (altered env id t₁) raw written) (
        rw same_mac (
          rw
            (bytes_eq_refl
              (calculate_mac hmac envelopes env.msg_type id t₁ (altered env id t₁).payload key))
            refl))
    where
      same_mac :
          env.mac ≡ calculate_mac hmac envelopes env.msg_type id t₁ (altered env id t₁).payload key
      same_mac =
          genuine
          ∙ unfold calculate_mac in
            ap (hmac key) (
              ap (λ n. mac_input env.msg_type n env.timestamp env.payload) name
              ∙ shifted_input env.msg_type id tail t₁ env.timestamp env.payload ends)
