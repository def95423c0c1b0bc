-- ===== src/Crypto/Sealing.antt =====
-- Round trips and refusals of internal/crypto/crypto.go.
use aldea.Prelude.{
  ℕ, ◌≡◌, ◌<◌, refl, ◌∙◌, sym, ap, true, false, some, List, ◌++◌, length, length-append,
  take-append, drop-append, take, drop, ok, err, arith,
}
use aldea.Crypto.{Aead, encrypt, decrypt, invalid_ciphertext, no_cipher}

module _ (aead : Aead) where
  open aead use {accepts_key, nonce_size, seal, unseal}

  -- With a key of the right size, and a random nonce, encryption succeeds and decryption gives the
  -- plaintext back. A key of the wrong size is refused by both, and a ciphertext that is shorter
  -- than a nonce is refused.
  pub decrypt-encrypt :
      (nonce plaintext key short : List ℕ)
      → length nonce ≡ nonce_size
      → length short < nonce_size
      → (accepts_key key ≡ true
          → (c : List ℕ) × (encrypt aead (some nonce) plaintext key ≡ ok c)
            × (decrypt aead c key ≡ ok plaintext)
            × (decrypt aead short key ≡ err invalid_ciphertext))
        × (accepts_key key ≡ false
            → (encrypt aead (some nonce) plaintext key ≡ err no_cipher)
              × ((c : List ℕ) → decrypt aead c key ≡ err no_cipher))
  unfolding encrypt decrypt
  decrypt-encrypt nonce plaintext key short n s =
      let sealed = seal key nonce plaintext in
      (
        λ k. (
          nonce ++ sealed,
          rw k refl,
          ground (
            arith,
            k,
            n,
            length-append nonce sealed,
            ap (λ w. take w (nonce ++ sealed)) (sym n) ∙ take-append nonce sealed,
            ap (λ w. drop w (nonce ++ sealed)) (sym n) ∙ drop-append nonce sealed,
            aead.unseal-seal key nonce plaintext k n,
          ),
          ground (arith, k, s),
        ),
        λ k. (rw k refl, λ c. rw k refl),
      )
