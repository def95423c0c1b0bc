-- ===== src/Crypto/Tests.antt =====
-- Instances of the theorem on internal/crypto/crypto.go, with a cipher that only prefixes the key.
use aldea.Prelude.{
  ℕ, ◌≡◌, refl, true, false, some, List, [], ◌∷◌, ◌++◌, length, drop, drop-append, ap, ok, err,
  arith,
}
use aldea.Crypto.{Aead, encrypt, decrypt, invalid_ciphertext, no_cipher}
use aldea.Crypto.Sealing.{decrypt-encrypt}

unseal-seal_prefix :
    (key nonce plaintext : List ℕ)
    → true ≡ true
    → length nonce ≡ 2
    → some (drop (length key) (key ++ plaintext)) ≡ some plaintext
unseal-seal_prefix key nonce plaintext h n = ap some (drop-append key plaintext)

abbrev prefix_cipher : Aead
prefix_cipher = record {
  accepts_key = λ key. true;
  nonce_size = 2;
  seal = λ key nonce plaintext. key ++ plaintext;
  unseal = λ key nonce sealed. some (drop (length key) sealed);
  unseal-seal = unseal-seal_prefix;
}

abbrev key : List ℕ
key = 4 ∷ []

decrypt-encrypt_example :
    (true ≡ true
      → (c : List ℕ) × (encrypt prefix_cipher (some (1 ∷ 2 ∷ [])) (5 ∷ []) key ≡ ok c)
        × (decrypt prefix_cipher c key ≡ ok (5 ∷ []))
        × (decrypt prefix_cipher (9 ∷ []) key ≡ err invalid_ciphertext))
    × (true ≡ false
        → (encrypt prefix_cipher (some (1 ∷ 2 ∷ [])) (5 ∷ []) key ≡ err no_cipher)
          × ((c : List ℕ) → decrypt prefix_cipher c key ≡ err no_cipher))
decrypt-encrypt_example =
    decrypt-encrypt prefix_cipher (1 ∷ 2 ∷ []) (5 ∷ []) key (9 ∷ []) refl (omega arith)
