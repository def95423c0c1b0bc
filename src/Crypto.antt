-- ===== src/Crypto.antt =====
-- internal/crypto/crypto.go: the keys and the encryption of shards. Argon2, XChaCha20-Poly1305 and
-- the random source are parameters; a random value is an argument, `none` where reading fails.
pub mod Sealing
mod Tests
use aldea.Prelude.{
  ℕ, ◌≡◌, Bool, true, false, Option, none, some, List, [], ◌++◌, length, take, drop, Result, ok,
  err, ltb, if◌then◌else◌,
}

pub data CryptoError : Type 0 where
  invalid_ciphertext : CryptoError
  decryption_failed : CryptoError
  invalid_salt : CryptoError
  no_cipher : CryptoError
  no_random : CryptoError

-- `cipher.AEAD` of XChaCha20-Poly1305 without additional data: `NewX` refuses a key of the wrong
-- size, and what `Seal` made `Open` returns.
pub record Aead : Type 0 where
  pub accepts_key : List ℕ → Bool
  pub nonce_size : ℕ
  pub seal : List ℕ → List ℕ → List ℕ → List ℕ
  pub unseal : List ℕ → List ℕ → List ℕ → Option (List ℕ)
  pub unseal-seal :
      (key nonce plaintext : List ℕ)
      → accepts_key key ≡ true
      → length nonce ≡ nonce_size
      → unseal key nonce (seal key nonce plaintext) ≡ some plaintext

-- `argon2.IDKey`, as a function of passphrase, salt, time, memory, threads and key length.
abbrev pub Argon2 : Type 0
Argon2 = List ℕ → List ℕ → ℕ → ℕ → ℕ → ℕ → List ℕ

abbrev pub argon2_time : ℕ
argon2_time = 3

abbrev pub argon2_memory : ℕ
argon2_memory = 65536

abbrev pub argon2_threads : ℕ
argon2_threads = 4

abbrev pub key_size : ℕ
key_size = 32

abbrev pub min_salt_size : ℕ
min_salt_size = 16

-- The argument is the 32 bytes that `rand.Read` gave.
unfoldable pub new_salt : Option (List ℕ) → Result CryptoError (List ℕ)
new_salt none = err no_random
new_salt (some salt) = ok salt

unfoldable pub derive_key : Argon2 → List ℕ → List ℕ → Result CryptoError (List ℕ)
derive_key id_key passphrase salt =
    if ltb (length salt) min_salt_size
    then err invalid_salt
    else ok (id_key passphrase salt argon2_time argon2_memory argon2_threads key_size)

module _ (aead : Aead) where
  open aead use {accepts_key, nonce_size, seal, unseal}

  -- `Seal` appends the sealed text to its first argument, which is the nonce.
  unfoldable pub encrypt : Option (List ℕ) → List ℕ → List ℕ → Result CryptoError (List ℕ)
  encrypt random plaintext key =
      if accepts_key key
      then elim random [
        | none ↦ err no_random
        | some nonce ↦ ok (nonce ++ seal key nonce plaintext)
      ]
      else err no_cipher

  unfoldable pub decrypt : List ℕ → List ℕ → Result CryptoError (List ℕ)
  decrypt ciphertext key =
      if accepts_key key
      then if ltb (length ciphertext) nonce_size
        then err invalid_ciphertext
        else elim (unseal key (take nonce_size ciphertext) (drop nonce_size ciphertext)) [
          | none ↦ err decryption_failed
          | some plaintext ↦ ok plaintext
        ]
      else err no_cipher
