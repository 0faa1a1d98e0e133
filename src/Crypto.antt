-- ===== src/Crypto.antt =====
-- include/servd/crypto/AesGcm.hpp and X25519.hpp over the Botan library, which is a parameter.
pub mod Toy
pub mod Keys
pub mod Rng
use servd.Base.{
  ℕ, ◌+◌, ◌-◌, ◌<◌, ◌≡◌, Bool, true, Option, none, some, List, [], ◌++◌, length, take, replicate,
  ltb, ◌==◌, not, if◌then◌else◌,
}
use servd.Result.{Result, ok, err, ◌>>=◌, bad_nonce, short_ciphertext, bad_key_size, crypto_failure}

-- What the wrappers call of Botan. `private_bits k` is the private key of the k-th generation.
-- `seal` and `unseal` are `start(nonce); update(prior) if prior is not empty; finish(buf)` of the
-- two directions of "AES-256/GCM"; `none` is an exception.
pub record Botan : Type 0 where
  pub available : Bool
  pub private_bits : ℕ → List ℕ
  pub public_value : List ℕ → List ℕ
  pub derive_key : List ℕ → List ℕ → Option (List ℕ)
  pub seal : List ℕ → List ℕ → List ℕ → List ℕ → List ℕ
  pub unseal : List ℕ → List ℕ → List ℕ → List ℕ → Option (List ℕ)

-- Its documented behaviour: the tag is 16 bytes behind the ciphertext, decryption inverts
-- encryption under the same key and nonce, X25519 keys have 32 bytes and key agreement commutes.
pub record IsBotan (b : Botan) : Type 0 where
  pub is_available : b.available ≡ true
  pub length-private_bits : (k : ℕ) → length (b.private_bits k) ≡ 32
  pub length-public_value : (p : List ℕ) → length p ≡ 32 → length (b.public_value p) ≡ 32
  pub derives :
      (p q : List ℕ)
      → length p ≡ 32
      → length q ≡ 32
      → (s : List ℕ) × (length s ≡ 32)
        × (b.derive_key p (b.public_value q) ≡ some s)
        × (b.derive_key q (b.public_value p) ≡ some s)
  pub length-seal : (key nonce buf : List ℕ) → length (b.seal key nonce [] buf) ≡ length buf + 16
  pub unseal-seal :
      (key nonce buf : List ℕ) → b.unseal key nonce [] (b.seal key nonce [] buf) ≡ some buf

abbrev pub key_size : ℕ
key_size = 32

abbrev pub nonce_size : ℕ
nonce_size = 12

abbrev pub tag_size : ℕ
tag_size = 16

-- A zeroed array of `n` bytes with min(size, n) bytes copied to its front.
unfoldable pub fit : ℕ → List ℕ → List ℕ
fit n bs = take n bs ++ replicate (n - length bs) 0

-- A constructed `AesGcm` is the key that both of its modes were given.
unfoldable pub make_cipher : Botan → List ℕ → ℕ → Result (List ℕ)
make_cipher b key size =
    if not (size == key_size)
    then err bad_key_size
    else if not b.available
    then err crypto_failure
    else ok (take size key)

module _ (b : Botan) (cipher : List ℕ) where
  unfoldable pub encrypt : List ℕ → List ℕ → List ℕ → Result (List ℕ)
  encrypt plaintext aad nonce =
      if not (length nonce == nonce_size)
      then err bad_nonce
      else ok (b.seal cipher nonce aad plaintext)

  opened : ℕ → Option (List ℕ) → Result (List ℕ)
  opened ct_len none = err crypto_failure
  opened ct_len (some buf) = ok (fit ct_len buf)

  unfoldable pub decrypt : List ℕ → List ℕ → List ℕ → Result (List ℕ)
  unfolding opened
  decrypt ciphertext_with_tag aad nonce =
      if not (length nonce == nonce_size)
      then err bad_nonce
      else if ltb (length ciphertext_with_tag) tag_size
      then err short_ciphertext
      else opened (length ciphertext_with_tag - tag_size)
          (b.unseal cipher nonce aad ciphertext_with_tag)

module _ (b : Botan) where
  unfoldable pub generate_private : ℕ → List ℕ
  generate_private k = fit 32 (b.private_bits k)

  unfoldable pub public_key : List ℕ → List ℕ
  public_key private_key = fit 32 (b.public_value private_key)

  derived : Option (List ℕ) → Result (List ℕ)
  derived none = err crypto_failure
  derived (some raw) = ok (fit 32 raw)

  unfoldable pub shared_secret : List ℕ → List ℕ → Result (List ℕ)
  unfolding derived
  shared_secret private_key public_key = derived (b.derive_key private_key public_key)
