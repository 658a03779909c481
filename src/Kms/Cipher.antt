-- ===== src/Kms/Cipher.antt =====
-- The cipher (crates/kms/src/domain/cipher.rs) over the package that seals bytes and the system's
-- source of random bytes, which are parameters.
pub mod Opening
use Prim.Native.String.{String}
use text.Mathlib.Text.{◌==◌ as str_eq}
use ascetic_ddd_rust.Prelude.{
  ℕ, ◌+◌, List, ◌++◌, Bool, true, Option, none, some, ◌≡◌, ltb, ◌==◌, if◌then◌else◌, length, take,
  drop, not,
}
use ascetic_ddd_rust.Prelude.Result.{Result, ok, err, ◌>>=◌}
use ascetic_ddd_rust.Kms.Key.{
  Bytes, Key, WrappedKey, Error, malformed, entropy, unsupported_algorithm, wrong_key_version,
  decrypt as undecryptable,
}

-- AES-256-GCM of a key, a nonce, associated data and a message, and the random bytes.
pub record Platform {ℓ} (E : Type ℓ) : Type ℓ where
  pub fill : ℕ → E → Option (Bytes × E)
  pub encrypt : Bytes → Bytes → Bytes → Bytes → Option Bytes
  pub decrypt : Bytes → Bytes → Bytes → Bytes → Option Bytes

-- What both document: as many bytes as were asked for, and a tag of 16 bytes behind a ciphertext as
-- long as the message, which opens under the same key, nonce and associated data.
pub record IsLawful {ℓ} {E : Type ℓ} (p : Platform E) : Type ℓ where
  pub length-fill :
      (n : ℕ) (e e' : E) (bytes : Bytes) → p.fill n e ≡ some (bytes, e') → length bytes ≡ n
  pub length-encrypt :
      (key nonce aad message sealed : Bytes)
      → p.encrypt key nonce aad message ≡ some sealed
      → length sealed ≡ length message + 16
  pub decrypt-encrypt :
      (key nonce aad message sealed : Bytes)
      → p.encrypt key nonce aad message ≡ some sealed
      → p.decrypt key nonce aad sealed ≡ some message

pub data Algorithm : Type 0 where
  aes256_gcm : Algorithm

unfoldable pub as_str : Algorithm → String
as_str aes256_gcm = "AES-256-GCM"

unfoldable pub from_str : String → Result Error Algorithm
from_str name = if str_eq name "AES-256-GCM" then ok aes256_gcm else err unsupported_algorithm

pub record Cipher : Type 0 where
  pub key : Bytes
  pub aad : Bytes

unfoldable pub ok_or {ℓ} : {A : Type ℓ} → Error → Option A → Result Error A
ok_or e none = err e
ok_or e (some a) = ok a

unfoldable pub cipher : Algorithm → Key → Bytes → Result Error Cipher
cipher aes256_gcm key aad =
    if length key.bytes == 32 then ok (record { key = key.bytes; aad = aad }) else err malformed

module _ {ℓ} {E : Type ℓ} (p : Platform E) where
  unfoldable pub random_key : E → Result Error (Key × E)
  random_key e = do drawn ← ok_or entropy (p.fill 32 e); ok (record { bytes = drawn.0 }, drawn.1)

  unfoldable pub encrypt_with : Cipher → Bytes → Bytes → Result Error Bytes
  encrypt_with c nonce plaintext = do
    sealed ← ok_or malformed (p.encrypt c.key nonce c.aad plaintext)
    ok (nonce ++ sealed)

  unfoldable pub encrypt : Cipher → Bytes → E → Result Error (Bytes × E)
  encrypt c plaintext e = do
    drawn ← ok_or entropy (p.fill 12 e)
    sealed ← encrypt_with c drawn.0 plaintext
    ok (sealed, drawn.1)

  unfoldable pub decrypt : Cipher → Bytes → Result Error Bytes
  decrypt c sealed =
      let rest = drop 12 sealed in
      if ltb (length sealed) 12
      then err malformed
      else if ltb (length rest) 16
      then err malformed
      else ok_or undecryptable (p.decrypt c.key (take 12 sealed) c.aad rest)

  -- Wrapping (domain/key.rs): a key of the version that wraps.
  unfoldable pub wrap : ℕ → Cipher → Key → E → Result Error (WrappedKey × E)
  wrap version c key e = do
    sealed ← encrypt c key.bytes e
    ok (record { key_version = version; sealed = sealed.0 }, sealed.1)

  unfoldable pub unwrap : ℕ → Cipher → WrappedKey → Result Error Key
  unwrap version c w =
      if not (w.key_version == version)
      then err (wrong_key_version version w.key_version)
      else do bytes ← decrypt c w.sealed; ok (record { bytes = bytes })
