-- ===== src/Kms/Kek.antt =====
-- A version of a tenant's key-encryption key (crates/kms/src/domain/kek.rs).
pub mod Binding
use ascetic_ddd_rust.Prelude.{ℕ, List, ◌++◌, Option, none, some, length, min}
use ascetic_ddd_rust.Prelude.Result.{Result, ok, ◌>>=◌}
use ascetic_ddd_rust.Kms.Key.{Bytes, Key, WrappedKey, Error, to_be_bytes}
use ascetic_ddd_rust.Kms.Cipher
use ascetic_ddd_rust.Kms.Cipher.{Platform, Algorithm, Cipher, cipher, random_key}

pub record Kek : Type 0 where
  pub tenant_id : Bytes
  pub context : Option Bytes
  pub version : ℕ
  pub algorithm : Algorithm
  pub cipher : Cipher
  pub wrapped : WrappedKey

-- The associated data of a wrap: the tenant, and the context it serves.
unfoldable pub binding : Bytes → Option Bytes → Bytes
binding tenant_id none = tenant_id
binding tenant_id (some context) =
    to_be_bytes (min (length tenant_id) 4294967295) ++ (tenant_id ++ context)

unfoldable pub new : Bytes → Option Bytes → ℕ → Algorithm → Key → WrappedKey → Result Error Kek
new tenant_id context version algorithm key wrapped = do
  c ← cipher algorithm key (binding tenant_id context)
  ok (record {
    tenant_id = tenant_id;
    context = context;
    version = version;
    algorithm = algorithm;
    cipher = c;
    wrapped = wrapped;
  })

module _ {ℓ} {E : Type ℓ} (p : Platform E) where
  unfoldable pub wrap : Kek → Key → E → Result Error (WrappedKey × E)
  wrap k dek e = Cipher.wrap p k.version k.cipher dek e

  unfoldable pub unwrap : Kek → WrappedKey → Result Error Key
  unwrap k wrapped = Cipher.unwrap p k.version k.cipher wrapped

  unfoldable pub rewrap : Kek → WrappedKey → Kek → E → Result Error (WrappedKey × E)
  rewrap k wrapped from e = do dek ← unwrap from wrapped; wrap k dek e

  unfoldable pub generate_dek : Kek → E → Result Error ((Key × WrappedKey) × E)
  generate_dek k e = do
    dek ← random_key p e
    wrapped ← wrap k dek.0 dek.1
    ok ((dek.0, wrapped.0), wrapped.1)
