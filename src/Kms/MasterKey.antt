-- ===== src/Kms/MasterKey.antt =====
-- The master key, which wraps the tenants' keys (crates/kms/src/domain/master_key.rs).
use ascetic_ddd_rust.Prelude.{ℕ, ◌+◌, Option, [], ltb, if◌then◌else◌}
use ascetic_ddd_rust.Prelude.Result.{Result, ok, err, ◌>>=◌}
use ascetic_ddd_rust.Kms.Key.{Bytes, Key, WrappedKey, Error, malformed}
use ascetic_ddd_rust.Kms.Cipher
use ascetic_ddd_rust.Kms.Cipher.{Platform, Algorithm, Cipher, cipher, random_key}
use ascetic_ddd_rust.Kms.Kek
use ascetic_ddd_rust.Kms.Kek.{Kek}

abbrev pub master_key_version : ℕ
master_key_version = 1

pub record MasterKey : Type 0 where
  pub key : Key
  pub algorithm : Algorithm

unfoldable pub new : Key → Algorithm → Result Error MasterKey
new key algorithm = do _ ← cipher algorithm key []; ok (record { key = key; algorithm = algorithm })

unfoldable pub cipher_for : MasterKey → Bytes → Result Error Cipher
cipher_for m tenant_id = cipher m.algorithm m.key tenant_id

module _ {ℓ} {E : Type ℓ} (p : Platform E) where
  unfoldable pub unwrap : MasterKey → Bytes → WrappedKey → Result Error Key
  unwrap m tenant_id wrapped = do
    c ← cipher_for m tenant_id
    Cipher.unwrap p master_key_version c wrapped

  unfoldable pub load_kek :
      MasterKey → Bytes → Option Bytes → WrappedKey → ℕ → Algorithm → Result Error Kek
  load_kek m tenant_id context wrapped version algorithm = do
    key ← unwrap m tenant_id wrapped
    Kek.new tenant_id context version algorithm key wrapped

  unfoldable pub make_kek : MasterKey → Bytes → Option Bytes → ℕ → E → Result Error (Kek × E)
  make_kek m tenant_id context version e = do
    c ← cipher_for m tenant_id
    key ← random_key p e
    wrapped ← Cipher.wrap p master_key_version c key.0 key.1
    kek ← Kek.new tenant_id context version m.algorithm key.0 wrapped.0
    ok (kek, wrapped.1)

  unfoldable pub generate_kek : MasterKey → Bytes → Option Bytes → E → Result Error (Kek × E)
  generate_kek m tenant_id context e = make_kek m tenant_id context 1 e

  -- `checked_add` on 32 bits.
  unfoldable pub rotate_kek : MasterKey → Kek → E → Result Error (Kek × E)
  rotate_kek m kek e =
      if ltb (kek.version + 1) 4294967296
      then make_kek m kek.tenant_id kek.context (kek.version + 1) e
      else err malformed
