-- ===== src/Kms/Key.antt =====
-- A key in the clear, and a key wrapped by another (crates/kms/src/domain/key.rs). A byte is a
-- number below 256, and a text the bytes that encode it.
use ascetic_ddd_rust.Prelude.{
  ℕ, ◌+◌, ◌*◌, ◌/◌, ◌%◌, ◌<◌, List, [], ◌∷◌, ◌++◌, Option, ◌≡◌, arith, ap,
}
use ascetic_ddd_rust.Prelude.Result.{Result, ok, err}

abbrev pub Bytes : Type 0
Bytes = List ℕ

-- The errors of the service, without their texts.
pub data Error : Type 0 where
  malformed : Error
  entropy : Error
  decrypt : Error
  unsupported_algorithm : Error
  unsupported : Error
  database : Error
  wrong_key_version : ℕ → ℕ → Error
  kek_not_found : Bytes → Option ℕ → Error
  no_key_of_version : ℕ → Error

pub record Key : Type 0 where
  pub bytes : Bytes

pub record WrappedKey : Type 0 where
  pub key_version : ℕ
  pub sealed : Bytes

-- `u32::to_be_bytes` and `u32::from_be_bytes`.
unfoldable pub to_be_bytes : ℕ → Bytes
to_be_bytes v = v / 256 / 256 / 256 % 256 ∷ v / 256 / 256 % 256 ∷ v / 256 % 256 ∷ v % 256 ∷ []

unfoldable pub from_be_bytes : ℕ → ℕ → ℕ → ℕ → ℕ
from_be_bytes a b c d = ((a * 256 + b) * 256 + c) * 256 + d

unfoldable pub parse : Bytes → Result Error WrappedKey
parse (a ∷ b ∷ c ∷ d ∷ sealed) =
    ok (record { key_version = from_be_bytes a b c d; sealed = sealed })
parse _ = err malformed

unfoldable pub to_bytes : WrappedKey → Bytes
to_bytes w = to_be_bytes w.key_version ++ w.sealed

pub from-to_be_bytes :
    (v : ℕ)
    → v < 4294967296
    → from_be_bytes (v / 256 / 256 / 256 % 256) (v / 256 / 256 % 256) (v / 256 % 256) (v % 256) ≡ v
unfolding from_be_bytes
from-to_be_bytes v h = omega arith

-- The wire form of a wrapped key reads back as it.
pub parse-to_bytes : (w : WrappedKey) → w.key_version < 4294967296 → parse (to_bytes w) ≡ ok w
unfolding parse to_bytes to_be_bytes
parse-to_bytes w h =
    ap (λ v. ok (record { key_version = v; sealed = w.sealed })) (from-to_be_bytes w.key_version h)
