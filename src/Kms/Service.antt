-- ===== src/Kms/Service.antt =====
-- The key management over a table of keys, each wrapped by one master key (crates/kms/src/pg.rs): the
-- tenants' key-encryption keys. A call that may make a key reads the table once without the tenant's
-- lock, `seen`, and once under it, `rows`. The column of versions holds what `stored_version` lets
-- into it.
pub mod Rows
pub mod Making
pub mod Holding
pub mod Calls
pub mod Keeping
pub mod RoundTrip
pub mod Rotation
use Prim.Native.String.{String}
use ascetic_ddd_rust.Prelude.Bytes.{bytes_eq}
use ascetic_ddd_rust.Prelude.{
  ℕ, ◌+◌, List, [], ◌∷◌, Bool, true, false, not, ◌&&◌, Option, none, some, ltb, leb, ◌==◌,
  if◌then◌else◌, retain,
}
use mathlib.Core.Option
use ascetic_ddd_rust.Prelude.Result.{Result, ok, err, ◌>>=◌}
use ascetic_ddd_rust.Kms.Key.{
  Bytes, Key, WrappedKey, Error, malformed, unsupported, database, kek_not_found, no_key_of_version,
  parse, to_bytes,
}
use ascetic_ddd_rust.Kms.Cipher.{Platform, Algorithm, as_str, from_str, ok_or}
use ascetic_ddd_rust.Kms.Kek
use ascetic_ddd_rust.Kms.Kek.{Kek}
use ascetic_ddd_rust.Kms.MasterKey
use ascetic_ddd_rust.Kms.MasterKey.{MasterKey}

pub record Row : Type 0 where
  pub tenant_id : Bytes
  pub key_version : ℕ
  pub encrypted_key : Bytes
  pub master_algorithm : String
  pub key_algorithm : String

pub record PgKeyManagementService : Type 0 where
  pub master_key : Key
  pub master_algorithm : Algorithm
  pub context : Option Bytes
  pub managed_keys : Bool

pub record KekOptions : Type 0 where
  pub derived : Bool
  pub auto_rotate_period : Option ℕ

unfoldable pub is_not_found : Error → Bool
is_not_found (kek_not_found tenant_id key_version) = true
is_not_found _ = false

-- `i32::try_from`.
unfoldable pub stored_version : ℕ → Result Error ℕ
stored_version version = if ltb version 2147483648 then ok version else err malformed

unfoldable pub is_row : Bytes → ℕ → Row → Bool
is_row tenant_id version r = bytes_eq r.tenant_id tenant_id && r.key_version == version

unfoldable pub find_row : Bytes → ℕ → List Row → Option Row
find_row tenant_id version [] = none
find_row tenant_id version (r ∷ rows) =
    if is_row tenant_id version r then some r else find_row tenant_id version rows

-- `ORDER BY key_version DESC LIMIT 1`.
unfoldable pub newer : Row → Option Row → Row
newer r none = r
newer r (some q) = if leb q.key_version r.key_version then r else q

unfoldable pub latest_row : Bytes → List Row → Option Row
latest_row tenant_id [] = none
latest_row tenant_id (r ∷ rows) =
    let rest = latest_row tenant_id rows in
    if bytes_eq r.tenant_id tenant_id then some (newer r rest) else rest

unfoldable pub latest_version : Bytes → List Row → Option ℕ
latest_version tenant_id rows = Option.map (λ (r : Row). r.key_version) (latest_row tenant_id rows)

-- A scope whose writes are undone when it fails.
unfoldable pub atomic {ℓ} :
    {A : Type ℓ} → List Row → Result Error (List Row × A) → List Row × Result Error A
atomic rows (ok done) = (done.0, ok done.1)
atomic rows (err e) = (rows, err e)

-- The row of a key, unless there is one of its tenant and version.
unfoldable pub insert_unless : Row → List Row → Option Row → Result Error (List Row)
insert_unless r rows none = ok (r ∷ rows)
insert_unless r rows (some q) = err database

unfoldable pub insert_row : Row → List Row → Result Error (List Row)
insert_row r rows = insert_unless r rows (find_row r.tenant_id r.key_version rows)

module _ {ℓ} {E : Type ℓ} (p : Platform E) (s : PgKeyManagementService) where
  unfoldable pub load_kek : Bytes → Row → Result Error Kek
  load_kek tenant_id r = do
    wrapped ← parse r.encrypted_key
    master_algorithm ← from_str r.master_algorithm
    key_algorithm ← from_str r.key_algorithm
    m ← MasterKey.new s.master_key master_algorithm
    MasterKey.load_kek p m tenant_id s.context wrapped r.key_version key_algorithm

  unfoldable pub current_kek : Bytes → List Row → Result Error Kek
  current_kek tenant_id rows = do
    r ← ok_or (kek_not_found tenant_id none) (latest_row tenant_id rows)
    load_kek tenant_id r

  unfoldable pub kek : Bytes → ℕ → List Row → Result Error Kek
  kek tenant_id version rows = do
    stored ← stored_version version
    r ← ok_or (kek_not_found tenant_id (some version)) (find_row tenant_id stored rows)
    load_kek tenant_id r

  unfoldable pub row_of : Kek → ℕ → Row
  row_of k stored = record {
    tenant_id = k.tenant_id;
    key_version = stored;
    encrypted_key = to_bytes k.wrapped;
    master_algorithm = as_str s.master_algorithm;
    key_algorithm = as_str k.algorithm;
  }

  unfoldable pub save_kek : Kek → List Row → Result Error (List Row)
  save_kek k rows = do stored ← stored_version k.version; insert_row (row_of k stored) rows

  unfoldable pub make_first : Bytes → List Row → E → Result Error (List Row × (Kek × E))
  make_first tenant_id rows e = do
    m ← MasterKey.new s.master_key s.master_algorithm
    made ← MasterKey.generate_kek p m tenant_id s.context e
    saved ← save_kek made.0 rows
    ok (saved, made)

  -- What was found, unless there is none.
  unfoldable pub found_or :
      Bool
      → List Row
      → E
      → Result Error Kek
      → Result Error (List Row × (Kek × E))
      → Result Error (List Row × (Kek × E))
  found_or makes rows e (ok k) made = ok (rows, (k, e))
  found_or makes rows e (err why) made = if is_not_found why && makes then made else err why

  unfoldable pub get_or_create_current_kek :
      Bytes → List Row → List Row → E → List Row × Result Error (Kek × E)
  get_or_create_current_kek tenant_id seen rows e = atomic rows (
      found_or (not s.managed_keys) rows e (current_kek tenant_id seen)
        (found_or true rows e (current_kek tenant_id rows) (make_first tenant_id rows e)))

  unfoldable pub encrypt_dek :
      Bytes → Key → List Row → List Row → E → List Row × Result Error (Bytes × E)
  encrypt_dek tenant_id dek seen rows e =
      let made = get_or_create_current_kek tenant_id seen rows e in
      (made.0, do k ← made.1; wrapped ← Kek.wrap p k.0 dek k.1; ok (to_bytes wrapped.0, wrapped.1))

  unfoldable pub decrypt_dek : Bytes → Bytes → List Row → Result Error Key
  decrypt_dek tenant_id encrypted_dek rows = do
    wrapped ← parse encrypted_dek
    k ← kek tenant_id wrapped.key_version rows
    Kek.unwrap p k wrapped

  unfoldable pub generate_dek :
      Bytes → List Row → List Row → E → List Row × Result Error ((Key × Bytes) × E)
  generate_dek tenant_id seen rows e =
      let made = get_or_create_current_kek tenant_id seen rows e in
      (
        made.0,
        do k ← made.1; dek ← Kek.generate_dek p k.0 k.1; ok ((dek.0.0, to_bytes dek.0.1), dek.1),
      )

  -- The key that wrapped is read first, in `seen`.
  unfoldable pub rewrap_with :
      WrappedKey → Kek → List Row × Result Error (Kek × E) → List Row × Result Error (Bytes × E)
  rewrap_with wrapped from made = (
    made.0,
    do
      current ← made.1
      again ← Kek.rewrap p current.0 wrapped from current.1
      ok (to_bytes again.0, again.1),
  )

  unfoldable pub rewrap_from :
      Bytes
      → List Row
      → List Row
      → E
      → Result Error (WrappedKey × Kek)
      → List Row × Result Error (Bytes × E)
  rewrap_from tenant_id seen rows e (ok from) =
      rewrap_with from.0 from.1 (get_or_create_current_kek tenant_id seen rows e)
  rewrap_from tenant_id seen rows e (err why) = (rows, err why)

  unfoldable pub rewrap_dek :
      Bytes → Bytes → List Row → List Row → E → List Row × Result Error (Bytes × E)
  rewrap_dek tenant_id encrypted_dek seen rows e = rewrap_from tenant_id seen rows e (do
    wrapped ← parse encrypted_dek
    from ← kek tenant_id wrapped.key_version seen
    ok (wrapped, from))

  unfoldable pub create_unless : Option ℕ → Bytes → List Row → E → List Row × Result Error ℕ
  create_unless (some period) tenant_id rows e = (rows, err unsupported)
  create_unless none tenant_id rows e = atomic rows (do
    made ← found_or true rows e (current_kek tenant_id rows) (make_first tenant_id rows e)
    ok (made.0, made.1.0.version))

  unfoldable pub create_kek : Bytes → KekOptions → List Row → E → List Row × Result Error ℕ
  create_kek tenant_id options rows e = create_unless options.auto_rotate_period tenant_id rows e

  unfoldable pub rotate_kek : Bytes → List Row → E → List Row × Result Error ℕ
  rotate_kek tenant_id rows e = atomic rows (do
    current ← current_kek tenant_id rows
    m ← MasterKey.new s.master_key s.master_algorithm
    made ← MasterKey.rotate_kek p m current e
    saved ← save_kek made.0 rows
    ok (saved, made.0.version))

-- Without the rows of the earlier versions.
unfoldable pub retired : Bytes → ℕ → List Row → List Row
retired tenant_id version rows =
    retain (λ r. not (bytes_eq r.tenant_id tenant_id && ltb r.key_version version)) rows

unfoldable pub stored_bound : ℕ → ℕ → Result Error ℕ
stored_bound version latest =
    if ltb latest version then err (no_key_of_version version) else stored_version version

unfoldable pub retire_kek_versions_before :
    Bytes → ℕ → List Row → List Row × Result Error (Unit {0})
retire_kek_versions_before tenant_id version rows = atomic rows (do
  latest ← ok_or (kek_not_found tenant_id none) (latest_version tenant_id rows)
  stored ← stored_bound version latest
  ok (retired tenant_id stored rows, tt))

unfoldable pub delete_kek : Bytes → List Row → List Row
delete_kek tenant_id rows = retain (λ r. not (bytes_eq r.tenant_id tenant_id)) rows
