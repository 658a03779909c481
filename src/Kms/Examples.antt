-- ===== src/Kms/Examples.antt =====
-- Runs of the key management over a cipher and a source of bytes that are easy to follow.
use ascetic_ddd_rust.Prelude.Bytes.{bytes_eq}
use ascetic_ddd_rust.Prelude.{
  ℕ, zero, suc, ◌+◌, ◌-◌, ◌≤◌, ◌<◌, List, [], ◌∷◌, ◌++◌, false, Option, some, ◌≡◌, ◌≢◌, ◌⊎◌, refl,
  sym, ap, ◌∙◌, arith, length, take, length-append,
}
use ascetic_ddd_rust.Prelude.Result.{ok, err}
use ascetic_ddd_rust.Kms.Key
use ascetic_ddd_rust.Kms.Key.{
  Bytes, Key, WrappedKey, Error, kek_not_found, to_be_bytes, from_be_bytes, parse, to_bytes,
}
use ascetic_ddd_rust.Kms.Cipher
use ascetic_ddd_rust.Kms.Cipher.{
  Platform, IsLawful, aes256_gcm, as_str, from_str, cipher, ok_or, random_key,
}
use ascetic_ddd_rust.Kms.Kek
use ascetic_ddd_rust.Kms.Kek.{binding}
use ascetic_ddd_rust.Kms.Kek.Binding
use ascetic_ddd_rust.Kms.MasterKey
use ascetic_ddd_rust.Kms.Service
use ascetic_ddd_rust.Kms.Service.{
  PgKeyManagementService, Row, is_not_found, stored_version, is_row, find_row, newer, latest_row,
  atomic, insert_unless, insert_row, load_kek, current_kek, kek, row_of, save_kek, make_first,
  found_or, get_or_create_current_kek, encrypt_dek, rewrap_with, rewrap_from, rewrap_dek,
  rotate_kek, latest_version, retired, stored_bound, retire_kek_versions_before, delete_kek,
}
use ascetic_ddd_rust.Kms.Service.Keeping.{nothing, rotates}
use ascetic_ddd_rust.Kms.Service.RoundTrip
use ascetic_ddd_rust.Kms.Service.Holding.{InColumn}
use ascetic_ddd_rust.Kms.Service.Rotation
use ascetic_ddd_rust.Kms.Cache
use ascetic_ddd_rust.Kms.Cache.{Entry, Cached, len}
use ascetic_ddd_rust.Kms.Cache.Truth
use ascetic_ddd_rust.Kms.Cache.Truth.{
  Call, decrypts, deletes, Event, answered, Told, said, dropped, step, run,
}
use ascetic_ddd_rust.Kms.Cache.Room
use ascetic_ddd_rust.Kms.Shredding

abbrev replicate : ℕ → ℕ → Bytes
replicate zero x = []
replicate (suc n) x = x ∷ replicate n x

length-replicate : (n x : ℕ) → length (replicate n x) ≡ n
length-replicate zero x = refl
length-replicate (suc n) x = omega (arith, length-replicate n x)

take-all : (xs ys : Bytes) → take (length xs) (xs ++ ys) ≡ xs
take-all [] ys = refl
take-all (x ∷ xs) ys = ap (λ rest. x ∷ rest) (take-all xs ys)

-- Random bytes that count up, and a cipher that adds a tag.
abbrev platform : Platform ℕ
platform = record {
  fill = λ n e. some (replicate n e, suc e);
  encrypt = λ key nonce aad message. some (message ++ replicate 16 0);
  decrypt = λ key nonce aad sealed. some (take (length sealed - 16) sealed);
}

sealed-opens :
    (message sealed : Bytes)
    → (message ++ replicate 16 0) ≡ sealed
    → (length sealed ≡ length message + 16) × (take (length sealed - 16) sealed ≡ message)
sealed-opens message sealed h =
    let measured : length sealed ≡ length message + 16 =
      ap length (sym h) ∙ length-append message (replicate 16 0) in
    let cut : length sealed - 16 ≡ length message = omega arith in
    (
      measured,
      ap (λ n. take n sealed) cut
          ∙ (ap (λ xs. take (length message) xs) (sym h) ∙ take-all message (replicate 16 0)),
    )

platform-IsLawful : IsLawful platform
platform-IsLawful = record {
  length-fill = λ n e e' bytes h.
      let same : replicate n e ≡ bytes = cc in ap length (sym same) ∙ length-replicate n e;
  length-encrypt = λ key nonce aad message sealed h. (sealed-opens message sealed (cc)).0;
  decrypt-encrypt =
      λ key nonce aad message sealed h. ap (λ x. some x) (sealed-opens message sealed (cc)).1;
}

abbrev service : PgKeyManagementService
service = record {
  master_key = record { bytes = replicate 32 7 };
  master_algorithm = aes256_gcm;
  context = some (9 ∷ []);
  managed_keys = false;
}

abbrev tenant : Bytes
tenant = 1 ∷ []

abbrev dek : Key
dek = record { bytes = 5 ∷ 6 ∷ [] }

program : Unit {0}
unfolding to_be_bytes from_be_bytes parse to_bytes as_str from_str cipher ok_or random_key
    Cipher.encrypt_with Cipher.encrypt Cipher.decrypt Cipher.wrap Cipher.unwrap binding Kek.new
    Kek.wrap Kek.unwrap Kek.rewrap MasterKey.new MasterKey.cipher_for MasterKey.unwrap
    MasterKey.load_kek MasterKey.make_kek MasterKey.generate_kek MasterKey.rotate_kek bytes_eq
    is_not_found stored_version is_row find_row newer latest_row atomic insert_unless insert_row
    load_kek current_kek kek row_of save_kek make_first found_or get_or_create_current_kek
    encrypt_dek rewrap_with rewrap_from rewrap_dek rotate_kek latest_version retired stored_bound
    retire_kek_versions_before delete_kek Service.decrypt_dek
program = tt

-- The key is wrapped by a first version, made for it.
abbrev wrapped : ℕ → ℕ → WrappedKey
wrapped version nonce = record {
  key_version = version;
  sealed = replicate 12 nonce ++ (5 ∷ 6 ∷ replicate 16 0);
}

abbrev bytes : ℕ → ℕ → Bytes
bytes version nonce = 0 ∷ 0 ∷ 0 ∷ version ∷ replicate 12 nonce ++ (5 ∷ 6 ∷ replicate 16 0)

abbrev first_rows : List Row
first_rows = (encrypt_dek platform service tenant dek [] [] 3).0

encrypted : (encrypt_dek platform service tenant dek [] [] 3).1 ≡ ok (bytes 1 5, 6)
unfolding program
encrypted = refl

parsed : parse (bytes 1 5) ≡ ok (wrapped 1 5)
unfolding program
parsed = refl

abbrev second_rows : List Row
second_rows = (rotate_kek platform service tenant first_rows 10).0

decrypt_dek-encrypt_dek_example :
    Service.decrypt_dek platform service tenant (bytes 1 5) second_rows ≡ ok dek
decrypt_dek-encrypt_dek_example =
    RoundTrip.decrypt_dek-encrypt_dek platform platform-IsLawful service tenant dek [] []
      second_rows 3 6 (bytes 1 5) (wrapped 1 5) tt (λ v q found. found) encrypted parsed
      (rotates tenant first_rows 10 nothing)

rotation : (rotate_kek platform service tenant first_rows 10).1 ≡ ok 2
unfolding program
rotation = refl

latest_version-rotate_kek_example :
    (before : ℕ) × (latest_version tenant first_rows ≡ some before)
    × (2 ≡ suc before)
    × (latest_version tenant (rotate_kek platform service tenant first_rows 10).0 ≡ some 2)
latest_version-rotate_kek_example =
    Rotation.latest_version-rotate_kek platform platform-IsLawful service tenant first_rows 10 2
      rotation

rewrapped :
    (rewrap_dek platform service tenant (bytes 1 5) second_rows second_rows 20).1
    ≡ ok (bytes 2 20, 21)
unfolding program
rewrapped = refl

parsed_again : parse (bytes 2 20) ≡ ok (wrapped 2 20)
unfolding program
parsed_again = refl

in_column : InColumn platform platform-IsLawful service second_rows
unfolding program
in_column = (omega arith, (omega arith, tt))

decrypt_dek-rewrap_dek_example :
    Service.decrypt_dek platform service tenant
      (bytes 2 20)
      (rewrap_dek platform service tenant (bytes 1 5) second_rows second_rows 20).0
    ≡ ok dek
decrypt_dek-rewrap_dek_example =
    RoundTrip.decrypt_dek-rewrap_dek platform platform-IsLawful service tenant (bytes 1 5) dek
      second_rows second_rows _ 20 21 (bytes 2 20) (wrapped 2 20) in_column (λ v q found. found)
      decrypt_dek-encrypt_dek_example rewrapped parsed_again nothing

retirement : (retire_kek_versions_before tenant 2 second_rows).1 ≡ ok tt
unfolding program
retirement = refl

decrypt_dek-retired_example :
    Service.decrypt_dek platform service tenant
      (bytes 1 5)
      (retire_kek_versions_before tenant 2 second_rows).0
    ≡ err (kek_not_found tenant (some 1))
decrypt_dek-retired_example =
    RoundTrip.decrypt_dek-retired platform platform-IsLawful service tenant 2 second_rows
      (bytes 1 5) (wrapped 1 5) retirement parsed (omega arith)

abbrev context : Option Bytes
context = some (9 ∷ [])

binding-injective_example : (tenant ≡ tenant) × (context ≡ context)
binding-injective_example =
    Binding.binding-injective tenant tenant context context ((omega arith, tt), omega arith)
      ((omega arith, tt), omega arith) refl

-- The key is asked of the service once, and answered by the cache within the time to live.
abbrev calls : List Call
calls = decrypts 100 101 tenant (bytes 1 5) (ok dek) ∷ []

abbrev cached : Cached
cached = record {
  capacity = 2;
  ttl = 50;
  entries = record { tenant_id = tenant; wrapped = bytes 1 5; key = dek; since = 101 } ∷ [];
}

ran :
    run calls (record { capacity = 2; ttl = 50; entries = [] }, [])
    ≡ (cached, answered tenant (bytes 1 5) dek 101 ∷ [])
unfolding program step run said dropped Cache.decrypt_dek Cache.cached_or Cache.keep_answer
    Cache.get Cache.key_if_fresh Cache.is_fresh Cache.find Cache.is_of Cache.put Cache.make_room
    Cache.oldest Cache.evicted Cache.remove
ran = refl

answered_again : (Cache.decrypt_dek 120 121 tenant (bytes 1 5) (err Key.entropy) cached).1 ≡ ok dek
unfolding program Cache.decrypt_dek Cache.cached_or Cache.keep_answer Cache.get Cache.key_if_fresh
    Cache.is_fresh Cache.find Cache.is_of
answered_again = refl

decrypt_dek-Told_example :
    (err Key.entropy ≡ ok dek)
    ⊎ ((since : ℕ) × Told tenant (bytes 1 5) dek since (answered tenant (bytes 1 5) dek 101 ∷ [])
        × (120 - since < 50))
decrypt_dek-Told_example =
    Truth.decrypt_dek-Told calls 2 50 120 121 tenant (bytes 1 5) (err Key.entropy) dek cached _ ran
      answered_again

len-run_example : len (run calls (record { capacity = 2; ttl = 50; entries = [] }, [])).0 ≤ 2
len-run_example = Room.len-run 2 50 calls

decrypt_dek-shredded_example :
    (Cache.decrypt_dek 120 121 tenant
      (bytes 1 5)
      (Service.decrypt_dek platform service tenant
        (bytes 1 5)
        (Service.delete_kek tenant second_rows))
      (Cache.delete_kek tenant (ok tt) cached).0).1
    ≢ ok dek
decrypt_dek-shredded_example =
    Shredding.decrypt_dek-shredded platform platform-IsLawful service 120 121 tenant (bytes 1 5)
      second_rows cached dek
