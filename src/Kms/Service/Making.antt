-- ===== src/Kms/Service/Making.antt =====
-- A key that the service found or made is read back from the table as it is.
use ascetic_ddd_rust.Prelude.{
  ℕ, ◌<◌, List, Option, some, ◌≡◌, refl, sym, ap, subst, ◌∙◌, arith, ltb, lt→ltb, Bool-cases, inl,
  inr,
}
use ascetic_ddd_rust.Prelude.Result.{ok, bind-eq_ok}
use ascetic_ddd_rust.Kms.Key.{Bytes, Key, WrappedKey, parse, parse-to_bytes}
use ascetic_ddd_rust.Kms.Cipher
use ascetic_ddd_rust.Kms.Cipher.{
  Platform, IsLawful, Algorithm, Cipher, cipher, as_str, from_str, ok_or, random_key,
}
use ascetic_ddd_rust.Kms.Cipher.Opening.{unwrap-wrap}
use ascetic_ddd_rust.Kms.Kek
use ascetic_ddd_rust.Kms.Kek.{Kek, binding}
use ascetic_ddd_rust.Kms.MasterKey
use ascetic_ddd_rust.Kms.MasterKey.{MasterKey, master_key_version}
use ascetic_ddd_rust.Kms.Service.{
  PgKeyManagementService, Row, stored_version, find_row, load_kek, row_of, save_kek,
}
use ascetic_ddd_rust.Kms.Service.Rows.{find_row-inserted}

pub stored_version-ok :
    (version stored : ℕ)
    → stored_version version ≡ ok stored
    → (version ≡ stored) × (version < 2147483648)
unfolding stored_version
stored_version-ok version stored h = elim (Bool-cases (ltb version 2147483648)) [
  | inl fits ↦ (cc (rw fits at h), ground arith)
  | inr large ↦ absurd (cc (rw large at h))
]

pub stored_version-fits : (version : ℕ) → version < 2147483648 → stored_version version ≡ ok version
unfolding stored_version
stored_version-fits version h = rw (lt→ltb version 2147483648 h) refl

from_str-as_str : (a : Algorithm) → from_str (as_str a) ≡ ok a
unfolding from_str as_str
from_str-as_str Cipher.aes256_gcm = refl

pub Kek_new-ok :
    (tenant_id : Bytes) (context : Option Bytes) (version : ℕ) (algorithm : Algorithm) (key : Key)
    (wrapped : WrappedKey) (k : Kek)
    → Kek.new tenant_id context version algorithm key wrapped ≡ ok k
    → (k.version ≡ version)
      × (k.tenant_id ≡ tenant_id)
      × (k.wrapped ≡ wrapped)
      × (k.algorithm ≡ algorithm)
unfolding Kek.new
Kek_new-ok tenant_id context version algorithm key wrapped k h =
    let (c, h1, h2) = bind-eq_ok (cipher algorithm key (binding tenant_id context)) _ _ h in
    (cc, cc, cc, cc)

module _ {ℓ} {E : Type ℓ} (p : Platform E) (lawful : IsLawful p) where
  loads_as :
      (m : MasterKey) (tenant_id : Bytes) (context : Option Bytes) (version : ℕ) (a : Algorithm)
      (c : Cipher) (key : Key) (w : WrappedKey) (k : Kek)
      → MasterKey.cipher_for m tenant_id ≡ ok c
      → Cipher.unwrap p master_key_version c w ≡ ok key
      → Kek.new tenant_id context version a key w ≡ ok k
      → MasterKey.load_kek p m tenant_id context w version a ≡ ok k
  unfolding MasterKey.load_kek MasterKey.unwrap
  loads_as m tenant_id context version a c key w k h1 h2 h3 = rw h1 (rw h2 h3)

  -- A master key loads what it made.
  pub load_kek-make_kek :
      (m : MasterKey) (tenant_id : Bytes) (context : Option Bytes) (version : ℕ) (e e' : E)
      (k : Kek)
      → MasterKey.make_kek p m tenant_id context version e ≡ ok (k, e')
      → (MasterKey.load_kek p m tenant_id context k.wrapped version m.algorithm ≡ ok k)
        × (k.wrapped.key_version ≡ master_key_version)
        × (k.version ≡ version)
        × (k.tenant_id ≡ tenant_id)
        × (k.algorithm ≡ m.algorithm)
  unfolding MasterKey.make_kek
  load_kek-make_kek m tenant_id context version e e' k h =
      let (c, h1, h2) = bind-eq_ok (MasterKey.cipher_for m tenant_id) _ _ h in
      let (key, h3, h4) = bind-eq_ok (random_key p e) _ _ h2 in
      let (wrapped, h5, h6) = bind-eq_ok (Cipher.wrap p master_key_version c key.0 key.1) _ _ h4 in
      let (made, h7, h8) =
        bind-eq_ok (Kek.new tenant_id context version m.algorithm key.0 wrapped.0) _ _ h6 in
      let made_k : Kek.new tenant_id context version m.algorithm key.0 wrapped.0 ≡ ok k = cc in
      let (v, t, w, a) =
        Kek_new-ok tenant_id context version m.algorithm key.0 wrapped.0 k made_k in
      let (named, opens) =
        unwrap-wrap p lawful master_key_version c key.0 wrapped.0 key.1 wrapped.1 h5 in
      (
        subst (λ x. MasterKey.load_kek p m tenant_id context x version m.algorithm ≡ ok k) (sym w)
            (loads_as m tenant_id context version m.algorithm c key.0 wrapped.0 k h1 opens made_k),
        ap WrappedKey.key_version w ∙ named,
        v,
        t,
        a,
      )

  module _ (s : PgKeyManagementService) where
    load_kek_lem :
        (tenant_id : Bytes) (r : Row) (w : WrappedKey) (master_algorithm algorithm : Algorithm)
        (m : MasterKey) (k : Kek)
        → parse r.encrypted_key ≡ ok w
        → from_str r.master_algorithm ≡ ok master_algorithm
        → from_str r.key_algorithm ≡ ok algorithm
        → MasterKey.new s.master_key master_algorithm ≡ ok m
        → MasterKey.load_kek p m tenant_id s.context w r.key_version algorithm ≡ ok k
        → load_kek p s tenant_id r ≡ ok k
    unfolding load_kek
    load_kek_lem tenant_id r w master_algorithm algorithm m k h1 h2 h3 h4 h5 =
        rw h1 (rw h2 (rw h3 (rw h4 h5)))

    load_kek-row_of :
        (m : MasterKey) (tenant_id : Bytes) (version : ℕ) (e e' : E) (k : Kek)
        → MasterKey.new s.master_key s.master_algorithm ≡ ok m
        → MasterKey.make_kek p m tenant_id s.context version e ≡ ok (k, e')
        → load_kek p s tenant_id (row_of p s k version) ≡ ok k
    unfolding row_of
    load_kek-row_of m tenant_id version e e' k h made =
        let (loads, first, v, t, a) = load_kek-make_kek m tenant_id s.context version e e' k made in
        let fits : k.wrapped.key_version < 4294967296 =
          subst (λ n. n < 4294967296) (sym first) (omega arith) in
        load_kek_lem tenant_id (row_of p s k version) k.wrapped s.master_algorithm k.algorithm m k
          (parse-to_bytes k.wrapped fits) (from_str-as_str s.master_algorithm)
          (from_str-as_str k.algorithm) h
          (subst
            (λ algorithm.
              MasterKey.load_kek p m tenant_id s.context k.wrapped version algorithm ≡ ok k)
            (sym a) loads)

    -- A key that is made and saved is the one that its tenant and version find.
    pub kek-save_kek :
        (m : MasterKey) (tenant_id : Bytes) (version : ℕ) (e e' : E) (k : Kek)
        (rows rows' : List Row)
        → MasterKey.new s.master_key s.master_algorithm ≡ ok m
        → MasterKey.make_kek p m tenant_id s.context version e ≡ ok (k, e')
        → save_kek p s k rows ≡ ok rows'
        → (q : Row) × (find_row tenant_id k.version rows' ≡ some q)
          × (load_kek p s tenant_id q ≡ ok k)
          × (k.version < 2147483648)
    unfolding save_kek row_of
    kek-save_kek m tenant_id version e e' k rows rows' h made saved =
        let (stored, h1, h2) = bind-eq_ok (stored_version k.version) _ _ saved in
        let (same, fits) = stored_version-ok k.version stored h1 in
        let (loads, first, v, t, a) = load_kek-make_kek m tenant_id s.context version e e' k made in
        let found = find_row-inserted (row_of p s k stored) rows rows' h2 in
        let as_made : stored ≡ version = cc in
        (
          row_of p s k stored,
          subst (λ x. find_row x k.version rows' ≡ some (row_of p s k stored)) t
              (subst (λ x. find_row k.tenant_id x rows' ≡ some (row_of p s k stored)) (sym same)
                found),
          subst (λ x. load_kek p s tenant_id (row_of p s k x) ≡ ok k) (sym as_made)
              (load_kek-row_of m tenant_id version e e' k h made),
          fits,
        )
