-- ===== src/Kms/Service/RoundTrip.antt =====
-- What the service wrapped for a tenant it unwraps after any later calls, until the version that
-- wrapped it is retired or the tenant's key is deleted.
use ascetic_ddd_rust.Prelude.{
  ℕ, ◌<◌, List, true, not, some, ◌≡◌, ◌≢◌, refl, sym, ap, subst, ◌∙◌, arith, inl, inr,
}
use ascetic_ddd_rust.Prelude.Result.{Result, ok, err, bind-eq_ok}
use ascetic_ddd_rust.Kms.Key.{
  Bytes, Key, WrappedKey, Error, kek_not_found, parse, to_bytes, parse-to_bytes,
}
use ascetic_ddd_rust.Kms.Cipher.{Platform, IsLawful, ok_or}
use ascetic_ddd_rust.Kms.Cipher.Opening.{unwrap-wrap, ok_or-eq_ok}
use ascetic_ddd_rust.Kms.Kek
use ascetic_ddd_rust.Kms.Kek.{Kek}
use ascetic_ddd_rust.Kms.Service.{
  PgKeyManagementService, Row, stored_version, find_row, get_or_create_current_kek, encrypt_dek,
  decrypt_dek, rewrap_from, rewrap_with, rewrap_dek, retire_kek_versions_before, delete_kek, kek,
}
use ascetic_ddd_rust.Kms.Service.Rows.{find_row-retired-none, find_row-delete_kek-none}
use ascetic_ddd_rust.Kms.Service.Making.{kek-save_kek, stored_version-fits}
use ascetic_ddd_rust.Kms.Service.Holding.{IsHeld, InColumn, kek-IsHeld, current_kek-IsHeld}
use ascetic_ddd_rust.Kms.Service.Calls.{Finds, atomic-ok, found_or-ok, make_first-saves}
use ascetic_ddd_rust.Kms.Service.Keeping.{Keeps, Keeps-Finds, retire-ok}

module _ {ℓ} {E : Type ℓ} (p : Platform E) (lawful : IsLawful p) (s : PgKeyManagementService) where
  -- The key that a call wraps with is held by the table after it.
  get_or_create-IsHeld :
      (tenant_id : Bytes) (seen rows : List Row) (e e' : E) (k : Kek)
      → InColumn p lawful s rows
      → ((version : ℕ) (q : Row) → Finds tenant_id version q seen → Finds tenant_id version q rows)
      → (get_or_create_current_kek p s tenant_id seen rows e).1 ≡ ok (k, e')
      → IsHeld p lawful s tenant_id k (get_or_create_current_kek p s tenant_id seen rows e).0
  unfolding get_or_create_current_kek
  get_or_create-IsHeld tenant_id seen rows e e' k fits later h =
      let (saved, done, same) = atomic-ok rows _ (k, e') h in
      subst (IsHeld p lawful s tenant_id k) (sym same)
        (elim (found_or-ok p s (not s.managed_keys) rows e _ _ (saved, (k, e')) done) [
          | inl was ↦
              subst (IsHeld p lawful s tenant_id k) was.1
                (current_kek-IsHeld p lawful s tenant_id k seen rows was.0 fits later)
          | inr locked ↦ elim (found_or-ok p s true rows e _ _ (saved, (k, e')) locked) [
            | inl was ↦
                subst (IsHeld p lawful s tenant_id k) was.1
                  (current_kek-IsHeld p lawful s tenant_id k rows rows was.0 fits (λ v q f. f))
            | inr made ↦
                let (m, h1, h2, h3) = make_first-saves p s tenant_id rows saved e e' k made in
                kek-save_kek p lawful s m tenant_id 1 e e' k rows saved h1 h2 h3
          ]
        ])

  decrypts_as :
      (tenant_id bytes : Bytes) (w : WrappedKey) (k : Kek) (dek : Key) (rows : List Row)
      → parse bytes ≡ ok w
      → kek p s tenant_id w.key_version rows ≡ ok k
      → Kek.unwrap p k w ≡ ok dek
      → decrypt_dek p s tenant_id bytes rows ≡ ok dek
  unfolding decrypt_dek
  decrypts_as tenant_id bytes w k dek rows h1 h2 h3 = rw h1 (rw h2 h3)

  wrapped_opens :
      (tenant_id : Bytes) (k : Kek) (dek : Key) (wrapped w : WrappedKey) (e e' : E)
      (rows rows' : List Row)
      → IsHeld p lawful s tenant_id k rows
      → Kek.wrap p k dek e ≡ ok (wrapped, e')
      → parse (to_bytes wrapped) ≡ ok w
      → Keeps p s tenant_id w.key_version rows rows'
      → decrypt_dek p s tenant_id (to_bytes wrapped) rows' ≡ ok dek
  unfolding Kek.wrap Kek.unwrap
  wrapped_opens tenant_id k dek wrapped w e e' rows rows' (q, found, loads, fits) h parsed kept =
      let (named, opens) = unwrap-wrap p lawful k.version k.cipher dek wrapped e e' h in
      let small : wrapped.key_version < 4294967296 =
        subst (λ v. v < 4294967296) (sym named) (omega arith) in
      let whole = parse-to_bytes wrapped small in
      let same : w ≡ wrapped = cc in
      let version : w.key_version ≡ k.version = ap WrappedKey.key_version same ∙ named in
      let still =
        Keeps-Finds p s tenant_id k.version q rows rows'
          (subst (λ v. Keeps p s tenant_id v rows rows') version kept) found in
      decrypts_as tenant_id (to_bytes wrapped) wrapped k dek rows' whole
        (subst (λ v. kek p s tenant_id v rows' ≡ ok k) (sym named)
          (kek-IsHeld p lawful s tenant_id k rows' (q, still, loads, fits)))
        opens

  -- A key that was wrapped for a tenant is unwrapped after any later calls, rotations and the
  -- retirement of other versions among them, of which none retires the version that its wrapped form
  -- names or deletes the tenant's key; if the rows read before the tenant's lock were still there
  -- under it.
  pub decrypt_dek-encrypt_dek :
      (tenant_id : Bytes) (dek : Key) (seen rows rows' : List Row) (e e' : E) (bytes : Bytes)
      (w : WrappedKey)
      → InColumn p lawful s rows
      → ((version : ℕ) (q : Row) → Finds tenant_id version q seen → Finds tenant_id version q rows)
      → (encrypt_dek p s tenant_id dek seen rows e).1 ≡ ok (bytes, e')
      → parse bytes ≡ ok w
      → Keeps p s tenant_id w.key_version (encrypt_dek p s tenant_id dek seen rows e).0 rows'
      → decrypt_dek p s tenant_id bytes rows' ≡ ok dek
  unfolding encrypt_dek
  decrypt_dek-encrypt_dek tenant_id dek seen rows rows' e e' bytes w fits later h parsed kept =
      let (k, h1, h2) = bind-eq_ok (get_or_create_current_kek p s tenant_id seen rows e).1 _ _ h in
      let (wrapped, h3, h4) = bind-eq_ok (Kek.wrap p k.0 dek k.1) _ _ h2 in
      let same : to_bytes wrapped.0 ≡ bytes = cc in
      subst (λ x. decrypt_dek p s tenant_id x rows' ≡ ok dek) same
        (wrapped_opens tenant_id k.0 dek wrapped.0 w k.1 wrapped.1 _ rows'
          (get_or_create-IsHeld tenant_id seen rows e k.1 k.0 fits later h1) h3
          (subst (λ x. parse x ≡ ok w) (sym same) parsed) kept)

  -- After a retirement, a key that was wrapped by a version below its bound is refused, with the
  -- version that is gone.
  pub decrypt_dek-retired :
      (tenant_id : Bytes) (bound : ℕ) (rows : List Row) (bytes : Bytes) (w : WrappedKey)
      → (retire_kek_versions_before tenant_id bound rows).1 ≡ ok tt
      → parse bytes ≡ ok w
      → w.key_version < bound
      → decrypt_dek p s tenant_id bytes (retire_kek_versions_before tenant_id bound rows).0
        ≡ err (kek_not_found tenant_id (some w.key_version))
  unfolding decrypt_dek kek ok_or
  decrypt_dek-retired tenant_id bound rows bytes w done parsed below =
      let (left, fits) = retire-ok tenant_id bound rows done in
      rw left (
        rw parsed (
          rw (stored_version-fits w.key_version (omega arith))
            (rw (find_row-retired-none tenant_id w.key_version bound rows below) refl)))

  -- After its key is deleted, nothing is unwrapped for a tenant.
  pub decrypt_dek-deleted :
      (tenant_id : Bytes) (rows : List Row) (bytes : Bytes) (key : Key)
      → decrypt_dek p s tenant_id bytes (delete_kek tenant_id rows) ≢ ok key
  unfolding decrypt_dek kek ok_or
  decrypt_dek-deleted tenant_id rows bytes key h =
      let (w, h1, h2) = bind-eq_ok (parse bytes) _ _ h in
      let (k, h3, h4) =
        bind-eq_ok (kek p s tenant_id w.key_version (delete_kek tenant_id rows)) _ _ h2 in
      let (stored, h5, h6) = bind-eq_ok (stored_version w.key_version) _ _ h3 in
      let (q, h7, h8) =
        bind-eq_ok
          (ok_or (kek_not_found tenant_id (some w.key_version))
            (find_row tenant_id stored (delete_kek tenant_id rows)))
          _ _ h6 in
      let found = ok_or-eq_ok _ _ _ h7 in
      let gone = find_row-delete_kek-none tenant_id stored rows in absurd (cc)

  rewrap_from-ok :
      (tenant_id : Bytes) (seen rows : List Row) (e e' : E) (from : Result Error (WrappedKey × Kek))
      (bytes : Bytes)
      → (rewrap_from p s tenant_id seen rows e from).1 ≡ ok (bytes, e')
      → (w : WrappedKey) × (k : Kek) × (from ≡ ok (w, k))
        × ((rewrap_with p s w k (get_or_create_current_kek p s tenant_id seen rows e)).1
            ≡ ok (bytes, e'))
        × ((rewrap_from p s tenant_id seen rows e from).0
            ≡ (get_or_create_current_kek p s tenant_id seen rows e).0)
  unfolding rewrap_from rewrap_with
  rewrap_from-ok tenant_id seen rows e e' (ok (w, k)) bytes h = (w, k, refl, h, refl)
  rewrap_from-ok tenant_id seen rows e e' (err why) bytes h = absurd (cc)

  unwraps_as :
      (tenant_id bytes : Bytes) (w : WrappedKey) (k : Kek) (dek : Key) (rows : List Row)
      → parse bytes ≡ ok w
      → kek p s tenant_id w.key_version rows ≡ ok k
      → decrypt_dek p s tenant_id bytes rows ≡ ok dek
      → Kek.unwrap p k w ≡ ok dek
  unfolding decrypt_dek
  unwraps_as tenant_id bytes w k dek rows h1 h2 h = rw (h1, h2) at h

  -- A key that was wrapped again is the same key: what the old form was unwrapped to, the new form is
  -- after any later calls that do not retire the version that it names or delete the tenant's key.
  pub decrypt_dek-rewrap_dek :
      (tenant_id encrypted : Bytes) (dek : Key) (seen rows rows' : List Row) (e e' : E)
      (bytes : Bytes) (w : WrappedKey)
      → InColumn p lawful s rows
      → ((version : ℕ) (q : Row) → Finds tenant_id version q seen → Finds tenant_id version q rows)
      → decrypt_dek p s tenant_id encrypted seen ≡ ok dek
      → (rewrap_dek p s tenant_id encrypted seen rows e).1 ≡ ok (bytes, e')
      → parse bytes ≡ ok w
      → Keeps p s tenant_id w.key_version (rewrap_dek p s tenant_id encrypted seen rows e).0 rows'
      → decrypt_dek p s tenant_id bytes rows' ≡ ok dek
  unfolding rewrap_dek rewrap_with Kek.rewrap
  decrypt_dek-rewrap_dek tenant_id encrypted dek seen rows rows' e e' bytes w fits later was h
        parsed kept =
      let (old, from, found, done, table) = rewrap_from-ok tenant_id seen rows e e' _ bytes h in
      let (old', p1, p2) = bind-eq_ok (parse encrypted) _ _ found in
      let (from', p3, p4) = bind-eq_ok (kek p s tenant_id old'.key_version seen) _ _ p2 in
      let same_old : old' ≡ old = cc in
      let same_from : from' ≡ from = cc in
      let opened = unwraps_as tenant_id encrypted old' from' dek seen p1 p3 was in
      let (k, h1, h2) =
        bind-eq_ok (get_or_create_current_kek p s tenant_id seen rows e).1 _ _ done in
      let (again, h3, h4) = bind-eq_ok (Kek.rewrap p k.0 old from k.1) _ _ h2 in
      let (dek', h5, h6) = bind-eq_ok (Kek.unwrap p from old) _ _ h3 in
      let opened' : Kek.unwrap p from old ≡ ok dek =
        subst (λ x. Kek.unwrap p x old ≡ ok dek) same_from
          (subst (λ x. Kek.unwrap p from' x ≡ ok dek) same_old opened) in
      let same_dek : dek' ≡ dek = cc in
      let same : to_bytes again.0 ≡ bytes = cc in
      subst (λ x. decrypt_dek p s tenant_id x rows' ≡ ok dek) same
        (wrapped_opens tenant_id k.0 dek again.0 w k.1 again.1 _ rows'
          (get_or_create-IsHeld tenant_id seen rows e k.1 k.0 fits later h1)
          (subst (λ x. Kek.wrap p k.0 x k.1 ≡ ok again) same_dek h6)
          (subst (λ x. parse x ≡ ok w) (sym same) parsed)
          (subst (λ x. Keeps p s tenant_id w.key_version x rows') table kept))
