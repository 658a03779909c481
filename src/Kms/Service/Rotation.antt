-- ===== src/Kms/Service/Rotation.antt =====
-- The rotation of a tenant's key (crates/kms/src/pg.rs).
use ascetic_ddd_rust.Prelude.Bytes.{bytes_eq, bytes_eq_refl}
use ascetic_ddd_rust.Prelude.{
  ℕ, suc, ◌+◌, ◌<◌, List, ◌∷◌, true, none, some, ◌≡◌, refl, sym, ap, subst, ◌∙◌, arith, ltb, leb,
  Bool-cases, inl, inr,
}
use mathlib.Core.Option
use ascetic_ddd_rust.Prelude.Result.{ok, bind-eq_ok}
use ascetic_ddd_rust.Kms.Key.{Bytes, kek_not_found}
use ascetic_ddd_rust.Kms.Cipher.{Platform, IsLawful, ok_or}
use ascetic_ddd_rust.Kms.Cipher.Opening.{ok_or-eq_ok}
use ascetic_ddd_rust.Kms.Kek.{Kek}
use ascetic_ddd_rust.Kms.MasterKey
use ascetic_ddd_rust.Kms.Service.{
  PgKeyManagementService, Row, stored_version, newer, latest_row, latest_version, current_kek,
  row_of, save_kek, rotate_kek,
}
use ascetic_ddd_rust.Kms.Service.Rows.{insert_row-ok}
use ascetic_ddd_rust.Kms.Service.Making.{load_kek-make_kek, stored_version-ok}
use ascetic_ddd_rust.Kms.Service.Holding.{load_kek-version, load_kek-tenant_id}
use ascetic_ddd_rust.Kms.Service.Calls.{atomic-ok}

latest_row-newest :
    (tenant_id : Bytes) (new q : Row) (rows : List Row)
    → bytes_eq new.tenant_id tenant_id ≡ true
    → latest_row tenant_id rows ≡ some q
    → q.key_version < new.key_version
    → latest_row tenant_id (new ∷ rows) ≡ some new
unfolding latest_row newer
latest_row-newest tenant_id new q rows mine latest above =
    let at_most : leb q.key_version new.key_version ≡ true = ground arith in
    rw mine (rw latest (rw at_most refl))

module _ {ℓ} {E : Type ℓ} (p : Platform E) (lawful : IsLawful p) (s : PgKeyManagementService) where
  rotated :
      (m : MasterKey.MasterKey) (current k : Kek) (e e' : E)
      → MasterKey.rotate_kek p m current e ≡ ok (k, e')
      → (k.version ≡ suc current.version) × (k.tenant_id ≡ current.tenant_id)
  unfolding MasterKey.rotate_kek
  rotated m current k e e' h = elim (Bool-cases (ltb (current.version + 1) 4294967296)) [
    | inl fits ↦
        let made : MasterKey.make_kek p m current.tenant_id current.context (current.version + 1) e
            ≡ ok (k, e') =
          rw fits at h in
        let (loads, first, v, t, a) =
          load_kek-make_kek p lawful m current.tenant_id current.context (current.version + 1) e e'
            k made in
        (omega arith, t)
    | inr large ↦ absurd (cc (rw large at h))
  ]

  -- A rotation that succeeds answers the version after the latest, and it is the latest of the
  -- tenant right after.
  pub latest_version-rotate_kek :
      (tenant_id : Bytes) (rows : List Row) (e : E) (version : ℕ)
      → (rotate_kek p s tenant_id rows e).1 ≡ ok version
      → (before : ℕ) × (latest_version tenant_id rows ≡ some before)
        × (version ≡ suc before)
        × (latest_version tenant_id (rotate_kek p s tenant_id rows e).0 ≡ some version)
  unfolding rotate_kek latest_version current_kek save_kek row_of
  latest_version-rotate_kek tenant_id rows e version h =
      let (saved, done, table) = atomic-ok rows _ version h in
      let (current, h1, h2) = bind-eq_ok (current_kek p s tenant_id rows) _ _ done in
      let (m, h3, h4) = bind-eq_ok (MasterKey.new s.master_key s.master_algorithm) _ _ h2 in
      let (made, h5, h6) = bind-eq_ok (MasterKey.rotate_kek p m current e) _ _ h4 in
      let (rows', h7, h8) = bind-eq_ok (save_kek p s made.0 rows) _ _ h6 in
      let (q, h9, h10) =
        bind-eq_ok (ok_or (kek_not_found tenant_id none) (latest_row tenant_id rows)) _ _ h1 in
      let latest = ok_or-eq_ok _ _ _ h9 in
      let was = load_kek-version p lawful s tenant_id q current h10 in
      let mine = load_kek-tenant_id p lawful s tenant_id q current h10 in
      let (next, same_tenant) = rotated m current made.0 e made.1 h5 in
      let (stored, h11, h12) = bind-eq_ok (stored_version made.0.version) _ _ h7 in
      let (as_made, fits) = stored_version-ok made.0.version stored h11 in
      let (free, prepended) = insert_row-ok (row_of p s made.0 stored) rows rows' h12 in
      let same_rows : rows' ≡ saved = cc in
      let answer : made.0.version ≡ version = cc in
      let of_tenant : made.0.tenant_id ≡ tenant_id = same_tenant ∙ mine in
      let newest =
        latest_row-newest tenant_id (row_of p s made.0 stored) q rows
          (subst (λ t. bytes_eq t tenant_id ≡ true) (sym of_tenant) (bytes_eq_refl tenant_id))
          latest (omega arith) in
      (
        q.key_version,
        ap (λ o. Option.map (λ (r : Row). r.key_version) o) latest,
        omega arith,
        subst
            (λ xs. Option.map (λ (r : Row). r.key_version) (latest_row tenant_id xs) ≡ some version)
            (prepended ∙ (same_rows ∙ sym table))
            (ap (λ o. Option.map (λ (r : Row). r.key_version) o) newest
              ∙ ap (λ v. some v) (sym as_made ∙ answer)),
      )
