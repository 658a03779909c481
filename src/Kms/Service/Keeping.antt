-- ===== src/Kms/Service/Keeping.antt =====
-- The calls that leave a version of a tenant's key in the table.
use ascetic_ddd_rust.Prelude.Bytes.{bytes_eq}
use ascetic_ddd_rust.Prelude.{
  ℕ, ◌<◌, List, true, false, ◌&&◌, Option, none, some, ◌≡◌, sym, ap, subst, ◌∙◌, arith, ltb,
  Bool-cases, inl, inr,
}
use ascetic_ddd_rust.Prelude.Result.{Result, ok, err, bind-eq_ok}
use ascetic_ddd_rust.Kms.Key.{Bytes, Key, WrappedKey, Error, kek_not_found}
use ascetic_ddd_rust.Kms.Cipher.{Platform, ok_or}
use ascetic_ddd_rust.Kms.Kek.{Kek}
use ascetic_ddd_rust.Kms.MasterKey
use ascetic_ddd_rust.Kms.Service.{
  PgKeyManagementService, KekOptions, Row, stored_version, find_row, latest_version, current_kek,
  save_kek, make_first, found_or, encrypt_dek, generate_dek, rewrap_from, rewrap_with, rewrap_dek,
  create_kek, create_unless, stored_bound, rotate_kek, retired, retire_kek_versions_before,
  delete_kek,
}
use ascetic_ddd_rust.Kms.Service.Rows.{find_row-retired, find_row-delete_kek}
use ascetic_ddd_rust.Kms.Service.Calls.{
  Finds, atomic-ok, atomic-keeps, find_row-save_kek, found_or_first-Finds, get_or_create-Finds,
}

module _ {ℓ} {E : Type ℓ} (p : Platform E) (s : PgKeyManagementService) where
  rewrap_from-Finds :
      (tenant_id : Bytes) (version : ℕ) (q : Row) (other : Bytes) (seen rows : List Row) (e : E)
      (from : Result Error (WrappedKey × Kek))
      → Finds tenant_id version q rows
      → Finds tenant_id version q (rewrap_from p s other seen rows e from).0
  unfolding rewrap_from rewrap_with
  rewrap_from-Finds tenant_id version q other seen rows e (ok from) h =
      get_or_create-Finds p s tenant_id version q other seen rows e h
  rewrap_from-Finds tenant_id version q other seen rows e (err why) h = h

  rewrap-Finds :
      (tenant_id : Bytes) (version : ℕ) (q : Row) (other encrypted : Bytes) (seen rows : List Row)
      (e : E)
      → Finds tenant_id version q rows
      → Finds tenant_id version q (rewrap_dek p s other encrypted seen rows e).0
  unfolding rewrap_dek
  rewrap-Finds tenant_id version q other encrypted seen rows e h =
      rewrap_from-Finds tenant_id version q other seen rows e _ h

  create-Finds :
      (tenant_id : Bytes) (version : ℕ) (q : Row) (other : Bytes) (period : Option ℕ)
      (rows : List Row) (e : E)
      → Finds tenant_id version q rows
      → Finds tenant_id version q (create_unless p s period other rows e).0
  unfolding create_unless
  create-Finds tenant_id version q other (some period) rows e h = h
  create-Finds tenant_id version q other none rows e h =
      atomic-keeps (Finds tenant_id version q) rows _ h (λ saved answer done.
        let (made, h1, h2) =
          bind-eq_ok
            (found_or p s true rows e (current_kek p s other rows) (make_first p s other rows e)) _
            _ done in
        let same : made.0 ≡ saved = cc in
        subst (Finds tenant_id version q) same
          (found_or_first-Finds p s tenant_id version q other rows made.0 e made.1 h h1))

  rotate-Finds :
      (tenant_id : Bytes) (version : ℕ) (q : Row) (other : Bytes) (rows : List Row) (e : E)
      → Finds tenant_id version q rows
      → Finds tenant_id version q (rotate_kek p s other rows e).0
  unfolding rotate_kek
  rotate-Finds tenant_id version q other rows e h =
      atomic-keeps (Finds tenant_id version q) rows _ h (λ saved answer done.
        let (current, h1, h2) = bind-eq_ok (current_kek p s other rows) _ _ done in
        let (m, h3, h4) = bind-eq_ok (MasterKey.new s.master_key s.master_algorithm) _ _ h2 in
        let (made, h5, h6) = bind-eq_ok (MasterKey.rotate_kek p m current e) _ _ h4 in
        let (rows', h7, h8) = bind-eq_ok (save_kek p s made.0 rows) _ _ h6 in
        let same : rows' ≡ saved = cc in
        subst (Finds tenant_id version q) same
          (find_row-save_kek p s tenant_id version q made.0 rows rows' h7 h))

pub stored_bound-ok :
    (version latest stored : ℕ)
    → stored_bound version latest ≡ ok stored
    → (version ≡ stored) × (version < 2147483648)
unfolding stored_bound stored_version
stored_bound-ok version latest stored h = elim (Bool-cases (ltb latest version)) [
  | inl above ↦ absurd (cc (rw above at h))
  | inr within ↦ elim (Bool-cases (ltb version 2147483648)) [
    | inl fits ↦ (cc (rw (within, fits) at h), ground arith)
    | inr large ↦ absurd (cc (rw (within, large) at h))
  ]
]

-- A retirement that succeeds leaves the rows from its bound on.
pub retire-ok :
    (other : Bytes) (bound : ℕ) (rows : List Row)
    → (retire_kek_versions_before other bound rows).1 ≡ ok tt
    → ((retire_kek_versions_before other bound rows).0 ≡ retired other bound rows)
      × (bound < 2147483648)
unfolding retire_kek_versions_before
retire-ok other bound rows h =
    let (saved, done, same) = atomic-ok rows _ tt h in
    let (latest, h1, h2) =
      bind-eq_ok (ok_or (kek_not_found other none) (latest_version other rows)) _ _ done in
    let (stored, h3, h4) = bind-eq_ok (stored_bound bound latest) _ _ h2 in
    let bounds = stored_bound-ok bound latest stored h3 in
    let left : retired other stored rows ≡ saved = cc in
    (same ∙ (sym left ∙ ap (λ b. retired other b rows) (sym bounds.0)), bounds.1)

pub retire-Finds :
    (tenant_id : Bytes) (version : ℕ) (q : Row) (other : Bytes) (bound : ℕ) (rows : List Row)
    → (bytes_eq tenant_id other && ltb version bound) ≡ false
    → find_row tenant_id version rows ≡ some q
    → find_row tenant_id version (retire_kek_versions_before other bound rows).0 ≡ some q
unfolding retire_kek_versions_before
retire-Finds tenant_id version q other bound rows kept h =
    atomic-keeps (λ xs. find_row tenant_id version xs ≡ some q) rows _ h
      (λ saved answer done.
        let (latest, h1, h2) =
          bind-eq_ok (ok_or (kek_not_found other none) (latest_version other rows)) _ _ done in
        let (stored, h3, h4) = bind-eq_ok (stored_bound bound latest) _ _ h2 in
        let bounds = stored_bound-ok bound latest stored h3 in
        let left : retired other stored rows ≡ saved = cc in
        subst (λ xs. find_row tenant_id version xs ≡ some q) left
          (subst (λ b. find_row tenant_id version (retired other b rows) ≡ some q) bounds.0
            (find_row-retired tenant_id version other bound q rows kept h)))

-- The calls between two tables, none of which retires the version or deletes the tenant's key.
pub data Keeps {ℓ} {E : Type ℓ} (p : Platform E) (s : PgKeyManagementService) (tenant_id : Bytes)
    (version : ℕ) (start : List Row) : List Row → Type ℓ where
  nothing : Keeps p s tenant_id version start start
  encrypts :
      (other : Bytes) (dek : Key) (seen rows : List Row) (e : E)
      → Keeps p s tenant_id version start rows
      → Keeps p s tenant_id version start (encrypt_dek p s other dek seen rows e).0
  generates :
      (other : Bytes) (seen rows : List Row) (e : E)
      → Keeps p s tenant_id version start rows
      → Keeps p s tenant_id version start (generate_dek p s other seen rows e).0
  rewraps :
      (other encrypted : Bytes) (seen rows : List Row) (e : E)
      → Keeps p s tenant_id version start rows
      → Keeps p s tenant_id version start (rewrap_dek p s other encrypted seen rows e).0
  creates :
      (other : Bytes) (options : KekOptions) (rows : List Row) (e : E)
      → Keeps p s tenant_id version start rows
      → Keeps p s tenant_id version start (create_kek p s other options rows e).0
  rotates :
      (other : Bytes) (rows : List Row) (e : E)
      → Keeps p s tenant_id version start rows
      → Keeps p s tenant_id version start (rotate_kek p s other rows e).0
  retires :
      (other : Bytes) (bound : ℕ) (rows : List Row)
      → (bytes_eq tenant_id other && ltb version bound) ≡ false
      → Keeps p s tenant_id version start rows
      → Keeps p s tenant_id version start (retire_kek_versions_before other bound rows).0
  deletes :
      (other : Bytes) (rows : List Row)
      → bytes_eq tenant_id other ≡ false
      → Keeps p s tenant_id version start rows
      → Keeps p s tenant_id version start (delete_kek other rows)

module _ {ℓ} {E : Type ℓ} (p : Platform E) (s : PgKeyManagementService) where
  pub Keeps-Finds :
      (tenant_id : Bytes) (version : ℕ) (q : Row) (start rows : List Row)
      → Keeps p s tenant_id version start rows
      → Finds tenant_id version q start
      → Finds tenant_id version q rows
  unfolding encrypt_dek generate_dek create_kek
  Keeps-Finds t v q start _ nothing h = h
  Keeps-Finds t v q start _ (encrypts other dek seen rows e k) h =
      get_or_create-Finds p s t v q other seen rows e (Keeps-Finds t v q start rows k h)
  Keeps-Finds t v q start _ (generates other seen rows e k) h =
      get_or_create-Finds p s t v q other seen rows e (Keeps-Finds t v q start rows k h)
  Keeps-Finds t v q start _ (rewraps other encrypted seen rows e k) h =
      rewrap-Finds p s t v q other encrypted seen rows e (Keeps-Finds t v q start rows k h)
  Keeps-Finds t v q start _ (creates other options rows e k) h =
      create-Finds p s t v q other options.auto_rotate_period rows e
        (Keeps-Finds t v q start rows k h)
  Keeps-Finds t v q start _ (rotates other rows e k) h =
      rotate-Finds p s t v q other rows e (Keeps-Finds t v q start rows k h)
  Keeps-Finds t v q start _ (retires other bound rows kept k) h =
      retire-Finds t v q other bound rows kept (Keeps-Finds t v q start rows k h)
  Keeps-Finds t v q start _ (deletes other rows kept k) h =
      find_row-delete_kek t v other q rows kept (Keeps-Finds t v q start rows k h)
