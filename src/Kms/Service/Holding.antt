-- ===== src/Kms/Service/Holding.antt =====
-- The keys that the table holds.
use ascetic_ddd_rust.Prelude.{
  ℕ, ◌<◌, List, [], ◌∷◌, none, some, ◌≡◌, sym, subst, Bool-cases, inl, inr,
}
use ascetic_ddd_rust.Prelude.Result.{ok, bind-eq_ok}
use ascetic_ddd_rust.Kms.Key.{Bytes, kek_not_found, parse}
use ascetic_ddd_rust.Kms.Cipher.{Platform, IsLawful, from_str, ok_or}
use ascetic_ddd_rust.Kms.Cipher.Opening.{ok_or-eq_ok}
use ascetic_ddd_rust.Kms.Kek.{Kek}
use ascetic_ddd_rust.Kms.MasterKey
use ascetic_ddd_rust.Kms.MasterKey.{MasterKey, master_key_version}
use ascetic_ddd_rust.Kms.Service.{
  PgKeyManagementService, Row, is_row, find_row, latest_row, load_kek, current_kek, kek,
}
use ascetic_ddd_rust.Kms.Service.Rows.{find_row-latest_row, is_row-eq}
use ascetic_ddd_rust.Kms.Service.Making.{stored_version-fits, Kek_new-ok}

module _ {ℓ} {E : Type ℓ} (p : Platform E) (lawful : IsLawful p) (s : PgKeyManagementService) where
  -- A key that the table holds: what its tenant and version find loads as it.
  abbrev pub IsHeld : Bytes → Kek → List Row → Type 0
  IsHeld tenant_id k rows =
      (q : Row) × (find_row tenant_id k.version rows ≡ some q)
      × (load_kek p s tenant_id q ≡ ok k)
      × (k.version < 2147483648)

  pub kek-IsHeld :
      (tenant_id : Bytes) (k : Kek) (rows : List Row)
      → IsHeld tenant_id k rows
      → kek p s tenant_id k.version rows ≡ ok k
  unfolding kek ok_or
  kek-IsHeld tenant_id k rows (q, found, loads, fits) =
      rw (stored_version-fits k.version fits) (rw found loads)

  -- What the column of versions can hold.
  abbrev pub InColumn : List Row → Type 0
  InColumn [] = Unit
  InColumn (r ∷ rows) = (r.key_version < 2147483648) × InColumn rows

  find_row-InColumn :
      (tenant_id : Bytes) (version : ℕ) (q : Row) (rows : List Row)
      → InColumn rows
      → find_row tenant_id version rows ≡ some q
      → (q.key_version < 2147483648) × (q.key_version ≡ version)
  unfolding find_row
  find_row-InColumn tenant_id version q [] i found = absurd (cc)
  find_row-InColumn tenant_id version q (r ∷ rows) i found =
      elim (Bool-cases (is_row tenant_id version r)) [
        | inl here ↦
            let same : r ≡ q = cc (rw here at found) in
            subst (λ x. (x.key_version < 2147483648) × (x.key_version ≡ version)) same
              (i.0, (is_row-eq tenant_id version r here).1)
        | inr other ↦ find_row-InColumn tenant_id version q rows i.1 (rw other at found)
      ]

  pub load_kek-version :
      (tenant_id : Bytes) (r : Row) (k : Kek)
      → load_kek p s tenant_id r ≡ ok k
      → k.version ≡ r.key_version
  unfolding load_kek MasterKey.load_kek
  load_kek-version tenant_id r k h =
      let (w, h1, h2) = bind-eq_ok (parse r.encrypted_key) _ _ h in
      let (ma, h3, h4) = bind-eq_ok (from_str r.master_algorithm) _ _ h2 in
      let (ka, h5, h6) = bind-eq_ok (from_str r.key_algorithm) _ _ h4 in
      let (m, h7, h8) = bind-eq_ok (MasterKey.new s.master_key ma) _ _ h6 in
      let (key, h9, h10) = bind-eq_ok (MasterKey.unwrap p m tenant_id w) _ _ h8 in
      (Kek_new-ok tenant_id s.context r.key_version ka key w k h10).0

  pub load_kek-tenant_id :
      (tenant_id : Bytes) (r : Row) (k : Kek)
      → load_kek p s tenant_id r ≡ ok k
      → k.tenant_id ≡ tenant_id
  unfolding load_kek MasterKey.load_kek
  load_kek-tenant_id tenant_id r k h =
      let (w, h1, h2) = bind-eq_ok (parse r.encrypted_key) _ _ h in
      let (ma, h3, h4) = bind-eq_ok (from_str r.master_algorithm) _ _ h2 in
      let (ka, h5, h6) = bind-eq_ok (from_str r.key_algorithm) _ _ h4 in
      let (m, h7, h8) = bind-eq_ok (MasterKey.new s.master_key ma) _ _ h6 in
      let (key, h9, h10) = bind-eq_ok (MasterKey.unwrap p m tenant_id w) _ _ h8 in
      (Kek_new-ok tenant_id s.context r.key_version ka key w k h10).1

  -- The current key is held, in this table and in a later one that kept its row.
  pub current_kek-IsHeld :
      (tenant_id : Bytes) (k : Kek) (seen rows : List Row)
      → current_kek p s tenant_id seen ≡ ok k
      → InColumn rows
      → ((version : ℕ) (q : Row)
          → find_row tenant_id version seen ≡ some q
          → find_row tenant_id version rows ≡ some q)
      → IsHeld tenant_id k rows
  unfolding current_kek
  current_kek-IsHeld tenant_id k seen rows h i later =
      let (q, h1, h2) =
        bind-eq_ok (ok_or (kek_not_found tenant_id none) (latest_row tenant_id seen)) _ _ h in
      let latest = ok_or-eq_ok _ _ _ h1 in
      let found = later q.key_version q (find_row-latest_row tenant_id seen q latest) in
      let v = load_kek-version tenant_id q k h2 in
      let fits = find_row-InColumn tenant_id q.key_version q rows i found in
      (
        q,
        subst (λ n. find_row tenant_id n rows ≡ some q) (sym v) found,
        h2,
        subst (λ n. n < 2147483648) (sym v) fits.0,
      )
