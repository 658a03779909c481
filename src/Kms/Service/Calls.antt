-- ===== src/Kms/Service/Calls.antt =====
-- The calls of the key management: which key a call wraps with, and what later calls leave.
use ascetic_ddd_rust.Prelude.{
  ℕ, List, Bool, true, not, ◌&&◌, some, ◌≡◌, ◌⊎◌, refl, ap, subst, ◌∙◌, Bool-cases, inl, inr,
}
use ascetic_ddd_rust.Prelude.Result.{Result, ok, err, bind-eq_ok}
use ascetic_ddd_rust.Kms.Key.{Bytes, Error}
use ascetic_ddd_rust.Kms.Cipher.{Platform}
use ascetic_ddd_rust.Kms.Kek.{Kek}
use ascetic_ddd_rust.Kms.MasterKey
use ascetic_ddd_rust.Kms.Service.{
  PgKeyManagementService, Row, is_not_found, stored_version, atomic, find_row, current_kek, row_of,
  save_kek, make_first, found_or, get_or_create_current_kek,
}
use ascetic_ddd_rust.Kms.Service.Rows.{find_row-insert_row}

pub atomic-ok {ℓ} :
    {A : Type ℓ} (rows : List Row) (r : Result Error (List Row × A)) (a : A)
    → (atomic rows r).1 ≡ ok a
    → (saved : List Row) × (r ≡ ok (saved, a)) × ((atomic rows r).0 ≡ saved)
unfolding atomic
atomic-ok rows (ok done) a h = let e : done.1 ≡ a = cc in (done.0, ap (λ x. ok (done.0, x)) e, refl)
atomic-ok rows (err why) a h = absurd (cc)

-- What holds of the rows before a scope and of those that it writes holds after it.
pub atomic-keeps {ℓ κ} :
    {A : Type ℓ} (P : List Row → Type κ) (rows : List Row) (r : Result Error (List Row × A))
    → P rows
    → ((saved : List Row) (a : A) → r ≡ ok (saved, a) → P saved)
    → P (atomic rows r).0
unfolding atomic
atomic-keeps P rows (ok done) h k = k done.0 done.1 refl
atomic-keeps P rows (err why) h k = h

abbrev pub Finds : Bytes → ℕ → Row → List Row → Type 0
Finds tenant_id version q rows = find_row tenant_id version rows ≡ some q

module _ {ℓ} {E : Type ℓ} (p : Platform E) (s : PgKeyManagementService) where
  pub found_or-ok :
      (makes : Bool) (rows : List Row) (e : E) (found : Result Error Kek)
      (made : Result Error (List Row × (Kek × E))) (done : List Row × (Kek × E))
      → found_or p s makes rows e found made ≡ ok done
      → ((found ≡ ok done.1.0) × (rows ≡ done.0)) ⊎ (made ≡ ok done)
  unfolding found_or
  found_or-ok makes rows e (ok k) made done h =
      let same : (rows, (k, e)) ≡ done = cc in inl (ap (λ d. ok d.1.0) same, ap (λ d. d.0) same)
  found_or-ok makes rows e (err why) made done h = elim (Bool-cases (is_not_found why && makes)) [
    | inl goes_on ↦ inr (rw goes_on at h)
    | inr stops ↦ absurd (cc (rw stops at h))
  ]

  -- A save keeps the rows that are found.
  pub find_row-save_kek :
      (tenant_id : Bytes) (version : ℕ) (q : Row) (k : Kek) (rows saved : List Row)
      → save_kek p s k rows ≡ ok saved
      → find_row tenant_id version rows ≡ some q
      → find_row tenant_id version saved ≡ some q
  unfolding save_kek
  find_row-save_kek tenant_id version q k rows saved h found =
      let (stored, h1, h2) = bind-eq_ok (stored_version k.version) _ _ h in
      find_row-insert_row tenant_id version (row_of p s k stored) q rows saved h2 found

  pub make_first-saves :
      (tenant_id : Bytes) (rows saved : List Row) (e e' : E) (k : Kek)
      → make_first p s tenant_id rows e ≡ ok (saved, (k, e'))
      → (m : MasterKey.MasterKey) × (MasterKey.new s.master_key s.master_algorithm ≡ ok m)
        × (MasterKey.make_kek p m tenant_id s.context 1 e ≡ ok (k, e'))
        × (save_kek p s k rows ≡ ok saved)
  unfolding make_first MasterKey.generate_kek
  make_first-saves tenant_id rows saved e e' k h =
      let (m, h1, h2) = bind-eq_ok (MasterKey.new s.master_key s.master_algorithm) _ _ h in
      let (made, h3, h4) = bind-eq_ok (MasterKey.make_kek p m tenant_id s.context 1 e) _ _ h2 in
      let (rows', h5, h6) = bind-eq_ok (save_kek p s made.0 rows) _ _ h4 in
      let same_rows : rows' ≡ saved = cc in
      let same : made ≡ (k, e') = cc in
      (
        m,
        h1,
        h3 ∙ ap (λ x. ok x) same,
        subst (λ x. save_kek p s x rows ≡ ok saved) (ap (λ d. d.0) same)
            (h5 ∙ ap (λ x. ok x) same_rows),
      )

  found_or-Finds :
      (tenant_id : Bytes) (version : ℕ) (q : Row) (makes : Bool) (rows saved : List Row) (e : E)
      (found : Result Error Kek) (made : Result Error (List Row × (Kek × E))) (k : Kek × E)
      → Finds tenant_id version q rows
      → ((rows' : List Row) (k' : Kek × E)
          → made ≡ ok (rows', k')
          → Finds tenant_id version q rows')
      → found_or p s makes rows e found made ≡ ok (saved, k)
      → Finds tenant_id version q saved
  found_or-Finds tenant_id version q makes rows saved e found made k h keeps done =
      elim (found_or-ok makes rows e found made (saved, k) done) [
        | inl was ↦ subst (Finds tenant_id version q) was.1 h
        | inr made_it ↦ keeps saved k made_it
      ]

  make_first-Finds :
      (tenant_id : Bytes) (version : ℕ) (q : Row) (other : Bytes) (rows saved : List Row) (e : E)
      (k : Kek × E)
      → Finds tenant_id version q rows
      → make_first p s other rows e ≡ ok (saved, k)
      → Finds tenant_id version q saved
  make_first-Finds tenant_id version q other rows saved e k h made =
      let (m, h1, h2, h3) = make_first-saves other rows saved e k.1 k.0 made in
      find_row-save_kek tenant_id version q k.0 rows saved h3 h

  pub found_or_first-Finds :
      (tenant_id : Bytes) (version : ℕ) (q : Row) (other : Bytes) (rows saved : List Row) (e : E)
      (k : Kek × E)
      → Finds tenant_id version q rows
      → found_or p s true rows e (current_kek p s other rows) (make_first p s other rows e)
        ≡ ok (saved, k)
      → Finds tenant_id version q saved
  found_or_first-Finds tenant_id version q other rows saved e k h done =
      found_or-Finds tenant_id version q true rows saved e _ _ k h
        (λ rows' k' made. make_first-Finds tenant_id version q other rows rows' e k' h made) done

  pub get_or_create-Finds :
      (tenant_id : Bytes) (version : ℕ) (q : Row) (other : Bytes) (seen rows : List Row) (e : E)
      → Finds tenant_id version q rows
      → Finds tenant_id version q (get_or_create_current_kek p s other seen rows e).0
  unfolding get_or_create_current_kek
  get_or_create-Finds tenant_id version q other seen rows e h =
      atomic-keeps (Finds tenant_id version q) rows _ h (λ saved k done.
        found_or-Finds tenant_id version q (not s.managed_keys) rows saved e _ _ k h
          (λ rows' k' made. found_or_first-Finds tenant_id version q other rows rows' e k' h made)
          done)
