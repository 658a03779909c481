-- ===== src/Kms/Service/Rows.antt =====
-- The rows of the tenants' keys: what is found, and what is kept.
use ascetic_ddd_rust.Prelude.Bytes.{bytes_eq, bytes_eq_refl, bytes_eq-eq}
use ascetic_ddd_rust.Prelude.{
  ℕ, ◌<◌, List, [], ◌∷◌, Bool, true, false, ◌&&◌, Option, none, some, ◌≡◌, refl, subst, arith, ltb,
  leb, ◌==◌, if◌then◌else◌, retain, Bool-cases, inl, inr, Option-cases,
}
use ascetic_ddd_rust.Prelude.Result.{ok}
use ascetic_ddd_rust.Kms.Key.{Bytes}
use ascetic_ddd_rust.Kms.Service.{
  Row, is_row, find_row, newer, latest_row, insert_row, insert_unless, retired, delete_kek,
}

latest_here :
    (tenant_id : Bytes) (r q : Row) (rows : List Row)
    → r ≡ q
    → (if r.key_version == q.key_version then some r else find_row tenant_id q.key_version rows)
      ≡ some q
latest_here tenant_id r q rows h =
    subst
      (λ t.
        (if r.key_version == t.key_version then some r else find_row tenant_id t.key_version rows)
        ≡ some t)
      h (ground arith)

latest_step :
    (tenant_id : Bytes) (r q : Row) (rows : List Row) (o : Option Row)
    → newer r o ≡ q
    → ((t : Row) → o ≡ some t → find_row tenant_id t.key_version rows ≡ some t)
    → (if r.key_version == q.key_version then some r else find_row tenant_id q.key_version rows)
      ≡ some q
unfolding newer
latest_step tenant_id r q rows none h later = latest_here tenant_id r q rows h
latest_step tenant_id r q rows (some t) h later =
    elim (Bool-cases (leb t.key_version r.key_version)) [
      | inl at_most ↦ latest_here tenant_id r q rows (rw at_most at h)
      | inr above ↦
          let same : t ≡ q = rw above at h in
          subst
            (λ u.
              (if r.key_version == u.key_version
                then some r
                else find_row tenant_id u.key_version rows)
              ≡ some u)
            same
            (let apart : (r.key_version == t.key_version) ≡ false = ground arith in
              rw apart (later t refl))
    ]

-- The latest row is the one that its version finds.
pub find_row-latest_row :
    (tenant_id : Bytes) (rows : List Row) (q : Row)
    → latest_row tenant_id rows ≡ some q
    → find_row tenant_id q.key_version rows ≡ some q
unfolding latest_row find_row is_row
find_row-latest_row tenant_id [] q h = absurd (cc)
find_row-latest_row tenant_id (r ∷ rows) q h = elim (Bool-cases (bytes_eq r.tenant_id tenant_id)) [
  | inr other ↦
      let later : latest_row tenant_id rows ≡ some q = rw other at h in
      rw other (find_row-latest_row tenant_id rows q later)
  | inl mine ↦
      let here : some (newer r (latest_row tenant_id rows)) ≡ some q = rw mine at h in
      rw mine (
        latest_step tenant_id r q rows (latest_row tenant_id rows) (cc)
          (λ t found. find_row-latest_row tenant_id rows t found))
]

pub is_row-eq :
    (tenant_id : Bytes) (version : ℕ) (r : Row)
    → is_row tenant_id version r ≡ true
    → (r.tenant_id ≡ tenant_id) × (r.key_version ≡ version)
unfolding is_row
is_row-eq tenant_id version r h = (bytes_eq-eq r.tenant_id tenant_id (ground arith), ground arith)

pub insert_row-ok :
    (new : Row) (rows rows' : List Row)
    → insert_row new rows ≡ ok rows'
    → (find_row new.tenant_id new.key_version rows ≡ none) × (new ∷ rows ≡ rows')
unfolding insert_row insert_unless
insert_row-ok new rows rows' h = elim (Option-cases (find_row new.tenant_id new.key_version rows)) [
  | inr (t, taken) ↦ absurd (cc (rw taken at h))
  | inl free ↦ (free, cc (rw free at h))
]

-- A row that is found stays found when another comes.
pub find_row-insert_row :
    (tenant_id : Bytes) (version : ℕ) (new q : Row) (rows rows' : List Row)
    → insert_row new rows ≡ ok rows'
    → find_row tenant_id version rows ≡ some q
    → find_row tenant_id version rows' ≡ some q
unfolding find_row
find_row-insert_row tenant_id version new q rows rows' h found =
    let (free, same) = insert_row-ok new rows rows' h in
    subst (λ xs. find_row tenant_id version xs ≡ some q) same
      (elim (Bool-cases (is_row tenant_id version new)) [
        | inl clash ↦
            let (t, v) = is_row-eq tenant_id version new clash in
            let taken : find_row new.tenant_id new.key_version rows ≡ some q = rw (t, v) found in
            absurd (cc)
        | inr other ↦ rw other found
      ])

-- The new row is the one of its key.
pub find_row-inserted :
    (new : Row) (rows rows' : List Row)
    → insert_row new rows ≡ ok rows'
    → find_row new.tenant_id new.key_version rows' ≡ some new
unfolding find_row is_row
find_row-inserted new rows rows' h =
    let (free, same) = insert_row-ok new rows rows' h in
    subst (λ xs. find_row new.tenant_id new.key_version xs ≡ some new) same
      (rw (bytes_eq_refl new.tenant_id) (ground arith))

-- A row that is found stays found when only others go.
find_row-retain :
    (tenant_id : Bytes) (version : ℕ) (keep : Row → Bool) (q : Row) (rows : List Row)
    → ((r : Row) → is_row tenant_id version r ≡ true → keep r ≡ true)
    → find_row tenant_id version rows ≡ some q
    → find_row tenant_id version (retain keep rows) ≡ some q
unfolding find_row
find_row-retain tenant_id version keep q [] k found = found
find_row-retain tenant_id version keep q (r ∷ rows) k found =
    elim (Bool-cases (is_row tenant_id version r)) [
      | inl here ↦ let e : some r ≡ some q = rw here at found in rw (k r here) (rw here e)
      | inr other ↦
          let later : find_row tenant_id version rows ≡ some q = rw other at found in
          let rest = find_row-retain tenant_id version keep q rows k later in
          elim (Bool-cases (keep r)) [
            | inl kept ↦ rw kept (rw other rest)
            | inr gone ↦ rw gone rest
          ]
    ]

find_row-retain-none :
    (tenant_id : Bytes) (version : ℕ) (keep : Row → Bool) (rows : List Row)
    → ((r : Row) → is_row tenant_id version r ≡ true → keep r ≡ false)
    → find_row tenant_id version (retain keep rows) ≡ none
unfolding find_row
find_row-retain-none tenant_id version keep [] k = refl
find_row-retain-none tenant_id version keep (r ∷ rows) k =
    let rest = find_row-retain-none tenant_id version keep rows k in
    elim (Bool-cases (keep r)) [
      | inr gone ↦ rw gone rest
      | inl kept ↦ elim (Bool-cases (is_row tenant_id version r)) [
        | inl here ↦ let no = k r here in absurd (cc)
        | inr other ↦ rw kept (rw other rest)
      ]
    ]

pub find_row-retired :
    (tenant_id : Bytes) (version : ℕ) (other : Bytes) (bound : ℕ) (q : Row) (rows : List Row)
    → (bytes_eq tenant_id other && ltb version bound) ≡ false
    → find_row tenant_id version rows ≡ some q
    → find_row tenant_id version (retired other bound rows) ≡ some q
unfolding retired
find_row-retired tenant_id version other bound q rows kept found =
    find_row-retain tenant_id version _ q rows
      (λ r here. let (t, v) = is_row-eq tenant_id version r here in rw (t, v) (rw kept refl)) found

pub find_row-retired-none :
    (tenant_id : Bytes) (version bound : ℕ) (rows : List Row)
    → version < bound
    → find_row tenant_id version (retired tenant_id bound rows) ≡ none
unfolding retired
find_row-retired-none tenant_id version bound rows h =
    find_row-retain-none tenant_id version _ rows (λ r here.
      let (t, v) = is_row-eq tenant_id version r here in
      rw (t, v) (rw (bytes_eq_refl tenant_id) (ground arith)))

pub find_row-delete_kek :
    (tenant_id : Bytes) (version : ℕ) (other : Bytes) (q : Row) (rows : List Row)
    → bytes_eq tenant_id other ≡ false
    → find_row tenant_id version rows ≡ some q
    → find_row tenant_id version (delete_kek other rows) ≡ some q
unfolding delete_kek
find_row-delete_kek tenant_id version other q rows kept found =
    find_row-retain tenant_id version _ q rows
      (λ r here. let (t, v) = is_row-eq tenant_id version r here in rw t (rw kept refl)) found

pub find_row-delete_kek-none :
    (tenant_id : Bytes) (version : ℕ) (rows : List Row)
    → find_row tenant_id version (delete_kek tenant_id rows) ≡ none
unfolding delete_kek
find_row-delete_kek-none tenant_id version rows =
    find_row-retain-none tenant_id version _ rows (λ r here.
      let (t, v) = is_row-eq tenant_id version r here in rw t (rw (bytes_eq_refl tenant_id) refl))
