-- ===== src/Migration/Ledger.antt =====
-- What a run of the migrations keeps of the ledger.
use ascetic_ddd_rust.Prelude.{
  ℕ, suc, List, [], ◌∷◌, Bool, true, false, not, ◌&&◌, Option, none, some, ◌≡◌, refl, subst, arith,
  ◌==◌, if◌then◌else◌, Bool-cases, inl, inr,
}
use ascetic_ddd_rust.Prelude.Bytes.{bytes_eq_refl, bytes_eq-eq}
use ascetic_ddd_rust.Prelude.Result.{Result, ok, err, bind-eq_ok}
use ascetic_ddd_rust.Migration.{
  Text, Checksum, same_checksum, Migration, Component, LedgerRow, Database, Server, MigrationError,
  is_empty, is_row, find_row, rows_of, check_rows, is_some, all_applied, create_ledger, insert_row,
  map_failed, record_step, apply, step_recorded, step, then_rest, apply_from, migrate_checked,
  migrate,
}

-- What the ledger has of a migration.
abbrev pub Has : {D : Type 0} → Text → Text → Checksum → Database D → Type 0
Has component migration x db = find_row component migration (rows_of db.ledger) ≡ some x

is_row-eq :
    (component migration : Text) (r : LedgerRow)
    → is_row component migration r ≡ true
    → (r.component ≡ component) × (r.migration ≡ migration)
unfolding is_row
is_row-eq component migration r h = (
  bytes_eq-eq r.component component (ground arith),
  bytes_eq-eq r.migration migration (ground arith),
)

module _ {D : Type 0} where
  Has-insert_row :
      (component migration : Text) (x : Checksum) (r : LedgerRow) (schema : D) (db : Database D)
      → find_row r.component r.migration (rows_of db.ledger) ≡ none
      → Has component migration x db
      → Has component migration x (insert_row r schema db)
  unfolding insert_row find_row rows_of
  Has-insert_row component migration x r schema db free h =
      elim (Bool-cases (is_row component migration r)) [
        | inl clash ↦
            let (t, i) = is_row-eq component migration r clash in
            let taken : find_row r.component r.migration (rows_of db.ledger) ≡ some x =
              rw (t, i) h in
            absurd (cc)
        | inr other ↦ rw other h
      ]

  Has-inserted :
      (r : LedgerRow) (schema : D) (db : Database D)
      → Has r.component r.migration r.checksum (insert_row r schema db)
  unfolding insert_row find_row is_row rows_of
  Has-inserted r schema db = rw (bytes_eq_refl r.component) (rw (bytes_eq_refl r.migration) refl)

  -- A step keeps what the ledger has, and its migration is in it.
  abbrev pub Goes : Component → Migration → Database D → Database D → Type 0
  Goes c m db after =
      ((component migration : Text) (x : Checksum)
        → Has component migration x db
        → Has component migration x after)
      × (is_some (find_row c.name m.id (rows_of after.ledger)) ≡ true)

  record_step-Goes :
      (c : Component) (m : Migration) (baseline : Bool) (done : D × List Text)
      (db after : Database D) (did : Bool)
      → find_row c.name m.id (rows_of db.ledger) ≡ none
      → record_step c m baseline done db ≡ ok (after, did)
      → Goes c m db after
  unfolding record_step is_some
  record_step-Goes c m baseline done db after did free h =
      elim (Bool-cases (not baseline && not (is_empty done.1))) [
        | inl others ↦ absurd (cc (rw others at h))
        | inr alone ↦
            let r : LedgerRow = record {
              component = c.name;
              migration = m.id;
              checksum = m.checksum;
            } in
            let same : insert_row r done.0 db ≡ after = cc (rw alone at h) in
            subst (Goes c m db) same (
              (λ t i x k. Has-insert_row t i x r done.0 db free k),
              rw (Has-inserted r done.0 db) refl,
            )
      ]

  module _ (server : Server D) (c : Component) where
    pub step_recorded-Goes :
        (m : Migration) (baseline : Bool) (db after : Database D) (did : Bool) (o : Option Checksum)
        → find_row c.name m.id (rows_of db.ledger) ≡ o
        → step_recorded server c m baseline db o ≡ ok (after, did)
        → Goes c m db after
    unfolding step_recorded apply is_some
    step_recorded-Goes m baseline db after did none free h =
        let (done, h1, h2) =
          bind-eq_ok (map_failed c.name m.id (server m.target m.sql db.schema)) _ _ h in
        record_step-Goes c m baseline done db after did free h2
    step_recorded-Goes m baseline db after did (some x) found h =
        elim (Bool-cases (same_checksum x m.checksum)) [
          | inl same ↦
              let e : db ≡ after = cc (rw same at h) in
              subst (Goes c m db) e ((λ t i y k. k), rw found refl)
          | inr differs ↦ absurd (cc (rw differs at h))
        ]

    -- What a loop leaves: the rows before it, and, if it succeeds, those of its migrations.
    abbrev pub Keeps : Database D → Database D → Type 0
    Keeps db after =
        (component migration : Text) (x : Checksum)
        → Has component migration x db
        → Has component migration x after

    then_rest-Keeps :
        (m : Migration) (db : Database D) (r : Result MigrationError (Database D × Bool))
        (rest : Database D → Database D × Result MigrationError (List Text))
        → ((after : Database D) (did : Bool) → r ≡ ok (after, did) → Goes c m db after)
        → ((after : Database D) → Keeps after (rest after).0)
        → Keeps db (then_rest m db r rest).0
    unfolding then_rest
    then_rest-Keeps m db (err why) rest k l = λ t i x h. h
    then_rest-Keeps m db (ok done) rest k l =
        λ t i x h. l done.0 t i x ((k done.0 done.1 refl).0 t i x h)

    pub apply_from-Keeps :
        (index : ℕ) (ms : List Migration) (recorded : List LedgerRow) (db : Database D)
        → Keeps db (apply_from server c index ms recorded db).0
    unfolding apply_from step
    apply_from-Keeps index [] recorded db = λ t i x h. h
    apply_from-Keeps index (m ∷ ms) recorded db =
        elim (Bool-cases (is_some (find_row c.name m.id recorded))) [
          | inl there ↦ rw there (apply_from-Keeps (suc index) ms recorded db)
          | inr pending ↦ rw pending (
              then_rest-Keeps m db _ _
                (λ after did h. step_recorded-Goes m (index == 0) db after did _ refl h)
                (λ after. apply_from-Keeps (suc index) ms recorded after))
        ]

    pub if-migrated :
        {A : Type 0} (P : Database D × A → Type 0) (b : Bool) (x y : Database D × A)
        → (b ≡ true → P x)
        → (b ≡ false → P y)
        → P (if b then x else y)
    if-migrated P true x y h k = h refl
    if-migrated P false x y h k = k refl

    migrate_checked-Keeps :
        (db : Database D) (checked : Result MigrationError (List Text))
        → Keeps db (migrate_checked server c db checked).0
    unfolding migrate_checked create_ledger rows_of
    migrate_checked-Keeps db (err why) = λ t i x h. h
    migrate_checked-Keeps db (ok unknown) =
        if-migrated (λ out. Keeps db out.0) (all_applied c.name c.migrations (rows_of db.ledger)) _
          _ (λ current t i x h. h)
          (λ behind. apply_from-Keeps 0 c.migrations (rows_of db.ledger) (create_ledger db))

    -- A run, whether it succeeds or fails at any migration, loses and changes no row of the ledger, of
    -- its component or of another.
    pub find_row-migrate :
        (db : Database D) (component migration : Text) (x : Checksum)
        → find_row component migration (rows_of db.ledger) ≡ some x
        → find_row component migration (rows_of (migrate server c db).0.ledger) ≡ some x
    unfolding migrate
    find_row-migrate db = migrate_checked-Keeps db (check_rows c (rows_of db.ledger))
