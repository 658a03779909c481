-- ===== src/Migration/Current.antt =====
-- A run of the migrations that succeeds leaves nothing to do.
use ascetic_ddd_rust.Prelude.{
  ℕ, suc, List, [], ◌∷◌, Bool, true, ◌≡◌, refl, sym, subst, ◌==◌, Bool-cases, inl, inr,
  Option-cases,
}
use ascetic_ddd_rust.Prelude.Result.{Result, ok, err, bind-eq_ok}
use ascetic_ddd_rust.Migration.{
  Text, Migration, Component, LedgerRow, Database, Server, MigrationError, Applied, find_row,
  rows_of, check_rows, is_some, all_applied, create_ledger, step_recorded, step, then_rest,
  apply_from, migrate_checked, migrate,
}
use ascetic_ddd_rust.Migration.Ledger.{Keeps, step_recorded-Goes, apply_from-Keeps, if-migrated}

module _ {D : Type 0} (server : Server D) (c : Component) where
  then_rest-ok :
      (m : Migration) (db : Database D) (r : Result MigrationError (Database D × Bool))
      (rest : Database D → Database D × Result MigrationError (List Text)) (a : List Text)
      → (then_rest m db r rest).1 ≡ ok a
      → (after : Database D) × (did : Bool) × (later : List Text) × (r ≡ ok (after, did))
        × ((rest after).1 ≡ ok later)
        × ((then_rest m db r rest).0 ≡ (rest after).0)
  unfolding then_rest
  then_rest-ok m db (err why) rest a h = absurd (cc)
  then_rest-ok m db (ok done) rest a h =
      let (later, h1, h2) = bind-eq_ok (rest done.0).1 _ _ h in
      (done.0, done.1, later, refl, h1, refl)

  -- Whether the ledger has a migration.
  abbrev IsIn : Migration → Database D → Type 0
  IsIn m db = is_some (find_row c.name m.id (rows_of db.ledger)) ≡ true

  IsIn-Keeps :
      (m : Migration) (db after : Database D) → Keeps server c db after → IsIn m db → IsIn m after
  unfolding is_some
  IsIn-Keeps m db after keeps h = elim (Option-cases (find_row c.name m.id (rows_of db.ledger))) [
    | inl absent ↦ absurd (cc (rw absent at h))
    | inr (x, found) ↦ rw (keeps c.name m.id x found) refl
  ]

  all_applied-cons :
      (m : Migration) (ms : List Migration) (db : Database D)
      → IsIn m db
      → all_applied c.name ms (rows_of db.ledger) ≡ true
      → all_applied c.name (m ∷ ms) (rows_of db.ledger) ≡ true
  unfolding all_applied
  all_applied-cons m ms db h k = rw h k

  all_applied-apply_from :
      (index : ℕ) (ms : List Migration) (recorded : List LedgerRow) (db : Database D)
      (a : List Text)
      → ((m : Migration) → is_some (find_row c.name m.id recorded) ≡ true → IsIn m db)
      → (apply_from server c index ms recorded db).1 ≡ ok a
      → all_applied c.name ms (rows_of (apply_from server c index ms recorded db).0.ledger) ≡ true
  unfolding apply_from step
  all_applied-apply_from index [] recorded db a within h = unfold all_applied in refl
  all_applied-apply_from index (m ∷ ms) recorded db a within h =
      elim (Bool-cases (is_some (find_row c.name m.id recorded))) [
        | inl there ↦
            let done : (apply_from server c (suc index) ms recorded db).1 ≡ ok a = rw there at h in
            let after = (apply_from server c (suc index) ms recorded db).0 in
            let rest =
              all_applied-cons m ms after
                (IsIn-Keeps m db after (apply_from-Keeps server c (suc index) ms recorded db)
                  (within m there))
                (all_applied-apply_from (suc index) ms recorded db a within done) in
            rw there rest
        | inr pending ↦
            let run = λ (after : Database D). apply_from server c (suc index) ms recorded after in
            let tried =
              step_recorded server c m (index == 0) db (find_row c.name m.id (rows_of db.ledger)) in
            let done : (then_rest m db tried run).1 ≡ ok a = rw pending at h in
            let (after, did, later, h1, h2, table) = then_rest-ok m db tried run a done in
            let goes = step_recorded-Goes server c m (index == 0) db after did _ refl h1 in
            let rest =
              all_applied-cons m ms (run after).0
                (IsIn-Keeps m after (run after).0
                  (apply_from-Keeps server c (suc index) ms recorded after) goes.1)
                (all_applied-apply_from (suc index) ms recorded after later
                  (λ n there. IsIn-Keeps n db after goes.0 (within n there)) h2) in
            rw pending (
              subst (λ (d : Database D). all_applied c.name (m ∷ ms) (rows_of d.ledger) ≡ true)
                (sym table) rest)
      ]

  rows_of-create_ledger : (db : Database D) → rows_of (create_ledger db).ledger ≡ rows_of db.ledger
  unfolding create_ledger rows_of
  rows_of-create_ledger db = refl

  migrate_checked-all :
      (db : Database D) (checked : Result MigrationError (List Text)) (done : Applied)
      → (migrate_checked server c db checked).1 ≡ ok done
      → all_applied c.name c.migrations (rows_of (migrate_checked server c db checked).0.ledger)
        ≡ true
  unfolding migrate_checked create_ledger rows_of
  migrate_checked-all db (err why) done h = absurd (cc)
  migrate_checked-all db (ok unknown) done h =
      if-migrated server c
        (λ out. out.1 ≡ ok done → all_applied c.name c.migrations (rows_of out.0.ledger) ≡ true)
        (all_applied c.name c.migrations (rows_of db.ledger)) _ _ (λ current e. current)
        (λ behind e.
          let (a, h1, h2) =
            bind-eq_ok (apply_from server c 0 c.migrations (rows_of db.ledger) (create_ledger db)).1
              _ _ e in
          all_applied-apply_from 0 c.migrations (rows_of db.ledger) (create_ledger db) a
            (λ m there. there) h1)
        h

  migrate_checked-current :
      (db : Database D) (checked : Result MigrationError (List Text))
      → all_applied c.name c.migrations (rows_of db.ledger) ≡ true
      → (migrate_checked server c db checked).0 ≡ db
  unfolding migrate_checked
  migrate_checked-current db (err why) h = refl
  migrate_checked-current db (ok unknown) h =
      if-migrated server c (λ out. out.0 ≡ db) (all_applied c.name c.migrations (rows_of db.ledger))
        _ _ (λ current. refl) (λ behind. absurd (cc))

  -- A run that succeeds leaves every migration of the component in the ledger, and a second run
  -- changes nothing.
  pub migrate-current :
      (db : Database D) (done : Applied)
      → (migrate server c db).1 ≡ ok done
      → (all_applied c.name c.migrations (rows_of (migrate server c db).0.ledger) ≡ true)
        × ((migrate server c (migrate server c db).0).0 ≡ (migrate server c db).0)
  unfolding migrate
  migrate-current db done h =
      let all = migrate_checked-all db (check_rows c (rows_of db.ledger)) done h in
      (
        all,
        migrate_checked-current (migrate server c db).0
            (check_rows c (rows_of (migrate server c db).0.ledger)) all,
      )
