-- ===== src/Migration/Examples.antt =====
-- Runs of a component of two migrations, on a database that another component has migrated.
use ascetic_ddd_rust.Prelude.{List, [], ◌∷◌, true, none, some, ◌≡◌, refl}
use ascetic_ddd_rust.Prelude.Bytes.{bytes_eq}
use ascetic_ddd_rust.Prelude.Result.{ok}
use ascetic_ddd_rust.Migration.{
  Text, Component, LedgerRow, Database, Server, same_checksum, is_empty, is_row, find_row, rows_of,
  find_migration, check_row, check_rows, is_some, all_applied, create_ledger, insert_row,
  map_failed, record_step, apply, step_recorded, step, then_rest, apply_from, migrate_checked,
  migrate,
}
use ascetic_ddd_rust.Migration.Ledger
use ascetic_ddd_rust.Migration.Current

-- The schema is the statements that made it.
abbrev server : Server (List Text)
server = λ target sql schema. ok (sql ∷ schema, [])

abbrev outbox : Component
outbox = record {
  name = 1 ∷ [];
  migrations =
      record {
        id = 10 ∷ [];
        sql = 7 ∷ [];
        checksum = record { hash = 3; length = 1 };
        target = none;
      }
      ∷ record {
        id = 11 ∷ [];
        sql = 8 ∷ [];
        checksum = record { hash = 4; length = 1 };
        target = some (5 ∷ []);
      }
      ∷ [];
}

abbrev inbox_row : LedgerRow
inbox_row = record {
  component = 2 ∷ [];
  migration = 10 ∷ [];
  checksum = record { hash = 9; length = 2 };
}

abbrev before : Database (List Text)
before = record { ledger = some (inbox_row ∷ []); schema = [] }

program : Unit {0}
unfolding bytes_eq same_checksum is_empty is_row find_row rows_of find_migration check_row
    check_rows is_some all_applied create_ledger insert_row map_failed record_step apply
    step_recorded step then_rest apply_from migrate_checked migrate
program = tt

succeeded :
    (migrate server outbox before).1
    ≡ ok (record { applied = (10 ∷ []) ∷ (11 ∷ []) ∷ []; unknown = [] })
unfolding program
succeeded = refl

made : (migrate server outbox before).0.schema ≡ (8 ∷ []) ∷ (7 ∷ []) ∷ []
unfolding program
made = refl

migrate-current_example :
    (all_applied outbox.name outbox.migrations (rows_of (migrate server outbox before).0.ledger)
      ≡ true)
    × ((migrate server outbox (migrate server outbox before).0).0
        ≡ (migrate server outbox before).0)
migrate-current_example = Current.migrate-current server outbox before _ succeeded

found : find_row (2 ∷ []) (10 ∷ []) (rows_of before.ledger) ≡ some inbox_row.checksum
unfolding program
found = refl

find_row-migrate_example :
    find_row (2 ∷ []) (10 ∷ []) (rows_of (migrate server outbox before).0.ledger)
    ≡ some inbox_row.checksum
find_row-migrate_example =
    Ledger.find_row-migrate server outbox before (2 ∷ []) (10 ∷ []) inbox_row.checksum found
