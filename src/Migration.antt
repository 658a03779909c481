-- ===== src/Migration.antt =====
-- The runner of migrations (crates/migration/src/lib.rs): components of migrations and the ledger of
-- what was applied. A text is the bytes that encode it. What a statement does to the schema, and the
-- server's errors, are a parameter; a try that is blocked is not run again here.
pub mod Ledger
pub mod Current
pub mod Examples
use Prim.Native.Nat.{bit_xor}
use ascetic_ddd_rust.Prelude.{
  ℕ, zero, suc, ◌+◌, ◌*◌, ◌%◌, ◌^◌, List, [], ◌∷◌, Bool, true, false, not, ◌&&◌, ◌||◌, Option, none,
  some, ◌==◌, if◌then◌else◌, length,
}
use ascetic_ddd_rust.Prelude.Bytes.{bytes_eq}
use ascetic_ddd_rust.Prelude.Result.{Result, ok, err, ◌>>=◌}

abbrev pub Text : Type 0
Text = List ℕ

-- What the ledger keeps of a text, which it prints: its hash and its length.
pub record Checksum : Type 0 where
  pub hash : ℕ
  pub length : ℕ

unfoldable pub fnv_from : ℕ → Text → ℕ
fnv_from hash [] = hash
fnv_from hash (byte ∷ text) = fnv_from (bit_xor hash byte * 1099511628211 % 2 ^ 64) text

unfoldable pub fnv : Text → ℕ
fnv text = fnv_from 14695981039346656037 text

unfoldable pub checksum_of : Text → Checksum
checksum_of text = record { hash = fnv text; length = length text }

unfoldable pub same_checksum : Checksum → Checksum → Bool
same_checksum a b = a.hash == b.hash && a.length == b.length

pub record Migration : Type 0 where
  pub id : Text
  pub sql : Text
  pub checksum : Checksum
  pub target : Option Text

unfoldable pub new : Text → Text → Migration
new id sql = record { id = id; sql = sql; checksum = checksum_of sql; target = none }

unfoldable pub on : Text → Migration → Migration
on target m = record m { target = some target }

unfoldable pub checked_over : Text → Migration → Migration
checked_over template m = record m { checksum = checksum_of template }

-- Why a component is refused.
pub data Reason : Type 0 where
  no_name : Reason
  no_migrations : Reason
  no_id : ℕ → Reason
  there_twice : Text → Reason

pub record Component : Type 0 where
  pub name : Text
  pub migrations : List Migration

unfoldable pub is_empty {ℓ} : {A : Type ℓ} → List A → Bool
is_empty [] = true
is_empty (x ∷ xs) = false

unfoldable pub has_id : Text → List Migration → Bool
has_id id [] = false
has_id id (m ∷ ms) = bytes_eq m.id id || has_id id ms

-- The ids from an index on, with the migrations before it.
unfoldable pub check_ids : ℕ → List Migration → List Migration → Result Reason (Unit {0})
check_ids index before [] = ok tt
check_ids index before (m ∷ ms) =
    let rest = check_ids (suc index) (m ∷ before) ms in
    if is_empty m.id
    then err (no_id index)
    else if has_id m.id before
    then err (there_twice m.id)
    else rest

unfoldable pub component : Text → List Migration → Result Reason Component
component name migrations =
    let checked = do
      _ ← check_ids 0 [] migrations
      ok (record { name = name; migrations = migrations })
    in if is_empty name
      then err no_name
      else if is_empty migrations
      then err no_migrations
      else checked

pub record LedgerRow : Type 0 where
  pub component : Text
  pub migration : Text
  pub checksum : Checksum

pub record Database (D : Type 0) : Type 0 where
  pub ledger : Option (List LedgerRow)
  pub schema : D

-- The errors of the runner; of the server's, those of the moment are told apart.
pub data ServerError : Type 0 where
  lock_not_available : ServerError
  deadlock_detected : ServerError
  other : ServerError

pub data MigrationError : Type 0 where
  changed : Text → Text → MigrationError
  two_tables : Text → Text → List Text → MigrationError
  failed : Text → Option Text → ServerError → MigrationError

unfoldable pub blocked : MigrationError → Bool
blocked (failed component migration lock_not_available) = true
blocked (failed component migration deadlock_detected) = true
blocked (failed component migration other) = false
blocked (changed component migration) = false
blocked (two_tables component migration tables) = false

-- The statements of a step, on its target: what they make of the schema, and which tables other than
-- the target they locked of those that stood before.
abbrev pub Server : Type 0 → Type 0
Server D = Option Text → Text → D → Result ServerError (D × List Text)

pub record Applied : Type 0 where
  pub applied : List Text
  pub unknown : List Text

unfoldable pub is_row : Text → Text → LedgerRow → Bool
is_row component migration r = bytes_eq r.component component && bytes_eq r.migration migration

unfoldable pub find_row : Text → Text → List LedgerRow → Option Checksum
find_row component migration [] = none
find_row component migration (r ∷ rows) =
    if is_row component migration r then some r.checksum else find_row component migration rows

unfoldable pub rows_of : Option (List LedgerRow) → List LedgerRow
rows_of none = []
rows_of (some rows) = rows

-- A migration of the code by its id.
unfoldable pub find_migration : Text → List Migration → Option Migration
find_migration id [] = none
find_migration id (m ∷ ms) = if bytes_eq m.id id then some m else find_migration id ms

unfoldable pub check_row :
    Component
    → LedgerRow
    → Option Migration
    → Result MigrationError (List Text)
    → Result MigrationError (List Text)
check_row c r none rest = do unknown ← rest; ok (r.migration ∷ unknown)
check_row c r (some known) rest =
    if same_checksum known.checksum r.checksum then rest else err (changed c.name r.migration)

-- The rows of the component: a changed migration, or the unknown ones.
unfoldable pub check_rows : Component → List LedgerRow → Result MigrationError (List Text)
check_rows c [] = ok []
check_rows c (r ∷ rows) =
    let rest = check_rows c rows in
    if bytes_eq r.component c.name
    then check_row c r (find_migration r.migration c.migrations) rest
    else rest

unfoldable pub is_some {ℓ} : {A : Type ℓ} → Option A → Bool
is_some none = false
is_some (some a) = true

unfoldable pub all_applied : Text → List Migration → List LedgerRow → Bool
all_applied name [] rows = true
all_applied name (m ∷ ms) rows = is_some (find_row name m.id rows) && all_applied name ms rows

unfoldable pub create_ledger : {D : Type 0} → Database D → Database D
create_ledger db = record db { ledger = some (rows_of db.ledger) }

unfoldable pub insert_row : {D : Type 0} → LedgerRow → D → Database D → Database D
insert_row r schema db = record { ledger = some (r ∷ rows_of db.ledger); schema = schema }

unfoldable pub map_failed {ℓ} :
    {A : Type ℓ} → Text → Text → Result ServerError A → Result MigrationError A
map_failed component migration (ok a) = ok a
map_failed component migration (err e) = err (failed component (some migration) e)

-- What a step may lock, and its row.
unfoldable pub record_step :
    {D : Type 0}
    → Component
    → Migration
    → Bool
    → D × List Text
    → Database D
    → Result MigrationError (Database D × Bool)
record_step c m baseline done db =
    if not baseline && not (is_empty done.1)
    then err (two_tables c.name m.id done.1)
    else ok (
      insert_row (record { component = c.name; migration = m.id; checksum = m.checksum }) done.0 db,
      true,
    )

-- A step that is not recorded: its statements, the check of what they locked, and its row.
unfoldable pub apply :
    {D : Type 0}
    → Server D
    → Component
    → Migration
    → Bool
    → Database D
    → Result MigrationError (Database D × Bool)
apply server c m baseline db = do
  done ← map_failed c.name m.id (server m.target m.sql db.schema)
  record_step c m baseline done db

unfoldable pub step_recorded :
    {D : Type 0}
    → Server D
    → Component
    → Migration
    → Bool
    → Database D
    → Option Checksum
    → Result MigrationError (Database D × Bool)
step_recorded server c m baseline db none = apply server c m baseline db
step_recorded server c m baseline db (some checksum) =
    if same_checksum checksum m.checksum then ok (db, false) else err (changed c.name m.id)

-- One try at a migration: whether this runner applied it.
unfoldable pub step :
    {D : Type 0}
    → Server D
    → Component
    → Migration
    → Bool
    → Database D
    → Result MigrationError (Database D × Bool)
step server c m baseline db =
    step_recorded server c m baseline db (find_row c.name m.id (rows_of db.ledger))

-- A migration's outcome, and then those of the migrations after it.
unfoldable pub then_rest :
    {D : Type 0}
    → Migration
    → Database D
    → Result MigrationError (Database D × Bool)
    → (Database D → Database D × Result MigrationError (List Text))
    → Database D × Result MigrationError (List Text)
then_rest m db (err e) rest = (db, err e)
then_rest m db (ok done) rest =
    ((rest done.0).0, do applied ← (rest done.0).1; ok (if done.1 then m.id ∷ applied else applied))

-- The loop over the migrations that the first read of the ledger did not show.
unfoldable pub apply_from :
    {D : Type 0}
    → Server D
    → Component
    → ℕ
    → List Migration
    → List LedgerRow
    → Database D
    → Database D × Result MigrationError (List Text)
apply_from server c index [] recorded db = (db, ok [])
apply_from server c index (m ∷ ms) recorded db =
    if is_some (find_row c.name m.id recorded)
    then apply_from server c (suc index) ms recorded db
    else then_rest m db (step server c m (index == 0) db)
        (λ after. apply_from server c (suc index) ms recorded after)

unfoldable pub migrate_checked :
    {D : Type 0}
    → Server D
    → Component
    → Database D
    → Result MigrationError (List Text)
    → Database D × Result MigrationError Applied
migrate_checked server c db (err e) = (db, err e)
migrate_checked server c db (ok unknown) =
    let recorded = rows_of db.ledger in
    let run = apply_from server c 0 c.migrations recorded (create_ledger db) in
    if all_applied c.name c.migrations recorded
    then (db, ok (record { applied = []; unknown = unknown }))
    else (run.0, do applied ← run.1; ok (record { applied = applied; unknown = unknown }))

unfoldable pub migrate :
    {D : Type 0} → Server D → Component → Database D → Database D × Result MigrationError Applied
migrate server c db = migrate_checked server c db (check_rows c (rows_of db.ledger))
