-- ===== src/Migrate.antt =====
-- tasks/db-migrate/src/task.service.ts: the run over the migration scripts. The scripts, as
-- `loadMigrations` returns them, and the driver's `insertOne` are parameters.
pub mod Steps
pub mod Runs
pub mod Failures
pub mod Executed
pub mod Scripts
use nestjs_microservice_mono.Prelude.{
  ℕ, ◌+◌, String, Bool, true, false, Option, none, some, List, [], ◌∷◌, ◌++◌, any, ◌==◌,
  if◌then◌else◌,
}
use nestjs_microservice_mono.Errors.Defs.{Thrown, Outcome, ok, err}

-- A script acts on the database `D`; one that throws may have changed it before.
pub record Migration (D : Type 0) : Type 0 where
  pub id : String
  pub up : D → Outcome (Unit {0}) × D

-- The database, and the ids in its `_migrations` collection.
pub record Migrated (D : Type 0) : Type 0 where
  pub db : D
  pub applied : List String

pub record Counts : Type 0 where
  pub applied : ℕ
  pub skipped : ℕ

module _ {D : Type 0} (insert_one : String → Option Thrown) where
  insert_id : String → Migrated D → Option Thrown → Outcome (Unit {0}) × Migrated D
  insert_id i s none = (ok tt, record s { applied = s.applied ++ i ∷ [] })
  insert_id i s (some e) = (err e, s)

  after_up : String → Migrated D → Outcome (Unit {0}) × D → Outcome (Unit {0}) × Migrated D
  after_up i s (ok _, db) = insert_id i (record s { db = db }) (insert_one i)
  after_up i s (err e, db) = (err e, record s { db = db })

  -- `up`, and the record of its success.
  unfoldable pub apply_migration : Migration D → Migrated D → Outcome (Unit {0}) × Migrated D
  unfolding insert_id after_up
  apply_migration m s = after_up m.id s (m.up s.db)

pub count_skipped : Outcome Counts → Outcome Counts
count_skipped (ok c) = ok (record c { skipped = c.skipped + 1 })
count_skipped (err e) = err e

count_applied : Outcome Counts → Outcome Counts
count_applied (ok c) = ok (record c { applied = c.applied + 1 })
count_applied (err e) = err e

-- A failed script ends the run.
pub stop_or :
    {D : Type 0}
    → Outcome (Unit {0}) × Migrated D
    → Outcome Counts × Migrated D
    → Outcome Counts × Migrated D
stop_or (err e, s) rest = (err e, s)
stop_or (ok _, s) rest = (count_applied rest.0, rest.1)

-- The loop of `run`; `known` is the set that was loaded before it.
unfoldable pub migrate_all :
    {D : Type 0}
    → (String → Option Thrown)
    → List String
    → List (Migration D)
    → Migrated D
    → Outcome Counts × Migrated D
unfolding stop_or count_skipped count_applied
migrate_all insert_one known [] s = (ok (record { applied = 0; skipped = 0 }), s)
migrate_all insert_one known (m ∷ ms) s =
    let later = migrate_all insert_one known ms s in
    let step = apply_migration insert_one m s in
    let rest = migrate_all insert_one known ms step.1 in
    if any (λ k. k == m.id) known then (count_skipped later.0, later.1) else stop_or step rest

-- `run`
unfoldable pub migrate :
    {D : Type 0}
    → (String → Option Thrown)
    → List (Migration D)
    → Migrated D
    → Outcome Counts × Migrated D
migrate insert_one ms s = migrate_all insert_one s.applied ms s
