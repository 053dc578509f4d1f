-- ===== src/Tests/Migrating.antt =====
-- The migration task's theorems at concrete inputs.
use nestjs_microservice_mono.Prelude.{
  ℕ, ◌+◌, String, ◌≡◌, refl, Option, none, [], ◌∷◌, length, List, Bool, some, ◌==◌, if◌then◌else◌,
}
use nestjs_microservice_mono.Errors.Defs.{Thrown, Outcome, ok}
use nestjs_microservice_mono.Words.{codes}
use nestjs_microservice_mono.Migrate.{Migration, Migrated, Counts}
use nestjs_microservice_mono.Migrate.Scripts.{FileName, Exports, comes_before, load_migrations, run}
use nestjs_microservice_mono.Migrate.Scripts.Order.{IsComplete, run-IsComplete}

abbrev add_index : Migration ℕ
add_index = record { id = "001_index"; up = λ n. (ok tt, n + 1) }

abbrev dedup : Migration ℕ
dedup = record { id = "002_dedup"; up = λ n. (ok tt, n + 10) }

abbrev recorded : String → Option Thrown
recorded i = none

abbrev half_way : Migrated ℕ
half_way = record { db = 1; applied = "001_index" ∷ [] }

abbrev one_each : Counts
one_each = record { applied = 1; skipped = 1 }

abbrev first_file : FileName
first_file = codes "001_index.cjs"

abbrev second_file : FileName
second_file = codes "002_dedup.cjs"

abbrev read_dir : String → List FileName
read_dir dir = second_file ∷ codes "README.md" ∷ first_file ∷ []

abbrev loads : String → FileName → Outcome (Exports ℕ)
loads dir f =
    if comes_before f first_file
    then ok (record { id = some "001_index"; up = some add_index.up })
    else ok (record { id = some "002_dedup"; up = some dedup.up })

abbrev is_dist : String → Bool
is_dist dir = dir == "/app/tools/migrations"

abbrev candidates : List String
candidates = "/srv/tools/migrations" ∷ "/app/tools/migrations" ∷ []

abbrev loaded : Outcome (List (Migration ℕ))
loaded = load_migrations is_dist read_dir loads candidates

run-IsComplete_example :
    (ms : List (Migration ℕ)) × IsComplete
      (read_dir "/app/tools/migrations")
      (loads "/app/tools/migrations")
      ms
      half_way
      (run recorded loaded half_way).1
    × (run recorded loaded (run recorded loaded half_way).1
        ≡ (ok (record { applied = 0; skipped = length ms }), (run recorded loaded half_way).1))
unfolding nestjs_microservice_mono.Migrate.Scripts.directory load_migrations
    nestjs_microservice_mono.Migrate.Scripts.load_files
    nestjs_microservice_mono.Migrate.Scripts.sorted comes_before run
    nestjs_microservice_mono.Migrate.Scripts.is_script nestjs_microservice_mono.Migrate.migrate
    nestjs_microservice_mono.Migrate.migrate_all nestjs_microservice_mono.Migrate.apply_migration
run-IsComplete_example =
    run-IsComplete ℕ recorded is_dist read_dir loads candidates "/app/tools/migrations" half_way
      one_each refl refl
