-- ===== src/Startup/Tasks.antt =====
-- libs/common/src/bootstrap/bootstrap-task.ts, and the job of tasks/db-migrate/src/main.ts. Creating
-- and closing the application are arguments.
use nestjs_microservice_mono.Prelude.{
  ℕ, String, ◌≡◌, refl, ap, ◌∙◌, Bool, true, false, Option, List, In, All, arith,
}
use nestjs_microservice_mono.Errors.Defs.{Thrown, Outcome, ok, err}
use nestjs_microservice_mono.Migrate.{Migration, Migrated, Counts}
use nestjs_microservice_mono.Migrate.Scripts.{run}
use nestjs_microservice_mono.Users.Common.{err-ne-ok}
use nestjs_microservice_mono.Migrate.Runs.{migrate-records, recorded_in}

-- How the process ended, how often the application was closed, and what the handler left.
pub record Job (D : Type 0) : Type 0 where
  pub exit_code : ℕ
  pub closes : ℕ
  pub left : D

-- After the handler: its `app.close()`, or the one of the `catch`.
closed : {D : Type 0} → Outcome (Unit {0}) → Outcome (Unit {0}) × D → Job D
closed (ok _) (ok _, s) = record { exit_code = 0; closes = 1; left = s }
closed (err _) (ok _, s) = record { exit_code = 1; closes = 2; left = s }
closed closing (err e, s) = record { exit_code = 1; closes = 1; left = s }

-- The handler is told whether it runs in a context of the ORM.
unfoldable pub bootstrap_task :
    {D : Type 0}
    → Outcome (Unit {0})
    → Outcome (Unit {0})
    → Outcome (Unit {0})
    → (Bool → D → Outcome (Unit {0}) × D)
    → D
    → Job D
unfolding closed
bootstrap_task (err e) orm closing handler s = record { exit_code = 1; closes = 0; left = s }
bootstrap_task (ok _) (ok _) closing handler s = closed closing (handler true s)
bootstrap_task (ok _) (err _) closing handler s = closed closing (handler false s)

-- `async (app) => { await app.get(DbMigrateTask).run(); }`
finished : {D : Type 0} → Outcome Counts × Migrated D → Outcome (Unit {0}) × Migrated D
finished (ok c, s) = (ok tt, s)
finished (err e, s) = (err e, s)

unfoldable pub migrate_job :
    {D : Type 0}
    → Outcome (Unit {0})
    → Outcome (Unit {0})
    → Outcome (Unit {0})
    → (String → Option Thrown)
    → Outcome (List (Migration D))
    → Migrated D
    → Job (Migrated D)
unfolding bootstrap_task finished
migrate_job created orm closing insert_one loaded s =
    bootstrap_task created orm closing (λ in_context s'. finished (run insert_one loaded s')) s

closed-exit_zero :
    {D : Type 0} (closing r : Outcome (Unit {0})) (s : D)
    → (closed closing (r, s)).exit_code ≡ 0
    → (closing ≡ ok tt)
      × (r ≡ ok tt)
      × ((closed closing (r, s)).left ≡ s)
      × ((closed closing (r, s)).closes ≡ 1)
unfolding closed
closed-exit_zero (ok _) (ok _) s h = (refl, refl, refl, refl)
closed-exit_zero (err _) (ok _) s h = absurd (omega arith)
closed-exit_zero (ok _) (err e) s h = absurd (omega arith)
closed-exit_zero (err _) (err e) s h = absurd (omega arith)

finished-eq-ok :
    {D : Type 0} (r : Outcome Counts × Migrated D)
    → (finished r).0 ≡ ok tt
    → (c : Counts) × (r.0 ≡ ok c) × ((finished r).1 ≡ r.1)
unfolding finished
finished-eq-ok (ok c, s) h = (c, refl, refl)
finished-eq-ok (err e, s) h = cc

-- What holds of a job whose process exits with 0.
pub record IsComplete {D : Type 0} (closing : Outcome (Unit {0})) (run : Outcome (Unit {0}) × D)
    (j : Job D) : Type 0 where
  pub closed_well : closing ≡ ok tt
  pub done : run.0 ≡ ok tt
  pub result : j.left ≡ run.1
  pub once : j.closes ≡ 1

pub bootstrap_task-IsComplete :
    (D : Type 0) (created orm closing : Outcome (Unit {0}))
    (handler : Bool → D → Outcome (Unit {0}) × D) (s : D)
    → (bootstrap_task created orm closing handler s).exit_code ≡ 0
    → (in_context : Bool) × IsComplete closing
        (handler in_context s)
        (bootstrap_task created orm closing handler s)
unfolding bootstrap_task
bootstrap_task-IsComplete D (err e) orm closing handler s h = absurd (omega arith)
bootstrap_task-IsComplete D (ok _) (ok _) closing handler s h =
    let (well, done, result, once) =
      closed-exit_zero closing (handler true s).0 (handler true s).1 h in
    (true, record { closed_well = well; done = done; result = result; once = once })
bootstrap_task-IsComplete D (ok _) (err e) closing handler s h =
    let (well, done, result, once) =
      closed-exit_zero closing (handler false s).0 (handler false s).1 h in
    (false, record { closed_well = well; done = done; result = result; once = once })

run-records :
    {D : Type 0} (insert_one : String → Option Thrown) (loaded : Outcome (List (Migration D)))
    (s : Migrated D) (c : Counts)
    → (run insert_one loaded s).0 ≡ ok c
    → (ms : List (Migration D)) × (loaded ≡ ok ms)
      × All (λ (m : Migration D). In m.id (run insert_one loaded s).1.applied) ms
unfolding run
run-records insert_one (err e) s c h = absurd (err-ne-ok e c h)
run-records {D = D} insert_one (ok ms) s c h = (ms, refl, migrate-records D insert_one ms s c h)

-- A migration job whose process exits with 0 has loaded the scripts and recorded every one, and has
-- closed its application once and without an error.
pub migrate_job-records :
    (D : Type 0) (created orm closing : Outcome (Unit {0})) (insert_one : String → Option Thrown)
    (loaded : Outcome (List (Migration D))) (s : Migrated D)
    → (migrate_job created orm closing insert_one loaded s).exit_code ≡ 0
    → (ms : List (Migration D)) × (loaded ≡ ok ms)
      × All
          (λ (m : Migration D).
            In m.id (migrate_job created orm closing insert_one loaded s).left.applied)
          ms
      × ((migrate_job created orm closing insert_one loaded s).closes ≡ 1)
      × (closing ≡ ok tt)
unfolding migrate_job
migrate_job-records D created orm closing insert_one loaded s h =
    let (_, k) = bootstrap_task-IsComplete (Migrated D) created orm closing _ s h in
    let (c, ran, same) = finished-eq-ok (run insert_one loaded s) k.done in
    let (ms, read, recorded) = run-records insert_one loaded s c ran in
    (
      ms,
      read,
      recorded_in ms _ _ (ap (λ (t : Migrated D). t.applied) (k.result ∙ same)) recorded,
      k.once,
      k.closed_well,
    )
