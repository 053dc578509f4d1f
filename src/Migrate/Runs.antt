-- ===== src/Migrate/Runs.antt =====
-- What a run of the migrations records, and what the next run does.
use nestjs_microservice_mono.Prelude.{
  ◌+◌, String, ◌≡◌, refl, ap, Option, List, [], ◌∷◌, inl, inr, In, All, length, any, arith, ◌==◌,
  Bool-cases,
}
use nestjs_microservice_mono.Errors.Defs.{Thrown, Outcome, ok, err}
use nestjs_microservice_mono.Migrate.{
  Migration, Migrated, Counts, apply_migration, count_skipped, count_applied, stop_or, migrate_all,
  migrate,
}
use nestjs_microservice_mono.Migrate.Steps.{
  any-In, In-any, apply_migration-keeps, apply_migration-records,
}

pub count_skipped-eq-ok :
    (r : Outcome Counts) (c : Counts)
    → count_skipped r ≡ ok c
    → (b : Counts) × (r ≡ ok b) × (c.applied ≡ b.applied) × (c.skipped ≡ b.skipped + 1)
unfolding count_skipped
count_skipped-eq-ok (ok b) c h = (b, refl, cc, cc)
count_skipped-eq-ok (err e) c h = cc

-- Where the run of a step and of what follows it succeeded, both did.
pub record BothDone {D : Type 0} (step : Outcome (Unit {0}) × Migrated D)
    (rest : Outcome Counts × Migrated D) (c : Counts) : Type 0 where
  pub stepped : step.0 ≡ ok tt
  pub counts : Counts
  pub rested : rest.0 ≡ ok counts
  pub applied : c.applied ≡ counts.applied + 1
  pub skipped : c.skipped ≡ counts.skipped
  pub ended : (stop_or step rest).1 ≡ rest.1

pub stop_or-BothDone :
    {D : Type 0} (o : Outcome (Unit {0})) (s : Migrated D) (r : Outcome Counts) (after : Migrated D)
    (c : Counts)
    → (stop_or (o, s) (r, after)).0 ≡ ok c
    → BothDone (o, s) (r, after) c
unfolding stop_or count_applied
stop_or-BothDone (err e) s r after c h = cc
stop_or-BothDone (ok _) s (err e) after c h = cc
stop_or-BothDone (ok _) s (ok b) after c h = record {
  stepped = refl;
  counts = b;
  rested = refl;
  applied = cc;
  skipped = cc;
  ended = refl;
}

stop_or-keeps :
    {D : Type 0} (i : String) (o : Outcome (Unit {0})) (s : Migrated D)
    (rest : Outcome Counts × Migrated D)
    → In i s.applied
    → In i rest.1.applied
    → In i (stop_or (o, s) rest).1.applied
unfolding stop_or
stop_or-keeps i (ok _) s rest h k = k
stop_or-keeps i (err e) s rest h k = h

pub recorded_in :
    {D : Type 0} (ms : List (Migration D)) (a b : List String)
    → b ≡ a
    → All (λ (m : Migration D). In m.id a) ms
    → All (λ (m : Migration D). In m.id b) ms
recorded_in ms a b e h = rw e h

module _ {D : Type 0} (insert_one : String → Option Thrown) (known : List String) where
  pub migrate_all-keeps :
      (i : String) (ms : List (Migration D)) (s : Migrated D)
      → In i s.applied
      → In i (migrate_all insert_one known ms s).1.applied
  unfolding migrate_all
  migrate_all-keeps i [] s h = h
  migrate_all-keeps i (m ∷ ms) s h = elim (Bool-cases (any (λ k. k == m.id) known)) [
    | inl seen ↦ rw seen (migrate_all-keeps i ms s h)
    | inr fresh ↦
        let kept = apply_migration-keeps insert_one i m s h in
        rw fresh (stop_or-keeps i _ _ _ kept (migrate_all-keeps i ms _ kept))
  ]

  -- A run that succeeds has recorded every script.
  migrate_all-records :
      (ms : List (Migration D)) (s : Migrated D) (c : Counts)
      → ((i : String) → In i known → In i s.applied)
      → (migrate_all insert_one known ms s).0 ≡ ok c
      → All (λ m. In m.id (migrate_all insert_one known ms s).1.applied) ms
        × (c.applied + c.skipped ≡ length ms)
  unfolding migrate_all
  migrate_all-records [] s c f h = (tt, cc)
  migrate_all-records (m ∷ ms) s c f h = elim (Bool-cases (any (λ k. k == m.id) known)) [
    | inl seen ↦
        let (b, done, same, one) = count_skipped-eq-ok _ c (rw seen at h) in
        let (recorded, count) = migrate_all-records ms s b f done in
        (
          (
            rw seen (migrate_all-keeps m.id ms s (f m.id (any-In m.id known seen))),
            recorded_in ms _ _ (rw seen refl) recorded,
          ),
          ground arith,
        )
    | inr fresh ↦
        let step = apply_migration insert_one m s in
        let both = stop_or-BothDone step.0 step.1 _ _ c (rw fresh at h) in
        let (recorded, count) =
          migrate_all-records ms step.1 both.counts
            (λ i k. apply_migration-keeps insert_one i m s (f i k)) both.rested in
        (
          (
            rw (fresh, both.ended)
                (migrate_all-keeps m.id ms step.1
                  (apply_migration-records insert_one m s both.stepped)),
            recorded_in ms _ _ (rw fresh (ap (λ (t : Migrated D). t.applied) both.ended)) recorded,
          ),
          ground arith,
        )
  ]

  -- Where every script is known, nothing is run.
  migrate_all-known :
      (ms : List (Migration D)) (s : Migrated D)
      → All (λ m. In m.id known) ms
      → migrate_all insert_one known ms s ≡ (ok (record { applied = 0; skipped = length ms }), s)
  unfolding migrate_all count_skipped
  migrate_all-known [] s h = refl
  migrate_all-known (m ∷ ms) s h =
      rw (In-any m.id known h.0, migrate_all-known ms s h.1) (ground arith)

-- A run that succeeds has recorded every script.
pub migrate-records :
    (D : Type 0) (insert_one : String → Option Thrown) (ms : List (Migration D)) (s : Migrated D)
    (c : Counts)
    → (migrate insert_one ms s).0 ≡ ok c
    → All (λ (m : Migration D). In m.id (migrate insert_one ms s).1.applied) ms
unfolding migrate
migrate-records D insert_one ms s c h =
    (migrate_all-records insert_one s.applied ms s c (λ i k. k) h).0

-- A run that succeeds accounts for every script, as applied or as skipped, and a second run
-- over the same scripts applies none of them and leaves the database as it is.
pub migrate-IsIdempotent :
    (D : Type 0) (insert_one : String → Option Thrown) (ms : List (Migration D)) (s : Migrated D)
    (c : Counts)
    → (migrate insert_one ms s).0 ≡ ok c
    → (c.applied + c.skipped ≡ length ms)
      × (migrate insert_one ms (migrate insert_one ms s).1
          ≡ (ok (record { applied = 0; skipped = length ms }), (migrate insert_one ms s).1))
unfolding migrate
migrate-IsIdempotent D insert_one ms s c h =
    let (recorded, count) = migrate_all-records insert_one s.applied ms s c (λ i k. k) h in
    (count, migrate_all-known insert_one _ ms _ recorded)
