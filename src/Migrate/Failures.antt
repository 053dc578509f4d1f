-- ===== src/Migrate/Failures.antt =====
-- Where a run of the migrations stops, and what it has recorded by then.
use nestjs_microservice_mono.Prelude.{
  String, ◌≡◌, refl, ap, false, Option, List, [], ◌∷◌, ◌++◌, inl, inr, ◌⊎◌, In, All, any, ◌==◌,
  Bool-cases,
}
use nestjs_microservice_mono.Errors.Defs.{Thrown, Outcome, ok, err}
use nestjs_microservice_mono.Migrate.{
  Migration, Migrated, Counts, apply_migration, count_skipped, count_applied, stop_or, migrate_all,
  migrate,
}
use nestjs_microservice_mono.Migrate.Steps.{any-In, apply_migration-keeps, apply_migration-records}
use nestjs_microservice_mono.Migrate.Runs.{recorded_in, migrate_all-keeps}

-- The script at which a run stopped: those before it are recorded, and it was not known before.
pub record Stopped {D : Type 0} (known : List String) (ms : List (Migration D)) (after : Migrated D)
    : Type 0 where
  pub before : List (Migration D)
  pub failing : Migration D
  pub rest : List (Migration D)
  pub order : ms ≡ before ++ failing ∷ rest
  pub recorded : All (λ m. In m.id after.applied) before
  pub unknown : any (λ k. k == failing.id) known ≡ false

count_skipped-eq-err : (r : Outcome Counts) (e : Thrown) → count_skipped r ≡ err e → r ≡ err e
unfolding count_skipped
count_skipped-eq-err (ok b) e h = cc
count_skipped-eq-err (err d) e h = h

stop_or-eq-err :
    {D : Type 0} (o : Outcome (Unit {0})) (s : Migrated D) (r : Outcome Counts) (after : Migrated D)
    (e : Thrown)
    → (stop_or (o, s) (r, after)).0 ≡ err e
    → (o ≡ err e) ⊎ ((o ≡ ok tt) × (r ≡ err e) × ((stop_or (o, s) (r, after)).1 ≡ after))
unfolding stop_or count_applied
stop_or-eq-err (err d) s r after e h = inl cc
stop_or-eq-err (ok _) s (ok b) after e h = cc
stop_or-eq-err (ok _) s (err d) after e h = inr (refl, h, refl)

cons-Stopped :
    {D : Type 0} (known : List String) (m : Migration D) (ms : List (Migration D))
    (a b : Migrated D)
    → b ≡ a
    → In m.id a.applied
    → Stopped known ms a
    → Stopped known (m ∷ ms) b
cons-Stopped {D = D} known m ms a b e first t = record {
  before = m ∷ t.before;
  failing = t.failing;
  rest = t.rest;
  order = ap (λ xs. m ∷ xs) t.order;
  recorded =
      (rw e first, recorded_in t.before _ _ (ap (λ (u : Migrated D). u.applied) e) t.recorded);
  unknown = t.unknown;
}

module _ {D : Type 0} (insert_one : String → Option Thrown) (known : List String) where
  migrate_all-Stopped :
      (ms : List (Migration D)) (s : Migrated D) (e : Thrown)
      → ((i : String) → In i known → In i s.applied)
      → (migrate_all insert_one known ms s).0 ≡ err e
      → Stopped known ms (migrate_all insert_one known ms s).1
  unfolding migrate_all
  migrate_all-Stopped [] s e f h = cc
  migrate_all-Stopped (m ∷ ms) s e f h = elim (Bool-cases (any (λ k. k == m.id) known)) [
    | inl seen ↦
        cons-Stopped known m ms _ _ (rw seen refl)
          (migrate_all-keeps insert_one known m.id ms s (f m.id (any-In m.id known seen)))
          (migrate_all-Stopped ms s e f (count_skipped-eq-err _ e (rw seen at h)))
    | inr fresh ↦
        let step = apply_migration insert_one m s in
        elim (stop_or-eq-err step.0 step.1 _ _ e (rw fresh at h)) [
          | inl failed ↦ record {
            before = [];
            failing = m;
            rest = ms;
            order = refl;
            recorded = tt;
            unknown = fresh;
          }
          | inr (stepped, later, ended) ↦
              cons-Stopped known m ms _ _ (rw fresh ended)
                (migrate_all-keeps insert_one known m.id ms step.1
                  (apply_migration-records insert_one m s stepped))
                (migrate_all-Stopped ms step.1 e
                  (λ i k. apply_migration-keeps insert_one i m s (f i k)) later)
        ]
  ]

-- A run that fails stopped at a script that had not been applied before, and all scripts before
-- it in the order are recorded as applied.
pub migrate-Stopped :
    (D : Type 0) (insert_one : String → Option Thrown) (ms : List (Migration D)) (s : Migrated D)
    (e : Thrown)
    → (migrate insert_one ms s).0 ≡ err e
    → Stopped s.applied ms (migrate insert_one ms s).1
unfolding migrate
migrate-Stopped D insert_one ms s e h = migrate_all-Stopped insert_one s.applied ms s e (λ i k. k) h
