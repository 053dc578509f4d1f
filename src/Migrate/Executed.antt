-- ===== src/Migrate/Executed.antt =====
-- What a run that succeeds has done to the database, script by script.
use mathlib.Core.Bool.{false≢true}
use mathlib.Core.Path.{subst}
use nestjs_microservice_mono.Prelude.{
  String, ◌≡◌, refl, sym, ◌∙◌, ◌⊎◌, inl, inr, Option, none, some, List, [], ◌∷◌, ◌++◌, In, any,
  ◌==◌, Bool-cases,
}
use nestjs_microservice_mono.Errors.Defs.{Thrown, Outcome, ok, err}
use nestjs_microservice_mono.Migrate.{
  Migration, Migrated, Counts, insert_id, after_up, apply_migration, migrate_all, migrate,
}
use nestjs_microservice_mono.Migrate.Steps.{any-In, In-any}
use nestjs_microservice_mono.Migrate.Runs.{stop_or-BothDone, count_skipped-eq-ok}

-- The scripts in their order, from one database to another: one whose id was known is left out, and
-- any other acted on the database that the ones before it left, without an error, and its id came last
-- in the collection.
abbrev pub Executed :
    {D : Type 0} → List String → List (Migration D) → Migrated D → Migrated D → Type 0
Executed known [] s t = t ≡ s
Executed {D = D} known (m ∷ ms) s t =
    (In m.id known × Executed known ms s t)
    ⊎ ((In m.id known → ⊥)
        × (left : D) × (m.up s.db ≡ (ok tt, left))
        × Executed known ms (record { db = left; applied = s.applied ++ m.id ∷ [] }) t)

module _ {D : Type 0} (insert_one : String → Option Thrown) where
  insert_id-eq-ok :
      (i : String) (s : Migrated D) (o : Option Thrown)
      → (insert_id insert_one i s o).0 ≡ ok tt
      → (insert_id insert_one i s o).1 ≡ record s { applied = s.applied ++ i ∷ [] }
  unfolding insert_id
  insert_id-eq-ok i s none h = refl
  insert_id-eq-ok i s (some e) h = cc

  after_up-eq-ok :
      (i : String) (s : Migrated D) (r : Outcome (Unit {0}) × D)
      → (after_up insert_one i s r).0 ≡ ok tt
      → (left : D) × (r ≡ (ok tt, left))
        × ((after_up insert_one i s r).1 ≡ record { db = left; applied = s.applied ++ i ∷ [] })
  unfolding after_up
  after_up-eq-ok i s (ok _, left) h = (left, refl, insert_id-eq-ok i _ (insert_one i) h)
  after_up-eq-ok i s (err e, left) h = cc

  migrate_all-Executed :
      (known : List String) (ms : List (Migration D)) (s : Migrated D) (c : Counts)
      → (migrate_all insert_one known ms s).0 ≡ ok c
      → Executed known ms s (migrate_all insert_one known ms s).1
  unfolding migrate_all apply_migration
  migrate_all-Executed known [] s c h = refl
  migrate_all-Executed known (m ∷ ms) s c h = elim (Bool-cases (any (λ k. k == m.id) known)) [
    | inl seen ↦
        let (b, done, _, _) = count_skipped-eq-ok _ c (rw seen at h) in
        rw seen (inl (any-In m.id known seen, migrate_all-Executed known ms s b done))
    | inr fresh ↦
        let step = apply_migration insert_one m s in
        let both = stop_or-BothDone step.0 step.1 _ _ c (rw fresh at h) in
        let (left, ran, next) = after_up-eq-ok m.id s (m.up s.db) both.stepped in
        let later = migrate_all-Executed known ms step.1 both.counts both.rested in
        rw (fresh, both.ended)
          (inr (
            λ i. false≢true (sym fresh ∙ In-any m.id known i),
            left,
            ran,
            subst (λ x. Executed known ms x (migrate_all insert_one known ms step.1).1) next later,
          ))
  ]

  pub migrate-Executed :
      (ms : List (Migration D)) (s : Migrated D) (c : Counts)
      → (migrate insert_one ms s).0 ≡ ok c
      → Executed s.applied ms s (migrate insert_one ms s).1
  unfolding migrate
  migrate-Executed ms s c h = migrate_all-Executed s.applied ms s c h
