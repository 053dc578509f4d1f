-- ===== src/Migrate/Scripts/Order.antt =====
-- Which scripts a run applies, in which order, and what it has recorded of them.
use nestjs_microservice_mono.Prelude.{
  String, ◌≡◌, ◌↔◌, refl, sym, inl, inr, Bool, true, Bool-cases, Option, none, some, List, [], ◌∷◌,
  In, All, keep, length, ◌==◌, if◌then◌else◌,
}
use nestjs_microservice_mono.Errors.Defs.{Thrown, Outcome, ok, err}
use nestjs_microservice_mono.Users.Common.{ok-injective, err-ne-ok, In-keep}
use nestjs_microservice_mono.Purge.Steps.{keep-In, In-kept}
use nestjs_microservice_mono.Migrate.{Migration, Migrated, Counts}
use nestjs_microservice_mono.Migrate.Executed.{Executed, migrate-Executed}
use nestjs_microservice_mono.Migrate.Runs.{migrate-records, migrate-IsIdempotent}
use nestjs_microservice_mono.Migrate.Scripts.{
  FileName, is_script, sorted, Exports, directory, pushed, pushed_if, load_file, load_files,
  load_migrations, run,
}
use nestjs_microservice_mono.Migrate.Scripts.Sorting.{IsAscending, sorted-IsAscending, In-sorted}

-- The id of a script that can be applied: it exports an id that is not empty, and `up`.
abbrev pub exported_id :
    {D : Type 0} → Option String → Option (D → Outcome (Unit {0}) × D) → Option String
exported_id (some i) (some up) = if i == "" then none else some i
exported_id i up = none

abbrev pub exported : {D : Type 0} → Outcome (Exports D) → Option String
exported (ok e) = exported_id e.id e.up
exported (err e) = none

-- A file adds nothing to the scripts, or one script with its exports.
pub data Adds {D : Type 0} (o : Outcome (Exports D)) (tail ms : List (Migration D)) : Type 0 where
  nothing : exported o ≡ none → ms ≡ tail → Adds o tail ms
  script :
      (m : Migration D) (e : Exports D)
      → o ≡ ok e
      → e.up ≡ some m.up
      → exported o ≡ some m.id
      → ms ≡ m ∷ tail
      → Adds o tail ms

-- The scripts are those of the files, in their order.
abbrev pub Origins :
    {D : Type 0} → (FileName → Outcome (Exports D)) → List FileName → List (Migration D) → Type 0
Origins require [] ms = ms ≡ []
Origins {D = D} require (f ∷ fs) ms =
    (tail : List (Migration D)) × Adds (require f) tail ms × Origins require fs tail

abbrev pub WasRecorded : List String → Option String → Type 0
WasRecorded applied none = Unit
WasRecorded applied (some i) = In i applied

-- What a run over the listed files has applied, in which order, and recorded.
pub record IsComplete {D : Type 0} (listed : List FileName)
    (require : FileName → Outcome (Exports D)) (ms : List (Migration D)) (before after : Migrated D)
    : Type 0 where
  pub files : List FileName
  pub ascending : IsAscending files
  pub chosen : (f : FileName) → In f files ↔ (In f listed × (is_script f ≡ true))
  pub origins : Origins require files ms
  pub executed : Executed before.applied ms before after
  pub recorded : All (λ f. WasRecorded after.applied (exported (require f))) files

module _ {D : Type 0} where
  pushed-Adds :
      (i : String) (up : D → Outcome (Unit {0}) × D) (e : Exports D) (ms : List (Migration D))
      → e.up ≡ some up
      → exported (ok e) ≡ some i
      → (rest : Outcome (List (Migration D))) → pushed i up rest ≡ ok ms
      → (tail : List (Migration D)) × (rest ≡ ok tail) × Adds (ok e) tail ms
  unfolding pushed
  pushed-Adds i up e ms q there (err x) h = absurd (err-ne-ok x ms h)
  pushed-Adds i up e ms q there (ok tail) h =
      (tail, refl, script (record { id = i; up = up }) e refl q there (sym (ok-injective _ ms h)))

  pushed_if-Adds :
      (i : Option String) (up : Option (D → Outcome (Unit {0}) × D)) (e : Exports D)
      (ms : List (Migration D))
      → e.id ≡ i
      → e.up ≡ up
      → (rest : Outcome (List (Migration D))) → pushed_if i up rest ≡ ok ms
      → (tail : List (Migration D)) × (rest ≡ ok tail) × Adds (ok e) tail ms
  unfolding pushed_if
  pushed_if-Adds none up e ms p q rest h = (ms, h, nothing (rw p refl) refl)
  pushed_if-Adds (some i) none e ms p q rest h = (ms, h, nothing (rw (p, q) refl) refl)
  pushed_if-Adds (some i) (some up) e ms p q rest h = elim (Bool-cases (i == "")) [
    | inl empty ↦ (ms, rw empty at h, nothing (rw (p, q, empty) refl) refl)
    | inr named ↦ pushed-Adds i up e ms q (rw (p, q, named) refl) rest (rw named at h)
  ]

  load_file-Adds :
      (o : Outcome (Exports D)) (rest : Outcome (List (Migration D))) (ms : List (Migration D))
      → load_file o rest ≡ ok ms
      → (tail : List (Migration D)) × (rest ≡ ok tail) × Adds o tail ms
  unfolding load_file
  load_file-Adds (err x) rest ms h = absurd (err-ne-ok x ms h)
  load_file-Adds (ok e) rest ms h = pushed_if-Adds e.id e.up e ms refl refl rest h

  load_files-Origins :
      (require : FileName → Outcome (Exports D)) (fs : List FileName) (ms : List (Migration D))
      → load_files require fs ≡ ok ms
      → Origins require fs ms
  unfolding load_files
  load_files-Origins require [] ms h = sym (ok-injective [] ms h)
  load_files-Origins require (f ∷ fs) ms h =
      let (tail, rest, adds) = load_file-Adds (require f) (load_files require fs) ms h in
      (tail, adds, load_files-Origins require fs tail rest)

  recorded_all :
      (require : FileName → Outcome (Exports D)) (fs : List FileName) (ms : List (Migration D))
      (applied : List String)
      → Origins require fs ms
      → All (λ (m : Migration D). In m.id applied) ms
      → All (λ f. WasRecorded applied (exported (require f))) fs
  recorded_all require [] ms applied o k = tt
  recorded_all require (f ∷ fs) ms applied (tail, nothing none_there e, o) k =
      (rw none_there tt, recorded_all require fs tail applied o (rw e at k))
  recorded_all require (f ∷ fs) ms applied (tail, script m x loaded up there e, o) k =
      let both : In m.id applied × All (λ (n : Migration D). In n.id applied) tail = rw e at k in
      (rw there both.0, recorded_all require fs tail applied o both.1)

chosen_files :
    (listed : List FileName) (f : FileName)
    → In f (sorted (keep is_script listed)) ↔ (In f listed × (is_script f ≡ true))
chosen_files listed f =
    let (to, from) = In-sorted f (keep is_script listed) in
    (
      λ i. (In-kept is_script f listed (to i), In-keep is_script f listed (to i)),
      λ k. from (keep-In is_script f listed k.0 k.1),
    )

module _ {D : Type 0} (insert_one : String → Option Thrown) (listed : List FileName)
    (require : FileName → Outcome (Exports D)) (s : Migrated D) (c : Counts) where
  loaded_run :
      (o : Outcome (List (Migration D)))
      → load_files require (sorted (keep is_script listed)) ≡ o
      → (run insert_one o s).0 ≡ ok c
      → (ms : List (Migration D)) × IsComplete listed require ms s (run insert_one o s).1
        × (run insert_one o (run insert_one o s).1
            ≡ (ok (record { applied = 0; skipped = length ms }), (run insert_one o s).1))
  unfolding run
  loaded_run (err x) e h = absurd (err-ne-ok x c h)
  loaded_run (ok ms) e h =
      let origins = load_files-Origins require _ ms e in
      (
        ms,
        record {
          files = sorted (keep is_script listed);
          ascending = sorted-IsAscending _;
          chosen = chosen_files listed;
          origins = origins;
          executed = migrate-Executed insert_one ms s c h;
          recorded = recorded_all require _ ms _ origins (migrate-records D insert_one ms s c h);
        },
        (migrate-IsIdempotent D insert_one ms s c h).1,
      )

load_migrations-at :
    {D : Type 0} (exists : String → Bool) (read_dir : String → List FileName)
    (require : String → FileName → Outcome (Exports D)) (candidates : List String) (dir : String)
    → directory exists candidates ≡ some dir
    → load_migrations exists read_dir require candidates
      ≡ load_files (require dir) (sorted (keep is_script (read_dir dir)))
unfolding load_migrations
load_migrations-at exists read_dir require candidates dir there = rw (load_migrations, there) refl

-- A run that succeeds loaded the scripts of the directory, the first candidate that exists, in
-- ascending order of their file names. In this order it let each script whose id was not recorded before
-- act on the database that the one before left, none failing, and recorded its id. Every file that
-- exports an id and `up` is recorded, and a second run over the same directory applies none and leaves
-- the database as it is.
pub run-IsComplete :
    (D : Type 0) (insert_one : String → Option Thrown) (exists : String → Bool)
    (read_dir : String → List FileName) (require : String → FileName → Outcome (Exports D))
    (candidates : List String) (dir : String) (s : Migrated D) (c : Counts)
    → directory exists candidates ≡ some dir
    → (run insert_one (load_migrations exists read_dir require candidates) s).0 ≡ ok c
    → (ms : List (Migration D)) × IsComplete
        (read_dir dir)
        (require dir)
        ms
        s
        (run insert_one (load_migrations exists read_dir require candidates) s).1
      × (run insert_one
            (load_migrations exists read_dir require candidates)
            (run insert_one (load_migrations exists read_dir require candidates) s).1
          ≡ (
            ok (record { applied = 0; skipped = length ms }),
            (run insert_one (load_migrations exists read_dir require candidates) s).1,
          ))
run-IsComplete D insert_one exists read_dir require candidates dir s c there h =
    let loading = load_migrations-at exists read_dir require candidates dir there in
    rw loading (loaded_run insert_one (read_dir dir) (require dir) s c _ refl (rw loading at h))
