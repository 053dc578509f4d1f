-- ===== src/Migrate/Scripts.antt =====
-- `loadMigrations` of tasks/db-migrate/src/task.service.ts, and `run` over what it returns. A file name
-- is the list of its UTF-16 code units; `existsSync`, `readdirSync` and `require` are arguments.
pub mod Sorting
pub mod Order
use nestjs_microservice_mono.Prelude.{
  ℕ, ◌+◌, String, ◌≡◌, refl, Bool, true, false, not, ◌&&◌, ◌||◌, Option, none, some, List, [], ◌∷◌,
  keep, ltb, leb, nat_eq, ◌==◌, if◌then◌else◌,
}
use nestjs_microservice_mono.Words.{codes}
use nestjs_microservice_mono.Errors.Defs.{Thrown, Outcome, ok, err}
use nestjs_microservice_mono.Migrate.{Migration, Migrated, Counts, migrate}

abbrev pub FileName : Type 0
FileName = List ℕ

abbrev is_digit : ℕ → Bool
is_digit c = leb b'0' c && leb c b'9'

-- What `.` matches: no line terminator.
abbrev is_dot : ℕ → Bool
is_dot c = not (nat_eq c 10 || (nat_eq c 13 || (nat_eq c 8232 || nat_eq c 8233)))

same_text : FileName → FileName → Bool
same_text [] [] = true
same_text [] (d ∷ ds) = false
same_text (c ∷ cs) [] = false
same_text (c ∷ cs) (d ∷ ds) = nat_eq c d && same_text cs ds

ends_with_tail : FileName → FileName → Bool
ends_with_tail suffix [] = same_text suffix []
ends_with_tail suffix (c ∷ cs) = same_text suffix (c ∷ cs) || ends_with_tail suffix cs

is_extension : FileName → Bool
unfolding same_text
is_extension s = same_text s (codes ".cjs") || same_text s (codes ".js")

-- `.+\.(cjs|js)$`; the flag is set once `.+` has a character.
script_body : Bool → FileName → Bool
unfolding is_extension
script_body started [] = false
script_body started (c ∷ cs) =
    (started && is_extension (c ∷ cs)) || (is_dot c && script_body true cs)

-- `^\d{3,}_` and the rest, after so many digits.
script_name : ℕ → FileName → Bool
unfolding script_body
script_name digits [] = false
script_name digits (c ∷ cs) =
    (is_digit c && script_name (digits + 1) cs)
    || (leb 3 digits && (nat_eq c b'_' && script_body false cs))

unfoldable pub is_script : FileName → Bool
unfolding script_name ends_with_tail
is_script f = script_name 0 f && not (ends_with_tail (codes ".d.ts") f)

-- The order of `sort()` on texts.
unfoldable pub comes_before : FileName → FileName → Bool
comes_before [] b = true
comes_before (c ∷ cs) [] = false
comes_before (c ∷ cs) (d ∷ ds) = ltb c d || (nat_eq c d && comes_before cs ds)

unfoldable pub inserted : FileName → List FileName → List FileName
inserted f [] = f ∷ []
inserted f (g ∷ gs) =
    let later = inserted f gs in if comes_before f g then f ∷ g ∷ gs else g ∷ later

unfoldable pub sorted : List FileName → List FileName
unfolding inserted comes_before
sorted [] = []
sorted (f ∷ fs) = inserted f (sorted fs)

-- What a file exports.
pub record Exports (D : Type 0) : Type 0 where
  pub id : Option String
  pub up : Option (D → Outcome (Unit {0}) × D)

-- The first of the candidates that exists.
unfoldable pub directory : (String → Bool) → List String → Option String
directory exists [] = none
directory exists (c ∷ cs) = let rest = directory exists cs in if exists c then some c else rest

pushed :
    {D : Type 0}
    → String
    → (D → Outcome (Unit {0}) × D)
    → Outcome (List (Migration D))
    → Outcome (List (Migration D))
pushed i up (err e) = err e
pushed i up (ok ms) = ok (record { id = i; up = up } ∷ ms)

-- `if (!mod.id || typeof mod.up !== 'function') continue;`
pub pushed_if :
    {D : Type 0}
    → Option String
    → Option (D → Outcome (Unit {0}) × D)
    → Outcome (List (Migration D))
    → Outcome (List (Migration D))
unfolding pushed
pushed_if none up rest = rest
pushed_if (some i) none rest = rest
pushed_if (some i) (some up) rest = if i == "" then rest else pushed i up rest

pub load_file :
    {D : Type 0} → Outcome (Exports D) → Outcome (List (Migration D)) → Outcome (List (Migration D))
unfolding pushed_if
load_file (err e) rest = err e
load_file (ok m) rest = pushed_if m.id m.up rest

unfoldable pub load_files :
    {D : Type 0} → (FileName → Outcome (Exports D)) → List FileName → Outcome (List (Migration D))
unfolding load_file
load_files require [] = ok []
load_files require (f ∷ fs) = load_file (require f) (load_files require fs)

-- The candidates are the three directories that the source resolves.
unfoldable pub load_migrations :
    {D : Type 0}
    → (String → Bool)
    → (String → List FileName)
    → (String → FileName → Outcome (Exports D))
    → List String
    → Outcome (List (Migration D))
unfolding directory sorted is_script load_files
load_migrations exists read_dir require candidates = elim (directory exists candidates) [
  | none ↦ ok []
  | some dir ↦ load_files (require dir) (sorted (keep is_script (read_dir dir)))
]

-- `run`, with what `loadMigrations` did. The ids were loaded before it, and it reads no database.
unfoldable pub run :
    {D : Type 0}
    → (String → Option Thrown)
    → Outcome (List (Migration D))
    → Migrated D
    → Outcome Counts × Migrated D
run insert_one (err e) s = (err e, s)
run insert_one (ok ms) s = migrate insert_one ms s

index_test : is_script (codes "001_index.cjs") ≡ true
unfolding is_script
index_test = refl

short_number_test : is_script (codes "01_index.cjs") ≡ false
unfolding is_script
short_number_test = refl

nameless_test : is_script (codes "001_.js") ≡ false
unfolding is_script
nameless_test = refl

declaration_test : is_script (codes "001_index.d.ts") ≡ false
unfolding is_script
declaration_test = refl

order_test :
    sorted (codes "010_b.js" ∷ codes "0002_a.js" ∷ codes "001_c.js" ∷ [])
    ≡ codes "0002_a.js" ∷ codes "001_c.js" ∷ codes "010_b.js" ∷ []
unfolding sorted
order_test = refl
