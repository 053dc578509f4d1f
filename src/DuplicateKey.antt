-- ===== src/DuplicateKey.antt =====
-- libs/common/src/db: `isDuplicateKeyError` and `idempotentInsert`.
use nestjs_microservice_mono.Prelude.{
  ℕ, String, Bool, true, false, ◌&&◌, ◌||◌, Option, none, some, List, any, nat_eq, ◌==◌,
  if◌then◌else◌, truthy, or_else,
}
use nestjs_microservice_mono.Errors.Defs.{Thrown, mongo, Outcome, ok, err}
use nestjs_microservice_mono.Words.{codes, head, is_boundary, is_char, strip, search_from}

-- \bfield(?:_|\b)
unfoldable pub names_field : List ℕ → Option ℕ → List ℕ → Bool
unfolding is_boundary strip
names_field field before s = is_boundary before (head s) && (elim (strip before field s) [
  | none ↦ false
  | some (last, rest) ↦ is_char b'_' (head rest) || is_boundary last (head rest)
])

unfoldable pub message_names : String → String → Bool
unfolding names_field search_from
message_names field m = search_from (names_field (codes field)) none (codes m)

includes : String → Option (List String) → Bool
includes field none = false
includes field (some keys) = any (λ k. k == field) keys

unfoldable pub is_duplicate_key_error : Thrown → Option String → Bool
unfolding includes
is_duplicate_key_error (mongo e) field =
    if nat_eq e.code 11000
    then (if truthy field
        then includes (or_else field "") e.key_pattern || message_names (or_else field "") e.message
        else true)
    else false
is_duplicate_key_error _ field = false

-- `idempotentInsert`: what it makes of the driver's `insertOne`.
unfoldable pub idempotent_insert : Outcome (Unit {0}) → Outcome Bool
idempotent_insert (ok _) = ok true
idempotent_insert (err e) = if is_duplicate_key_error e none then ok false else err e
