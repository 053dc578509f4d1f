-- ===== src/Config/Numbers.antt =====
-- `requireEnvInt` and `requireEnvBase64` of libs/common/src/config/require-env.ts. What `Number`
-- and `Buffer.from` make of a text are arguments.
use nestjs_microservice_mono.Prelude.{
  ℕ, ◌+◌, String, ◌≡◌, Bool, true, false, Option, none, some, List, [], ◌∷◌, template, ltb, nat_eq,
  length, decimal, Bool-cases, inl, inr, if◌then◌else◌,
}
use nestjs_microservice_mono.Errors.Defs.{error, Outcome, ok, err}
use nestjs_microservice_mono.Users.Common.{ok-injective}
use nestjs_microservice_mono.Config.{Env, require_env}

pub data ℤ : Type 0 where
  pos : ℕ → ℤ
  negsuc : ℕ → ℤ

abbrev pub below : ℤ → ℤ → Bool
below (pos a) (pos b) = ltb a b
below (pos a) (negsuc b) = false
below (negsuc a) (pos b) = true
below (negsuc a) (negsuc b) = ltb b a

abbrev printed : ℤ → String
printed (pos n) = decimal n
printed (negsuc n) = template ("-" ∷ decimal (n + 1) ∷ [])

-- A number of JavaScript: an integer, or NaN, an infinity or a fraction.
pub data Number : Type 0 where
  integer : ℤ → Number
  not_integer : Number

pub record Range : Type 0 where
  pub min : Option ℤ
  pub max : Option ℤ

unfoldable pub check_max : String → Option ℤ → ℤ → Outcome ℤ
unfolding decimal
check_max name none n = ok n
check_max name (some m) n =
    if below m n
    then err (
        error (
          template
            ("Env var \"" ∷ name ∷ "\" must be ≤ " ∷ printed m ∷ " (got " ∷ printed n ∷ ")" ∷ [])))
    else ok n

unfoldable pub check_min : String → Option ℤ → ℤ → Outcome ℤ → Outcome ℤ
unfolding decimal
check_min name none n rest = rest
check_min name (some m) n rest =
    if below n m
    then err (
        error (
          template
            ("Env var \"" ∷ name ∷ "\" must be ≥ " ∷ printed m ∷ " (got " ∷ printed n ∷ ")" ∷ [])))
    else rest

abbrev pub check_number : String → Range → String → Number → Outcome ℤ
check_number name r raw not_integer =
    err
      (error (template ("Env var \"" ∷ name ∷ "\" must be an integer (got \"" ∷ raw ∷ "\")" ∷ [])))
check_number name r raw (integer n) = check_min name r.min n (check_max name r.max n)

abbrev pub check_raw : (String → Number) → String → Range → Outcome String → Outcome ℤ
check_raw to_number name r (err e) = err e
check_raw to_number name r (ok raw) = check_number name r raw (to_number raw)

unfoldable pub require_env_int : (String → Number) → Env → String → Range → Outcome ℤ
unfolding require_env check_min check_max
require_env_int to_number env name r = check_raw to_number name r (require_env env name)

abbrev pub check_bytes : String → Option ℕ → List ℕ → Outcome (List ℕ)
check_bytes name none bytes = ok bytes
check_bytes name (some n) bytes =
    if nat_eq (length bytes) n
    then ok bytes
    else err (
        error (
          template (
            "Env var \""
            ∷ name
            ∷ "\" must decode to "
            ∷ decimal n
            ∷ " bytes (got "
            ∷ decimal (length bytes)
            ∷ ")"
            ∷ [])))

abbrev pub decoded : (String → List ℕ) → String → Option ℕ → Outcome String → Outcome (List ℕ)
decoded decode name n (err e) = err e
decoded decode name n (ok raw) = check_bytes name n (decode raw)

-- `Buffer.from(raw, 'base64')` skips what is no base64, so the catch is never taken.
unfoldable pub require_env_base64 : (String → List ℕ) → Env → String → Option ℕ → Outcome (List ℕ)
unfolding require_env
require_env_base64 decode env name n = decoded decode name n (require_env env name)

check_max-bound :
    (name : String) (m n k : ℤ) → check_max name (some m) n ≡ ok k → (n ≡ k) × (below m n ≡ false)
unfolding check_max
check_max-bound name m n k h = elim (Bool-cases (below m n)) [
  | inl above ↦ cc (rw above at h)
  | inr fine ↦ (ok-injective n k (rw fine at h), fine)
]

check_min-bound :
    (name : String) (m n k : ℤ) (rest : Outcome ℤ)
    → check_min name (some m) n rest ≡ ok k
    → (rest ≡ ok k) × (below n m ≡ false)
unfolding check_min
check_min-bound name m n k rest h = elim (Bool-cases (below n m)) [
  | inl under ↦ cc (rw under at h)
  | inr fine ↦ (rw fine at h, fine)
]

check_number-bounds :
    (name raw : String) (lo hi k : ℤ) (x : Number)
    → check_number name (record { min = some lo; max = some hi }) raw x ≡ ok k
    → (below k lo ≡ false) × (below hi k ≡ false)
check_number-bounds name raw lo hi k not_integer h = cc
check_number-bounds name raw lo hi k (integer n) h =
    let (rest, low) = check_min-bound name lo n k (check_max name (some hi) n) h in
    let (same, high) = check_max-bound name hi n k rest in (rw (← same) low, rw (← same) high)

-- A number that `requireEnvInt` returns for a range with both ends is not below the lower end nor
-- above the upper one, whatever the text was.
pub require_env_int-bounds :
    (to_number : String → Number) (env : Env) (name : String) (lo hi k : ℤ)
    → require_env_int to_number env name (record { min = some lo; max = some hi }) ≡ ok k
    → (below k lo ≡ false) × (below hi k ≡ false)
unfolding require_env_int
require_env_int-bounds to_number env name lo hi k h = checked (require_env env name) h
  where
    checked :
        (o : Outcome String)
        → check_raw to_number name (record { min = some lo; max = some hi }) o ≡ ok k
        → (below k lo ≡ false) × (below hi k ≡ false)
    checked (err e) h' = cc
    checked (ok raw) h' = check_number-bounds name raw lo hi k (to_number raw) h'
