-- ===== src/Config.antt =====
-- libs/common/src/config/require-env.ts and validate-env.ts. `process.env` is an argument.
pub mod Numbers
pub mod Validated
use Prim.Native.Char.{code}
use nestjs_microservice_mono.Prelude.{
  ℕ, String, ◌≡◌, refl, ap, Bool, true, false, not, ◌&&◌, ◌||◌, Option, none, some, List, [], ◌∷◌,
  All, ◌==◌, template, or_else, truthy, nat_eq, Bool-cases, inl, inr, ◌↔◌, if◌then◌else◌,
}
use nestjs_microservice_mono.Errors.Defs.{Thrown, error, Outcome, ok, err}
use nestjs_microservice_mono.Trim.{trim}

-- `process.env`
abbrev pub Env : Type 0
Env = String → Option String

-- `value === undefined || value === null || value.trim() === ''`
unfoldable pub is_missing : Env → String → Bool
unfolding trim
is_missing env name = not (truthy (some (trim (or_else (env name) ""))))

unfoldable pub require_env : Env → String → Outcome String
unfolding is_missing trim
require_env env name =
    if is_missing env name
    then err (
        error (
          template (
            "Missing required env var \"" ∷ name
            ∷ "\". Fix the k8s ConfigMap/Secret or your .env file." ∷ [])))
    else ok (trim (or_else (env name) ""))

unfoldable pub optional_env : Env → String → String → String
optional_env env name fallback = or_else (env name) fallback

-- The names that the loop collects.
unfoldable pub missing_names : Env → List String → List String
unfolding is_missing
missing_names env [] = []
missing_names env (n ∷ ns) =
    let rest = missing_names env ns in if is_missing env n then n ∷ rest else rest

-- `missing.join(', ')`
abbrev pub joined : List String → String
joined [] = ""
joined (n ∷ []) = n
joined (n ∷ m ∷ ns) = template (n ∷ ", " ∷ joined (m ∷ ns) ∷ [])

abbrev complaint : List String → Outcome (Unit {0})
complaint [] = ok tt
complaint (n ∷ ns) = err (
    error (
      template (
        "Missing required env vars: "
        ∷ joined (n ∷ ns)
        ∷ ". Fix the k8s ConfigMap/Secret or your .env file."
        ∷ [])))

unfoldable pub assert_required_env : Env → List String → Outcome (Unit {0})
unfolding missing_names
assert_required_env env names = complaint (missing_names env names)

-- A variable that `requireEnv` reads.
abbrev pub IsPresent : Env → String → Type 0
IsPresent env n = (v : String) × (require_env env n ≡ ok v)

readable : (env : Env) (n : String) → is_missing env n ≡ false → IsPresent env n
unfolding require_env
readable env n there = (trim (or_else (env n) ""), rw there refl)

not_missing : (env : Env) (n : String) → IsPresent env n → is_missing env n ≡ false
unfolding require_env
not_missing env n (v, read) = elim (Bool-cases (is_missing env n)) [
  | inl gone ↦ cc (rw gone at read)
  | inr there ↦ there
]

none_missing : (env : Env) (ns : List String) → All (IsPresent env) ns → missing_names env ns ≡ []
unfolding missing_names
none_missing env [] all = refl
none_missing env (n ∷ ns) (one, rest) =
    let others = none_missing env ns rest in rw (not_missing env n one, others) refl

all-IsPresent : (env : Env) (ns : List String) → missing_names env ns ≡ [] → All (IsPresent env) ns
unfolding missing_names
all-IsPresent env [] h = tt
all-IsPresent env (n ∷ ns) h =
    let rest = all-IsPresent env ns in
    elim (Bool-cases (is_missing env n)) [
      | inl gone ↦ cc (rw gone at h)
      | inr there ↦ (readable env n there, rest (rw there at h))
    ]

no_complaint : (ns : List String) → complaint ns ≡ ok tt → ns ≡ []
no_complaint [] h = refl
no_complaint (n ∷ ns) h = cc

-- The check of a group of variables passes exactly where `requireEnv` reads each of them.
pub assert_required_env_iff :
    (env : Env) (names : List String)
    → (assert_required_env env names ≡ ok tt) ↔ All (IsPresent env) names
unfolding assert_required_env
assert_required_env_iff env names = (
  λ passed. all-IsPresent env names (no_complaint (missing_names env names) passed),
  λ present. ap complaint (none_missing env names present),
)

-- The loop body of `trimEnvValues`: white space, then one matched pair of quotes.
unfoldable pub last_code : String → ℕ
last_code String.[] = 0
last_code (String.◌∷◌ c s) = let rest = last_code s in if s == "" then code c else rest

unfoldable pub first_code : String → ℕ
first_code String.[] = 0
first_code (String.◌∷◌ c s) = code c

-- `s.slice(1, -1)`
unfoldable pub init : String → String
init String.[] = ""
init (String.◌∷◌ c s) = let rest = String.◌∷◌ c (init s) in if s == "" then "" else rest

unfoldable pub inner : String → String
unfolding init
inner String.[] = ""
inner (String.◌∷◌ c s) = init s

-- A text of two characters at least, with the quote at both ends.
abbrev quoted : ℕ → String → Bool
quoted q String.[] = false
quoted q (String.◌∷◌ c s) =
    not (s == "") && nat_eq (first_code (String.◌∷◌ c s)) q && nat_eq (last_code s) q

unfoldable pub trim_env_value : String → String
unfolding trim first_code last_code inner
trim_env_value v = let s = trim v in if quoted 34 s || quoted 39 s then inner s else s

helm_test : trim_env_value " \"'foo@bar.ru'\"\n" ≡ "'foo@bar.ru'"
unfolding trim_env_value
helm_test = refl

lone_quote_test : trim_env_value "\"" ≡ "\""
unfolding trim_env_value
lone_quote_test = refl
