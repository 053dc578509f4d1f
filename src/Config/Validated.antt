-- ===== src/Config/Validated.antt =====
-- libs/common/src/config/validate-env.ts: the trimming of a whole environment and `validateEnvWith`,
-- where plainToInstance and class-validator are an argument, and `getQueuePrefix` of
-- libs/common/src/constants/queue.constants.ts.
use nestjs_microservice_mono.Prelude.{
  String, ◌≡◌, refl, ◌==◌, Bool-cases, inl, inr, Option, none, some, List, [], ◌∷◌, if◌then◌else◌,
  template, or_else, truthy,
}
use nestjs_microservice_mono.Json.{Json, str, Fields, end, field, property}
use nestjs_microservice_mono.Errors.Defs.{Outcome, ok, err, error}
use nestjs_microservice_mono.Trim.{trim}
use nestjs_microservice_mono.Config.{Env, trim_env_value}

trimmed_value : Json → Json
trimmed_value (str s) = str (trim_env_value s)
trimmed_value v = v

trim_env_values : Fields → Fields
unfolding trimmed_value
trim_env_values end = end
trim_env_values (field k v fs) = field k (trimmed_value v) (trim_env_values fs)

record Violation : Type 0 where
  subject : String
  constraints : Option (List String)

-- `parts.join(separator)`
joined_by : String → List String → String
joined_by separator [] = ""
joined_by separator (p ∷ []) = p
joined_by separator (p ∷ q ∷ ps) = template (p ∷ separator ∷ joined_by separator (q ∷ ps) ∷ [])

violation_text : Violation → String
unfolding joined_by
violation_text v =
    template ("  " ∷ v.subject ∷ ": " ∷ joined_by ", " (or_else v.constraints []) ∷ [])

complaints : List Violation → List String
unfolding violation_text
complaints [] = []
complaints (v ∷ vs) = violation_text v ∷ complaints vs

-- The environment that the hook returns: every key that it was given, rewritten in place.
validate_env_with : String → (Fields → List Violation) → Fields → Outcome Fields
unfolding complaints joined_by trim_env_values
validate_env_with class_name violations raw = elim (violations (trim_env_values raw)) [
  | [] ↦ ok (trim_env_values raw)
  | v ∷ vs ↦ err (
      error (
        template
          (class_name ∷ " validation failed:\n" ∷ joined_by "\n" (complaints (v ∷ vs)) ∷ [])))
]

get_queue_prefix : Env → String
unfolding trim
get_queue_prefix env =
    let explicit = trim (or_else (env "RMQ_QUEUE_PREFIX") "") in
    if truthy (some explicit)
    then explicit
    else elim (env "NODE_ENV") [ none ↦ "dev" | some e ↦ trim e ]

mapped : Option Json → Option Json
mapped none = none
mapped (some v) = some (trimmed_value v)

-- Trimming keeps every key, and rewrites its value alone.
property-trim :
    (name : String) (fs : Fields) → property name (trim_env_values fs) ≡ mapped (property name fs)
unfolding trim_env_values mapped
property-trim name end = refl
property-trim name (field k v fs) = elim (Bool-cases (k == name)) [
  | inl here ↦ rw here refl
  | inr elsewhere ↦ rw elsewhere (property-trim name fs)
]

two_errors_test :
    validate_env_with "UserConfig"
      (λ _.
        record { subject = "PORT"; constraints = some ("a" ∷ "b" ∷ []) }
        ∷ record { subject = "URL"; constraints = none }
        ∷ [])
      end
    ≡ err (error "UserConfig validation failed:\n  PORT: a, b\n  URL: ")
unfolding validate_env_with
two_errors_test = refl
