-- ===== src/Tools/AuditEnv.antt =====
-- tools/audit-env.mjs: the gaps between the environment that a scope's code reads, its typed config
-- and its .env.example, and the exit code. The names that the regular expressions collect from the
-- files are arguments; a set is the list of its members.
pub mod Consistency
use nestjs_microservice_mono.Prelude.{
  ℕ, String, Bool, true, false, not, ◌&&◌, ◌||◌, Option, none, some, List, [], ◌∷◌, ◌++◌, any, keep,
  ◌==◌, if◌then◌else◌,
}
use nestjs_microservice_mono.Entities.{is_some}
use nestjs_microservice_mono.Requests.AccessLog.{has_prefix}

pub record Scope : Type 0 where
  pub name : String
  pub config : Option String

abbrev pub scopes : List Scope
scopes =
    record { name = "gateway"; config = some "apps/gateway/src/config/gateway.config.ts" }
    ∷ record { name = "user"; config = some "apps/user/src/config/user.config.ts" }
    ∷ record { name = "task:db-migrate"; config = none }
    ∷ record { name = "task:user-purge"; config = none }
    ∷ []

-- What the collectors found for a scope: `codeReads`, `envDeclared`, and the fields of its config
-- with the class that it extends.
pub record Collected : Type 0 where
  pub code_reads : List String
  pub env_declared : List String
  pub own_fields : List String
  pub extends_name : Option String

abbrev pub service_config : List String
service_config = "MONGO" ∷ "MONGO_DB" ∷ "RABBITMQ_URL" ∷ "RMQ_QUEUE_PREFIX" ∷ []

abbrev pub mongo_task_config : List String
mongo_task_config = "MONGO" ∷ "MONGO_DB" ∷ []

-- `extendsName && SHARED_CONFIGS[extendsName] ? … : []`
abbrev pub shared_config : Option String → List String
shared_config none = []
shared_config (some n) =
    if n == "ServiceConfig"
    then service_config
    else if n == "MongoTaskConfig"
    then mongo_task_config
    else []

abbrev pub observability_vars : List String
observability_vars =
    "NODE_ENV" ∷ "LOG_LEVEL" ∷ "LOG_FORMAT" ∷ "SENTRY_DSN" ∷ "SENTRY_TRACES_SAMPLE_RATE"
    ∷ "RELEASE_TAG" ∷ []

abbrev pub is_service : String → Bool
is_service name = name == "gateway" || name == "user"

-- BOOTSTRAP_ONLY, which SHARED_LIB_READS repeats.
abbrev pub bootstrap_only : String → List String
bootstrap_only name = if is_service name then "RMQ_QUEUE_PREFIX" ∷ [] else []

abbrev pub reserved_stubs : String → List String
reserved_stubs name =
    if name == "gateway" then "VK_ANDROID_SERVICE_TOKEN" ∷ "VK_IOS_SERVICE_TOKEN" ∷ [] else []

-- `set.has(k)`
abbrev pub has : List String → String → Bool
has set k = any (λ m. m == k) set

pub effective_fields : Scope → Collected → List String
unfolding has_prefix
effective_fields scope c =
    if is_some scope.config
    then c.own_fields ++ shared_config c.extends_name
    else if has_prefix "task:" scope.name
    then mongo_task_config
    else service_config

pub record Gaps : Type 0 where
  pub reads_minus_config : List String
  pub config_minus_reads : List String
  pub reads_minus_env : List String
  pub env_minus_reads : List String

pub gaps : Scope → Collected → Gaps
unfolding effective_fields
gaps scope c = record {
  reads_minus_config =
      keep
        (λ k.
          not (has (effective_fields scope c) k)
          && (not (has observability_vars k) && not (has (bootstrap_only scope.name) k)))
        c.code_reads;
  config_minus_reads =
      keep
        (λ k.
          not (has c.code_reads k)
          && (not (has (reserved_stubs scope.name) k) && not (has (bootstrap_only scope.name) k)))
        (effective_fields scope c);
  reads_minus_env =
      keep (λ k. not (has c.env_declared k) && not (has observability_vars k)) c.code_reads;
  env_minus_reads =
      keep
        (λ k.
          not (has c.code_reads k)
          && (not (has observability_vars k)
              && (not (has (effective_fields scope c) k)
                  && not (has (reserved_stubs scope.name) k))))
        c.env_declared;
}

abbrev pub is_nil : List String → Bool
is_nil [] = true
is_nil (x ∷ xs) = false

abbrev pub is_consistent : Gaps → Bool
is_consistent g =
    is_nil g.reads_minus_config
    && (is_nil g.config_minus_reads && (is_nil g.reads_minus_env && is_nil g.env_minus_reads))

pub all_consistent : (Scope → Collected) → List Scope → Bool
unfolding gaps
all_consistent collect [] = true
all_consistent collect (s ∷ ss) = is_consistent (gaps s (collect s)) && all_consistent collect ss

-- `process.exit(any ? 1 : 0)`
pub audit_exit_code : (Scope → Collected) → ℕ
unfolding all_consistent
audit_exit_code collect = if all_consistent collect scopes then 0 else 1
