-- ===== src/Tests/Startup.antt =====
-- The theorems on startup, documentation, mail and the maintenance scripts at concrete inputs.
use nestjs_microservice_mono.Prelude.{
  String, ◌≡◌, ◌↔◌, refl, true, none, some, List, [], ◌∷◌, ◌==◌, All, or_else, if◌then◌else◌,
}
use nestjs_microservice_mono.Json.{
  Json, str, num, obj, arr, cons, nil, Fields, end, field, property,
}
use nestjs_microservice_mono.Config.{Env}
use nestjs_microservice_mono.Config.Numbers.{Number, integer, not_integer, pos}
use nestjs_microservice_mono.Redaction.Clean.{is_clean}
use nestjs_microservice_mono.Startup.ApiDocs.{
  Operation, PathItem, attach_common_error_responses, item_of, method_of, documented, common_errors,
  attach-documented,
}
use nestjs_microservice_mono.Startup.Telemetry.{
  SentryEvent, log_entry, before_send, request_clean, telemetry_clean,
}
use nestjs_microservice_mono.Users.Email.{Transport, Credentials, IsSetUp, email_service-IsSetUp}
use nestjs_microservice_mono.Tools.AuditEnv.{Scope, Collected, scopes, audit_exit_code}
use nestjs_microservice_mono.Tools.AuditEnv.Consistency.{IsConsistent, audit_exit_code_iff}

abbrev own_conflict : Json
own_conflict = obj (field "description" (str "Email already registered") end)

abbrev upgrade_operation : Operation
upgrade_operation = record {
  responses = some (field "409" own_conflict end);
  summary = str "Upgrade account";
}

abbrev upgrade_path : PathItem
upgrade_path = ("post", upgrade_operation) ∷ []

attach-documented_example :
    (after : List (String × PathItem)) × (item : PathItem) × (op : Operation)
    × (attach_common_error_responses
          (str "#/ErrorResponseDto")
          (some (("/auth/upgrade", upgrade_path) ∷ []))
        ≡ some after)
    × (item_of "/auth/upgrade" after ≡ some item)
    × (method_of "post" item ≡ some op)
    × (property "409" (or_else op.responses end)
        ≡ documented
            (str "#/ErrorResponseDto")
            common_errors
            "409"
            (property "409" (or_else upgrade_operation.responses end)))
    × (op.summary ≡ str "Upgrade account")
attach-documented_example =
    attach-documented (str "#/ErrorResponseDto") (("/auth/upgrade", upgrade_path) ∷ [])
      "/auth/upgrade" "post" "409" upgrade_path upgrade_operation refl refl refl

abbrev settings : Fields
settings = field "config" (arr (cons (obj (field "smtpPassword" (str "hunter2") end)) nil)) end

abbrev crash : SentryEvent
crash = record {
  extra = obj settings;
  contexts = obj (field "port" (num 3000) end);
  request = some (record { body = obj settings; headers = obj end });
  thrown = str "boom";
}

telemetry_clean_example :
    (is_clean 0 (log_entry (some "t1") "user" settings) ≡ true)
    × (is_clean 0 (before_send crash).extra ≡ true)
    × (is_clean 0 (before_send crash).contexts ≡ true)
    × (request_clean (before_send crash).request ≡ true)
telemetry_clean_example = telemetry_clean (some "t1") "user" settings crash

abbrev mail_env : Env
mail_env name =
    if name == "SMTP_HOST"
    then some "smtp.example.com"
    else if name == "SMTP_PORT"
    then some "465"
    else if name == "SMTP_USER"
    then some "app"
    else if name == "SMTP_PASSWORD"
    then some "secret"
    else none

abbrev reads_465 : String → Number
reads_465 s = if s == "465" then integer (pos 465) else not_integer

abbrev pooled : Transport
pooled = record {
  host = "smtp.example.com";
  port = pos 465;
  secure = true;
  auth = some (record { user = "app"; pass = "secret" });
}

email_service-IsSetUp_example : IsSetUp mail_env pooled
unfolding nestjs_microservice_mono.Users.Email.email_service
    nestjs_microservice_mono.Config.optional_env
    nestjs_microservice_mono.Config.Numbers.require_env_int
email_service-IsSetUp_example = email_service-IsSetUp reads_465 (λ s. s) mail_env pooled refl

-- Every scope reads what it declares and documents, but for MONGO, which nothing reads.
abbrev collected : Scope → Collected
collected s = record {
  code_reads = "MONGO_DB" ∷ [];
  env_declared = "MONGO" ∷ "MONGO_DB" ∷ [];
  own_fields = [];
  extends_name = some "ServiceConfig";
}

audit_exit_code_iff_example :
    (audit_exit_code collected ≡ 0) ↔ All (λ s. IsConsistent s (collected s)) scopes
audit_exit_code_iff_example = audit_exit_code_iff collected
