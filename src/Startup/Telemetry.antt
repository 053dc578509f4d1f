-- ===== src/Startup/Telemetry.antt =====
-- libs/common/src/bootstrap/telemetry.ts: the format and level of the logs, what a log line carries,
-- and what is sent to Sentry. winston's other formats, `toLowerCase` and Sentry itself are arguments
-- or not modelled.
use nestjs_microservice_mono.Prelude.{
  String, ◌≡◌, refl, Bool, true, false, Bool-cases, inl, inr, ◌&&◌, ◌||◌, not, Option, none, some,
  truthy, or_else, ◌==◌, if◌then◌else◌,
}
use nestjs_microservice_mono.Json.{Json, undefined, null, bool, num, str, opaque, arr, obj, Fields}
use nestjs_microservice_mono.Config.{Env}
use nestjs_microservice_mono.Context.{is_truthy, with_entry}
use nestjs_microservice_mono.Redaction.{redact_secrets}
use nestjs_microservice_mono.Redaction.Clean.{is_clean, redact_secrets-clean}

-- `formatOverride === v`, where the variable may be unset.
abbrev is_override : Option String → String → Bool
is_override none v = false
is_override (some s) v = s == v

abbrev lowered : (String → String) → Option String → Option String
lowered lower none = none
lowered lower (some s) = some (lower s)

is_pretty : (String → String) → Env → Bool → Bool
is_pretty lower env is_tty =
    let format_override = lowered lower (env "LOG_FORMAT") in
    is_override format_override "pretty" || (not (is_override format_override "json") && is_tty)

log_level : Env → String
log_level env =
    or_else (env "LOG_LEVEL")
      (if is_override (env "NODE_ENV") "production" then "info" else "debug")

-- `injectTrace`, with the trace id of the current context.
inject_trace : Option String → String → Fields → Fields
inject_trace trace service info =
    let traced =
      if truthy trace then with_entry "traceId" (str (or_else trace "")) info else info in
    with_entry "service" (str service) traced

-- What reaches the transport's last format: the entry, traced and redacted.
pub log_entry : Option String → String → Fields → Json
unfolding inject_trace
log_entry trace service info = redact_secrets 0 (obj (inject_trace trace service info))

pub record SentryRequest : Type 0 where
  pub body : Json
  pub headers : Json

pub record SentryEvent : Type 0 where
  pub extra : Json
  pub contexts : Json
  pub request : Option SentryRequest
  pub thrown : Json

redacted : Json → Json
redacted v = if is_truthy v then redact_secrets 0 v else v

redacted_request : Option SentryRequest → Option SentryRequest
unfolding redacted
redacted_request none = none
redacted_request (some r) = some (record { body = redacted r.body; headers = redacted r.headers })

pub before_send : SentryEvent → SentryEvent
unfolding redacted redacted_request
before_send event = record event {
  extra = redacted event.extra;
  contexts = redacted event.contexts;
  request = redacted_request event.request;
}

record SentryOptions : Type 0 where
  dsn : String
  environment : String
  server_name : String
  traces_sample_rate : String
  release : Option String

-- The options that `Sentry.init` is given, if it is called; the sample rate is the text that `Number`
-- reads.
init_sentry : Env → String → Option SentryOptions
init_sentry env service_name =
    if truthy (env "SENTRY_DSN")
    then some (record {
      dsn = or_else (env "SENTRY_DSN") "";
      environment = or_else (env "NODE_ENV") "development";
      server_name = service_name;
      traces_sample_rate = or_else (env "SENTRY_TRACES_SAMPLE_RATE") "0.05";
      release = env "RELEASE_TAG";
    })
    else none

falsy-clean : (v : Json) → is_truthy v ≡ false → is_clean 0 v ≡ true
unfolding is_truthy is_clean
falsy-clean undefined h = refl
falsy-clean null h = refl
falsy-clean (bool b) h = refl
falsy-clean (num n) h = refl
falsy-clean (str s) h = refl
falsy-clean (opaque s) h = refl
falsy-clean (arr vs) h = cc
falsy-clean (obj fs) h = cc

redacted-clean : (v : Json) → is_clean 0 (redacted v) ≡ true
unfolding redacted
redacted-clean v = elim (Bool-cases (is_truthy v)) [
  | inl given ↦ rw given (redact_secrets-clean v)
  | inr absent ↦ rw absent (falsy-clean v absent)
]

abbrev pub request_clean : Option SentryRequest → Bool
request_clean none = true
request_clean (some r) = is_clean 0 r.body && is_clean 0 r.headers

request-clean : (o : Option SentryRequest) → request_clean (redacted_request o) ≡ true
unfolding redacted_request
request-clean none = refl
request-clean (some r) = rw (redacted-clean r.body, redacted-clean r.headers) refl

-- Neither a log line nor the extra data, contexts and request of an event for Sentry show an entry
-- under a key that names a secret, down to the greatest depth of the walk.
pub telemetry_clean :
    (trace : Option String) (service : String) (info : Fields) (event : SentryEvent)
    → (is_clean 0 (log_entry trace service info) ≡ true)
      × (is_clean 0 (before_send event).extra ≡ true)
      × (is_clean 0 (before_send event).contexts ≡ true)
      × (request_clean (before_send event).request ≡ true)
unfolding log_entry before_send
telemetry_clean trace service info event = (
  redact_secrets-clean (obj (inject_trace trace service info)),
  redacted-clean event.extra,
  redacted-clean event.contexts,
  request-clean event.request,
)
