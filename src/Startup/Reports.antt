-- ===== src/Startup/Reports.antt =====
-- What is reported to Sentry and logged with it: `captureWithTrace` of
-- libs/common/src/bootstrap/telemetry.ts, libs/common/src/observability/log-and-capture.ts, and
-- `installProcessErrorHandlers` of libs/common/src/bootstrap/bootstrap-service.ts.
use nestjs_microservice_mono.Prelude.{
  String, ◌≡◌, refl, Option, none, some, [], ◌∷◌, template, or_else,
}
use nestjs_microservice_mono.Json.{str, Fields, field, end}

-- The tags of `captureWithTrace`.
record Tags : Type 0 where
  trace_tag : String
  origin_tag : String

capture_tags : Option String → Option String → Tags
capture_tags trace origin = record {
  trace_tag = or_else trace "none";
  origin_tag = or_else origin "none";
}

-- `captureException` is given the error, the tags and the extra data.
record Captured (E : Type 0) : Type 0 where
  error : E
  tags : Tags
  extra : Option Fields

capture_with_trace : {E : Type 0} → Option String → Option String → E → Option Fields → Captured E
unfolding capture_tags
capture_with_trace trace origin e extra = record {
  error = e;
  tags = capture_tags trace origin;
  extra = extra;
}

data Level : Type 0 where
  at_warn at_error : Level

-- `warnAndCapture` and `errorAndCapture`: the line, and the report.
log_and_capture :
    {E : Type 0}
    → Level
    → Option String
    → Option String
    → String
    → E
    → Option Fields
    → (Level × String) × Captured E
unfolding capture_with_trace
log_and_capture level trace origin message e context =
    ((level, message), capture_with_trace trace origin e context)

warn_and_capture :
    {E : Type 0}
    → Option String
    → Option String
    → String
    → E
    → Option Fields
    → (Level × String) × Captured E
unfolding log_and_capture
warn_and_capture = log_and_capture at_warn

error_and_capture :
    {E : Type 0}
    → Option String
    → Option String
    → String
    → E
    → Option Fields
    → (Level × String) × Captured E
unfolding log_and_capture
error_and_capture = log_and_capture at_error

-- `installProcessErrorHandlers`: the two events, with the text of what was thrown.
data ProcessEvent : Type 0 where
  unhandled_rejection uncaught_exception : ProcessEvent

process_label : ProcessEvent → String
process_label unhandled_rejection = "unhandledRejection"
process_label uncaught_exception = "uncaughtException"

process_tag : ProcessEvent → String
process_tag unhandled_rejection = "process.unhandled_rejection"
process_tag uncaught_exception = "process.uncaught_exception"

on_process_event :
    {E : Type 0}
    → (E → String)
    → String
    → Option String
    → Option String
    → ProcessEvent
    → E
    → (Level × String) × Captured E
unfolding process_label process_tag error_and_capture
on_process_event shown service_name trace origin event e =
    error_and_capture trace origin
      (template ("[" ∷ service_name ∷ "] " ∷ process_label event ∷ ": " ∷ shown e ∷ [])) e
      (some (field "tag" (str (process_tag event)) end))

warning_test : warn_and_capture {E = String} none (some "user") "slow" "timeout" none ≡ (
  (at_warn, "slow"),
  record {
    error = "timeout";
    tags = record { trace_tag = "none"; origin_tag = "user" };
    extra = none;
  },
)
unfolding warn_and_capture
warning_test = refl

rejection_test :
    (on_process_event {E = String} (λ e. e) "user" none none unhandled_rejection "no broker").0
    ≡ (at_error, "[user] unhandledRejection: no broker")
unfolding on_process_event
rejection_test = refl
