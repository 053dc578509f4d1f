-- ===== src/Startup/Services.antt =====
-- libs/common/src/bootstrap/bootstrap-service.ts: the transport of a microservice and its shutdown, and
-- libs/common/src/observability/metrics-server.ts: where metrics are served. `Number` is an argument.
use nestjs_microservice_mono.Prelude.{
  ℕ, ◌≡◌, String, Bool, true, false, ◌||◌, Option, none, some, or_else, truthy, Bool-cases, inl,
  inr, ◌==◌, if◌then◌else◌,
}
use nestjs_microservice_mono.Errors.Defs.{Outcome, ok, err}
use nestjs_microservice_mono.Config.{Env}
use nestjs_microservice_mono.Config.Numbers.{ℤ, pos, below, Number, integer, not_integer}
use nestjs_microservice_mono.EventBus.{prefixed_queue}

record BootstrapOptions : Type 0 where
  queue : String
  service_name : String
  prefetch_count : Option ℕ

record ServiceTransport : Type 0 where
  url : String
  queue_name : String
  durable : Bool
  prefetch : ℕ
  no_ack : Bool

bootstrap_service : Env → String → BootstrapOptions → ServiceTransport
unfolding prefixed_queue
bootstrap_service env prefix o = record {
  url = or_else (env "RABBITMQ_URL") "amqp://localhost:5672";
  queue_name = prefixed_queue prefix o.queue;
  durable = true;
  prefetch = or_else o.prefetch_count 10;
  no_ack = true;
}

-- `shutdown`: the exit code, by the outcome of `app.close()`; stopping the metrics never fails.
shutdown : Outcome (Unit {0}) → ℕ
shutdown (ok done) = 0
shutdown (err e) = 1

-- `Number.isInteger(port) && port > 0 && port <= 65535`, or none.
valid_port : Number → Option ℤ
valid_port not_integer = none
valid_port (integer p) = if below p (pos 1) || below (pos 65535) p then none else some p

start_metrics_server : (String → Number) → Env → Option ℤ
unfolding valid_port
start_metrics_server to_number env =
    if truthy (env "METRICS_PORT")
    then valid_port (to_number (or_else (env "METRICS_PORT") ""))
    else none

-- What the listener answers.
data MetricsAnswer : Type 0 where
  rendered : String → MetricsAnswer
  status_only : ℕ → MetricsAnswer

metrics_answer : Option String → Outcome String → MetricsAnswer
metrics_answer none body = status_only 404
metrics_answer (some url) body =
    if url == "/metrics"
    then elim body [ ok text ↦ rendered text | err e ↦ status_only 500 ]
    else status_only 404

valid_port_bounds :
    (n : Number) (p : ℤ)
    → valid_port n ≡ some p
    → (below p (pos 1) ≡ false) × (below (pos 65535) p ≡ false)
unfolding valid_port
valid_port_bounds not_integer p h = cc
valid_port_bounds (integer k) p h = elim (Bool-cases (below k (pos 1))) [
  | inl low ↦ cc (rw low at h)
  | inr fits ↦ elim (Bool-cases (below (pos 65535) k)) [
    | inl high ↦ cc (rw (fits, high) at h)
    | inr fits' ↦ let same : k ≡ p = cc (rw (fits, fits') at h) in rw (← same) (fits, fits')
  ]
]

-- Metrics are only served on a port from 1 to 65535.
start_metrics_server_bounds :
    (to_number : String → Number) (env : Env) (p : ℤ)
    → start_metrics_server to_number env ≡ some p
    → (below p (pos 1) ≡ false) × (below (pos 65535) p ≡ false)
unfolding start_metrics_server
start_metrics_server_bounds to_number env p h = elim (Bool-cases (truthy (env "METRICS_PORT"))) [
  | inl given ↦ valid_port_bounds (to_number (or_else (env "METRICS_PORT") "")) p (rw given at h)
  | inr absent ↦ cc (rw absent at h)
]
