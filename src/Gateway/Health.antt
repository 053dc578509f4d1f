-- ===== src/Gateway/Health.antt =====
-- apps/gateway/src/modules/health/health.controller.ts: the indicators and the two probes. What the
-- Redis and the RabbitMQ client do is an argument, as is the reply of the user service to a ping;
-- HealthCheckService runs the indicators and is not modelled.
use nestjs_microservice_mono.Prelude.{
  String, ◌≡◌, refl, ap, Bool, true, false, ◌&&◌, ◌==◌, if◌then◌else◌, Option, none, some, List, [],
  ◌∷◌, arith, template, truthy, or_else, Bool-cases, eq_iff, inl, inr,
}
use nestjs_microservice_mono.Errors.Defs.{Outcome, ok, err, Thrown, error, message_of}
use nestjs_microservice_mono.Errors.Client.{Reply, returns, throws}

record Indicator : Type 0 where
  component : String
  is_up : Bool
  remark : Option String
  reason : Option String

abbrev up : String → Option String → Indicator
up component remark = record { component = component; is_up = true; remark = remark; reason = none }

abbrev down : String → Thrown → Indicator
down component e = record {
  component = component;
  is_up = false;
  remark = none;
  reason = message_of e;
}

-- What the disposable Redis client does: its `connect`, and the reply to its `ping`.
record RedisClient : Type 0 where
  connection : Outcome (Unit {0})
  pong : Outcome String

greeted : Outcome String → Outcome (Unit {0})
greeted (err e) = err e
greeted (ok reply) =
    if reply == "PONG" then ok tt else err (error (template ("unexpected reply: " ∷ reply ∷ [])))

session_of : Outcome (Unit {0}) → Outcome String → Outcome (Unit {0})
unfolding greeted
session_of (err e) pong = err e
session_of (ok opened) pong = greeted pong

abbrev redis_session : RedisClient → Outcome (Unit {0})
redis_session c = session_of c.connection c.pong

-- `amqp.connect`, and the `close` of the connection it gave.
record RabbitClient : Type 0 where
  rabbit_connection : Outcome (Unit {0})
  closing : Outcome (Unit {0})

rabbit_session : RabbitClient → Outcome (Unit {0})
rabbit_session c = elim c.rabbit_connection [ err e ↦ err e | ok opened ↦ c.closing ]

indicator : String → Outcome (Unit {0}) → Indicator
indicator component (ok done) = up component none
indicator component (err e) = down component e

ping_redis : Option String → (String → RedisClient) → Indicator
unfolding session_of indicator
ping_redis url clients =
    if truthy url
    then indicator "redis" (redis_session (clients (or_else url "")))
    else up "redis" (some "REDIS_URL unset — skipped")

ping_rabbit : Option String → (String → RabbitClient) → Indicator
unfolding rabbit_session indicator
ping_rabbit url clients =
    if truthy url
    then indicator "rabbit" (rabbit_session (clients (or_else url "")))
    else up "rabbit" (some "RABBITMQ_URL unset — skipped")

ping_service : {A : Type 0} → String → Reply A → Indicator
ping_service service (returns a) = up service none
ping_service service (throws e) = down service e

abbrev returned : {A : Type 0} → Reply A → Bool
returned (returns a) = true
returned (throws e) = false

abbrev all_up : List Indicator → Bool
all_up [] = true
all_up (i ∷ is) = i.is_up && all_up is

and_last : (a b c : Bool) → (a && (b && (c && true))) ≡ ((a && (b && true)) && c)
and_last a b c = ground arith

module _ (redis rabbit : Option String) (r : String → RedisClient) (q : String → RabbitClient) where
  -- `live`
  live_probe : List Indicator
  unfolding ping_redis ping_rabbit
  live_probe = ping_redis redis r ∷ ping_rabbit rabbit q ∷ []

  -- `check`, with the reply of the user service to its ping.
  check : {A : Type 0} → Reply A → List Indicator
  unfolding ping_redis ping_rabbit ping_service
  check reply = ping_redis redis r ∷ ping_rabbit rabbit q ∷ ping_service "user" reply ∷ []

  -- The readiness probe finds all up exactly when the liveness probe does and the user service has
  -- answered its ping.
  check-live_probe :
      {A : Type 0} (reply : Reply A) → all_up (check reply) ≡ all_up live_probe && returned reply
  unfolding check live_probe ping_service
  check-live_probe (returns a) =
      and_last (ping_redis redis r).is_up (ping_rabbit rabbit q).is_up true
  check-live_probe (throws e) =
      and_last (ping_redis redis r).is_up (ping_rabbit rabbit q).is_up false

pinged-IsPong :
    (connection : Outcome (Unit {0})) (pong : Outcome String)
    → (indicator "redis" (session_of connection pong)).is_up ≡ true
    → (connection ≡ ok tt) × (pong ≡ ok "PONG")
unfolding indicator session_of greeted
pinged-IsPong (err e) pong h = cc
pinged-IsPong (ok opened) (err e) h = cc
pinged-IsPong (ok opened) (ok reply) h = elim (Bool-cases (reply == "PONG")) [
  | inl same ↦ (refl, ap ok ((eq_iff reply "PONG").0 same))
  | inr other ↦ cc (rw other at h)
]

-- A configured Redis is reported as up only if the connection was made and the reply was PONG.
ping_redis-IsPong :
    (url : String) (clients : String → RedisClient)
    → truthy (some url) ≡ true
    → (ping_redis (some url) clients).is_up ≡ true
    → ((clients url).connection ≡ ok tt) × ((clients url).pong ≡ ok "PONG")
unfolding ping_redis
ping_redis-IsPong url clients named h =
    pinged-IsPong (clients url).connection (clients url).pong (rw named at h)
