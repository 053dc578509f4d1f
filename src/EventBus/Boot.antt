-- ===== src/EventBus/Boot.antt =====
-- The connection of libs/messaging/src/amqp/event-bus.service.ts: the wait of
-- `onApplicationBootstrap` for its first connect, and `onModuleDestroy`. The URL without its
-- credentials, as `maskAmqpUrl` logs it, is an argument, and so is what `Number` makes of a text.
use nestjs_microservice_mono.Prelude.{
  ℕ, ◌+◌, String, ◌≡◌, ◌≢◌, refl, ap, ◌∙◌, inl, inr, Bool, true, false, Option, none, some, List,
  [], ◌∷◌, In, template, decimal, arith, if◌then◌else◌,
}
use nestjs_microservice_mono.Json.{Fields}
use nestjs_microservice_mono.Errors.Defs.{Outcome, ok, err, Thrown, error}
use nestjs_microservice_mono.Config.{Env}
use nestjs_microservice_mono.EventBus.{EventBus, Message, publish, enqueue}

-- `timeoutMs > 0`: the milliseconds, or none where the limit is off or no number.
boot_timeout : (String → Option ℕ) → Env → Option ℕ
boot_timeout positive env = elim (env "RMQ_BOOT_TIMEOUT_MS") [
  | none ↦ some 60000
  | some s ↦ positive s
]

-- What may happen while the service waits: a tick of the watchdog, the limit, or the channel.
data Signal : Type 0 where
  heartbeat expiry connect : Signal

-- The wait: still on, or over with a result.
data Wait : Type 0 where
  still : Wait
  settled : Outcome (Unit {0}) → Wait

timed_out : String → ℕ → Thrown
timed_out masked ms = error (
    template (
      "event-bus: RMQ connect did not succeed within "
      ∷ decimal ms
      ∷ "ms (url="
      ∷ masked
      ∷ ")"
      ∷ []))

-- `Promise.race` over the signals as they come, with the heartbeats that were logged. Once it is
-- settled, both timers are cleared.
await_connect : String → Option ℕ → List Signal → Wait × ℕ
unfolding timed_out
await_connect masked limit [] = (still, 0)
await_connect masked limit (connect ∷ signals) = (settled (ok tt), 0)
await_connect masked none (expiry ∷ signals) = await_connect masked none signals
await_connect masked (some ms) (expiry ∷ signals) = (settled (err (timed_out masked ms)), 0)
await_connect masked limit (heartbeat ∷ signals) =
    let (w, beats) = await_connect masked limit signals in (w, beats + 1)

-- The service's two handles.
record Connection : Type 0 where
  bus : EventBus
  connected : Bool

-- Both handles are there before the wait begins.
on_application_bootstrap : (String → Option ℕ) → Env → String → List Signal → Connection × Wait × ℕ
unfolding await_connect boot_timeout
on_application_bootstrap positive env masked signals =
    let (w, beats) = await_connect masked (boot_timeout positive env) signals in
    (record { bus = record { channel = some [] }; connected = true }, w, beats)

-- `onModuleDestroy`, with what the two `close` calls do.
close_connection : Outcome (Unit {0}) → Connection → Outcome (Unit {0}) × Connection
close_connection closing c =
    if c.connected
    then elim closing [ err e ↦ (err e, c) | ok done ↦ (ok tt, record c { connected = false }) ]
    else (ok tt, c)

close_channel :
    Option (List Message)
    → Outcome (Unit {0})
    → Outcome (Unit {0})
    → Connection
    → Outcome (Unit {0}) × Connection
unfolding close_connection
close_channel none channel_closing closing c = close_connection closing c
close_channel (some queued) (err e) closing c = (err e, c)
close_channel (some queued) (ok done) closing c =
    close_connection closing (record c { bus = record { channel = none } })

destroy_connection :
    Outcome (Unit {0}) → Outcome (Unit {0}) → Connection → Outcome (Unit {0}) × Connection
unfolding close_channel
destroy_connection channel_closing closing c = close_channel c.bus.channel channel_closing closing c

-- With the limit on, the wait is over once it has passed.
await_connect-settles :
    (masked : String) (ms : ℕ) (signals : List Signal)
    → In expiry signals
    → (r : Outcome (Unit {0})) × ((await_connect masked (some ms) signals).0 ≡ settled r)
unfolding await_connect
await_connect-settles masked ms [] i = elim i [ ]
await_connect-settles masked ms (connect ∷ signals) i = (ok tt, refl)
await_connect-settles masked ms (expiry ∷ signals) i = (err (timed_out masked ms), refl)
await_connect-settles masked ms (heartbeat ∷ signals) (inl e) = cc
await_connect-settles masked ms (heartbeat ∷ signals) (inr i) =
    await_connect-settles masked ms signals i

-- With the limit off, the wait never ends in an error.
await_connect-patient :
    (masked : String) (signals : List Signal) (e : Thrown)
    → (await_connect masked none signals).0 ≢ settled (err e)
unfolding await_connect
await_connect-patient masked [] e h = cc
await_connect-patient masked (connect ∷ signals) e h = cc
await_connect-patient masked (expiry ∷ signals) e h = await_connect-patient masked signals e h
await_connect-patient masked (heartbeat ∷ signals) e h = await_connect-patient masked signals e h

closed-channel :
    (closing : Outcome (Unit {0})) (c d : Connection)
    → close_connection closing c ≡ (ok tt, d)
    → d.bus ≡ c.bus
unfolding close_connection
closed-channel closing c d h = ground arith

dropped :
    (channel : Option (List Message)) (channel_closing closing : Outcome (Unit {0}))
    (c d : Connection)
    → c.bus.channel ≡ channel
    → close_channel channel channel_closing closing c ≡ (ok tt, d)
    → d.bus.channel ≡ none
unfolding close_channel
dropped none channel_closing closing c d e h =
    ap (λ (b : EventBus). b.channel) (closed-channel closing c d h) ∙ e
dropped (some queued) (err x) closing c d e h = cc
dropped (some queued) (ok done) closing c d e h =
    ap (λ (b : EventBus). b.channel)
      (closed-channel closing (record c { bus = record { channel = none } }) d h)

publish-dropped :
    (prefix trace pattern_key : String) (payload : Fields) (b : EventBus)
    → b.channel ≡ none
    → (publish prefix trace pattern_key payload b).0 ≡ false
unfolding publish
publish-dropped prefix trace pattern_key payload b gone = rw (gone, enqueue) refl

-- After a shutdown that succeeds, an event is not taken any more.
publish-destroy_connection :
    (prefix trace pattern_key : String) (payload : Fields)
    (channel_closing closing : Outcome (Unit {0})) (c d : Connection)
    → destroy_connection channel_closing closing c ≡ (ok tt, d)
    → (publish prefix trace pattern_key payload d.bus).0 ≡ false
unfolding destroy_connection
publish-destroy_connection prefix trace pattern_key payload channel_closing closing c d h =
    publish-dropped prefix trace pattern_key payload d.bus
      (dropped c.bus.channel channel_closing closing c d refl h)
