-- ===== src/EventBus.antt =====
-- libs/messaging/src/amqp/event-bus.service.ts (the topology that the bootstrap declares, `publish`,
-- `publishToDeadLetter`), libs/messaging/src/amqp/event-dead-letter.interceptor.ts, the options that
-- libs/messaging/src/messaging.module.ts builds, and `publishEvent` of
-- libs/common/src/services/rpc-client.service.ts.
pub mod Delivery
pub mod Peers
pub mod Boot
use nestjs_microservice_mono.Prelude.{
  ℕ, String, Bool, true, false, Option, none, some, List, [], ◌∷◌, ◌++◌, template, or_else, nat_eq,
  not, ◌==◌, if◌then◌else◌,
}
use nestjs_microservice_mono.Json.{Json, str, obj, Fields, end, field, property}
use nestjs_microservice_mono.Errors.Defs.{Thrown, Outcome, ok, err}
use nestjs_microservice_mono.Entities.{is_some}

-- `getQueuePrefix` is an argument: the deployment's environment gives it.
unfoldable pub prefixed_queue : String → String → String
prefixed_queue prefix queue = template (prefix ∷ "_" ∷ queue ∷ [])

unfoldable pub events_exchange_name : String → String
unfolding prefixed_queue
events_exchange_name prefix = prefixed_queue prefix "events"

unfoldable pub events_dlx_name : String → String
unfolding prefixed_queue
events_dlx_name prefix = prefixed_queue prefix "events.dlx"

pub record EventBusOptions : Type 0 where
  pub self_queue : Option String
  pub subscribes_to : Option (List String)
  pub dead_letter_queue : Option String

-- What the channel's `setup` asks the broker for.
pub data Declaration : Type 0 where
  assert_exchange : String → Declaration
  assert_queue : String → Declaration
  bind_queue : String → String → String → Declaration

bindings : String → String → List String → List Declaration
bindings queue exchange [] = []
bindings queue exchange (p ∷ ps) = bind_queue queue exchange p ∷ bindings queue exchange ps

subscriptions : String → Option String → List String → List Declaration
subscriptions exchange none subs = []
subscriptions exchange (some queue) subs = bindings queue exchange subs

dead_letters : String → Option String → Option String → List Declaration
dead_letters dlx (some dlq) (some queue) = assert_queue dlq ∷ bind_queue dlq dlx queue ∷ []
dead_letters dlx _ _ = []

-- The declarations of `onApplicationBootstrap`, in order.
unfoldable pub topology : String → EventBusOptions → List Declaration
unfolding bindings subscriptions dead_letters events_exchange_name events_dlx_name
topology prefix o =
    assert_exchange (events_exchange_name prefix)
    ∷ assert_exchange (events_dlx_name prefix)
    ∷ (subscriptions (events_exchange_name prefix) o.self_queue (or_else o.subscribes_to [])
        ++ dead_letters (events_dlx_name prefix) o.dead_letter_queue o.self_queue)

-- MessagingModuleOptions, and the providers that `build` makes of them.
pub record MessagingModuleOptions : Type 0 where
  pub self_queue : Option String
  pub subscribes_to : Option (List String)

-- `options.selfQueue ? … : …`: an empty name counts as none.
unfoldable pub nonempty : Option String → Option String
nonempty none = none
nonempty (some q) = if q == "" then none else some q

unfoldable pub bus_options : String → MessagingModuleOptions → EventBusOptions
bus_options prefix m = record {
  self_queue = elim (nonempty m.self_queue) [
    | none ↦ none
    | some q ↦ some (prefixed_queue prefix q)
  ];
  subscribes_to = m.subscribes_to;
  dead_letter_queue = elim (nonempty m.self_queue) [
    | none ↦ none
    | some q ↦ some (prefixed_queue prefix (template (q ∷ ".dlq" ∷ [])))
  ];
}

-- DLQ_SERVICE_NAME
unfoldable pub dlq_service_name : String → MessagingModuleOptions → String
dlq_service_name prefix m = elim (nonempty m.self_queue) [
  | none ↦ "gateway"
  | some q ↦ prefixed_queue prefix q
]

-- A message as it is handed to the channel.
pub record Message : Type 0 where
  pub exchange : String
  pub routing_key : String
  pub pattern_key : String
  pub body : Fields

-- `channel` is null until the bootstrap has created it; it buffers what is published.
pub record EventBus : Type 0 where
  pub channel : Option (List Message)

append_field : String → Json → Fields → Fields
append_field k j end = field k j end
append_field k j (field i v fs) = field i v (append_field k j fs)

-- `'__traceId' in payload ? payload : { ...payload, __traceId }`
unfoldable pub with_trace : String → Fields → Fields
unfolding append_field
with_trace trace fs =
    if is_some (property "__traceId" fs) then fs else append_field "__traceId" (str trace) fs

enqueue : Option (List Message) → Message → Bool × EventBus
enqueue none m = (false, record { channel = none })
enqueue (some queued) m = (true, record { channel = some (queued ++ m ∷ []) })

-- `publish`: fire and forget, so the answer says only whether the bus has a channel.
unfoldable pub publish : String → String → String → Fields → EventBus → Bool × EventBus
unfolding enqueue
publish prefix trace pattern_key payload bus = enqueue bus.channel (record {
  exchange = events_exchange_name prefix;
  routing_key = pattern_key;
  pattern_key = pattern_key;
  body = with_trace trace payload;
})

-- `{ message, name, stack }` of the Error that a handler threw.
pub record ErrorInfo : Type 0 where
  pub message : String
  pub name : String
  pub stack : String

unfoldable pub dead_letter : String → String → String → String → Fields → ErrorInfo → Fields
dead_letter trace now service original payload e = field "service" (str service) (
    field "originalPattern" (str original) (
      field "originalPayload" (obj payload) (
        field "error"
          (obj (
            field "message" (str e.message)
              (field "name" (str e.name) (field "stack" (str e.stack) end))))
          (field "deadLetteredAt" (str now) (field "traceId" (str trace) end)))))

-- The envelope, with the service's name as its routing key.
unfoldable pub failure_letter :
    String → String → String → String → Fields → ErrorInfo → String → Message
failure_letter prefix trace now original payload e service = record {
  exchange = events_dlx_name prefix;
  routing_key = service;
  pattern_key = "dlq.event_handler_failed";
  body = dead_letter trace now service original payload e;
}

unfoldable pub publish_to_dead_letter :
    String → String → String → String → Fields → ErrorInfo → String → EventBus → Bool × EventBus
unfolding enqueue
publish_to_dead_letter prefix trace now original payload e service bus =
    enqueue bus.channel (failure_letter prefix trace now original payload e service)

-- `publishEvent` over the `IEventBus` that the client was given, if any: whether the bus takes the
-- event, drops it or throws, the call returns.
unfoldable pub publish_event :
    Option (String → Fields → Outcome Bool) → String → Fields → Outcome (Unit {0})
publish_event none pattern_key payload = ok tt
publish_event (some bus) pattern_key payload = elim (bus pattern_key payload) [
  | ok accepted ↦ ok tt
  | err e ↦ ok tt
]

-- The interceptor's call, as Nest describes it: the context's type, the handler's kind (2 is
-- PatternHandler.EVENT), the pattern and the data.
pub record Call : Type 0 where
  pub is_rpc : Bool
  pub handler_type : Option ℕ
  pub pattern_key : Option String
  pub body : Fields

record_failure : String → String → String → Option String → Call → ErrorInfo → EventBus → EventBus
record_failure prefix trace now service c e bus =
    (publish_to_dead_letter prefix trace now (or_else c.pattern_key "<unknown>") c.body e
      (or_else service "unknown") bus).1

is_event : Option ℕ → Bool
is_event none = false
is_event (some t) = nat_eq t 2

swallow :
    {A : Type 0}
    → String
    → String
    → String
    → Option String
    → (Thrown → ErrorInfo)
    → Call
    → Outcome (Option A)
    → Option EventBus
    → Outcome (Option A) × Option EventBus
swallow prefix trace now service info c (ok a) bus = (ok a, bus)
swallow prefix trace now service info c (err e) none = (ok none, none)
swallow prefix trace now service info c (err e) (some bus) =
    (ok none, some (record_failure prefix trace now service c (info e) bus))

-- `intercept`: what comes of the handler's result, and the bus afterwards.
unfoldable pub intercept :
    {A : Type 0}
    → String
    → String
    → String
    → Option String
    → (Thrown → ErrorInfo)
    → Call
    → Outcome (Option A)
    → Option EventBus
    → Outcome (Option A) × Option EventBus
unfolding is_event swallow record_failure publish_to_dead_letter
intercept prefix trace now service info c result bus =
    if not c.is_rpc
    then (result, bus)
    else if is_event c.handler_type
    then swallow prefix trace now service info c result bus
    else (result, bus)
