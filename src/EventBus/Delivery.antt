-- ===== src/EventBus/Delivery.antt =====
-- The way of an event handler's failure to the dead-letter queue.
use nestjs_microservice_mono.Prelude.{
  String, ◌≡◌, ◌≢◌, refl, inl, inr, true, ◌==◌, eq_iff, Bool-cases, Option, none, some, List, [],
  ◌∷◌, ◌++◌, In, or_else, template,
}
use nestjs_microservice_mono.Errors.Defs.{Thrown, ok, err}
use nestjs_microservice_mono.EventBus.{
  MessagingModuleOptions, bus_options, dlq_service_name, nonempty, bind_queue, assert_queue,
  events_exchange_name, topology, Message, ErrorInfo, Call, intercept, failure_letter,
  prefixed_queue, events_dlx_name, subscriptions,
}

In-append_last : {A : Type 0} (a y : A) (xs : List A) → In a (xs ++ y ∷ a ∷ [])
In-append_last a y [] = inr (inl refl)
In-append_last a y (x ∷ xs) = inr (In-append_last a y xs)

-- The options of a service that consumes a queue.
abbrev pub consumer : String → Option (List String) → MessagingModuleOptions
consumer queue subs = record { self_queue = some queue; subscribes_to = subs }

nonempty-some : (queue : String) → queue ≢ "" → nonempty (some queue) ≡ some queue
unfolding nonempty
nonempty-some queue named = elim (Bool-cases (queue == "")) [
  | inl empty ↦ absurd (named ((eq_iff queue "").0 empty))
  | inr given ↦ rw given
]

module _ (prefix queue : String) (subs : Option (List String)) (named : queue ≢ "") where
  dlq_service_name-consumer :
      dlq_service_name prefix (consumer queue subs) ≡ prefixed_queue prefix queue
  unfolding dlq_service_name
  dlq_service_name-consumer = rw (nonempty-some queue named, dlq_service_name)

  bus_options-consumer : bus_options prefix (consumer queue subs) ≡ record {
    self_queue = some (prefixed_queue prefix queue);
    subscribes_to = subs;
    dead_letter_queue = some (prefixed_queue prefix (template (queue ∷ ".dlq" ∷ [])));
  }
  unfolding bus_options
  bus_options-consumer = rw (nonempty-some queue named)

-- A service that consumes a queue, under a name that is not empty, has a dead-letter queue,
-- bound to the dead-letter exchange under the very routing key that the interceptor gives to a
-- failure of one of its event handlers: the call is answered with nothing, and one message with
-- that key is added to the channel.
pub failed_event-IsRouted :
    (A : Type 0) (prefix queue trace now : String) (subs : Option (List String))
    (info : Thrown → ErrorInfo) (c : Call) (e : Thrown) (queued : List Message)
    → queue ≢ ""
    → c.is_rpc ≡ true
    → c.handler_type ≡ some 2
    → (letter : Message) × (dlq : String) × (intercept {A = A} prefix trace now
          (some (dlq_service_name prefix (consumer queue subs)))
          info
          c
          (err e)
          (some (record { channel = some queued }))
        ≡ (ok none, some (record { channel = some (queued ++ letter ∷ []) })))
      × (letter.exchange ≡ events_dlx_name prefix)
      × In
          (bind_queue dlq letter.exchange letter.routing_key)
          (topology prefix (bus_options prefix (consumer queue subs)))
unfolding intercept topology failure_letter
failed_event-IsRouted A prefix queue trace now subs info c e queued named is_rpc event =
    rw
      (
        dlq_service_name-consumer prefix queue subs named,
        bus_options-consumer prefix queue subs named,
        is_rpc,
        event,
      )
      (
        failure_letter prefix trace now (or_else c.pattern_key "<unknown>") c.body (info e)
            (prefixed_queue prefix queue),
        prefixed_queue prefix (template (queue ∷ ".dlq" ∷ [])),
        refl,
        refl,
        inr (
            inr (
              In-append_last
                (bind_queue (prefixed_queue prefix (template (queue ∷ ".dlq" ∷ [])))
                  (events_dlx_name prefix) (prefixed_queue prefix queue))
                (assert_queue (prefixed_queue prefix (template (queue ∷ ".dlq" ∷ []))))
                (subscriptions (events_exchange_name prefix) (some (prefixed_queue prefix queue))
                  (or_else subs [])))),
      )
