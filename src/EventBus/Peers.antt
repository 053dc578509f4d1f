-- ===== src/EventBus/Peers.antt =====
-- libs/messaging/src/messaging.module.ts (`build` and the clients it provides, `MissingPeerClient`),
-- the queues and tokens of libs/common/src/constants/queue.constants.ts, and `user`, `emit` and
-- `pickClient` of libs/common/src/services/rpc-client.service.ts. What CustomAmqpProxy does with a
-- pattern and a payload is an argument.
use nestjs_microservice_mono.Prelude.{
  ℕ, String, ◌≡◌, refl, Bool, true, false, not, ◌==◌, if◌then◌else◌, Option, none, some, List, [],
  ◌∷◌, ◌++◌, template, keep, any,
}
use nestjs_microservice_mono.Json.{Fields}
use nestjs_microservice_mono.Errors.Codes
use nestjs_microservice_mono.Errors.Defs.{Outcome, ok, err, Thrown, error, http_error}
use nestjs_microservice_mono.Errors.Client.{Observed, threw, Reply, throws, send}
use nestjs_microservice_mono.EventBus.{
  MessagingModuleOptions, EventBusOptions, bus_options, dlq_service_name, prefixed_queue, nonempty,
}
use nestjs_microservice_mono.EventBus.Delivery.{consumer}

-- `keyof typeof SERVICE_TOKENS`
data ServiceKey : Type 0 where
  user_service : ServiceKey

abbrev same_key : ServiceKey → ServiceKey → Bool
same_key user_service user_service = true

abbrev service_token : ServiceKey → String
service_token user_service = "USER_SERVICE"

abbrev all_services : List ServiceKey
all_services = user_service ∷ []

-- `QUEUE_BY_TOKEN[SERVICE_TOKENS[key]]`
abbrev queue_of : ServiceKey → String
queue_of user_service = "user_service_queue"

record ClientOptions : Type 0 where
  token : String
  url : String
  queue : String
  durable : Bool
  no_ack : Bool
  prefetch_count : ℕ

client_options : String → String → ServiceKey → ClientOptions
client_options prefix url key = record {
  token = service_token key;
  url = url;
  queue = prefixed_queue prefix (queue_of key);
  durable = true;
  no_ack = true;
  prefetch_count = 10;
}

-- A value behind a service's token: a client of the transport, or the stand-in for a peer that was
-- not requested.
data Peer : Type 0 where
  connected : ClientOptions → Peer
  missing_peer : String → Peer

registrations : String → String → List ServiceKey → List (String × Peer)
registrations prefix url [] = []
registrations prefix url (k ∷ ks) =
    (service_token k, connected (client_options prefix url k)) ∷ registrations prefix url ks

stubs : List ServiceKey → List (String × Peer)
stubs [] = []
stubs (k ∷ ks) = (service_token k, missing_peer (service_token k)) ∷ stubs ks

stub_providers : List ServiceKey → List (String × Peer)
unfolding stubs
stub_providers peers = stubs (keep (λ k. not (any (same_key k) peers)) all_services)

abbrev nonvoid : List ServiceKey → Bool
nonvoid [] = false
nonvoid (k ∷ ks) = true

-- The dynamic module: the clients that it registers or stands in for, the options of the bus, the
-- name for dead letters, and whether it exports ClientsModule.
record Wiring : Type 0 where
  clients : List (String × Peer)
  bus : EventBusOptions
  service_name : String
  exports_clients : Bool

build : String → String → MessagingModuleOptions → List ServiceKey → Wiring
unfolding stub_providers registrations
build prefix url m peers = record {
  clients = stub_providers peers ++ registrations prefix url peers;
  bus = bus_options prefix m;
  service_name = dlq_service_name prefix m;
  exports_clients = nonvoid peers;
}

-- The gateway requests every service.
for_root : String → String → MessagingModuleOptions → Wiring
unfolding build
for_root prefix url m = build prefix url m all_services

-- What the container injects for a token; with no provider the application does not start.
abbrev inject : String → List (String × Peer) → Option Peer
inject token [] = none
inject token (p ∷ ps) = let rest = inject token ps in if p.0 == token then some p.1 else rest

-- `MissingPeerClient.fail`
not_configured : String → Thrown
not_configured service = error (
    template (
      "RPC to '" ∷ service
      ∷ "' is not configured for this service. Add it to MessagingModule.forPeers([...])." ∷ []))

peer_send :
    {A : Type 0}
    → (ClientOptions → String → Fields → Observed A)
    → Peer
    → String
    → Fields
    → Observed A
unfolding not_configured
peer_send net (connected o) pattern_key payload = net o pattern_key payload
peer_send net (missing_peer service) pattern_key payload = threw (not_configured service)

peer_emit :
    (ClientOptions → String → Fields → Outcome (Unit {0}))
    → Peer
    → String
    → Fields
    → Outcome (Unit {0})
unfolding not_configured
peer_emit net (connected o) pattern_key payload = net o pattern_key payload
peer_emit net (missing_peer service) pattern_key payload = err (not_configured service)

-- `rpc.user(pattern, payload)` over the client that was injected.
rpc_user :
    {A : Type 0}
    → (ClientOptions → String → Fields → Observed A)
    → Option Peer
    → String
    → Fields
    → Option (Reply A)
unfolding peer_send
rpc_user net none pattern_key payload = none
rpc_user net (some client) pattern_key payload =
    some (send "user" (peer_send net client pattern_key payload))

pick_client : Peer → String → Outcome Peer
pick_client user_client service =
    if service == "user"
    then ok user_client
    else err (error (template ("Unknown RPC service '" ∷ service ∷ "'" ∷ [])))

-- An emission's failure, thrown or observed, is logged.
logged : Outcome (Unit {0}) → Outcome (Unit {0})
logged (ok done) = ok tt
logged (err e) = ok tt

-- The client is picked before the `try`; whatever its `emit` does is logged and dropped.
emit :
    (ClientOptions → String → Fields → Outcome (Unit {0}))
    → Peer
    → String
    → String
    → Fields
    → Outcome (Unit {0})
unfolding pick_client peer_emit logged
emit net user_client service pattern_key payload = elim (pick_client user_client service) [
  | err e ↦ err e
  | ok client ↦ logged (peer_emit net client pattern_key payload)
]

-- Whatever peers a service requests, the token of the user service has a provider: a call goes
-- through the transport to the queue of that service when it was requested, and is answered with
-- 503 when it was not.
rpc_user-build :
    (A : Type 0) (net : ClientOptions → String → Fields → Observed A) (prefix url : String)
    (m : MessagingModuleOptions) (peers : List ServiceKey) (pattern_key : String) (payload : Fields)
    → rpc_user net (inject "USER_SERVICE" (build prefix url m peers).clients) pattern_key payload
      ≡ some (
          if any (same_key user_service) peers
          then send "user" (net (client_options prefix url user_service) pattern_key payload)
          else throws
              (http_error 503 Codes.internal_error "Upstream service 'user' is unavailable"))
unfolding rpc_user build client_options send
rpc_user-build A net prefix url m [] pattern_key payload = refl
rpc_user-build A net prefix url m (user_service ∷ ks) pattern_key payload = refl

-- The queue that the gateway's client writes to is the one that the bus of the user service binds,
-- when both run under one prefix.
for_root-consumer :
    (prefix url : String) (m : MessagingModuleOptions) (subs : Option (List String))
    → (o : ClientOptions) × (inject "USER_SERVICE" (for_root prefix url m).clients
        ≡ some (connected o))
      × ((build prefix url (consumer "user_service_queue" subs) []).bus.self_queue ≡ some o.queue)
unfolding for_root client_options bus_options nonempty
for_root-consumer prefix url m subs = (client_options prefix url user_service, refl, refl)

logged-ok : (r : Outcome (Unit {0})) → logged r ≡ ok tt
unfolding logged
logged-ok (ok done) = refl
logged-ok (err e) = refl

-- An emission to the user service returns whether or not its client is configured.
emit-returns :
    (net : ClientOptions → String → Fields → Outcome (Unit {0})) (client : Peer)
    (pattern_key : String) (payload : Fields)
    → emit net client "user" pattern_key payload ≡ ok tt
unfolding emit
emit-returns net client pattern_key payload = logged-ok (peer_emit net client pattern_key payload)
