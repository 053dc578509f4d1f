-- ===== src/Context/Calls.antt =====
-- RpcContextInterceptor.intercept of libs/common/src/interceptors/rpc-context.interceptor.ts and
-- RequestIdInterceptor.intercept of
-- apps/gateway/src/common/interceptors/request-id.interceptor.ts: the context that a handler runs in,
-- what passes on to the subscriber, and the lines of the RPC log. `requestContext.run` is the
-- handler's argument; the elapsed times and the texts of errors are arguments too.
use nestjs_microservice_mono.Prelude.{
  ℕ, ◌+◌, String, ◌≡◌, refl, Bool, true, not, Option, none, some, List, [], ◌∷◌, length, template,
  decimal, arith, if◌then◌else◌,
}
use nestjs_microservice_mono.Json.{Json, Fields, str}
use nestjs_microservice_mono.Errors.Defs.{Thrown}
use nestjs_microservice_mono.Context.{request_trace, received_trace, extract_pattern}

-- The store that AsyncLocalStorage holds for a call.
record RequestContext : Type 0 where
  trace_id : Json
  origin : String

-- What a handler's observable does: it emits values, each some milliseconds after the start, and
-- completes or fails.
data Stream (A : Type 0) : Type 0 where
  completes : Stream A
  fails : ℕ → Thrown → Stream A
  emits : ℕ → A → Stream A → Stream A

ok_line : String → ℕ → String
ok_line pattern elapsed = template ("→ " ∷ pattern ∷ " ok (" ∷ decimal elapsed ∷ "ms)" ∷ [])

err_line : (Thrown → String) → String → ℕ → Thrown → String
err_line named pattern elapsed e =
    template ("→ " ∷ pattern ∷ " err " ∷ named e ∷ " (" ∷ decimal elapsed ∷ "ms)" ∷ [])

-- The lines of `tap`.
tap_lines : {A : Type 0} → (Thrown → String) → String → Stream A → List String
unfolding ok_line err_line
tap_lines named pattern completes = []
tap_lines named pattern (fails elapsed e) = err_line named pattern elapsed e ∷ []
tap_lines named pattern (emits elapsed a rest) =
    ok_line pattern elapsed ∷ tap_lines named pattern rest

-- The message: its payload, the label that `extractPattern` finds, and a fresh id.
record RpcCall : Type 0 where
  payload : Json
  from_context : Option Json
  from_metadata : Json
  handler_name : String
  generated : String

-- `intercept` of the services. Without a context the handler runs in none.
intercept_rpc :
    {A : Type 0}
    → (String → Fields)
    → (Json → String)
    → (Thrown → String)
    → String
    → Bool
    → RpcCall
    → (Option RequestContext → Stream A)
    → Stream A × List String
unfolding tap_lines received_trace extract_pattern
intercept_rpc own stringify named service_name is_rpc call handle =
    let context : RequestContext = record {
      trace_id = received_trace own call.generated call.payload;
      origin = service_name;
    } in
    let pattern =
      extract_pattern stringify call.from_context call.from_metadata call.handler_name in
    if not is_rpc then (handle none, []) else (
      handle (some context),
      template ("← " ∷ pattern ∷ []) ∷ tap_lines named pattern (handle (some context)),
    )

-- `intercept` of the gateway: the request's id, and what passes on.
intercept_http :
    {A : Type 0}
    → Bool
    → Option String
    → String
    → (Option RequestContext → Stream A)
    → Option String × Stream A
intercept_http is_http header generated handle =
    let trace = request_trace header generated in
    if not is_http
    then (none, handle none)
    else (some trace, handle (some (record { trace_id = str trace; origin = "gateway" })))

-- How often a stream emits or fails.
abbrev signals : {A : Type 0} → Stream A → ℕ
signals completes = 0
signals (fails elapsed e) = 1
signals (emits elapsed a rest) = 1 + signals rest

length-tap_lines :
    {A : Type 0} (named : Thrown → String) (pattern : String) (s : Stream A)
    → length (tap_lines named pattern s) ≡ signals s
unfolding tap_lines
length-tap_lines named pattern completes = refl
length-tap_lines named pattern (fails elapsed e) = refl
length-tap_lines named pattern (emits elapsed a rest) =
    let more = length-tap_lines named pattern rest in omega arith

-- A handler of a service runs in the trace of its message under the service's name; what it emits passes
-- on unchanged, and it leaves a line at its start and one for each value or error.
intercept_rpc_lem :
    {A : Type 0} (own : String → Fields) (stringify : Json → String) (named : Thrown → String)
    (service_name : String) (call : RpcCall) (handle : Option RequestContext → Stream A)
    → (context : RequestContext) × ((intercept_rpc own stringify named service_name true call
          handle).0
        ≡ handle (some context))
      × (context.trace_id ≡ received_trace own call.generated call.payload)
      × (context.origin ≡ service_name)
      × (length (intercept_rpc own stringify named service_name true call handle).1
          ≡ 1 + signals (handle (some context)))
unfolding intercept_rpc
intercept_rpc_lem own stringify named service_name call handle =
    let context : RequestContext = record {
      trace_id = received_trace own call.generated call.payload;
      origin = service_name;
    } in
    let count =
      length-tap_lines named
        (extract_pattern stringify call.from_context call.from_metadata call.handler_name)
        (handle (some context)) in
    (context, refl, refl, refl, omega arith)

-- A request's own trace id reaches its handler, and the id is the request's.
header_test :
    intercept_http {A = ℕ} true
      (some "t1")
      "t2"
      (λ context. emits 3 (elim context [ none ↦ 0 | some c ↦ 1 ]) completes)
    ≡ (some "t1", emits 3 1 completes)
unfolding intercept_http
header_test = refl
