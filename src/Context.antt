-- ===== src/Context.antt =====
-- The trace id of a request on its way through the services:
-- apps/gateway/src/common/interceptors/request-id.interceptor.ts, the client in
-- libs/messaging/src/amqp/custom-amqp-proxy.ts, and
-- libs/common/src/interceptors/rpc-context.interceptor.ts. A generated id is an argument.
pub mod Traces
pub mod Calls
use nestjs_microservice_mono.Prelude.{
  ℕ, ◌+◌, String, ◌≡◌, refl, Bool, true, false, not, Option, none, some, nat_eq, or_else, ◌==◌,
  decimal, if◌then◌else◌,
}
use nestjs_microservice_mono.Json.{
  Json, undefined, null, bool, num, str, opaque, arr, obj, Items, nil, cons, Fields, end, field,
  property,
}

-- `request.headers['x-trace-id'] ?? generateTraceId()`
abbrev pub request_trace : Option String → String → String
request_trace header generated = or_else header generated

-- `getOrCreateTraceId()`: the trace id of the request's context, if there is one.
abbrev pub current_trace : Option String → String → String
current_trace stored generated = or_else stored generated

-- A value in a condition.
unfoldable pub is_truthy : Json → Bool
is_truthy undefined = false
is_truthy null = false
is_truthy (bool b) = b
is_truthy (num n) = not (nat_eq n 0)
is_truthy (str s) = not (s == "")
is_truthy (opaque s) = true
is_truthy (arr vs) = true
is_truthy (obj fs) = true

-- The entries of an array under its indices, as `{ ...array }` copies them.
unfoldable pub indexed : ℕ → Items → Fields
indexed n nil = end
indexed n (cons v vs) = field (decimal n) v (indexed (n + 1) vs)

-- `{ ...o, [k]: v }`: an entry keeps its place, a new one comes last.
unfoldable pub with_entry : String → Json → Fields → Fields
with_entry k v end = field k v end
with_entry k v (field j w fs) =
    let rest = with_entry k v fs in if j == k then field j v fs else field j w rest

abbrev pub trace_key : String
trace_key = "__traceId"

-- `obj['__traceId']` of the entries.
abbrev pub trace_entry : Fields → Json
trace_entry fs = or_else (property trace_key fs) undefined

abbrev pub attach_to : String → Json → Fields → Json
attach_to trace payload fs =
    if is_truthy (trace_entry fs) then payload else obj (with_entry trace_key (str trace) fs)

abbrev pub id_or : Json → String → Json
id_or undefined generated = str generated
id_or null generated = str generated
id_or v generated = v

-- The entries of a Buffer, a Date or an Error are an argument.
module _ (own : String → Fields) where
  -- The entries of an object, and `null` for a value that has none.
  unfoldable pub entries : Json → Option Fields
  unfolding indexed
  entries (obj fs) = some fs
  entries (arr vs) = some (indexed 0 vs)
  entries (opaque s) = some (own s)
  entries _ = none

  -- `attachTraceId`
  unfoldable pub attach_trace_id : String → Json → Json
  unfolding entries is_truthy with_entry
  attach_trace_id trace undefined = obj (field trace_key (str trace) end)
  attach_trace_id trace null = obj (field trace_key (str trace) end)
  attach_trace_id trace payload = elim (entries payload) [
    | none ↦ payload
    | some fs ↦ attach_to trace payload fs
  ]

  -- `(getData() ?? {}).__traceId ?? generateTraceId()` of RpcContextInterceptor.
  unfoldable pub received_trace : String → Json → Json
  unfolding entries
  received_trace generated payload = elim (entries payload) [
    | none ↦ str generated
    | some fs ↦ id_or (trace_entry fs) generated
  ]

-- `extractPattern`: the broker's routing key, the handler's metadata, or its name.
abbrev pub is_given : Json → Bool
is_given undefined = false
is_given null = false
is_given (str s) = not (s == "")
is_given _ = true

abbrev pub label : (Json → String) → Json → String
label stringify (str s) = s
label stringify v = stringify v

unfoldable pub extract_pattern : (Json → String) → Option Json → Json → String → String
extract_pattern stringify from_context from_metadata name =
    if is_given (or_else from_context undefined)
    then label stringify (or_else from_context undefined)
    else if is_given from_metadata
    then label stringify from_metadata
    else if name == ""
    then "unknown"
    else name
