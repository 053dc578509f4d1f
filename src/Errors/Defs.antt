-- ===== src/Errors/Defs.antt =====
-- The error codes, the wire payload, and the values that are thrown.
use nestjs_microservice_mono.Prelude.{ℕ, String, Option, none, some, List, nat_eq, if◌then◌else◌}
use nestjs_microservice_mono.Json.{Fields}
use nestjs_microservice_mono.Errors.Codes

-- The `__rpcError: true` marker is the constructor that carries the payload.
pub record RpcErrorPayload : Type 0 where
  pub status : ℕ
  pub code : String
  pub message : String
  pub details : Option Fields
  pub trace_id : Option String

-- The body of a Nest HttpException: a text, or an object with optional fields.
pub record HttpObject : Type 0 where
  pub message : Option String
  pub code : Option String
  pub details : Option Fields

pub data HttpBody : Type 0 where
  text : String → HttpBody
  object : HttpObject → HttpBody

pub record HttpException : Type 0 where
  pub status : ℕ
  pub body : HttpBody
  pub message : String

-- A MongoServerError: `keyPattern` names the fields of the index that fired.
pub record MongoError : Type 0 where
  pub code : ℕ
  pub key_pattern : Option (List String)
  pub message : String

-- What a `catch` may see. `timeout` is the rxjs TimeoutError, `payload` a plain object off the wire
-- with `__rpcError: true`, and `envelope` one whose `error` property is such an object.
pub data Thrown : Type 0 where
  microservice : RpcErrorPayload → Thrown
  http : HttpException → Thrown
  rpc : String → Thrown
  timeout : String → Thrown
  mongo : MongoError → Thrown
  error : String → Thrown
  payload : RpcErrorPayload → Thrown
  envelope : RpcErrorPayload → Option String → Thrown
  other : Thrown

-- `isRpcErrorPayload`, with the value that its type guard narrows to.
abbrev pub rpc_payload : Thrown → Option RpcErrorPayload
rpc_payload (payload p) = some p
rpc_payload _ = none

-- `isRpcErrorPayload(err.error)`: an RpcException keeps its payload in `error`.
abbrev pub error_payload : Thrown → Option RpcErrorPayload
error_payload (envelope p m) = some p
error_payload (microservice p) = some p
error_payload _ = none

-- The constructor of MicroserviceException as its callers in the services use it.
abbrev pub exception : ℕ → String → String → Option Fields → Thrown
exception s c m d =
    microservice (record { status = s; code = c; message = m; details = d; trace_id = none })

-- MicroserviceException.notFound, .conflict and .badRequest
abbrev pub not_found : String → Thrown
not_found m = exception 404 Codes.not_found_code m none

abbrev pub conflict : String → Thrown
conflict m = exception 409 Codes.conflict_code m none

abbrev pub bad_request : String → Thrown
bad_request m = exception 400 Codes.validation_error m none

-- `err.message`
abbrev pub message_of : Thrown → Option String
message_of (microservice p) = some p.message
message_of (http e) = some e.message
message_of (rpc m) = some m
message_of (timeout m) = some m
message_of (mongo e) = some e.message
message_of (error m) = some m
message_of (payload p) = some p.message
message_of (envelope p m) = m
message_of other = none

-- `statusToCode` of the RPC filter and of the HTTP filter (the same switch).
unfoldable pub status_to_code : ℕ → String
status_to_code s =
    if nat_eq s 400
    then Codes.validation_error
    else if nat_eq s 401
    then Codes.unauthorized
    else if nat_eq s 403
    then Codes.forbidden
    else if nat_eq s 404
    then Codes.not_found_code
    else if nat_eq s 409
    then Codes.conflict_code
    else if nat_eq s 429
    then Codes.rate_limited
    else Codes.internal_error

-- An HttpException built from `{ code, message }`, as the gateway throws it.
abbrev pub http_error : ℕ → String → String → Thrown
http_error s c m = http (record {
  status = s;
  body = object (record { message = some m; code = some c; details = none });
  message = m;
})

abbrev pub unauthorized_error : String → String → Thrown
unauthorized_error c m = http_error 401 c m

abbrev pub unavailable_error : String → String → Thrown
unavailable_error c m = http_error 503 c m

-- A result, or an exception.
pub data Outcome {ℓ} (A : Type ℓ) : Type ℓ where
  ok : A → Outcome A
  err : Thrown → Outcome A
