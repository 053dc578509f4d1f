-- ===== src/Errors/Client.antt =====
-- libs/common/src/services/rpc-client.service.ts: what the gateway throws for an error of an RPC
-- call. What the client's observable does is an argument.
use nestjs_microservice_mono.Prelude.{String, ◌≡◌, refl, ap, some, [], ◌∷◌, template}
use nestjs_microservice_mono.Errors.Codes
use nestjs_microservice_mono.Errors.Defs.{
  RpcErrorPayload, object, HttpException, Thrown, microservice, http, timeout, payload, envelope,
  http_error,
}

-- `new HttpException({ statusCode, code, message, details }, status)`
unfoldable pub rehydrate : RpcErrorPayload → Thrown
rehydrate p = http (record {
  status = p.status;
  body = object (record { message = some p.message; code = some p.code; details = p.details });
  message = p.message;
})

unfoldable pub unwrap_error : String → Thrown → Thrown
unfolding rehydrate
unwrap_error service (timeout m) =
    http_error 504 Codes.internal_error
      (template ("Upstream service '" ∷ service ∷ "' timed out" ∷ []))
unwrap_error service (payload p) = rehydrate p
unwrap_error service (envelope p m) = rehydrate p
unwrap_error service (microservice p) = rehydrate p
unwrap_error service e =
    http_error 503 Codes.internal_error
      (template ("Upstream service '" ∷ service ∷ "' is unavailable" ∷ []))

-- What `client.send(...).pipe(timeout(timeoutMs))` does: it yields a value, fails, completes with
-- no value, or `client.send` itself throws.
pub data Observed (A : Type 0) : Type 0 where
  value : A → Observed A
  stream_error : Thrown → Observed A
  completed : Thrown → Observed A
  threw : Thrown → Observed A

pub data Reply (A : Type 0) : Type 0 where
  returns : A → Reply A
  throws : Thrown → Reply A

-- The outer `catch` of `send`.
pub rethrow : {A : Type 0} → String → Thrown → Reply A
rethrow service (http e) = throws (http e)
rethrow service e = throws (unwrap_error service e)

unfoldable pub send : {A : Type 0} → String → Observed A → Reply A
unfolding rethrow unwrap_error
send service (value a) = returns a
send service (stream_error e) = rethrow service (unwrap_error service e)
send service (completed e) = rethrow service e
send service (threw e) = rethrow service e

unwrap_error-IsHttp :
    (service : String) (e : Thrown) → (h : HttpException) × (unwrap_error service e ≡ http h)
unfolding unwrap_error
unwrap_error-IsHttp service (timeout m) = (_, refl)
unwrap_error-IsHttp service (payload p) = (_, refl)
unwrap_error-IsHttp service (envelope p m) = (_, refl)
unwrap_error-IsHttp service (microservice p) = (_, refl)
unwrap_error-IsHttp service e = (_, refl)

-- `send` throws nothing but HttpExceptions.
pub rethrow-IsHttp :
    (A : Type 0) (service : String) (e : Thrown)
    → (h : HttpException) × (rethrow {A = A} service e ≡ throws (http h))
unfolding rethrow
rethrow-IsHttp A service (http e) = (e, refl)
rethrow-IsHttp A service e = let (h, q) = unwrap_error-IsHttp service e in (h, ap throws q)
