-- ===== src/Errors/Transport.antt =====
-- An error on its way from a service handler over the wire to the HTTP client.
use nestjs_microservice_mono.Prelude.{
  ℕ, ◌<◌, ◌≤◌, String, ◌≡◌, ◌⊎◌, inl, inr, or_else, refl, Option, none, some, arith, leb,
}
use nestjs_microservice_mono.Errors.Codes
use nestjs_microservice_mono.Errors.Defs.{
  RpcErrorPayload, text, object, HttpException, Thrown, microservice, http, rpc, payload, envelope,
  other, status_to_code, HttpBody,
}
use nestjs_microservice_mono.Errors.Filter.{normalize_http_response, rpc_catch}
use nestjs_microservice_mono.Errors.Client.{
  returns, throws, Observed, value, completed, threw, send, stream_error, unwrap_error,
  rethrow-IsHttp,
}
use nestjs_microservice_mono.Errors.HttpFilter.{HttpAnswer, http_catch}

-- What Nest's RMQ transport makes of a rejection: the payload of a MicroserviceException arrives
-- as a plain object, or as the `error` property of one.
pub data Carries (p : RpcErrorPayload) (e : Thrown) : Type 0 where
  bare : e ≡ payload p → Carries p e
  wrapped : (m : Option String) → e ≡ envelope p m → Carries p e

unwrap_error-Carries :
    (service : String) (p : RpcErrorPayload) (e : Thrown)
    → Carries p e
    → unwrap_error service e ≡ unwrap_error service (payload p)
unfolding unwrap_error
unwrap_error-Carries service p e (bare q) = rw q
unwrap_error-Carries service p e (wrapped m q) = rw q

abbrev pub Shows : HttpAnswer → RpcErrorPayload → Type 0
Shows a p =
    (a.status_code ≡ p.status)
    × (a.code ≡ p.code)
    × (a.message ≡ p.message)
    × (a.details ≡ p.details)

-- A MicroserviceException thrown in a service reaches the HTTP client with its own status, code,
-- message and details, whatever the service, the trace ids and the form in which the transport
-- carries the payload.
pub transport-Shows :
    (A : Type 0) (wire : Thrown → Thrown) (service : String) (t1 t2 rid : Option String)
    (p : RpcErrorPayload)
    → Carries p (wire (rpc_catch t1 (microservice p)).answer)
    → (e : Thrown) × (send {A = A} service
          (stream_error (wire (rpc_catch t1 (microservice p)).answer))
        ≡ throws e)
      × Shows (http_catch rid t2 e) p
unfolding rpc_catch send http_catch unwrap_error
transport-Shows A wire service t1 t2 rid p (bare q) =
    (unwrap_error service (payload p), rw q, (refl, refl, refl, refl))
transport-Shows A wire service t1 t2 rid p (wrapped m q) =
    (unwrap_error service (payload p), rw q, (refl, refl, refl, refl))

-- The code of the body, or else the one that belongs to the status.
abbrev pub CodeOf : HttpBody → ℕ → RpcErrorPayload → Type 0
CodeOf (object b) s p =
    (b.code ≡ none → p.code ≡ status_to_code s) × ((c : String) → b.code ≡ some c → p.code ≡ c)
CodeOf (text m) s p = (p.code ≡ status_to_code s) × (p.message ≡ m)

-- The status and code that a payload has on account of what was thrown.
abbrev pub StatusOf : Thrown → RpcErrorPayload → Type 0
StatusOf (microservice q) p = p ≡ q
StatusOf (http e) p = (p.status ≡ e.status) × CodeOf e.body e.status p
StatusOf _ p = (p.status ≡ 500) × (p.code ≡ Codes.internal_error)

wrapped-CodeOf :
    (trace : Option String) (b : HttpBody) (e : HttpException)
    → CodeOf b e.status (record {
      status = e.status;
      code = or_else (normalize_http_response b e).code (status_to_code e.status);
      message = (normalize_http_response b e).message;
      details = (normalize_http_response b e).details;
      trace_id = trace;
    })
unfolding normalize_http_response
wrapped-CodeOf trace (text m) e = (refl, refl)
wrapped-CodeOf trace (object b) e = (λ q. rw q, λ c q. rw q)

-- Every thrown value but a bare RpcException leaves the service as a MicroserviceException. It is
-- reported to Sentry exactly when its status is 500 or more, and a status of its own is kept:
-- what is neither a MicroserviceException nor an HttpException becomes 500 internal_error.
pub rpc_catch-payload :
    (trace : Option String) (e : Thrown)
    → ((m : String) → e ≡ rpc m → ⊥)
    → (p : RpcErrorPayload) × ((rpc_catch trace e).answer ≡ microservice p)
      × ((rpc_catch trace e).captured ≡ leb 500 p.status)
      × StatusOf e p
unfolding rpc_catch
rpc_catch-payload trace (microservice p) h = (p, refl, refl, refl)
rpc_catch-payload trace (http e) h = (_, refl, refl, (refl, wrapped-CodeOf trace e.body e))
rpc_catch-payload trace (rpc m) h = absurd (h m refl)
rpc_catch-payload trace (other) h = (_, refl, refl, (refl, refl))
rpc_catch-payload trace e h = (_, refl, refl, (refl, refl))

-- An RPC call of the gateway returns a value or throws an HttpException, whatever the transport
-- does.
pub send-IsHttp :
    (A : Type 0) (service : String) (o : Observed A)
    → ((a : A) × (send service o ≡ returns a))
      ⊎ ((h : HttpException) × (send service o ≡ throws (http h)))
unfolding send
send-IsHttp A service (value a) = inl (a, refl)
send-IsHttp A service (stream_error e) = inr (rethrow-IsHttp A service (unwrap_error service e))
send-IsHttp A service (completed e) = inr (rethrow-IsHttp A service e)
send-IsHttp A service (threw e) = inr (rethrow-IsHttp A service e)

-- The gateway reports an answer to Sentry exactly when its status is 500 or more.
pub http_catch-captures :
    (rid trace : Option String) (e : Thrown)
    → ((http_catch rid trace e).status_code < 500 → (http_catch rid trace e).captures ≡ 0)
      × (500 ≤ (http_catch rid trace e).status_code → 1 ≤ (http_catch rid trace e).captures)
unfolding http_catch
http_catch-captures rid trace (microservice p) = ground arith
http_catch-captures rid trace (http e) = ground arith
http_catch-captures rid trace e = ground arith
