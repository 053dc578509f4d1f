-- ===== src/Errors/HttpFilter.antt =====
-- apps/gateway/src/common/filters/http-exception.filter.ts: the HTTP answer to an exception.
use nestjs_microservice_mono.Prelude.{
  ℕ, ◌+◌, String, Option, none, some, leb, or_else, or_option, if◌then◌else◌,
}
use nestjs_microservice_mono.Json.{Fields}
use nestjs_microservice_mono.Errors.Codes
use nestjs_microservice_mono.Errors.Defs.{
  RpcErrorPayload, HttpBody, text, object, HttpException, Thrown, http, rpc, timeout, mongo, error,
  rpc_payload, error_payload, status_to_code,
}

-- The answer's status and JSON body; `captures` counts the reports to Sentry.
pub record HttpAnswer : Type 0 where
  pub status_code : ℕ
  pub code : String
  pub message : String
  pub details : Option Fields
  pub request_id : String
  pub captures : ℕ

unfoldable pub extract_rpc_payload : Thrown → Option RpcErrorPayload
extract_rpc_payload e = or_option (rpc_payload e) (error_payload e)

-- The variables of `catch` before the answer is sent.
record Draft : Type 0 where
  status_code : ℕ
  code : String
  message : String
  details : Option Fields
  captures : ℕ

from_body : HttpBody → HttpException → Draft
from_body (text m) e = record {
  status_code = e.status;
  code = Codes.internal_error;
  message = m;
  details = none;
  captures = 0;
}
from_body (object b) e = record {
  status_code = e.status;
  code = or_else b.code (status_to_code e.status);
  message = or_else b.message e.message;
  details = b.details;
  captures = 0;
}

server_error : String → ℕ → Draft
server_error m n = record {
  status_code = 500;
  code = Codes.internal_error;
  message = m;
  details = none;
  captures = n;
}

-- The branches on the class of the exception.
draft_of : Thrown → Draft
draft_of (http e) = from_body e.body e
draft_of (rpc m) = server_error m 1
draft_of (timeout m) = server_error m 1
draft_of (mongo e) = server_error e.message 1
draft_of (error m) = server_error m 1
draft_of _ = server_error "Internal server error" 0

from_payload : Option RpcErrorPayload → Thrown → Draft
from_payload none e = draft_of e
from_payload (some p) e = record {
  status_code = p.status;
  code = p.code;
  message = p.message;
  details = p.details;
  captures = 0;
}

-- `requestId` is `request.requestId ?? getTraceId() ?? 'unknown'`.
unfoldable pub http_catch : Option String → Option String → Thrown → HttpAnswer
unfolding from_payload draft_of server_error from_body extract_rpc_payload
http_catch request_id trace e =
    let d = from_payload (extract_rpc_payload e) e in
    record {
      status_code = d.status_code;
      code = d.code;
      message = d.message;
      details = d.details;
      request_id = or_else (or_option request_id trace) "unknown";
      captures = d.captures + (if leb 500 d.status_code then 1 else 0);
    }
