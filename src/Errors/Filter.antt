-- ===== src/Errors/Filter.antt =====
-- libs/common/src/filters/rpc-exception.filter.ts: what a service answers for a thrown value, and
-- what it reports to Sentry.
use nestjs_microservice_mono.Prelude.{ℕ, String, Bool, true, Option, none, leb, or_else}
use nestjs_microservice_mono.Json.{Fields}
use nestjs_microservice_mono.Errors.Codes
use nestjs_microservice_mono.Errors.Defs.{
  HttpBody, text, object, HttpException, Thrown, microservice, http, rpc, status_to_code,
  message_of,
}

-- What `catch` returns: the value sent to the caller, and whether Sentry saw the exception.
pub record Caught : Type 0 where
  pub answer : Thrown
  pub captured : Bool

pub record Normalized : Type 0 where
  pub code : Option String
  pub message : String
  pub details : Option Fields

unfoldable pub normalize_http_response : HttpBody → HttpException → Normalized
normalize_http_response (text m) e = record { code = none; message = m; details = none }
normalize_http_response (object b) e = record {
  code = b.code;
  message = or_else b.message e.message;
  details = b.details;
}

wrap_http : Option String → ℕ → Normalized → Thrown
wrap_http trace s n = microservice (record {
  status = s;
  code = or_else n.code (status_to_code s);
  message = n.message;
  details = n.details;
  trace_id = trace;
})

-- The last branch of `catch`: an error of no known class. A thrown plain object has no message.
unhandled : Option String → String → Thrown
unhandled trace m = microservice (record {
  status = 500;
  code = Codes.internal_error;
  message = m;
  details = none;
  trace_id = trace;
})

unfoldable pub rpc_catch : Option String → Thrown → Caught
unfolding wrap_http unhandled normalize_http_response
rpc_catch trace (microservice p) = record { answer = microservice p; captured = leb 500 p.status }
rpc_catch trace (http e) = record {
  answer = wrap_http trace e.status (normalize_http_response e.body e);
  captured = leb 500 e.status;
}
rpc_catch trace (rpc m) = record { answer = rpc m; captured = true }
rpc_catch trace e = record {
  answer = unhandled trace (or_else (message_of e) "Internal server error");
  captured = true;
}
