-- ===== src/Tests/Wire.antt =====
-- The theorems on errors and event delivery at concrete inputs.
use nestjs_microservice_mono.Prelude.{
  ℕ, String, ◌≡◌, refl, true, none, some, [], ◌∷◌, ◌++◌, In, differ-absurd,
}
use nestjs_microservice_mono.Json.{Fields, str, field, end}
use nestjs_microservice_mono.Errors.Defs.{Thrown, RpcErrorPayload, microservice, error, ok, err}
use nestjs_microservice_mono.Errors.Filter.{rpc_catch}
use nestjs_microservice_mono.Errors.Client.{stream_error, send, throws}
use nestjs_microservice_mono.Errors.HttpFilter.{http_catch}
use nestjs_microservice_mono.Errors.Transport.{bare, Shows, transport-Shows}
use nestjs_microservice_mono.EventBus.{
  Call, ErrorInfo, Message, bus_options, dlq_service_name, intercept, topology, bind_queue,
  events_dlx_name,
}
use nestjs_microservice_mono.EventBus.Delivery.{consumer, failed_event-IsRouted}
use nestjs_microservice_mono.Tests.Sessions.{plain}

abbrev no_user : RpcErrorPayload
no_user = record {
  status = 404;
  code = "not_found";
  message = "User not found";
  details = none;
  trace_id = none;
}

transport-Shows_example :
    (e : Thrown) × (send {A = ℕ} "user"
        (stream_error (plain (rpc_catch (some "t") (microservice no_user)).answer))
      ≡ throws e)
    × Shows (http_catch (some "r") none e) no_user
unfolding rpc_catch
transport-Shows_example =
    transport-Shows ℕ plain "user" (some "t") none (some "r") no_user (bare refl)

abbrev deleted : Fields
deleted = field "userId" (str "u2") end

abbrev event_call : Call
event_call = record {
  is_rpc = true;
  handler_type = some 2;
  pattern_key = some "user.deleted";
  body = deleted;
}

abbrev info : Thrown → ErrorInfo
info e = record { message = "boom"; name = "Error"; stack = "" }

failed_event-IsRouted_example :
    (letter : Message) × (dlq : String) × (intercept {A = ℕ} "dev" "t" "now"
        (some (dlq_service_name "dev" (consumer "mail" (some ("user.deleted" ∷ [])))))
        info
        event_call
        (err (error "boom"))
        (some (record { channel = some [] }))
      ≡ (ok none, some (record { channel = some ([] ++ letter ∷ []) })))
    × (letter.exchange ≡ events_dlx_name "dev")
    × In
        (bind_queue dlq letter.exchange letter.routing_key)
        (topology "dev" (bus_options "dev" (consumer "mail" (some ("user.deleted" ∷ [])))))
failed_event-IsRouted_example =
    failed_event-IsRouted ℕ "dev" "mail" "t" "now" (some ("user.deleted" ∷ [])) info event_call
      (error "boom") [] (differ-absurd "mail" "" refl) refl refl
