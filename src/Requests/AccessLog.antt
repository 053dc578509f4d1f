-- ===== src/Requests/AccessLog.antt =====
-- apps/gateway/src/common/interceptors/http-log.interceptor.ts: the lines that a request leaves in the
-- access log. The elapsed time and the text of a thrown value are arguments.
use nestjs_microservice_mono.Prelude.{
  ℕ, String, ◌≡◌, refl, Bool, true, false, not, ◌&&◌, ◌==◌, Option, none, some, List, [], ◌∷◌, any,
  template, or_else, or_option, decimal, if◌then◌else◌,
}
use nestjs_microservice_mono.Errors.Defs.{Outcome, ok, err, Thrown, http}

-- `path.startsWith(prefix)`
unfoldable pub has_prefix : String → String → Bool
has_prefix String.[] s = true
has_prefix (String.◌∷◌ c p) String.[] = false
has_prefix (String.◌∷◌ c p) (String.◌∷◌ d s) =
    (String.◌∷◌ c "" == String.◌∷◌ d "") && has_prefix p s

abbrev skip_prefixes : List String
skip_prefixes = "/health" ∷ "/docs" ∷ "/favicon" ∷ []

record HttpRequest : Type 0 where
  original_url : Option String
  relative_url : Option String
  method : String
  peer_ip : Option String
  remote_address : Option String

abbrev path_of : HttpRequest → String
path_of r = or_else (or_option r.original_url r.relative_url) ""

abbrev address_of : HttpRequest → String
address_of r = or_else (or_option r.peer_ip r.remote_address) "?"

entry_line : HttpRequest → String
entry_line r = template ("← " ∷ r.method ∷ " " ∷ path_of r ∷ " ip=" ∷ address_of r ∷ [])

status_of : ℕ → Thrown → ℕ
status_of status_code (http e) = e.status
status_of status_code e = status_code

exit_line : {A : Type 0} → (Thrown → String) → HttpRequest → ℕ → ℕ → Outcome A → String
unfolding status_of
exit_line shown_error r status_code elapsed (ok a) = template (
    "→ "
    ∷ r.method
    ∷ " "
    ∷ path_of r
    ∷ " "
    ∷ decimal status_code
    ∷ " ip="
    ∷ address_of r
    ∷ " ("
    ∷ decimal elapsed
    ∷ "ms)"
    ∷ [])
exit_line shown_error r status_code elapsed (err e) = template (
    "→ "
    ∷ r.method
    ∷ " "
    ∷ path_of r
    ∷ " "
    ∷ decimal (status_of status_code e)
    ∷ " ip="
    ∷ address_of r
    ∷ " err: "
    ∷ shown_error e
    ∷ " ("
    ∷ decimal elapsed
    ∷ "ms)"
    ∷ [])

-- `intercept`: what the handler's result is passed on as, and the lines that were written.
log_request :
    {A : Type 0}
    → (Thrown → String)
    → Bool
    → HttpRequest
    → ℕ
    → ℕ
    → Outcome A
    → Outcome A × List String
unfolding has_prefix entry_line exit_line
log_request shown_error is_http r status_code elapsed result =
    if not is_http
    then (result, [])
    else if any (λ p. has_prefix p (path_of r)) skip_prefixes
    then (result, [])
    else (result, entry_line r ∷ exit_line shown_error r status_code elapsed result ∷ [])

probe_test :
    log_request {A = ℕ}
      (λ _. "x")
      true
      (record {
        original_url = some "/health/live";
        relative_url = none;
        method = "GET";
        peer_ip = none;
        remote_address = none;
      })
      200
      5
      (ok 1)
    ≡ (ok 1, [])
unfolding log_request decimal
probe_test = refl

request_test :
    log_request {A = ℕ}
      (λ _. "x")
      true
      (record {
        original_url = none;
        relative_url = some "/auth/login";
        method = "POST";
        peer_ip = none;
        remote_address = some "10.0.0.7";
      })
      201
      12
      (ok 1)
    ≡ (ok 1, "← POST /auth/login ip=10.0.0.7" ∷ "→ POST /auth/login 201 ip=10.0.0.7 (12ms)" ∷ [])
unfolding log_request decimal
request_test = refl
