-- ===== src/Requests.antt =====
-- apps/gateway/src/common/guards/fingerprint-throttler.guard.ts and
-- libs/common/src/pipes/parse-object-id.pipe.ts.
pub mod AccessLog
use Prim.Native.String
use text.Mathlib.TextLemmas.{append_cancel_left}
use nestjs_microservice_mono.Prelude.{
  ℕ, String, ◌≡◌, ◌≢◌, refl, Bool, true, false, ◌&&◌, ◌||◌, Option, none, some, List, [], ◌∷◌, ◌==◌,
  leb, nat_eq, length, or_else, if◌then◌else◌,
}
use nestjs_microservice_mono.Json.{Json, nonempty_string}
use nestjs_microservice_mono.Errors.Defs.{Outcome, ok, err, http_error}
use nestjs_microservice_mono.Entities.{is_some}
use nestjs_microservice_mono.Words.{codes}

-- `s.endsWith(suffix)`
unfoldable pub ends_with : String → String → Bool
ends_with suffix String.[] = "" == suffix
ends_with suffix (String.◌∷◌ c s) = (String.◌∷◌ c s == suffix) || ends_with suffix s

-- What the guard reads of a request: its path, `body.deviceFingerprint`, `user.userId`, and the
-- address, which is the tracker of ThrottlerGuard.
pub record Tracked : Type 0 where
  pub path : String
  pub device_fingerprint : Json
  pub user_id : Json
  pub ip : String

abbrev by_user : String → Option String → String
by_user ip none = ip
by_user ip (some u) = String.◌++◌ ip (String.◌++◌ ":u:" u)

unfoldable pub get_tracker : Tracked → String
unfolding ends_with
get_tracker r =
    if ends_with "/auth/autoreg" r.path && is_some (nonempty_string r.device_fingerprint)
    then String.◌++◌ "fp:" (or_else (nonempty_string r.device_fingerprint) "")
    else by_user r.ip (nonempty_string r.user_id)

-- Two different signed-in users who send requests from one address, other than registrations, do
-- not share a counter.
pub get_tracker-separates :
    (r q : Tracked) (u v : String)
    → ends_with "/auth/autoreg" r.path ≡ false
    → ends_with "/auth/autoreg" q.path ≡ false
    → nonempty_string r.user_id ≡ some u
    → nonempty_string q.user_id ≡ some v
    → r.ip ≡ q.ip
    → u ≢ v
    → get_tracker r ≢ get_tracker q
unfolding get_tracker
get_tracker-separates r q u v elsewhere elsewhere' signed signed' near differ same =
    let keys = rw (elsewhere, elsewhere', signed, signed', near) at same in
    differ (append_cancel_left ":u:" u v (append_cancel_left q.ip _ _ keys))

-- [a-fA-F0-9]
unfoldable pub is_hex : ℕ → Bool
is_hex c = leb b'a' c && leb c b'f' || leb b'A' c && leb c b'F' || leb b'0' c && leb c b'9'

abbrev all_hex : List ℕ → Bool
all_hex [] = true
all_hex (c ∷ cs) = is_hex c && all_hex cs

-- `transform` of ParseObjectIdPipe; `data` names the parameter.
unfoldable pub transform : Option String → String → Outcome String
unfolding is_hex
transform data_name value =
    if nat_eq (length (codes value)) 24 && all_hex (codes value)
    then ok value
    else err (
        http_error 400 "invalid_object_id"
          (String.◌++◌ (or_else data_name "id") " must be a 24-character hexadecimal string"))

object_id_test : transform none "64b7f0c2a1b2c3d4e5f60718" ≡ ok "64b7f0c2a1b2c3d4e5f60718"
unfolding transform
object_id_test = refl

short_id_test :
    transform (some "userId") "64b7"
    ≡ err (http_error 400 "invalid_object_id" "userId must be a 24-character hexadecimal string")
unfolding transform
short_id_test = refl
