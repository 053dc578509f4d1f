-- ===== src/Tests/Sessions.antt =====
-- The gateway's theorems at concrete inputs.
use nestjs_microservice_mono.Prelude.{
  ℕ, ◌+◌, ◌/◌, ◌<◌, String, ◌≡◌, ◌≢◌, refl, Option, none, some, List, [], ◌∷◌, arith, template, ltb,
  ◌==◌, eq_iff, if◌then◌else◌, sym, ◌∙◌,
}
use nestjs_microservice_mono.Errors.Defs.{Thrown, microservice, error, payload, ok, err}
use nestjs_microservice_mono.Errors.Client.{returns}
use nestjs_microservice_mono.Users.Common.{ok-injective}
use nestjs_microservice_mono.Gateway.TokenStore.{Redis, IsRedis, blacklist_refresh_token}
use nestjs_microservice_mono.Gateway.Tokens.{JwtRefreshPayload, validate_refresh}
use nestjs_microservice_mono.Gateway.Session.{
  Jwt, TokenConfig, TokenPair, RefreshRequest, refresh, issue_token_pair,
}
use nestjs_microservice_mono.Gateway.Session.Rotation.{refresh-IsSingleUse}

pub record StoreEntry : Type 0 where
  pub key : String
  pub content : String
  pub until : ℕ

abbrev lookup : ℕ → String → List StoreEntry → Option String
lookup seconds k [] = none
lookup seconds k (x ∷ xs) =
    let rest = lookup seconds k xs in
    if x.key == k then (if ltb seconds x.until then some x.content else none) else rest

-- A store that never fails.
abbrev pub redis : Redis
redis = record {
  Store = List StoreEntry;
  set_ex = λ now k v ttl s. ok (record { key = k; content = v; until = now / 1000 + ttl } ∷ s);
  get = λ now k s. ok (lookup (now / 1000) k s);
}

lookup-written :
    (seconds : ℕ) (k v : String) (until : ℕ) (s : List StoreEntry)
    → seconds < until
    → lookup seconds k (record { key = k; content = v; until = until } ∷ s) ≡ some v
lookup-written seconds k v until s h = rw ((eq_iff k k).1 refl) (ground arith)

redis-IsRedis : IsRedis redis
redis-IsRedis = record { live = live }
  where
    live :
        (now later : ℕ) (k v : String) (ttl : ℕ) (s s' : List StoreEntry) (o : Option String)
        → redis.set_ex now k v ttl s ≡ ok s'
        → later / 1000 < now / 1000 + ttl
        → redis.get later k s' ≡ ok o
        → o ≡ some v
    live now later k v ttl s s' o written in_time answer =
        let found = lookup-written (later / 1000) k v (now / 1000 + ttl) s in_time in
        let stored = ok-injective _ s' written in
        let seen = ok-injective _ o answer in sym (rw (← stored) at seen) ∙ found

abbrev bad_signature : Thrown
bad_signature = error "invalid signature"

abbrev pub jwt : Jwt
jwt = record {
  sign_access = λ now secret life claims. template (claims.sub ∷ ".access" ∷ []);
  sign_refresh = λ now secret life claims. template (claims.sub ∷ ".refresh." ∷ claims.jti ∷ []);
  verify_refresh = λ now secret token. err bad_signature;
}

abbrev pub config : TokenConfig
config = record {
  access_secret = "a";
  refresh_secret = "r";
  access_expires_in = none;
  refresh_expires_in = none;
}

abbrev request : RefreshRequest
request = record {
  user_id = "u1";
  jti = "t1";
  exp = 60;
  device_id = "install-1";
  type_name = "user";
  tv = some 3;
}

abbrev presented : JwtRefreshPayload
presented = record {
  sub = some "u1";
  type_name = some "user";
  jti = some "t1";
  device_id = some "install-1";
  tv = some 3;
  exp = some 60;
}

abbrev rotated_pair : TokenPair
unfolding issue_token_pair
rotated_pair = issue_token_pair jwt config 1000 "t2" "u1" "user" "install-1" 3

refresh-IsSingleUse_example :
    validate_refresh redis 2000 presented
      (refresh redis jwt config 1000 "t2" request (returns 3) []).1
    ≢ ok presented
unfolding refresh blacklist_refresh_token rotated_pair issue_token_pair
refresh-IsSingleUse_example =
    refresh-IsSingleUse redis jwt config 1000 2000 "t2" request (returns 3) rotated_pair []
      presented presented redis-IsRedis (omega arith) (omega arith) refl refl

abbrev pub plain : Thrown → Thrown
plain (microservice p) = payload p
plain e = e
