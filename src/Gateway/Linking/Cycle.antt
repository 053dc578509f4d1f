-- ===== src/Gateway/Linking/Cycle.antt =====
-- The refresh endpoint on the tokens that the gateway issued, and on what it does not let through.
use nestjs_microservice_mono.Prelude.{
  ℕ, ◌+◌, ◌/◌, ◌<◌, String, ◌≡◌, refl, true, false, Option, some, arith, truthy, or_else, nat_eq,
  nat_eq_refl,
}
use text.Mathlib.TextPositions.{eq_refl}
use nestjs_microservice_mono.Errors.Defs.{Thrown, ok, err}
use nestjs_microservice_mono.Entities.{AccountType, Database, account_type_name}
use nestjs_microservice_mono.Driver.{Driver}
use nestjs_microservice_mono.Errors.Client.{returns, send}
use nestjs_microservice_mono.Gateway.TokenStore.{Redis, is_blacklisted, blacklist_refresh_token}
use nestjs_microservice_mono.Gateway.Tokens.{
  JwtRefreshPayload, invalid_token, validate_refresh, handle_refresh,
}
use nestjs_microservice_mono.Gateway.Session.{
  Jwt, RefreshClaims, RefreshRequest, issue_token_pair, require_device_id, refresh_request, refresh,
}
use nestjs_microservice_mono.Gateway.Revocation.{get_user_token_version, observe}
use nestjs_microservice_mono.Gateway.Flows.{Session, respond}
use nestjs_microservice_mono.Gateway.Linking.Endpoints.{guard_refresh, refresh_endpoint}

-- jsonwebtoken, at one set of claims: the token that is signed for them verifies until its lifetime,
-- in seconds, is over, and carries the claims and the end of its lifetime.
pub record Verifies (j : Jwt) (now : ℕ) (secret lifetime : String) (c : RefreshClaims) (seconds : ℕ)
    : Type 0 where
  pub signed :
      (later : ℕ)
      → later / 1000 < now / 1000 + seconds
      → j.verify_refresh later secret (j.sign_refresh now secret lifetime c)
        ≡ ok (record {
          sub = some c.sub;
          type_name = some c.type_name;
          jti = some c.jti;
          device_id = some c.device_id;
          tv = some c.tv;
          exp = some (now / 1000 + seconds);
        })

later-positive : (a b : ℕ) → a < b → nat_eq b 0 ≡ false
later-positive a b h = ground arith

-- The claims of the refresh token in a session's response.
abbrev pub claims_of : Session → AccountType → String → ℕ → RefreshClaims
claims_of s claimed uid tv = record {
  sub = uid;
  type_name = account_type_name claimed;
  jti = s.jti;
  device_id = s.device_id;
  tv = tv;
}

-- The same deployment at a later time, with another `randomUUID()`.
abbrev pub at_time : Session → ℕ → String → Session
at_time s t jti = record s { now = t; jti = jti }

abbrev issued_payload : Session → AccountType → String → ℕ → ℕ → JwtRefreshPayload
issued_payload s claimed uid tv exp = record {
  sub = some uid;
  type_name = some (account_type_name claimed);
  jti = some s.jti;
  device_id = some s.device_id;
  tv = some tv;
  exp = some exp;
}

abbrev issued_request : Session → AccountType → String → ℕ → ℕ → RefreshRequest
issued_request s claimed uid tv exp = record {
  user_id = uid;
  jti = s.jti;
  exp = exp;
  device_id = s.device_id;
  type_name = account_type_name claimed;
  tv = some tv;
}

module _ (r : Redis) (s : Session) (claimed : AccountType) (uid : String) (tv t : ℕ)
    (new_jti : String) (exp : ℕ) (store : r.Store) where
  guard-issued :
      (token : String)
      → s.jwt.verify_refresh t s.config.refresh_secret token
        ≡ ok (issued_payload s claimed uid tv exp)
      → truthy (some uid) ≡ true
      → truthy (some s.jti) ≡ true
      → truthy (some s.device_id) ≡ true
      → is_blacklisted r t s.jti store ≡ ok false
      → guard_refresh r (at_time s t new_jti) token store ≡ ok (issued_payload s claimed uid tv exp)
  unfolding guard_refresh validate_refresh handle_refresh
  guard-issued token genuine user id device fresh = rw (genuine, user, id, device, fresh) refl

  request-issued :
      (header : Option String)
      → truthy (some s.jti) ≡ true
      → nat_eq exp 0 ≡ false
      → require_device_id header ≡ ok s.device_id
      → refresh_request (issued_payload s claimed uid tv exp) header
        ≡ ok (issued_request s claimed uid tv exp)
  unfolding refresh_request
  request-issued header id ends device = rw (id, ends, device, eq_refl s.device_id) refl

  refresh-current :
      (store' : r.Store)
      → blacklist_refresh_token r t s.jti exp store ≡ ok store'
      → refresh r s.jwt s.config t new_jti (issued_request s claimed uid tv exp) (returns tv) store
        ≡ (
          ok (
              issue_token_pair s.jwt s.config t new_jti uid
                (account_type_name claimed)
                s.device_id
                tv),
          store',
        )
  unfolding refresh
  refresh-current store' done = rw (nat_eq_refl tv, done) refl

-- A refresh token that the gateway issued is taken back: before it expires, from the device that it
-- was issued to, while it is not blacklisted and the user's token version is the one it was issued
-- for, the refresh endpoint answers with a new pair for the same user, account type, device and
-- version, and leaves the store in which the token is blacklisted.
pub refresh_endpoint-issued :
    (r : Redis) (d : Driver) (s : Session) (seconds : ℕ) (claimed shown : AccountType)
    (uid : String) (tv t : ℕ) (new_jti : String) (header : Option String) (db : Database)
    (store store' : r.Store)
    → Verifies s.jwt s.now s.config.refresh_secret
        (or_else s.config.refresh_expires_in "30d")
        (claims_of s claimed uid tv)
        seconds
    → t / 1000 < s.now / 1000 + seconds
    → truthy (some uid) ≡ true
    → truthy (some s.jti) ≡ true
    → require_device_id header ≡ ok s.device_id
    → truthy (some s.device_id) ≡ true
    → is_blacklisted r t s.jti store ≡ ok false
    → get_user_token_version d uid db ≡ ok tv
    → blacklist_refresh_token r t s.jti (s.now / 1000 + seconds) store ≡ ok store'
    → refresh_endpoint r
        (at_time s t new_jti)
        d
        (respond s claimed shown uid tv).pair.refresh_token
        header
        db
        store
      ≡ (
        ok (
            issue_token_pair s.jwt s.config t new_jti uid
              (account_type_name claimed)
              s.device_id
              tv),
        store',
      )
unfolding refresh_endpoint respond observe send
refresh_endpoint-issued r d s seconds claimed shown uid tv t new_jti header db store store' laws
      early user id device bound fresh current done =
    let genuine = laws.signed t early in
    rw
      (
        guard-issued r s claimed uid tv t new_jti (s.now / 1000 + seconds) store _ genuine user id
            bound fresh,
        request-issued r s claimed uid tv t new_jti (s.now / 1000 + seconds) store header id
            (later-positive _ _ early) device,
        current,
        refresh-current r s claimed uid tv t new_jti (s.now / 1000 + seconds) store store' done,
      )
      refl

-- Where the token store cannot tell whether a token is blacklisted, the refresh endpoint answers
-- with 401 token_invalid, not with the token store's 503, for every token that verifies and names a
-- user, an id and a device.
pub refresh_endpoint-outage :
    (r : Redis) (d : Driver) (s : Session) (token : String) (header : Option String) (db : Database)
    (store : r.Store) (p : JwtRefreshPayload) (e : Thrown)
    → s.jwt.verify_refresh s.now s.config.refresh_secret token ≡ ok p
    → truthy p.sub ≡ true
    → truthy p.jti ≡ true
    → truthy p.device_id ≡ true
    → is_blacklisted r s.now (or_else p.jti "") store ≡ err e
    → refresh_endpoint r s d token header db store
      ≡ (err (invalid_token "Invalid or expired refresh token"), store)
unfolding refresh_endpoint guard_refresh validate_refresh handle_refresh
refresh_endpoint-outage r d s token header db store p e genuine user id device failing =
    rw (genuine, user, id, device, failing) refl
