-- ===== src/Gateway/Revocation.antt =====
-- The refresh route over the user service's `getUserTokenVersion`.
use nestjs_microservice_mono.Prelude.{
  ℕ, String, ◌≡◌, ◌≢◌, sym, ◌∙◌, Option, none, In, arith, or_else, nat_eq, Bool-cases, inl, inr,
}
use nestjs_microservice_mono.Errors.Defs.{Thrown, RpcErrorPayload, microservice, Outcome, ok, err}
use nestjs_microservice_mono.Errors.Filter.{rpc_catch}
use nestjs_microservice_mono.Errors.Client.{
  returns, Observed, value, stream_error, send, unwrap_error,
}
use nestjs_microservice_mono.Errors.Transport.{Carries, bare, wrapped}
use nestjs_microservice_mono.Entities.{User, Database, version}
use nestjs_microservice_mono.Driver.{Driver, IsQuery}
use nestjs_microservice_mono.Users.Common.{
  find_by_id, find_by_id-cases, find_by_id-eq-ok, ok-injective,
}
use nestjs_microservice_mono.Gateway.TokenStore.{Redis}
use nestjs_microservice_mono.Gateway.Session.{
  Jwt, TokenConfig, TokenPair, RefreshRequest, revoked, refresh,
}

-- `getUserTokenVersion` of the user service's controller.
unfoldable pub get_user_token_version : Driver → String → Database → Outcome ℕ
get_user_token_version d uid db = elim (find_by_id d uid db) [
  | ok u ↦ ok (version u)
  | err e ↦ err e
]

-- What the gateway observes of a handler's outcome: a value, or the filtered exception as the
-- transport delivers it.
unfoldable pub observe : {A : Type 0} → (Thrown → Thrown) → Option String → Outcome A → Observed A
observe deliver trace (ok a) = value a
observe deliver trace (err e) = stream_error (deliver (rpc_catch trace e).answer)

-- The refresh route's call to the user service and what follows it.
abbrev pub refresh_with :
    (r : Redis)
    → Driver
    → (Thrown → Thrown)
    → Option String
    → Jwt
    → TokenConfig
    → ℕ
    → String
    → RefreshRequest
    → Database
    → r.Store
    → Outcome TokenPair × r.Store
refresh_with r d deliver trace j c now new_jti q db s =
    refresh r j c now new_jti q
      (send "user" (observe deliver trace (get_user_token_version d q.user_id db))) s

-- Every document of the id has another token version.
abbrev pub Outdated : String → ℕ → Database → Type 0
Outdated i tv db = (u : User) → In u db.users → u.id ≡ i → tv ≢ version u

module _ (r : Redis) (j : Jwt) (c : TokenConfig) (now : ℕ) (new_jti : String) (q : RefreshRequest)
    (s : r.Store) where
  refresh-wrong_version :
      (tv : ℕ) → or_else q.tv 0 ≢ tv → refresh r j c now new_jti q (returns tv) s ≡ (err revoked, s)
  unfolding refresh
  refresh-wrong_version tv ne = elim (Bool-cases (nat_eq (or_else q.tv 0) tv)) [
    | inl same ↦ absurd (ne (ground arith))
    | inr other ↦ rw other
  ]

  refresh-not_found :
      (e : Thrown)
      → Carries
          (record {
            status = 404;
            code = "not_found";
            message = "User not found";
            details = none;
            trace_id = none;
          })
          e
      → refresh r j c now new_jti q (send "user" (stream_error e)) s ≡ (err revoked, s)
  unfolding refresh send unwrap_error
  refresh-not_found e (bare h) = rw h
  refresh-not_found e (wrapped m h) = rw h

-- A refresh with a well-formed user id, of which no document has the presented token version,
-- is refused with 401 token_invalid and blacklists nothing: whether the account is gone or its
-- version was raised, and in whichever form the transport carries the error.
pub refresh-Outdated :
    (r : Redis) (d : Driver) (deliver : Thrown → Thrown) (trace : Option String) (j : Jwt)
    (c : TokenConfig) (now : ℕ) (new_jti : String) (q : RefreshRequest) (i : String) (db : Database)
    (s : r.Store)
    → IsQuery d.find_user
    → ((p : RpcErrorPayload) → Carries p (deliver (microservice p)))
    → d.object_id q.user_id ≡ ok i
    → Outdated i (or_else q.tv 0) db
    → refresh_with r d deliver trace j c now new_jti q db s ≡ (err revoked, s)
unfolding get_user_token_version observe send
refresh-Outdated r d deliver trace j c now new_jti q i db s query carries parsed old =
    elim (find_by_id-cases d q.user_id i db parsed) [
      | inl gone ↦
          rw (gone, get_user_token_version, observe)
            (refresh-not_found r j c now new_jti q s _ (unfold rpc_catch in carries _))
      | inr (u, found) ↦
          let (listed, _, same) = find_by_id-eq-ok d q.user_id db u query found in
          rw (found, get_user_token_version, observe, send)
            (refresh-wrong_version r j c now new_jti q s (version u)
              (old u listed (ok-injective u.id i (sym same ∙ parsed))))
    ]
