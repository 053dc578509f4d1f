-- ===== src/Gateway/Flows/Routes.antt =====
-- What the authentication routes hand out, across the gateway and the user service.
use nestjs_microservice_mono.Prelude.{
  String, ◌≡◌, refl, ap, sym, ◌∙◌, Bool, true, false, ◌&&◌, Option, none, some, In, truthy, or_else,
  or_option, ◌==◌, Bool-cases, inl, inr,
}
use nestjs_microservice_mono.Errors.Codes
use nestjs_microservice_mono.Errors.Defs.{Thrown, Outcome, ok, err, http_error}
use nestjs_microservice_mono.Errors.Filter.{rpc_catch}
use nestjs_microservice_mono.Errors.Client.{throws, send, unwrap_error, rethrow-IsHttp}
use nestjs_microservice_mono.Entities.{
  User, OAuthProvider, Database, has_link, registered, new_user,
}
use nestjs_microservice_mono.Driver.{Driver, IsQuery}
use nestjs_microservice_mono.Users.Common.{Identity, identity, ok-injective}
use nestjs_microservice_mono.Users.Login.Verdicts.{Admitted, login-Admitted}
use nestjs_microservice_mono.Users.OAuth.{OAuthPayload, new_oauth_user}
use nestjs_microservice_mono.Users.OAuth.Ownership.{
  Owner, IsNew, by_link, by_email, brand_new, find_or_create_oauth_user-Owner,
}
use nestjs_microservice_mono.Users.Password.{reset_password}
use nestjs_microservice_mono.Gateway.OAuth.{OAuthIdentity}
use nestjs_microservice_mono.Gateway.Revocation.{observe}
use nestjs_microservice_mono.Gateway.Flows.{
  Session, AuthResponse, then_respond, respond_registered, login_route, OAuthDto, oauth_payload,
  oauth_route, observe_undefined, reset_route,
}

-- A response was made of the value that the service's handler returned.
pub then_respond-eq-ok :
    {A : Type 0} (f : A → AuthResponse) (deliver : Thrown → Thrown) (trace : Option String)
    (o : Outcome A) (r : AuthResponse)
    → then_respond f (send "user" (observe deliver trace o)) ≡ ok r
    → (a : A) × (o ≡ ok a) × (r ≡ f a)
unfolding then_respond send observe
then_respond-eq-ok f deliver trace (ok a) r h = (a, refl, sym (ok-injective (f a) r h))
then_respond-eq-ok {A = A} f deliver trace (err e) r h =
    let (x, thrown) =
      rethrow-IsHttp A "user" (unwrap_error "user" (deliver (rpc_catch trace e).answer)) in
    cc (rw thrown at h)

-- The login route hands out a token pair only for an account that the user service admitted, and
-- with that account's id and token version.
pub login_route-Admitted :
    (s : Session) (d : Driver) (email password : String) (db : Database) (r : AuthResponse)
    → IsQuery d.find_user
    → login_route s d email password db ≡ ok r
    → (i : Identity) × Admitted d email password db i × (r ≡ respond_registered s i)
unfolding login_route
login_route-Admitted s d email password db r q h =
    let (i, admitted, response) = then_respond-eq-ok _ s.deliver s.trace _ r h in
    (i, login-Admitted d email password db i q admitted, response)

-- The account that an OAuth login reaches: one with the identity linked, one with an e-mail that the
-- provider itself returned and verified, or a new one.
pub data Reached (s : Session) (new_id : String) (provider : OAuthProvider) (v : OAuthIdentity)
    (dto : OAuthDto) (db : Database) (r : AuthResponse) : Type 0 where
  linked :
      (u : User)
      → In u db.users
      → u.deleted_at ≡ none
      → has_link provider v.provider_user_id u ≡ true
      → r ≡ respond_registered s (identity u)
      → Reached s new_id provider v dto db r
  attested :
      (u : User) (e : String)
      → In u db.users
      → u.deleted_at ≡ none
      → u.email ≡ some e
      → v.email ≡ some e
      → v.email_verified ≡ some true
      → r ≡ respond_registered s (identity u)
      → Reached s new_id provider v dto db r
  created :
      r
        ≡ respond_registered s
            (identity (new_oauth_user s.now new_id (oauth_payload provider v dto)))
      → Reached s new_id provider v dto db r

attested_email :
    (email given : Option String) (verified : Option Bool)
    → truthy email && or_else verified false ≡ true
    → (e : String) × (email ≡ some e)
      × (or_else (or_option email given) "" ≡ e)
      × (verified ≡ some true)
attested_email none given verified h = cc
attested_email (some e) given none h = elim (Bool-cases (e == "")) [
  | inl empty ↦ cc (rw empty at h)
  | inr named ↦ cc (rw named at h)
]
attested_email (some e) given (some true) h = (e, refl, refl, refl)
attested_email (some e) given (some false) h = elim (Bool-cases (e == "")) [
  | inl empty ↦ cc (rw empty at h)
  | inr named ↦ cc (rw named at h)
]

-- What a new account answers with.
new_identity :
    {i : String} {p : OAuthPayload} (w : User)
    → IsNew i p w
    → identity w ≡ record { id = i; account_type = registered; token_version = 0 }
new_identity w k = rw (k.id, k.account_type, k.token_version) refl

Owner-Reached :
    (s : Session) (new_id : String) (provider : OAuthProvider) (v : OAuthIdentity) (dto : OAuthDto)
    (db after : Database) (i : Identity) (r : AuthResponse)
    → r ≡ respond_registered s i
    → Owner new_id (oauth_payload provider v dto) db i after
    → Reached s new_id provider v dto db r
unfolding oauth_payload new_oauth_user new_user
Owner-Reached s new_id provider v dto db after i r e (by_link u listed has alive same _) =
    linked u listed alive has (e ∙ ap (respond_registered s) same)
Owner-Reached s new_id provider v dto db after i r e
      (by_email u _ listed stored alive _ sure same _ _ _) =
    let (x, mail, looked_up, verified) = attested_email v.email dto.email v.email_verified sure in
    attested u x listed alive (stored ∙ ap some looked_up) mail verified
      (e ∙ ap (respond_registered s) same)
Owner-Reached s new_id provider v dto db after i r e (brand_new w k same _) =
    created (e ∙ ap (respond_registered s) (same ∙ new_identity w k))

-- An OAuth login that succeeds, after the verifier accepted the token, reaches a live account
-- that has the provider's identity linked, or a live account under an e-mail that the provider
-- itself returned and verified, or a new account.
pub oauth_route-Reached :
    (s : Session) (d : Driver) (new_id : String) (provider : OAuthProvider) (v : OAuthIdentity)
    (dto : OAuthDto) (db : Database) (r : AuthResponse)
    → IsQuery d.find_user
    → (oauth_route s d new_id provider v dto db).0 ≡ ok r
    → Reached s new_id provider v dto db r
unfolding oauth_route
oauth_route-Reached s d new_id provider v dto db r q h =
    let (i, done, response) = then_respond-eq-ok _ s.deliver s.trace _ r h in
    Owner-Reached s new_id provider v dto db _ i r response
      (find_or_create_oauth_user-Owner d s.now new_id (oauth_payload provider v dto) db i q done)

-- Where the user service did reset the password, the gateway's call fails with 503, because the
-- handler's reply is `undefined`.
pub reset_route-IsUnavailable :
    (s : Session) (d : Driver) (salt token password : String) (db : Database)
    → (reset_password d s.now salt token password db).0 ≡ ok tt
    → reset_route s d salt token password db ≡ (
      throws (http_error 503 Codes.internal_error "Upstream service 'user' is unavailable"),
      (reset_password d s.now salt token password db).1,
    )
unfolding reset_route observe_undefined send unwrap_error
reset_route-IsUnavailable s d salt token password db h = rw h
