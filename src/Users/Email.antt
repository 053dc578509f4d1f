-- ===== src/Users/Email.antt =====
-- apps/user/src/modules/email/email.service.ts: the transport that the constructor sets up, and
-- sending. `Number`, `toLowerCase`, `encodeURIComponent` and the transport's `sendMail` are arguments.
use nestjs_microservice_mono.Prelude.{
  String, ◌≡◌, refl, sym, Bool, true, false, not, ◌&&◌, ◌⊎◌, inl, inr, Bool-cases, Option, none,
  some, List, [], ◌∷◌, template, truthy, ◌==◌, if◌then◌else◌,
}
use nestjs_microservice_mono.Errors.Defs.{Outcome, ok, err}
use nestjs_microservice_mono.Config.{Env, optional_env, require_env}
use nestjs_microservice_mono.Config.Numbers.{
  ℤ, pos, below, Number, require_env_int, require_env_int-bounds,
}
use nestjs_microservice_mono.Users.Common.{Outcome-cases, ok-injective, err-ne-ok}

pub record Credentials : Type 0 where
  pub user : String
  pub pass : String

pub record Transport : Type 0 where
  pub host : String
  pub port : ℤ
  pub secure : Bool
  pub auth : Option Credentials

abbrev is_465 : ℤ → Bool
is_465 p = not (below p (pos 465)) && not (below (pos 465) p)

-- The override, or the default by port.
secure_of : String → ℤ → Bool
secure_of override port =
    if override == "true" then true else if override == "false" then false else is_465 port

-- `user ? requireEnv('SMTP_PASSWORD') : ''`, and `auth`.
credentials_of : Env → String → Outcome (Option Credentials)
credentials_of env user =
    if truthy (some user)
    then elim (require_env env "SMTP_PASSWORD") [
      | err e ↦ err e
      | ok pass ↦ ok (some (record { user = user; pass = pass }))
    ]
    else ok none

with_auth : String → ℤ → Bool → Outcome (Option Credentials) → Outcome (Option Transport)
with_auth host port secure (err e) = err e
with_auth host port secure (ok auth) =
    ok (some (record { host = host; port = port; secure = secure; auth = auth }))

with_port : (String → String) → Env → String → Outcome ℤ → Outcome (Option Transport)
unfolding secure_of credentials_of with_auth
with_port lower env host (err e) = err e
with_port lower env host (ok port) =
    with_auth host port (secure_of (lower (optional_env env "SMTP_SECURE" "")) port)
      (credentials_of env (optional_env env "SMTP_USER" ""))

-- The constructor: no transport, and the stub, without a host.
unfoldable pub email_service :
    (String → Number) → (String → String) → Env → Outcome (Option Transport)
unfolding with_port
email_service to_number lower env =
    let host = optional_env env "SMTP_HOST" "" in
    let port =
      require_env_int to_number env "SMTP_PORT"
        (record { min = some (pos 1); max = some (pos 65535) }) in
    if truthy (some host) then with_port lower env host port else ok none

pub record EmailMessage : Type 0 where
  pub from : String
  pub to : String
  pub subject : String
  pub text : String
  pub tag_header : Option String

-- `send`: what was handed to the transport; a failure of it is logged.
send_mail : Env → Option Transport → String → String → String → Option String → List EmailMessage
send_mail env none to subject text tag = []
send_mail env (some t) to subject text tag =
    record {
      from = optional_env env "EMAIL_FROM" "noreply@example.com";
      to = to;
      subject = subject;
      text = text;
      tag_header = if truthy tag then tag else none;
    }
    ∷ []

reset_body : (String → String) → Env → String → String
reset_body encode env token = template (
    "To reset your password, follow this link:\n\n"
    ∷ optional_env env "PASSWORD_RESET_URL" "https://example.com/reset"
    ∷ "?token="
    ∷ encode token
    ∷ "\n\nThe link is valid for one hour. If you didn't request this, ignore this email."
    ∷ [])

unfoldable pub send_password_reset :
    (String → String) → Env → Option Transport → String → String → List EmailMessage
unfolding send_mail reset_body
send_password_reset encode env t to token =
    send_mail env t to "Password reset" (reset_body encode env token) (some "password_reset")

-- What a transport was set up with.
pub record IsSetUp (env : Env) (t : Transport) : Type 0 where
  pub not_below : below t.port (pos 1) ≡ false
  pub not_above : below (pos 65535) t.port ≡ false
  pub authenticated :
      (t.auth ≡ none) × (truthy (some (optional_env env "SMTP_USER" "")) ≡ false)
      ⊎ (c : Credentials) × (t.auth ≡ some c)
        × (c.user ≡ optional_env env "SMTP_USER" "")
        × (truthy (some c.user) ≡ true)
        × (require_env env "SMTP_PASSWORD" ≡ ok c.pass)

credentials_of-eq-ok :
    (env : Env) (user : String) (auth : Option Credentials)
    → credentials_of env user ≡ ok auth
    → (auth ≡ none) × (truthy (some user) ≡ false)
      ⊎ (c : Credentials) × (auth ≡ some c)
        × (c.user ≡ user)
        × (truthy (some c.user) ≡ true)
        × (require_env env "SMTP_PASSWORD" ≡ ok c.pass)
unfolding credentials_of
credentials_of-eq-ok env user auth h = elim (Bool-cases (truthy (some user))) [
  | inl named ↦ elim (Outcome-cases (require_env env "SMTP_PASSWORD")) [
    | inl (pass, read) ↦ inr (
      record { user = user; pass = pass },
      sym (ok-injective _ auth (rw (named, read) at h)),
      refl,
      named,
      read,
    )
    | inr (e, missing) ↦ absurd (err-ne-ok e auth (rw (named, missing) at h))
  ]
  | inr anonymous ↦ inl (sym (ok-injective _ auth (rw anonymous at h)), anonymous)
]

with_port-IsSetUp :
    (lower : String → String) (env : Env) (host : String) (port : ℤ) (t : Transport)
    → below port (pos 1) ≡ false
    → below (pos 65535) port ≡ false
    → with_port lower env host (ok port) ≡ ok (some t)
    → IsSetUp env t
unfolding with_port with_auth
with_port-IsSetUp lower env host port t low high h =
    elim (Outcome-cases (credentials_of env (optional_env env "SMTP_USER" ""))) [
      | inl (auth, read) ↦
          let same = rw (read, with_auth) at h in
          let same_port : port ≡ t.port = cc same in
          let same_auth : auth ≡ t.auth = cc same in
          record {
            not_below = rw (← same_port) low;
            not_above = rw (← same_port) high;
            authenticated = rw (← same_auth) (credentials_of-eq-ok env _ auth read);
          }
      | inr (e, missing) ↦ cc (rw (missing, with_auth) at h)
    ]

-- A transport is only set up with a port from 1 to 65535, and without credentials exactly where
-- SMTP_USER is empty; otherwise the user is SMTP_USER and the password is what `requireEnv` reads as
-- SMTP_PASSWORD.
pub email_service-IsSetUp :
    (to_number : String → Number) (lower : String → String) (env : Env) (t : Transport)
    → email_service to_number lower env ≡ ok (some t)
    → IsSetUp env t
unfolding email_service
email_service-IsSetUp to_number lower env t h =
    elim (Bool-cases (truthy (some (optional_env env "SMTP_HOST" "")))) [
      | inl named ↦
          elim (Outcome-cases (
            require_env_int to_number env "SMTP_PORT"
              (record { min = some (pos 1); max = some (pos 65535) }))) [
                | inl (port, read) ↦
                    let (low, high) =
                      require_env_int-bounds to_number env "SMTP_PORT" (pos 1) (pos 65535) port
                        read in
                    with_port-IsSetUp lower env _ port t low high (rw (named, read) at h)
                | inr (e, bad) ↦ cc (rw (named, bad, with_port) at h)
              ]
      | inr unnamed ↦ cc (rw unnamed at h)
    ]
