-- ===== src/Gateway/TokenStore.antt =====
-- apps/gateway/src/modules/auth/services/token-store.service.ts: the blacklist of refresh tokens.
-- Redis is a parameter: `SET key value EX ttl` and `GET`, either of which may fail.
use nestjs_microservice_mono.Prelude.{
  ℕ, ◌+◌, ◌-◌, ◌/◌, ◌<◌, String, ◌≡◌, refl, ap, ◌∙◌, Bool, true, false, Option, none, some, [], ◌∷◌,
  template, ltb, ◌==◌, arith, if◌then◌else◌,
}
use nestjs_microservice_mono.Errors.Defs.{Thrown, Outcome, ok, err, unavailable_error}

-- Times are in milliseconds, a time to live in seconds.
pub record Redis : Type 1 where
  pub Store : Type 0
  pub set_ex : ℕ → String → String → ℕ → Store → Outcome Store
  pub get : ℕ → String → Store → Outcome (Option String)

-- A key that was set is found with its value until its time to live is over, if `GET` answers.
pub record IsRedis (r : Redis) : Type 0 where
  pub live :
      (now later : ℕ) (k v : String) (ttl : ℕ) (s s' : r.Store) (o : Option String)
      → r.set_ex now k v ttl s ≡ ok s'
      → later / 1000 < now / 1000 + ttl
      → r.get later k s' ≡ ok o
      → o ≡ some v

abbrev pub key_of : String → String
key_of jti = template ("blacklist:rt:" ∷ jti ∷ [])

-- `expiresAt` is in seconds; a token that has expired needs no entry.
unfoldable pub blacklist_refresh_token : (r : Redis) → ℕ → String → ℕ → r.Store → Outcome r.Store
blacklist_refresh_token r now jti expires_at s =
    if ltb 0 (expires_at - now / 1000)
    then r.set_ex now (key_of jti) "1" (expires_at - now / 1000) s
    else ok s

abbrev pub store_unavailable : Thrown
store_unavailable =
    unavailable_error "auth_store_unavailable" "Authentication service temporarily unavailable"

-- `val === '1'`
abbrev is_one : Option String → Bool
is_one none = false
is_one (some v) = v == "1"

checked : Outcome (Option String) → Outcome Bool
checked (ok o) = ok (is_one o)
checked (err e) = err store_unavailable

unfoldable pub is_blacklisted : (r : Redis) → ℕ → String → r.Store → Outcome Bool
unfolding checked
is_blacklisted r now jti s = checked (r.get now (key_of jti) s)

positive_ttl : (e n : ℕ) → n < e → ltb 0 (e - n) ≡ true
positive_ttl e n h = ground arith

checked-eq-ok :
    (x : Outcome (Option String)) (b : Bool)
    → checked x ≡ ok b
    → (o : Option String) × (x ≡ ok o) × (b ≡ is_one o)
unfolding checked
checked-eq-ok (ok o) b h = (o, refl, cc)
checked-eq-ok (err e) b h = cc

-- From the moment at which a token was blacklisted until it expires, a check of it that answers
-- says that it is blacklisted, whether Redis failed in between or not.
pub blacklist-holds :
    (r : Redis) (now later : ℕ) (jti : String) (expires_at : ℕ) (s s' : r.Store) (b : Bool)
    → IsRedis r
    → now / 1000 < expires_at
    → later / 1000 < expires_at
    → blacklist_refresh_token r now jti expires_at s ≡ ok s'
    → is_blacklisted r later jti s' ≡ ok b
    → b ≡ true
unfolding blacklist_refresh_token is_blacklisted
blacklist-holds r now later jti exp s s' b laws early before set check =
    let stored = rw (positive_ttl exp (now / 1000) early) at set in
    let (o, found, same) = checked-eq-ok (r.get later (key_of jti) s') b check in
    let one =
      laws.live now later (key_of jti) "1" (exp - now / 1000) s s' o stored (omega arith) found in
    same ∙ ap is_one one
