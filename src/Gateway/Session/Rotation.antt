-- ===== src/Gateway/Session/Rotation.antt =====
-- What `refresh` of auth.service.ts and the refresh route do, on success.
use nestjs_microservice_mono.Prelude.{
  ℕ, ◌/◌, ◌<◌, String, ◌≡◌, ◌≢◌, refl, ap, sym, true, false, some, arith, or_else, nat_eq,
  Bool-cases, inl, inr,
}
use nestjs_microservice_mono.Errors.Defs.{Outcome, ok, err}
use nestjs_microservice_mono.Errors.Client.{Reply, returns, throws}
use nestjs_microservice_mono.Gateway.TokenStore.{
  Redis, IsRedis, blacklist_refresh_token, is_blacklisted, blacklist-holds,
}
use nestjs_microservice_mono.Gateway.Tokens.{JwtRefreshPayload, validate_refresh}
use nestjs_microservice_mono.Gateway.Session.{
  Jwt, TokenConfig, TokenPair, RefreshRequest, issue_token_pair, refresh, rotate, issue_after,
}

nat_eq-eq : (a b : ℕ) → nat_eq a b ≡ true → a ≡ b
nat_eq-eq a b h = ground arith

-- What a successful call of `refresh` did.
pub record Rotated (r : Redis) (j : Jwt) (c : TokenConfig) (now : ℕ) (new_jti : String)
    (q : RefreshRequest) (reply : Reply ℕ) (pair : TokenPair) (s s' : r.Store) : Type 0 where
  pub current : reply ≡ returns (or_else q.tv 0)
  pub blacklisted : blacklist_refresh_token r now q.jti q.exp s ≡ ok s'
  pub issued :
      pair ≡ issue_token_pair j c now new_jti q.user_id q.type_name q.device_id (or_else q.tv 0)

module _ (r : Redis) (j : Jwt) (c : TokenConfig) (now : ℕ) (new_jti : String)
    (q : RefreshRequest) where
  issue_after-eq-ok :
      (pair pair' : TokenPair) (s : r.Store) (o : Outcome r.Store)
      → (issue_after r pair s o).0 ≡ ok pair'
      → (pair' ≡ pair) × (o ≡ ok (issue_after r pair s o).1)
  unfolding issue_after
  issue_after-eq-ok pair pair' s (ok s') h = (cc, refl)
  issue_after-eq-ok pair pair' s (err e) h = cc

  rotate-Rotated :
      (reply : Reply ℕ) (pair : TokenPair) (s : r.Store)
      → (rotate r j c now new_jti q reply s).0 ≡ ok pair
      → Rotated r j c now new_jti q reply pair s (rotate r j c now new_jti q reply s).1
  unfolding rotate
  rotate-Rotated (throws e) pair s h = cc
  rotate-Rotated (returns tv) pair s h = elim (Bool-cases (nat_eq (or_else q.tv 0) tv)) [
    | inl same ↦
        let e = nat_eq-eq (or_else q.tv 0) tv same in
        let (issued, stored) = issue_after-eq-ok _ pair s _ (rw same at h) in
        rw same
          (record { current = ap returns (sym e); blacklisted = stored; issued = rw e issued })
    | inr other ↦ cc (rw other at h)
  ]

-- A refresh that succeeds presented the user's current token version, has blacklisted the token
-- that was used, and hands out a pair for the same user, device and version.
pub refresh-Rotated :
    (r : Redis) (j : Jwt) (c : TokenConfig) (now : ℕ) (new_jti : String) (q : RefreshRequest)
    (reply : Reply ℕ) (pair : TokenPair) (s : r.Store)
    → (refresh r j c now new_jti q reply s).0 ≡ ok pair
    → Rotated r j c now new_jti q reply pair s (refresh r j c now new_jti q reply s).1
unfolding refresh
refresh-Rotated r j c now new_jti q reply pair s h =
    rotate-Rotated r j c now new_jti q reply pair s h

accepted-IsListed :
    (r : Redis) (now : ℕ) (p p' : JwtRefreshPayload) (s : r.Store)
    → validate_refresh r now p s ≡ ok p'
    → is_blacklisted r now (or_else p.jti "") s ≡ ok false
unfolding validate_refresh
accepted-IsListed r now p p' s h = ground arith

-- After a refresh with a token that has not expired, no token with its id passes the refresh
-- strategy again before it expires, also not while Redis fails.
pub refresh-IsSingleUse :
    (r : Redis) (j : Jwt) (c : TokenConfig) (now later : ℕ) (new_jti : String) (q : RefreshRequest)
    (reply : Reply ℕ) (pair : TokenPair) (s : r.Store) (p p' : JwtRefreshPayload)
    → IsRedis r
    → now / 1000 < q.exp
    → later / 1000 < q.exp
    → (refresh r j c now new_jti q reply s).0 ≡ ok pair
    → p.jti ≡ some q.jti
    → validate_refresh r later p (refresh r j c now new_jti q reply s).1 ≢ ok p'
refresh-IsSingleUse r j c now later new_jti q reply pair s p p' laws early before done same again =
    let rotated = refresh-Rotated r j c now new_jti q reply pair s done in
    let check : is_blacklisted r later q.jti (refresh r j c now new_jti q reply s).1 ≡ ok false =
      simp same at (accepted-IsListed r later p p' _ again) in
    cc (
      blacklist-holds r now later q.jti q.exp s _ false laws early before rotated.blacklisted check)
