-- ===== src/Gateway/OAuth/Contract.antt =====
-- The contract of `OAuthVerifier.verify` in oauth-verifier.interface.ts.
use nestjs_microservice_mono.Prelude.{String, ◌≡◌, true, some, truthy, ◌⊎◌, ◌≢◌}
use nestjs_microservice_mono.Errors.Defs.{Outcome, ok}
use nestjs_microservice_mono.Gateway.OAuth.{OAuthIdentity, token_rejected, upstream_unavailable}

-- An e-mail that is marked as verified is there.
abbrev pub HasVerifiedEmail : OAuthIdentity → Type 0
HasVerifiedEmail i = (truthy i.email ≡ true) ⊎ (i.email_verified ≢ some true)

-- What a verifier may return, where `Down` says that the provider failed and `Attests i` that the
-- provider answered for the identity `i`.
pub data Verdict (Down : Type 0) (Attests : OAuthIdentity → Type 0) (r : Outcome OAuthIdentity)
    : Type 0 where
  refused : (m : String) → r ≡ token_rejected m → Verdict Down Attests r
  unavailable : (m : String) → Down → r ≡ upstream_unavailable m → Verdict Down Attests r
  identified :
      (i : OAuthIdentity) → Attests i → HasVerifiedEmail i → r ≡ ok i → Verdict Down Attests r
