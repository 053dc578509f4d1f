-- ===== src/Gateway/OAuth/Vk.antt =====
-- apps/gateway/src/modules/auth/oauth/vk-oauth-verifier.service.ts
pub mod Attested
pub mod Verdicts
pub mod Hints
use Prim.Native.Char.{code}
use nestjs_microservice_mono.Prelude.{
  ℕ, String, ◌≡◌, refl, Bool, true, false, not, ◌&&◌, ◌||◌, Option, none, some, List, [], ◌∷◌, ◌==◌,
  leb, nat_eq, template, truthy, or_else, or_option, decimal, if◌then◌else◌,
}
use nestjs_microservice_mono.Errors.Codes
use nestjs_microservice_mono.Errors.Defs.{Outcome, ok, err, unauthorized_error, unavailable_error}
use nestjs_microservice_mono.Entities.{Platform, android, ios}
use nestjs_microservice_mono.Trim.{trim}
use nestjs_microservice_mono.Gateway.OAuth.{
  OAuthIdentity, OAuthVerifyHints, Fetched, network, response, token_rejected, upstream_unavailable,
  fetch_with_retry, filled, join, present,
}

-- `user_id?: number | string`
pub data VkId : Type 0 where
  number : ℕ → VkId
  text : String → VkId

-- The truth value and `String(...)` of an id.
unfoldable pub has_id : Option VkId → Bool
has_id none = false
has_id (some (number n)) = not (nat_eq n 0)
has_id (some (text s)) = not (s == "")

unfoldable pub id_text : VkId → String
unfolding decimal
id_text (number n) = decimal n
id_text (text s) = s

-- The bodies of /oauth2/public_info and users.get, as the source's casts type them.
pub record VkUser : Type 0 where
  pub user_id : Option VkId
  pub first_name : Option String
  pub last_name : Option String
  pub email : Option String
  pub verified : Option Bool

pub record PublicInfo : Type 0 where
  pub user : Option VkUser
  pub error : Option String
  pub error_description : Option String

pub record VkProfile : Type 0 where
  pub id : Option ℕ
  pub first_name : Option String
  pub last_name : Option String

pub data VkResponse : Type 0 where
  absent : VkResponse
  object : VkProfile → VkResponse
  array : List VkProfile → VkResponse

pub record UserInfo : Type 0 where
  pub response : VkResponse
  pub error : Option String

-- The app ids of the configuration; the `alg` text that a JWS header, base64url-encoded JSON,
-- carries; VK's answers by client id and token, and by access token and attempt.
pub record VkVerifier : Type 0 where
  pub android_id : Option String
  pub ios_id : Option String
  pub header_alg : String → Option String
  pub public_info : String → String → Fetched PublicInfo
  pub user_info : String → ℕ → Fetched UserInfo

unfoldable pub split_dots : String → List String
split_dots String.[] = "" ∷ []
split_dots (String.◌∷◌ c s) = elim (split_dots s) [
  | [] ↦ []
  | p ∷ ps ↦ if nat_eq (code c) b'.' then "" ∷ p ∷ ps else String.◌∷◌ c p ∷ ps
]

abbrev three_segments : (String → Option String) → List String → Bool
three_segments alg (h ∷ _ ∷ _ ∷ []) = truthy (alg h)
three_segments alg _ = false

unfoldable pub looks_like_jwt : VkVerifier → String → Bool
unfolding split_dots
looks_like_jwt v token = three_segments v.header_alg (split_dots token)

abbrev pub hints_ios : Option Platform → Bool
hints_ios (some ios) = true
hints_ios _ = false

unfoldable pub ordered_client_ids : VkVerifier → OAuthVerifyHints → List String
ordered_client_ids v hints = filled (
    if hints_ios hints.platform then v.ios_id ∷ v.android_id ∷ [] else v.android_id ∷ v.ios_id ∷ [])

unfoldable pub compose_name : Option String → Option String → Option String
unfolding trim
compose_name first last = present (trim (join (filled (first ∷ last ∷ []))))

pub data PublicInfoResult : Type 0 where
  accepted : OAuthIdentity → PublicInfoResult
  rejected : String → PublicInfoResult
  upstream : String → PublicInfoResult

unfoldable pub identity_of_user : VkId → VkUser → OAuthIdentity
unfolding id_text compose_name
identity_of_user i user = record {
  provider_user_id = id_text i;
  email = if truthy user.email then user.email else none;
  email_verified = some (truthy user.email && or_else user.verified false);
  name = compose_name user.first_name user.last_name;
}

abbrev rejection : String → PublicInfo → PublicInfoResult
rejection client_id p = rejected (
    template (
      "client_id="
      ∷ client_id
      ∷ ": "
      ∷ or_else (or_option p.error_description p.error) "unknown"
      ∷ []))

abbrev read_user : String → PublicInfo → VkUser → PublicInfoResult
read_user client_id p user = elim user.user_id [
  | none ↦ rejection client_id p
  | some i ↦ if has_id (some i) then accepted (identity_of_user i user) else rejection client_id p
]

unfoldable pub read_public_info : String → Option PublicInfo → PublicInfoResult
unfolding has_id identity_of_user
read_public_info client_id none = rejected (template ("client_id=" ∷ client_id ∷ ": unknown" ∷ []))
read_public_info client_id (some p) =
    if truthy p.error
    then rejection client_id p
    else elim p.user [ none ↦ rejection client_id p | some user ↦ read_user client_id p user ]

abbrev public_info_result : String → Fetched PublicInfo → PublicInfoResult
public_info_result client_id (network m) =
    upstream (template ("VK public_info network error: " ∷ m ∷ []))
public_info_result client_id (response status body) =
    if leb 500 status
    then upstream (template ("VK public_info returned " ∷ decimal status ∷ []))
    else read_public_info client_id body

unfoldable pub try_public_info : VkVerifier → String → String → PublicInfoResult
unfolding read_public_info decimal
try_public_info v client_id id_token =
    public_info_result client_id (v.public_info client_id id_token)

-- The loop over the client ids: what one answer means, given what the rest of the loop returns.
abbrev pub after_attempt : PublicInfoResult → Outcome OAuthIdentity → Outcome OAuthIdentity
after_attempt (accepted i) rest = ok i
after_attempt (upstream m) rest = upstream_unavailable m
after_attempt (rejected _) rest = rest

unfoldable pub try_clients : (String → PublicInfoResult) → List String → Outcome OAuthIdentity
try_clients try [] = token_rejected "VK rejected the token"
try_clients try (c ∷ cs) = after_attempt (try c) (try_clients try cs)

abbrev try_all : (String → PublicInfoResult) → List String → Outcome OAuthIdentity
try_all try [] =
    token_rejected
      "VK OAuth is not configured on this server — set VK_ANDROID_APP_ID / VK_IOS_APP_ID"
try_all try (c ∷ cs) = try_clients try (c ∷ cs)

unfoldable pub verify_id_token : VkVerifier → String → OAuthVerifyHints → Outcome OAuthIdentity
unfolding ordered_client_ids try_public_info try_clients
verify_id_token v id_token hints =
    try_all (λ c. try_public_info v c id_token) (ordered_client_ids v hints)

abbrev response_profile : VkResponse → Option VkProfile
response_profile absent = none
response_profile (object p) = some p
response_profile (array []) = none
response_profile (array (p ∷ _)) = some p

abbrev identity_of_profile : ℕ → VkProfile → OAuthIdentity
identity_of_profile i p = record {
  provider_user_id = decimal i;
  email = none;
  email_verified = none;
  name = compose_name p.first_name p.last_name;
}

abbrev read_profile : VkProfile → Outcome OAuthIdentity
read_profile p = elim p.id [
  | none ↦ token_rejected "VK rejected the token"
  | some i ↦
      if nat_eq i 0 then token_rejected "VK rejected the token" else ok (identity_of_profile i p)
]

abbrev read_profiled : Option VkProfile → Outcome OAuthIdentity
read_profiled none = token_rejected "VK rejected the token"
read_profiled (some p) = read_profile p

-- The body of users.get: `error` is VK's `error_msg`, whose object is there or not.
unfoldable pub read_user_info : Option UserInfo → Outcome OAuthIdentity
unfolding decimal compose_name
read_user_info none = token_rejected "VK rejected the token"
read_user_info (some b) = elim b.error [
  | none ↦ read_profiled (response_profile b.response)
  | some _ ↦ token_rejected "VK rejected the token"
]

unfoldable pub after_fetch : Outcome (ℕ × Option UserInfo) → Outcome OAuthIdentity
unfolding read_user_info decimal
after_fetch (err e) = err e
after_fetch (ok (status, body)) =
    if leb 500 status
    then upstream_unavailable (template ("VK returned " ∷ decimal status ∷ []))
    else read_user_info body

unfoldable pub verify_access_token : VkVerifier → String → Outcome OAuthIdentity
unfolding fetch_with_retry after_fetch
verify_access_token v access_token =
    after_fetch (fetch_with_retry "VK is temporarily unavailable" (v.user_info access_token))

unfoldable pub vk_verify : VkVerifier → String → OAuthVerifyHints → Outcome OAuthIdentity
unfolding looks_like_jwt verify_id_token verify_access_token
vk_verify v token hints =
    if not (truthy (some token))
    then token_rejected "VK token required"
    else if looks_like_jwt v token
    then verify_id_token v token hints
    else verify_access_token v token
