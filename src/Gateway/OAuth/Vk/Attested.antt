-- ===== src/Gateway/OAuth/Vk/Attested.antt =====
-- When VK attests an identity, and what one answer of public_info means.
use mathlib.Core.Bool.{false≢true}
use nestjs_microservice_mono.Prelude.{
  ℕ, String, ◌≡◌, ◌≢◌, ◌↔◌, refl, ap, Bool, true, false, ◌&&◌, decimal, arith, if◌then◌else◌,
  Option, none, some, leb, nat_eq, truthy, or_else, ◌⊎◌, inl, inr, Bool-cases, Option-cases,
}
use nestjs_microservice_mono.Gateway.OAuth.{OAuthIdentity, Fetched, network, response}
use nestjs_microservice_mono.Gateway.OAuth.Retry.{is_down, gave_up}
use nestjs_microservice_mono.Gateway.OAuth.Contract.{HasVerifiedEmail}
use nestjs_microservice_mono.Gateway.OAuth.Vk.{
  VkId, number, text, id_text, has_id, VkUser, PublicInfo, VkProfile, UserInfo, VkVerifier,
  looks_like_jwt, PublicInfoResult, accepted, rejected, upstream, identity_of_user, read_user,
  read_public_info, public_info_result, response_profile,
}

-- An app id of the configuration.
abbrev pub Whitelisted : VkVerifier → String → Type 0
Whitelisted v c = (v.android_id ≡ some c) ⊎ (v.ios_id ≡ some c)

-- VK is down for the token: it fails for an app id, or for both attempts at users.get.
pub data VkDown (v : VkVerifier) (token : String) : Type 0 where
  public_info_down :
      (c : String) → Whitelisted v c → is_down (v.public_info c token) ≡ true → VkDown v token
  user_info_down : gave_up (v.user_info token 0) (v.user_info token 1) ≡ true → VkDown v token

-- The text of an id.
abbrev pub Shows : VkId → String → Type 0
Shows (number n) s = s ≡ decimal n
Shows (text t) s = s ≡ t

-- An optional text of the answer is told as it is, unless it is empty.
abbrev pub Told : Option String → Option String → Type 0
Told said told = (truthy said ≡ true) × (told ≡ said) ⊎ (truthy said ≡ false) × (told ≡ none)

-- The identity has the id and the e-mail of the user in the answer of public_info, and its e-mail is
-- verified exactly if it is there and VK says so.
pub record IsOf (uid : VkId) (u : VkUser) (i : OAuthIdentity) : Type 0 where
  pub whose : Shows uid i.provider_user_id
  pub email : Told u.email i.email
  pub verified :
      (i.email_verified ≡ some true) ↔ ((truthy u.email ≡ true) × (u.verified ≡ some true))

-- VK answered for the identity: to one of our app ids, with no error and the user's id, or, for a
-- token that is not a JWT, through users.get.
pub data VkAttests (v : VkVerifier) (token : String) (i : OAuthIdentity) : Type 0 where
  by_public_info :
      (c : String) (s : ℕ) (p : PublicInfo) (u : VkUser) (uid : VkId)
      → Whitelisted v c
      → looks_like_jwt v token ≡ true
      → v.public_info c token ≡ response s (some p)
      → truthy p.error ≡ false
      → p.user ≡ some u
      → u.user_id ≡ some uid
      → has_id (some uid) ≡ true
      → IsOf uid u i
      → VkAttests v token i
  by_user_info :
      (s : ℕ) (b : UserInfo) (p : VkProfile) (uid : ℕ)
      → (v.user_info token 0 ≡ response s (some b)) ⊎ (v.user_info token 1 ≡ response s (some b))
      → looks_like_jwt v token ≡ false
      → b.error ≡ none
      → response_profile b.response ≡ some p
      → p.id ≡ some uid
      → nat_eq uid 0 ≡ false
      → i.provider_user_id ≡ decimal uid
      → i.email ≡ none
      → i.email_verified ≢ some true
      → VkAttests v token i

pub verified_email : (uid : VkId) (u : VkUser) → HasVerifiedEmail (identity_of_user uid u)
unfolding identity_of_user
verified_email uid u = elim (Bool-cases (truthy u.email)) [
  | inl there ↦ inl (rw (there, there) refl)
  | inr absent ↦ inr (λ e. false≢true (ap (λ o. or_else o true) (rw absent at e)))
]

pub identity_of_user-IsOf : (uid : VkId) (u : VkUser) → IsOf uid u (identity_of_user uid u)
unfolding identity_of_user id_text
identity_of_user-IsOf uid u = record {
  whose = shown uid;
  email = told u.email;
  verified = verified_iff u.email u.verified;
}
  where
    shown : (uid : VkId) → Shows uid (identity_of_user uid u).provider_user_id
    shown (number n) = refl
    shown (text t) = refl

    told : (said : Option String) → Told said (if truthy said then said else none)
    told said = elim (Bool-cases (truthy said)) [
      | inl there ↦ rw there (inl (refl, refl))
      | inr absent ↦ rw absent (inr (refl, refl))
    ]

    verified_iff :
        (email : Option String) (v : Option Bool)
        → (some (truthy email && or_else v false) ≡ some true)
          ↔ ((truthy email ≡ true) × (v ≡ some true))
    verified_iff email none = (λ e. ground (arith, e), λ k. cc k.1)
    verified_iff email (some b) = (λ e. ground (arith, e), λ k. ground (arith, k))

-- What one answer of public_info means.
pub data Meaning (f : Fetched PublicInfo) (r : PublicInfoResult) : Type 0 where
  is_upstream : (m : String) → is_down f ≡ true → r ≡ upstream m → Meaning f r
  is_rejected : (m : String) → r ≡ rejected m → Meaning f r
  is_accepted :
      (s : ℕ) (p : PublicInfo) (u : VkUser) (uid : VkId)
      → f ≡ response s (some p)
      → truthy p.error ≡ false
      → p.user ≡ some u
      → u.user_id ≡ some uid
      → has_id (some uid) ≡ true
      → r ≡ accepted (identity_of_user uid u)
      → Meaning f r

module _ (c : String) (s : ℕ) (p : PublicInfo) where
  read_user-Meaning :
      (u : VkUser)
      → truthy p.error ≡ false
      → p.user ≡ some u
      → Meaning (response s (some p)) (read_user c p u)
  read_user-Meaning u clean who = elim (Option-cases u.user_id) [
    | inl absent ↦ rw absent (is_rejected _ refl)
    | inr (uid, present) ↦ elim (Bool-cases (has_id (some uid))) [
      | inl there ↦ is_accepted s p u uid refl clean who present there (rw (present, there) refl)
      | inr empty ↦ rw (present, empty) (is_rejected _ refl)
    ]
  ]

  read_public_info-Meaning : Meaning (response s (some p)) (read_public_info c (some p))
  unfolding read_public_info
  read_public_info-Meaning = elim (Bool-cases (truthy p.error)) [
    | inl failed ↦ rw failed (is_rejected _ refl)
    | inr clean ↦ elim (Option-cases p.user) [
      | inl absent ↦ rw (clean, absent) (is_rejected _ refl)
      | inr (u, who) ↦ simp (clean, who) (read_user-Meaning u clean who)
    ]
  ]

read_body-Meaning :
    (c : String) (s : ℕ) (b : Option PublicInfo) → Meaning (response s b) (read_public_info c b)
unfolding read_public_info
read_body-Meaning c s none = is_rejected _ refl
read_body-Meaning c s (some p) = read_public_info-Meaning c s p

pub public_info_result-Meaning :
    (c : String) (f : Fetched PublicInfo) → Meaning f (public_info_result c f)
unfolding read_public_info
public_info_result-Meaning c (network m) = is_upstream _ refl refl
public_info_result-Meaning c (response s b) = elim (Bool-cases (leb 500 s)) [
  | inl broken ↦ rw broken (is_upstream _ broken refl)
  | inr fine ↦ rw fine (read_body-Meaning c s b)
]
