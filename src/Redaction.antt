-- ===== src/Redaction.antt =====
-- libs/common/src/bootstrap/redact-secrets.ts. The entries of an object are listed in their order,
-- and none is named `__proto__`.
pub mod Clean
use nestjs_microservice_mono.Prelude.{
  ℕ, ◌+◌, ◌-◌, String, ◌≡◌, refl, Bool, true, ◌&&◌, List, [], ◌∷◌, any, leb, ltb, ◌==◌, false, none,
  some, if◌then◌else◌,
}
use mathlib.Core.List.{map}
use nestjs_microservice_mono.Json.{
  Json, undefined, null, bool, num, str, opaque, arr, obj, Items, nil, cons, Fields, end, field,
}
use nestjs_microservice_mono.Words.{codes, strip, search_from}

abbrev pub secret_redacted : Json
secret_redacted = str "[REDACTED]"

abbrev pub max_depth : ℕ
max_depth = 6

-- The flag `i` without `u`: a letter outside of ASCII matches no letter of the pattern.
unfoldable pub upper : ℕ → ℕ
upper c = if leb b'a' c && leb c b'z' then c - 32 else c

abbrev secret_names : List String
secret_names =
    "KEY" ∷ "SECRET" ∷ "TOKEN" ∷ "PASSWORD" ∷ "PASSWD" ∷ "PRIVATE" ∷ "AUTHORIZATION" ∷ "AUTH"
    ∷ "CREDENTIAL" ∷ "COOKIE" ∷ "SESSION" ∷ "API_KEY" ∷ "API-KEY" ∷ "APIKEY" ∷ "FINGERPRINT"
    ∷ "VERIFIER" ∷ []

abbrev starts_with : List ℕ → List ℕ → Bool
starts_with w s = elim (strip none w s) [ none ↦ false | some _ ↦ true ]

-- `SECRET_KEY_RE.test(k)`
unfoldable pub is_secret : String → Bool
unfolding strip search_from upper
is_secret k =
    let s = map upper (codes k) in
    any (λ w. search_from (λ _ rest. starts_with (codes w) rest) none s) secret_names

unfoldable mutual
  pub redact_secrets : ℕ → Json → Json
  redact_secrets depth undefined = undefined
  redact_secrets depth null = null
  redact_secrets depth (bool b) = bool b
  redact_secrets depth (num n) = num n
  redact_secrets depth (str s) = str s
  redact_secrets depth (opaque s) = opaque s
  redact_secrets depth (arr vs) =
      let walked = redact_items (depth + 1) vs in if ltb max_depth depth then arr vs else arr walked
  redact_secrets depth (obj fs) =
      let walked = redact_fields (depth + 1) fs in
      if ltb max_depth depth then obj fs else obj walked

  pub redact_items : ℕ → Items → Items
  redact_items depth nil = nil
  redact_items depth (cons v vs) = cons (redact_secrets depth v) (redact_items depth vs)

  pub redact_fields : ℕ → Fields → Fields
  redact_fields depth end = end
  redact_fields depth (field k v fs) =
      let walked = redact_secrets depth v in
      field k (if is_secret k then secret_redacted else walked) (redact_fields depth fs)

key_test : is_secret "smtpPassword" ≡ true
unfolding is_secret
key_test = refl
