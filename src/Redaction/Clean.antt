-- ===== src/Redaction/Clean.antt =====
-- What the walk leaves in a log entry.
use nestjs_microservice_mono.Prelude.{
  ℕ, ◌+◌, ◌≡◌, refl, Bool, true, false, ◌&&◌, ◌||◌, ltb, ◌==◌, inl, inr, Bool-cases, if◌then◌else◌,
}
use nestjs_microservice_mono.Json.{
  Json, undefined, null, bool, num, str, opaque, arr, obj, Items, nil, cons, Fields, end, field,
}
use nestjs_microservice_mono.Redaction.{
  max_depth, is_secret, redact_secrets, redact_items, redact_fields,
}

abbrev is_redacted : Json → Bool
is_redacted (str s) = s == "[REDACTED]"
is_redacted _ = false

-- Every entry down to the greatest depth whose key names a secret holds the replacement.
unfoldable mutual
  pub is_clean : ℕ → Json → Bool
  is_clean depth undefined = true
  is_clean depth null = true
  is_clean depth (bool b) = true
  is_clean depth (num n) = true
  is_clean depth (str s) = true
  is_clean depth (opaque s) = true
  is_clean depth (arr vs) = ltb max_depth depth || items_clean (depth + 1) vs
  is_clean depth (obj fs) = ltb max_depth depth || fields_clean (depth + 1) fs

  pub items_clean : ℕ → Items → Bool
  items_clean depth nil = true
  items_clean depth (cons v vs) = is_clean depth v && items_clean depth vs

  pub fields_clean : ℕ → Fields → Bool
  fields_clean depth end = true
  fields_clean depth (field k v fs) =
      let walked = is_clean depth v in
      (if is_secret k then is_redacted v else walked) && fields_clean depth fs

mutual
  unfolding redact_secrets is_clean

  cleans : (depth : ℕ) (v : Json) → is_clean depth (redact_secrets depth v) ≡ true
  cleans depth undefined = refl
  cleans depth null = refl
  cleans depth (bool b) = refl
  cleans depth (num n) = refl
  cleans depth (str s) = refl
  cleans depth (opaque s) = refl
  cleans depth (arr vs) =
      let walked = cleans_items (depth + 1) vs in
      elim (Bool-cases (ltb max_depth depth)) [
        | inl deep ↦ rw (deep, deep) refl
        | inr shallow ↦ rw (shallow, shallow, walked) refl
      ]
  cleans depth (obj fs) =
      let walked = cleans_fields (depth + 1) fs in
      elim (Bool-cases (ltb max_depth depth)) [
        | inl deep ↦ rw (deep, deep) refl
        | inr shallow ↦ rw (shallow, shallow, walked) refl
      ]

  cleans_items : (depth : ℕ) (vs : Items) → items_clean depth (redact_items depth vs) ≡ true
  cleans_items depth nil = refl
  cleans_items depth (cons v vs) = rw (cleans depth v, cleans_items depth vs) refl

  cleans_fields : (depth : ℕ) (fs : Fields) → fields_clean depth (redact_fields depth fs) ≡ true
  cleans_fields depth end = refl
  cleans_fields depth (field k v fs) =
      let walked = cleans depth v in
      let rest = cleans_fields depth fs in
      elim (Bool-cases (is_secret k)) [
        | inl secret ↦ rw (secret, rest) refl
        | inr plain ↦ rw (plain, walked, rest) refl
      ]

-- After the walk every entry whose key names a secret, down to the greatest depth, holds the
-- replacement.
pub redact_secrets-clean : (v : Json) → is_clean 0 (redact_secrets 0 v) ≡ true
redact_secrets-clean v = cleans 0 v

mutual
  unfolding redact_secrets

  settles :
      (depth : ℕ) (v : Json)
      → redact_secrets depth (redact_secrets depth v) ≡ redact_secrets depth v
  settles depth undefined = refl
  settles depth null = refl
  settles depth (bool b) = refl
  settles depth (num n) = refl
  settles depth (str s) = refl
  settles depth (opaque s) = refl
  settles depth (arr vs) =
      let walked = settles_items (depth + 1) vs in
      elim (Bool-cases (ltb max_depth depth)) [
        | inl deep ↦ rw (deep, deep) refl
        | inr shallow ↦ rw (shallow, shallow, walked) refl
      ]
  settles depth (obj fs) =
      let walked = settles_fields (depth + 1) fs in
      elim (Bool-cases (ltb max_depth depth)) [
        | inl deep ↦ rw (deep, deep) refl
        | inr shallow ↦ rw (shallow, shallow, walked) refl
      ]

  settles_items :
      (depth : ℕ) (vs : Items) → redact_items depth (redact_items depth vs) ≡ redact_items depth vs
  settles_items depth nil = refl
  settles_items depth (cons v vs) = cc (settles depth v, settles_items depth vs)

  settles_fields :
      (depth : ℕ) (fs : Fields)
      → redact_fields depth (redact_fields depth fs) ≡ redact_fields depth fs
  settles_fields depth end = refl
  settles_fields depth (field k v fs) =
      let walked = settles depth v in
      let rest = settles_fields depth fs in
      elim (Bool-cases (is_secret k)) [
        | inl secret ↦ rw (secret, rest) refl
        | inr plain ↦ rw (plain, walked, rest) refl
      ]

-- A value that went through the walk is not changed by a second one, as in the formatter of the
-- logs and the hook of Sentry.
pub redact_secrets-idempotent :
    (v : Json) → redact_secrets 0 (redact_secrets 0 v) ≡ redact_secrets 0 v
redact_secrets-idempotent v = settles 0 v
