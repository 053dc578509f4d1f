-- ===== src/Users/Common.antt =====
-- What the methods share: `findById`, the flush at their end, and the documents' collections.
use nestjs_microservice_mono.Prelude.{
  ℕ, String, ◌≡◌, ◌≢◌, refl, ap, sym, ◌∙◌, ◌⊎◌, Option-cases, ◌&&◌, Bool, true, false, Option, none,
  some, List, [], ◌∷◌, In, inl, inr, keep, arith, ◌==◌, eq_iff, Bool-cases, differ-absurd,
  if◌then◌else◌,
}
use nestjs_microservice_mono.Errors.Defs.{Thrown, Outcome, ok, err, not_found, exception}
use nestjs_microservice_mono.Entities.{
  User, Database, is_some, replace_user, AccountType, autoreg, registered, is_autoreg, version,
  holds, is_live,
}
use nestjs_microservice_mono.Driver.{Driver, Flush, written, rejected, IsQuery}

-- `{ id, accountType, tokenVersion }`
pub record Identity : Type 0 where
  pub id : String
  pub account_type : AccountType
  pub token_version : ℕ

abbrev pub identity : User → Identity
identity u = record { id = u.id; account_type = u.account_type; token_version = version u }

abbrev pub email_taken : Thrown
email_taken = exception 409 "EMAIL_EXISTS" "Email already registered" none

abbrev pub user_not_found : Thrown
user_not_found = not_found "User not found"

-- `await this.em.flush()` and what the method returns after it.
unfoldable pub after_flush {ℓ} : {A : Type ℓ} → Flush → A → Database → Outcome A × Database
after_flush written a db = (ok a, db)
after_flush (rejected e left) a db = (err e, left)

pub ok-injective : {A : Type 0} (a b : A) → ok a ≡ ok b → a ≡ b
ok-injective a b h = cc

pub err-ne-ok : {A : Type 0} (e : Thrown) (a : A) → err e ≡ ok a → ⊥
err-ne-ok e a h = cc

unfoldable pub live_or_missing : Option User → Outcome User
live_or_missing none = err user_not_found
live_or_missing (some u) = if is_some u.deleted_at then err user_not_found else ok u

-- `findById`: `new ObjectId(userId)` may throw, and a soft-deleted user is not found.
unfoldable pub find_by_id : Driver → String → Database → Outcome User
unfolding live_or_missing
find_by_id d uid db = elim (d.object_id uid) [
  | err e ↦ err e
  | ok oid ↦ live_or_missing (d.find_user (λ u. u.id == oid) db.users)
]

live_or_missing-eq-ok :
    (o : Option User) (u : User) → live_or_missing o ≡ ok u → (o ≡ some u) × (u.deleted_at ≡ none)
unfolding live_or_missing
live_or_missing-eq-ok none u h = cc
live_or_missing-eq-ok (some v) u h = elim (Option-cases v.deleted_at) [
  | inl live ↦
      let same : v ≡ u = ok-injective v u (simp live at h) in
      (ap some same, ap (λ (w : User). w.deleted_at) (sym same) ∙ live)
  | inr (t, gone) ↦ absurd (err-ne-ok user_not_found u (simp gone at h))
]

pub Outcome-cases :
    {A : Type 0} (o : Outcome A) → ((a : A) × (o ≡ ok a)) ⊎ ((e : Thrown) × (o ≡ err e))
Outcome-cases (ok a) = inl (a, refl)
Outcome-cases (err e) = inr (e, refl)

pub find_by_id-eq-ok :
    (d : Driver) (uid : String) (db : Database) (u : User)
    → IsQuery d.find_user
    → find_by_id d uid db ≡ ok u
    → In u db.users × (u.deleted_at ≡ none) × (d.object_id uid ≡ ok u.id)
unfolding find_by_id
find_by_id-eq-ok d uid db u q h = elim (Outcome-cases (d.object_id uid)) [
  | inl (oid, parsed) ↦
      let (found, live) = live_or_missing-eq-ok _ u (rw (parsed, find_by_id) at h) in
      let (listed, same) = q.found _ db.users u found in
      (listed, live, parsed ∙ ap ok (sym ((eq_iff u.id oid).0 same)))
  | inr (e, refused) ↦ absurd (err-ne-ok e u (rw (refused, find_by_id) at h))
]

live_or_missing-cases :
    (o : Option User)
    → (live_or_missing o ≡ err user_not_found) ⊎ ((u : User) × (live_or_missing o ≡ ok u))
unfolding live_or_missing
live_or_missing-cases none = inl refl
live_or_missing-cases (some u) = elim (Bool-cases (is_some u.deleted_at)) [
  | inl gone ↦ inl (rw gone)
  | inr alive ↦ inr (u, rw alive)
]

-- A read by a well-formed id gives the account, or 404.
pub find_by_id-cases :
    (d : Driver) (uid i : String) (db : Database)
    → d.object_id uid ≡ ok i
    → (find_by_id d uid db ≡ err user_not_found) ⊎ ((u : User) × (find_by_id d uid db ≡ ok u))
unfolding find_by_id
find_by_id-cases d uid i db parsed = rw (parsed, find_by_id) (live_or_missing-cases _)

-- A flush that did not reject wrote the document.
pub after_flush-eq-ok :
    {A : Type 0} (f : Flush) (a b : A) (db : Database)
    → (after_flush f a db).0 ≡ ok b
    → (b ≡ a) × ((after_flush f a db).1 ≡ db)
unfolding after_flush
after_flush-eq-ok written a b db h = (ok-injective b a (sym h), refl)
after_flush-eq-ok (rejected e left) a b db h = absurd (err-ne-ok e b h)

pub is_autoreg-eq : (t : AccountType) → is_autoreg t ≡ true → t ≡ autoreg
is_autoreg-eq autoreg h = refl
is_autoreg-eq registered h = cc

-- The meaning of the query filters.
pub holds-eq : (o : Option String) (s : String) → holds o s ≡ true → o ≡ some s
holds-eq none s h = cc
holds-eq (some t) s h = ap some ((eq_iff t s).0 h)

pub and-true : (a b : Bool) → (a && b) ≡ true → (a ≡ true) × (b ≡ true)
and-true true b h = (refl, h)
and-true false b h = cc

pub is_live-eq : (u : User) → is_live u ≡ true → u.deleted_at ≡ none
is_live-eq u h = ground arith

-- Every document of the written entity's id is the entity.
pub replace_user_self :
    (u v : User) (us : List User) → In v (replace_user u us) → v.id ≡ u.id → v ≡ u
unfolding replace_user
replace_user_self u v [] i e = elim i [ ]
replace_user_self u v (x ∷ xs) (inl h) e = elim (Bool-cases (x.id == u.id)) [
  | inl same ↦ rw same at h
  | inr other ↦
      let taken : v ≡ x = rw other at h in
      absurd (differ-absurd x.id u.id other (ap (λ (w : User). w.id) (sym taken) ∙ e))
]
replace_user_self u v (x ∷ xs) (inr i) e = replace_user_self u v xs i e

-- A document of another id stays.
pub replace_user-other :
    (u v : User) (us : List User) → In v us → v.id ≢ u.id → In v (replace_user u us)
unfolding replace_user
replace_user-other u v [] i ne = i
replace_user-other u v (x ∷ xs) (inl h) ne = elim (Bool-cases (x.id == u.id)) [
  | inl same ↦ absurd (ne (ap (λ (w : User). w.id) h ∙ (eq_iff x.id u.id).0 same))
  | inr other ↦ rw other (inl h)
]
replace_user-other u v (x ∷ xs) (inr i) ne = inr (replace_user-other u v xs i ne)

-- The written entity is there if a document had its id.
pub In-replace_user :
    (u v : User) (us : List User) → In v us → v.id ≡ u.id → In u (replace_user u us)
unfolding replace_user
In-replace_user u v [] i e = i
In-replace_user u v (x ∷ xs) (inl h) e =
    rw ((eq_iff x.id u.id).1 (ap (λ (w : User). w.id) (sym h) ∙ e)) (inl refl)
In-replace_user u v (x ∷ xs) (inr i) e = inr (In-replace_user u v xs i e)

kept_head :
    {A : Type 0} (p : A → Bool) (a x : A) (xs : List A)
    → p x ≡ true
    → (In a (keep p xs) → p a ≡ true)
    → In a (x ∷ keep p xs)
    → p a ≡ true
kept_head p a x xs kept rest (inl e) = rw e kept
kept_head p a x xs kept rest (inr i) = rest i

pub In-keep : {A : Type 0} (p : A → Bool) (a : A) (xs : List A) → In a (keep p xs) → p a ≡ true
In-keep p a [] i = elim i [ ]
In-keep p a (x ∷ xs) i = elim (Bool-cases (p x)) [
  | inl kept ↦ kept_head p a x xs kept (In-keep p a xs) (rw kept at i)
  | inr gone ↦ In-keep p a xs (rw gone at i)
]

-- A document of the written collection is the entity, or was there and has another id.
pub replaced_or_kept :
    (u v : User) (us : List User) → In v (replace_user u us) → (v ≡ u) ⊎ (In v us × (v.id ≢ u.id))
unfolding replace_user
replaced_or_kept u v [] i = elim i [ ]
replaced_or_kept u v (x ∷ xs) (inl h) = elim (Bool-cases (x.id == u.id)) [
  | inl same ↦ inl (rw same at h)
  | inr other ↦
      let taken : v ≡ x = rw other at h in
      inr (inl taken, λ e. differ-absurd x.id u.id other (ap (λ (w : User). w.id) (sym taken) ∙ e))
]
replaced_or_kept u v (x ∷ xs) (inr i) = elim (replaced_or_kept u v xs i) [
  | inl e ↦ inl e
  | inr (j, ne) ↦ inr (inr j, ne)
]
