-- ===== src/History/Holds.antt =====
-- How the parts of an operation keep a property of an account's documents.
use nestjs_microservice_mono.Prelude.{
  ℕ, ◌≤◌, String, ◌≡◌, ◌≢◌, sym, ap, ◌∙◌, none, List, [], ◌∷◌, ◌++◌, ◌⊎◌, In, inl, inr,
}
use nestjs_microservice_mono.Errors.Defs.{Thrown}
use nestjs_microservice_mono.Entities.{User, Database, version, save_user}
use nestjs_microservice_mono.Driver.{Flush, written, rejected}
use nestjs_microservice_mono.Users.Common.{after_flush, replaced_or_kept}
use nestjs_microservice_mono.History.{IsFlush}

-- What every operation that writes an account keeps to: the account was live, and its token version
-- does not fall.
pub record Write (u v : User) : Type 0 where
  pub id : v.id ≡ u.id
  pub live : u.deleted_at ≡ none
  pub raises : version u ≤ version v

-- A property of the documents that such a write does not break.
abbrev pub IsStable : (User → Type 0) → Type 0
IsStable P = (u v : User) → Write u v → P u → P v

-- Every document of the id has the property.
abbrev pub Holds : String → (User → Type 0) → Database → Type 0
Holds i P db = (u : User) → In u db.users → u.id ≡ i → P u

module _ (i : String) (P : User → Type 0) where
  pub Holds-flush :
      (flush : Database → Database → Flush) (before after left : Database) (e : Thrown)
      → IsFlush flush
      → flush before after ≡ rejected e left
      → Holds i P before
      → Holds i P after
      → Holds i P left
  Holds-flush flush before after left e law h old new u listed same =
      elim (law.partial before after left e u h listed) [
        | inl kept ↦ old u kept same
        | inr saved ↦ new u saved same
      ]

  pub Holds-after_flush :
      {A : Type 0} (flush : Database → Database → Flush) (before after : Database) (a : A)
      (f : Flush)
      → IsFlush flush
      → flush before after ≡ f
      → Holds i P before
      → Holds i P after
      → Holds i P (after_flush f a after).1
  unfolding after_flush
  Holds-after_flush flush before after a written law h old new = new
  Holds-after_flush flush before after a (rejected e left) law h old new =
      Holds-flush flush before after left e law h old new

  pub Holds-save_user :
      (now : ℕ) (u v : User) (db : Database)
      → IsStable P
      → In u db.users
      → Write u v
      → Holds i P db
      → Holds i P (save_user now v db)
  unfolding save_user
  Holds-save_user now u v db stable listed kept old w i' same =
      elim (replaced_or_kept _ w db.users i') [
        | inl stored ↦
            let before = old u listed (sym kept.id ∙ ap (λ (x : User). x.id) (sym stored) ∙ same) in
            rw stored
              (stable u _ (record { id = kept.id; live = kept.live; raises = kept.raises }) before)
        | inr (j, _) ↦ old w j same
      ]

  last_or_before : (u v : User) (us : List User) → In v (us ++ u ∷ []) → (v ≡ u) ⊎ In v us
  last_or_before u v [] (inl e) = inl e
  last_or_before u v [] (inr j) = elim j [ ]
  last_or_before u v (x ∷ xs) (inl e) = inr (inl e)
  last_or_before u v (x ∷ xs) (inr j) = elim (last_or_before u v xs j) [
    | inl e ↦ inl e
    | inr k ↦ inr (inr k)
  ]

  -- A new document has another id.
  pub Holds-append :
      (u : User) (us : List User) (db : Database)
      → db.users ≡ us ++ u ∷ []
      → u.id ≢ i
      → ((v : User) → In v us → v.id ≡ i → P v)
      → Holds i P db
  Holds-append u us db shape other old v listed same =
      elim (last_or_before u v us (rw shape at listed)) [
        | inl new ↦ absurd (other (ap (λ (x : User). x.id) (sym new) ∙ same))
        | inr kept ↦ old v kept same
      ]
