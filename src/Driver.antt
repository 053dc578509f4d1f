-- ===== src/Driver.antt =====
-- What the services rely on in third-party code: MikroORM's `findOne` and `flush`, argon2, the
-- digest and the parser of ObjectIds. These are parameters, with their documented behaviour as laws.
use nestjs_microservice_mono.Prelude.{
  String, ◌≡◌, Bool, true, false, Option, none, some, List, In, All,
}
use nestjs_microservice_mono.Errors.Defs.{Thrown, Outcome}
use nestjs_microservice_mono.Entities.{User, Device, OutboxEvent, Database}

-- `em.flush()`: it writes the unit of work, or rejects. A rejected flush of several documents may
-- have written some of them.
pub data Flush : Type 0 where
  written : Flush
  rejected : Thrown → Database → Flush

pub record Driver : Type 0 where
  pub find_user : (User → Bool) → List User → Option User
  pub find_device : (Device → Bool) → List Device → Option Device
  pub find_event : (OutboxEvent → Bool) → List OutboxEvent → Option OutboxEvent
  pub flush : Database → Database → Flush
  pub object_id : String → Outcome String
  pub verify : String → String → Option Bool
  pub hash : String → String → String
  pub sha256 : String → String

-- `findOne` returns a document of the collection that passes the filter, and `null` only if there
-- is none.
pub record IsQuery {A : Type 0} (find : (A → Bool) → List A → Option A) : Type 0 where
  pub found : (q : A → Bool) (xs : List A) (x : A) → find q xs ≡ some x → In x xs × (q x ≡ true)
  pub missing : (q : A → Bool) (xs : List A) → find q xs ≡ none → All (λ x. q x ≡ false) xs
