-- ===== src/Tests.antt =====
-- Concrete inputs for the theorems, and the runs of the definitions on them.
pub mod Lifecycles
pub mod Startup
pub mod Accounts
pub mod Sessions
pub mod Wire
pub mod Events
pub mod Purging
pub mod Migrating
pub mod Logins
pub mod Providers
pub mod Histories
use nestjs_microservice_mono.Prelude.{
  ℕ, zero, suc, ◌≡◌, refl, sym, String, Bool, true, false, Option, none, some, List, [], ◌∷◌, inl,
  inr, In, All, ◌==◌, if◌then◌else◌, Bool-cases, length, take, ◌≤◌, arith,
}
use nestjs_microservice_mono.Json.{end}
use nestjs_microservice_mono.Errors.Defs.{ok}
use nestjs_microservice_mono.Entities.{
  User, Device, OutboxEvent, Database, registered, android, OAuthLink, vk, failed, new_user,
  new_device,
}
use nestjs_microservice_mono.Driver.{Driver, IsQuery, written}

-- The first document that passes the filter.
abbrev pub first : {A : Type 0} → (A → Bool) → List A → Option A
first q [] = none
first q (x ∷ xs) = let rest = first q xs in if q x then some x else rest

pub first-IsQuery : (A : Type 0) → IsQuery (first {A = A})
first-IsQuery A = record { found = found; missing = missing }
  where
    found : (q : A → Bool) (xs : List A) (x : A) → first q xs ≡ some x → In x xs × (q x ≡ true)
    found q [] x h = cc
    found q (y ∷ ys) x h = elim (Bool-cases (q y)) [
      | inl hit ↦ let same : y ≡ x = cc (rw hit at h) in (inl (sym same), rw (← same) hit)
      | inr miss ↦ let (i, p) = found q ys x (rw miss at h) in (inr i, p)
    ]

    missing : (q : A → Bool) (xs : List A) → first q xs ≡ none → All (λ x. q x ≡ false) xs
    missing q [] h = tt
    missing q (y ∷ ys) h = elim (Bool-cases (q y)) [
      | inl hit ↦ cc (rw hit at h)
      | inr miss ↦ (miss, missing q ys (rw miss at h))
    ]

-- Everything is written, and the hash of a text is that text.
abbrev pub driver : Driver
driver = record {
  find_user = first;
  find_device = first;
  find_event = first;
  flush = λ before after. written;
  object_id = λ i. ok i;
  verify = λ hash password. some (hash == password);
  hash = λ salt password. password;
  sha256 = λ token. token;
}

abbrev pub ann : User
unfolding new_user
ann = record (new_user "u1" 5) {
  account_type = registered;
  email = some "ann@example.com";
  password_hash = some "secret";
  oauth_links = record { provider = vk; provider_user_id = "77"; email = none; linked_at = 5 } ∷ [];
  token_version = some 3;
  reset_password_token = some "reset";
  reset_password_expiry = some 900;
}

abbrev pub anonymous : User
unfolding new_user
anonymous = new_user "u2" 6

abbrev pub phone : Device
unfolding new_device
phone = new_device "d2" "print-2" android "u2" none 6

abbrev pub stuck : OutboxEvent
stuck = record {
  id = "e1";
  created_at = 7;
  target = "user";
  pattern_key = "user.deleted";
  payload = end;
  idempotency_key = "user.deleted:u2";
  status = failed;
  last_attempt_at = none;
  attempts = 10;
  last_error = some "no broker";
}

abbrev pub database : Database
database = record { users = ann ∷ anonymous ∷ []; devices = phone ∷ []; outbox = stuck ∷ [] }
