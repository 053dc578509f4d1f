-- ===== src/Users/Controller.antt =====
-- apps/user/src/modules/users/users.controller.ts: the handlers over a raw payload, where they do more
-- than pass their arguments on.
use nestjs_microservice_mono.Prelude.{
  String, ◌≡◌, refl, ◌∙◌, Bool, true, Bool-cases, inl, inr, Option, none, List, [], ◌∷◌, any, ◌==◌,
  eq_iff, if◌then◌else◌, arith,
}
use nestjs_microservice_mono.Json.{Json, bool, str, Fields, end, field, property}

-- What `updateUser` takes out of the payload before the rest goes to the service.
abbrev taken : List String
taken = "userId" ∷ "email" ∷ "password" ∷ "token" ∷ "newPassword" ∷ []

is_taken : String → Bool
is_taken k = any (λ t. t == k) taken

-- `const { userId, email: _e, …, ...rest } = data;`
rest_of : Fields → Fields
rest_of end = end
rest_of (field k v fs) = if is_taken k then rest_of fs else field k v (rest_of fs)

update_user_payload : Fields → Option Json × Fields
unfolding rest_of is_taken
update_user_payload payload = (property "userId" payload, rest_of payload)

ping : Fields
ping = field "ok" (bool true) (field "service" (str "user") end)

property-rest_of :
    (k : String) (fs : Fields)
    → property k (rest_of fs) ≡ (if is_taken k then none else property k fs)
unfolding rest_of
property-rest_of k end = ground arith
property-rest_of k (field j v fs) = elim (Bool-cases (j == k)) [
  | inl same ↦
      let e : j ≡ k = (eq_iff j k).0 same in
      elim (Bool-cases (is_taken k)) [
        | inl gone ↦ rw (e, gone) (property-rest_of k fs ∙ rw gone refl)
        | inr kept ↦ rw (e, kept, (eq_iff k k).1 refl) refl
      ]
  | inr other ↦ elim (Bool-cases (is_taken j)) [
    | inl gone ↦ rw (gone, other) (property-rest_of k fs)
    | inr kept ↦ rw (kept, other) (property-rest_of k fs)
  ]
]

-- The service sees none of the five entries that are taken out, and every other entry as it was sent.
property-update_user_payload :
    (k : String) (payload : Fields)
    → property k (update_user_payload payload).1
      ≡ (if any (λ t. t == k) taken then none else property k payload)
unfolding update_user_payload
property-update_user_payload k payload = property-rest_of k payload
