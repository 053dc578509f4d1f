-- ===== src/Tests/Events.antt =====
-- The outbox's theorems at concrete inputs.
use nestjs_microservice_mono.Prelude.{
  ℕ, zero, suc, ◌≤◌, String, ◌≡◌, refl, Bool, true, false, some, List, [], ◌∷◌, inl, inr, In, All,
  length, take, keep, arith, Bool-cases,
}
use nestjs_microservice_mono.Json.{Fields, end, field, str}
use nestjs_microservice_mono.Errors.Defs.{error, Outcome, err}
use nestjs_microservice_mono.Entities.{OutboxEvent, Database, pending, sent, failed}
use nestjs_microservice_mono.Outbox.{
  StageParams, dispatch_all, is_due, max_batch, max_attempts, IsBatchQuery, Dispatcher, Tally,
  sweep,
}
use nestjs_microservice_mono.Outbox.Rows.{IsSound, fail_times, fail_times-IsGivenUp}
use nestjs_microservice_mono.Outbox.Sweeps.{over_rpc, sweep-IsSound, dispatch_all-over_rpc}
use nestjs_microservice_mono.Users.Profile.{delete_user}
use nestjs_microservice_mono.Events.Typed.{IsTyped, delete_user-IsTyped}
use nestjs_microservice_mono.Tests.{driver, first-IsQuery, anonymous, stuck, database}

abbrev due_rows : List OutboxEvent → List OutboxEvent
due_rows rows = take max_batch (keep is_due rows)

length-take : (n : ℕ) (rows : List OutboxEvent) → length (take n rows) ≤ n
length-take zero rows = omega arith
length-take (suc n) [] = omega arith
length-take (suc n) (x ∷ xs) = let shorter = length-take n xs in omega arith

module _ (P : OutboxEvent → Type 0) where
  take-All : (n : ℕ) (rows : List OutboxEvent) → All P rows → All P (take n rows)
  take-All zero rows h = tt
  take-All (suc n) [] h = tt
  take-All (suc n) (x ∷ xs) h = (h.0, take-All n xs h.1)

keep-All :
    (rows all : List OutboxEvent)
    → ((r : OutboxEvent) → In r rows → In r all)
    → All (λ r. In r all × (is_due r ≡ true)) (keep is_due rows)
keep-All [] all h = tt
keep-All (x ∷ xs) all h = elim (Bool-cases (is_due x)) [
  | inl due ↦ rw due ((h x (inl refl), due), keep-All xs all (λ r i. h r (inr i)))
  | inr other ↦ rw other (keep-All xs all (λ r i. h r (inr i)))
]

due_rows-IsBatchQuery : IsBatchQuery due_rows
due_rows-IsBatchQuery = record {
  listed = λ rows.
      take-All (λ r. In r rows × (is_due r ≡ true)) max_batch _ (keep-All rows rows (λ r i. i));
  limited = λ rows. length-take max_batch (keep is_due rows);
}

abbrev waiting : OutboxEvent
waiting = record stuck { status = pending; attempts = 9 }

abbrev with_waiting : Database
with_waiting = record database { outbox = waiting ∷ [] }

abbrev idle : Dispatcher
idle = record { running = false; pending_gauge = 0; failed_gauge = 0 }

abbrev failing : OutboxEvent → Outcome (Unit {0})
failing r = err (error "no broker")

abbrev one_failure : Tally
one_failure = record { dispatched = 0; failures = 1 }

abbrev throwing : String → Fields → Outcome Bool
throwing k fs = err (error "no broker")

abbrev announced : OutboxEvent
announced = record waiting { payload = field "userId" (str "u2") end }

abbrev with_announced : Database
with_announced = record database { outbox = announced ∷ [] }

fail_times-IsGivenUp_example :
    ((fail_times 0 60 (error "no broker") waiting).status ≡ pending)
    × ((fail_times 1 60 (error "no broker") waiting).status ≡ failed)
    × ((fail_times 1 60 (error "no broker") waiting).attempts ≡ max_attempts)
fail_times-IsGivenUp_example = fail_times-IsGivenUp 0 60 (error "no broker") waiting refl refl

sweep-IsSound_example : All IsSound (sweep driver due_rows 60 failing with_waiting idle).1.outbox
unfolding sweep
sweep-IsSound_example =
    sweep-IsSound driver due_rows 60 failing with_waiting idle one_failure due_rows-IsBatchQuery
      (omega arith, tt) refl

dispatch_all-over_rpc_example :
    All (λ r. r.status ≡ sent) (dispatch_all 60 (over_rpc (some throwing)) (waiting ∷ [])).0
    × ((dispatch_all 60 (over_rpc (some throwing)) (waiting ∷ [])).1.dispatched ≡ 1)
    × ((dispatch_all 60 (over_rpc (some throwing)) (waiting ∷ [])).1.failures ≡ 0)
dispatch_all-over_rpc_example = dispatch_all-over_rpc 60 (some throwing) (waiting ∷ [])

delete_user-IsTyped_example :
    All IsTyped (delete_user driver 60 "e2" "u2" with_announced).1.outbox
    × All IsTyped
        (sweep driver due_rows 70 failing
          (delete_user driver 60 "e2" "u2" with_announced).1
          idle).1.outbox
unfolding nestjs_microservice_mono.Users.Common.find_by_id nestjs_microservice_mono.Tests.ann
    anonymous delete_user nestjs_microservice_mono.Users.Common.after_flush sweep
    nestjs_microservice_mono.Entities.save_user nestjs_microservice_mono.Outbox.stage_outbox_event
    nestjs_microservice_mono.Users.Profile.user_deleted
    nestjs_microservice_mono.Entities.replace_event nestjs_microservice_mono.Outbox.revive
    nestjs_microservice_mono.Events.parse_user_deleted
delete_user-IsTyped_example =
    delete_user-IsTyped driver 60 70 "e2" "u2" anonymous with_announced due_rows failing idle
      one_failure (first-IsQuery OutboxEvent) due_rows-IsBatchQuery refl refl refl refl
      ((λ keyed. ("u2", refl)), tt)
