-- ===== src/Outbox/Rows.antt =====
-- The life of one outbox row: what staging and dispatching make of it.
use nestjs_microservice_mono.Prelude.{
  ℕ, zero, suc, ◌+◌, ◌<◌, ◌≤◌, ◌≡◌, refl, Bool-cases, inl, inr, leb, arith, if◌then◌else◌,
}
use nestjs_microservice_mono.Errors.Defs.{Thrown, Outcome, ok, err}
use nestjs_microservice_mono.Entities.{OutboxEvent, OutboxEventStatus, pending, sent, failed}
use nestjs_microservice_mono.Outbox.{dispatch_row, max_attempts}

-- A pending row has attempts left, a failed row has used up all, and a sent row was tried.
abbrev pub IsConsistent : OutboxEventStatus → ℕ → Type 0
IsConsistent pending n = n < max_attempts
IsConsistent sent n = (1 ≤ n) × (n ≤ max_attempts)
IsConsistent failed n = n ≡ max_attempts

abbrev pub IsSound : OutboxEvent → Type 0
IsSound r = IsConsistent r.status r.attempts

-- `n` failed attempts, one after the other.
unfoldable pub fail_times : ℕ → ℕ → Thrown → OutboxEvent → OutboxEvent
fail_times zero now e row = row
fail_times (suc n) now e row = fail_times n now e (dispatch_row now (err e) row)

after_failure-IsConsistent :
    (s : OutboxEventStatus) (n : ℕ)
    → s ≡ pending
    → n < max_attempts
    → IsConsistent (if leb max_attempts (n + 1) then failed else s) (n + 1)
after_failure-IsConsistent s n p h = elim (Bool-cases (leb max_attempts (n + 1))) [
  | inl last ↦ rw last (ground arith)
  | inr more ↦ rw (more, p) (ground arith)
]

pub dispatch_row-IsSound :
    (now : ℕ) (o : Outcome (Unit {0})) (r : OutboxEvent)
    → r.status ≡ pending
    → IsSound r
    → IsSound (dispatch_row now o r)
unfolding dispatch_row
dispatch_row-IsSound now (ok _) r p h =
    let left : r.attempts < max_attempts = rw p at h in omega arith
dispatch_row-IsSound now (err e) r p h =
    after_failure-IsConsistent r.status r.attempts p (rw p at h)

failed_once :
    (now : ℕ) (e : Thrown) (r : OutboxEvent)
    → r.status ≡ pending
    → r.attempts + 2 ≤ max_attempts
    → ((dispatch_row now (err e) r).status ≡ pending)
      × ((dispatch_row now (err e) r).attempts ≡ r.attempts + 1)
unfolding dispatch_row
failed_once now e r p h = (ground arith, refl)

-- A pending row whose every attempt fails is given up after exactly the attempts that it has
-- left, and one attempt earlier it is still pending.
pub fail_times-IsGivenUp :
    (n now : ℕ) (e : Thrown) (r : OutboxEvent)
    → r.status ≡ pending
    → r.attempts + suc n ≡ max_attempts
    → ((fail_times n now e r).status ≡ pending)
      × ((fail_times (suc n) now e r).status ≡ failed)
      × ((fail_times (suc n) now e r).attempts ≡ max_attempts)
unfolding fail_times
fail_times-IsGivenUp zero now e r p h = unfold dispatch_row in (p, ground arith, ground arith)
fail_times-IsGivenUp (suc n) now e r p h =
    let (still, count) = failed_once now e r p (omega arith) in
    fail_times-IsGivenUp n now e (dispatch_row now (err e) r) still (omega (arith, count))
