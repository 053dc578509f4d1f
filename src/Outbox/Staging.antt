-- ===== src/Outbox/Staging.antt =====
-- What `stageOutboxEvent` leaves in the outbox, and what it reports.
use nestjs_microservice_mono.Prelude.{
  differ-absurd, All-In, ℕ, String, ◌≡◌, ◌≢◌, refl, ap, sym, ◌∙◌, ◌↔◌, true, false, Option, none,
  some, List, [], ◌∷◌, ◌++◌, inl, inr, In, arith, ◌==◌, eq_iff, Bool-cases, Option-cases,
}
use mathlib.Core.Bool.{false≢true}
use nestjs_microservice_mono.Entities.{
  OutboxEvent, OutboxEventStatus, pending, failed, Database, replace_event,
}
use nestjs_microservice_mono.Driver.{Driver, IsQuery}
use nestjs_microservice_mono.Outbox.{
  StageParams, revive, new_event, stage_row, stage_outbox_event, is_failed,
}

-- Where a staged row comes from: it is new with all that was staged, or it was given up and goes out
-- again with the staged payload, or it was there and not given up.
pub data Staged (p : StageParams) (before : List OutboxEvent) (r : OutboxEvent) : Type 0 where
  is_new :
      r.target ≡ p.target
      → r.pattern_key ≡ p.pattern_key
      → r.payload ≡ p.payload
      → r.status ≡ pending
      → r.attempts ≡ 0
      → Staged p before r
  is_revived :
      (x : OutboxEvent)
      → In x before
      → x.status ≡ failed
      → r.id ≡ x.id
      → r.pattern_key ≡ x.pattern_key
      → r.payload ≡ p.payload
      → r.status ≡ pending
      → r.attempts ≡ 0
      → Staged p before r
  is_kept : In r before → Staged p before r

-- The result row is stored under the key and has not been given up.
pub record IsAnnounced (p : StageParams) (before after : List OutboxEvent) : Type 0 where
  pub event : OutboxEvent
  pub listed : In event after
  pub keyed : event.idempotency_key ≡ p.idempotency_key
  pub not_given_up : event.status ≢ failed
  pub origin : Staged p before event

In-last : (r : OutboxEvent) (rows : List OutboxEvent) → In r (rows ++ r ∷ [])
In-last r [] = inl refl
In-last r (x ∷ xs) = inr (In-last r xs)

In-replace_event :
    (u v : OutboxEvent) (rows : List OutboxEvent)
    → In v rows
    → v.id ≡ u.id
    → In u (replace_event u rows)
unfolding replace_event
In-replace_event u v [] i e = i
In-replace_event u v (x ∷ xs) (inl h) e =
    rw ((eq_iff x.id u.id).1 (ap (λ (w : OutboxEvent). w.id) (sym h) ∙ e)) (inl refl)
In-replace_event u v (x ∷ xs) (inr i) e = inr (In-replace_event u v xs i e)

kept_status : (s : OutboxEventStatus) → is_failed s ≡ false → s ≡ failed → ⊥
kept_status s kept e = ground arith

given_up : (s : OutboxEventStatus) → is_failed s ≡ true → s ≡ failed
given_up s gone = ground arith

revive_fields :
    (p : StageParams) (r : OutboxEvent)
    → ((revive p r).id ≡ r.id)
      × ((revive p r).idempotency_key ≡ r.idempotency_key)
      × ((revive p r).status ≢ failed)
unfolding revive
revive_fields p r = elim (Bool-cases (is_failed r.status)) [
  | inl gone ↦ rw gone (refl, refl, λ e. cc e)
  | inr kept ↦ rw kept (refl, refl, λ e. kept_status r.status kept e)
]

revive-Staged :
    (p : StageParams) (r : OutboxEvent) (before : List OutboxEvent)
    → In r before
    → Staged p before (revive p r)
unfolding revive
revive-Staged p r before listed = elim (Bool-cases (is_failed r.status)) [
  | inl gone ↦ rw gone (is_revived r listed (given_up r.status gone) refl refl refl refl refl)
  | inr kept ↦ rw kept (is_kept listed)
]

stage_row-IsAnnounced :
    (p : StageParams) (i : String) (now : ℕ) (db : Database) (o : Option OutboxEvent)
    → ((r : OutboxEvent) → o ≡ some r → In r db.outbox × (r.idempotency_key ≡ p.idempotency_key))
    → IsAnnounced p db.outbox (stage_row p i now db o).1.outbox
unfolding stage_row
stage_row-IsAnnounced p i now db none known = record {
  event = new_event p i now;
  listed = In-last _ db.outbox;
  keyed = unfold new_event in refl;
  not_given_up = unfold new_event in λ e. cc e;
  origin = unfold new_event in is_new refl refl refl refl refl;
}
stage_row-IsAnnounced p i now db (some r) known =
    let (same_id, same_key, alive) = revive_fields p r in
    record {
      event = revive p r;
      listed = In-replace_event _ r db.outbox (known r refl).0 (sym same_id);
      keyed = same_key ∙ (known r refl).1;
      not_given_up = alive;
      origin = revive-Staged p r db.outbox (known r refl).0;
    }

-- After staging, the outbox holds an event with the key that is not given up.
pub stage_outbox_event-IsAnnounced :
    (d : Driver) (now : ℕ) (i : String) (p : StageParams) (db : Database)
    → IsQuery d.find_event
    → IsAnnounced p db.outbox (stage_outbox_event d now i p db).1.outbox
unfolding stage_outbox_event
stage_outbox_event-IsAnnounced d now i p db q = stage_row-IsAnnounced p i now db _ (λ r e.
    let (listed, match) = q.found (λ x. x.idempotency_key == p.idempotency_key) db.outbox r e in
    (listed, (eq_iff r.idempotency_key p.idempotency_key).0 match))

-- `created` is true exactly if no event had the key.
pub created_iff :
    (d : Driver) (now : ℕ) (i : String) (p : StageParams) (db : Database)
    → IsQuery d.find_event
    → ((stage_outbox_event d now i p db).0.created ≡ true)
      ↔ ((r : OutboxEvent) → In r db.outbox → r.idempotency_key ≢ p.idempotency_key)
unfolding stage_outbox_event
created_iff d now i p db q =
    elim (Option-cases (d.find_event (λ x. x.idempotency_key == p.idempotency_key) db.outbox)) [
      | inl nothing ↦
          rw (nothing, stage_row)
            (
              λ _ r listed same.
                  differ-absurd r.idempotency_key p.idempotency_key
                    (All-In _ r db.outbox (q.missing _ db.outbox nothing) listed) same,
              λ _. refl,
            )
      | inr (x, found) ↦
          let (listed, match) = q.found _ db.outbox x found in
          rw (found, stage_row)
            (
              λ e. absurd (false≢true e),
              λ no_row.
                  absurd (no_row x listed ((eq_iff x.idempotency_key p.idempotency_key).0 match)),
            )
    ]

pub users_unchanged :
    (d : Driver) (now : ℕ) (i : String) (p : StageParams) (db : Database)
    → (stage_outbox_event d now i p db).1.users ≡ db.users
unfolding stage_outbox_event stage_row
users_unchanged d now i p db = ground arith
