-- ===== src/Outbox/Schedule.antt =====
-- The lifecycle of OutboxDispatcher in libs/messaging/src/outbox/outbox.service.ts: `onModuleInit`,
-- `schedule`, `onModuleDestroy`, and the timers of the runtime, in any order of events. What a sweep
-- does is in the parent; here it is its beginning and its end.
pub mod Phases
pub mod Stopping
use nestjs_microservice_mono.Prelude.{
  ℕ, suc, ◌+◌, ◌≡◌, Bool, true, false, not, Option, none, some, List, [], ◌∷◌, keep, nat_eq, In,
  if◌then◌else◌,
}

-- The fields of the dispatcher; the handles that the runtime still has to fire; the calls of `sweep`
-- that have not settled, those that hold `running` apart from those that returned at its guard; and
-- how many sweeps have begun.
pub record Loop : Type 0 where
  pub timer : Option ℕ
  pub running : Bool
  pub shutting_down : Bool
  pub armed : List ℕ
  pub next_handle : ℕ
  pub sweeps : ℕ
  pub skips : ℕ
  pub begun : ℕ
  pub started : Bool

unfoldable pub fresh_loop : Loop
fresh_loop = record {
  timer = none;
  running = false;
  shutting_down = false;
  armed = [];
  next_handle = 0;
  sweeps = 0;
  skips = 0;
  begun = 0;
  started = false;
}

-- `clearTimeout`
pub clear_timeout : ℕ → List ℕ → List ℕ
clear_timeout t = keep (λ h. not (nat_eq h t))

unfoldable pub schedule : Loop → Loop
schedule s = if s.shutting_down then s else record s {
  timer = some s.next_handle;
  armed = s.next_handle ∷ s.armed;
  next_handle = s.next_handle + 1;
}

-- The end of `onModuleInit`, after its count of the failed rows.
unfoldable pub on_module_init : Loop → Loop
unfolding schedule
on_module_init s = schedule (record s { started = true })

pub stopped : Option ℕ → Loop → Loop
stopped none s = record s { shutting_down = true }
stopped (some t) s = record s {
  shutting_down = true;
  timer = none;
  armed = clear_timeout t s.armed;
}

unfoldable pub on_module_destroy : Loop → Loop
unfolding stopped clear_timeout
on_module_destroy s = stopped s.timer s

-- The timer's callback calls `sweep`, which returns at once where one is running.
unfoldable pub fire : ℕ → Loop → Loop
unfolding clear_timeout
fire t s =
    let fired : Loop = record s { armed = clear_timeout t s.armed } in
    if s.running
    then record fired { skips = s.skips + 1 }
    else record fired { running = true; sweeps = s.sweeps + 1; begun = s.begun + 1 }

-- `finally { this.running = false }`, then the `finally` of the callback.
unfoldable pub settle_sweep : ℕ → Loop → Loop
unfolding schedule
settle_sweep n s = schedule (record s { running = false; sweeps = n })

unfoldable pub settle_skip : ℕ → Loop → Loop
unfolding schedule
settle_skip n s = schedule (record s { skips = n })

-- One event. The module is initialised once.
pub data Event (s u : Loop) : Type 0 where
  initialise : s.started ≡ false → u ≡ on_module_init s → Event s u
  destroy : u ≡ on_module_destroy s → Event s u
  timeout : (t : ℕ) → In t s.armed → u ≡ fire t s → Event s u
  swept : (n : ℕ) → s.sweeps ≡ suc n → u ≡ settle_sweep n s → Event s u
  skipped : (n : ℕ) → s.skips ≡ suc n → u ≡ settle_skip n s → Event s u

pub data Events (s : Loop) : Loop → Type 0 where
  nothing : Events s s
  then_event : (u v : Loop) → Events s u → Event u v → Events s v
