-- ===== src/Context/Traces.antt =====
-- A service continues the trace of its caller.
use nestjs_microservice_mono.Prelude.{
  String, ◌≡◌, refl, true, some, ◌==◌, Bool-cases, inl, inr, if◌then◌else◌,
}
use text.Mathlib.TextPositions.{eq_refl}
use nestjs_microservice_mono.Json.{
  Json, undefined, null, bool, num, str, opaque, arr, obj, Fields, end, field, property,
}
use nestjs_microservice_mono.Context.{
  is_truthy, indexed, with_entry, trace_key, trace_entry, entries, attach_to, attach_trace_id,
  id_or, received_trace,
}

property-with_entry :
    (k : String) (v : Json) (fs : Fields) → property k (with_entry k v fs) ≡ some v
unfolding with_entry
property-with_entry k v end = rw (eq_refl k) refl
property-with_entry k v (field j w fs) =
    let rest = property-with_entry k v fs in
    elim (Bool-cases (j == k)) [
      | inl same ↦ rw (same, same) refl
      | inr other ↦ rw (other, other) rest
    ]

-- A value that is truthy is neither `undefined` nor `null`.
id_or-truthy : (v : Json) (generated : String) → is_truthy v ≡ true → id_or v generated ≡ v
unfolding is_truthy
id_or-truthy undefined generated h = cc
id_or-truthy null generated h = cc
id_or-truthy (bool b) generated h = refl
id_or-truthy (num n) generated h = refl
id_or-truthy (str s) generated h = refl
id_or-truthy (opaque s) generated h = refl
id_or-truthy (arr vs) generated h = refl
id_or-truthy (obj fs) generated h = refl

Option-injective : {A : Type 0} (a b : A) → some a ≡ some b → a ≡ b
Option-injective a b e = cc

-- The trace id that a payload carries already.
abbrev pub carried : Fields → String → Json
carried fs trace = if is_truthy (trace_entry fs) then trace_entry fs else str trace

module _ (own : String → Fields) (trace generated : String) where
  attach_to-received :
      (payload : Json) (fs : Fields)
      → entries own payload ≡ some fs
      → received_trace own generated (attach_to trace payload fs) ≡ carried fs trace
  unfolding received_trace entries
  attach_to-received payload fs seen = elim (Bool-cases (is_truthy (trace_entry fs))) [
    | inl set ↦ rw (set, received_trace, seen) (id_or-truthy (trace_entry fs) generated set)
    | inr unset ↦ rw (unset, received_trace, property-with_entry trace_key (str trace) fs) refl
  ]

  attached-received :
      (payload : Json) (fs : Fields)
      → entries own payload ≡ some fs
      → received_trace own generated (attach_trace_id own trace payload) ≡ carried fs trace
  unfolding attach_trace_id entries
  attached-received undefined fs seen = cc
  attached-received null fs seen = cc
  attached-received (bool b) fs seen = cc
  attached-received (num n) fs seen = cc
  attached-received (str s) fs seen = cc
  attached-received (opaque s) fs seen =
      rw (← Option-injective (own s) fs seen) (attach_to-received (opaque s) (own s) refl)
  attached-received (arr vs) fs seen =
      rw (← Option-injective (indexed 0 vs) fs seen)
        (attach_to-received (arr vs) (indexed 0 vs) refl)
  attached-received (obj gs) fs seen =
      rw (← Option-injective gs fs seen) (attach_to-received (obj gs) gs refl)

-- A message that carries an object is received under the sender's trace id, or under the one that
-- the object named already, if that is truthy.
pub received_trace-attach_trace_id :
    (own : String → Fields) (trace generated : String) (payload : Json) (fs : Fields)
    → entries own payload ≡ some fs
    → received_trace own generated (attach_trace_id own trace payload) ≡ carried fs trace
received_trace-attach_trace_id own trace generated payload fs seen =
    attached-received own trace generated payload fs seen

-- A message with no payload is received under the sender's trace id.
pub received_trace-empty :
    (own : String → Fields) (trace generated : String)
    → (received_trace own generated (attach_trace_id own trace undefined) ≡ str trace)
      × (received_trace own generated (attach_trace_id own trace null) ≡ str trace)
unfolding received_trace attach_trace_id entries
received_trace-empty own trace generated = (refl, refl)
