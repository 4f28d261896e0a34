-- ===== src/Events/Flags.antt =====
-- What the methods of `Event` do to its flags, over every sequence of calls.
use winterjs.Common.{ℕ, ◌≡◌, refl, ◌∙◌, Bool, true, [], Option, arith}
use winterjs.Events.{
  Event, EventInit, none_phase, new_event, stop_propagation, set_cancel_bubble,
  stop_immediate_propagation, set_return_value, prevent_default, init_event, set_dispatched,
  set_initialized,
}

-- One call of a method or a setter.
pub data Call : Event → Event → Type 0 where
  stop : (e : Event) → Call e (stop_propagation e)
  stop_now : (e : Event) → Call e (stop_immediate_propagation e)
  bubble : (e : Event) (value : Bool) → Call e (set_cancel_bubble value e)
  returns : (e : Event) (value : Bool) → Call e (set_return_value value e)
  prevent : (e : Event) → Call e (prevent_default e)
  init_call :
      (e : Event) (type : ℕ) (bubbles cancelable : Bool)
      → Call e (init_event type bubbles cancelable e)
  set_dispatch : (e : Event) (value : Bool) → Call e (set_dispatched value e)
  initialize : (e : Event) (value : Bool) → Call e (set_initialized value e)

pub data Calls (e : Event) : Event → Type 0 where
  here : Calls e e
  next : {f g : Event} → Calls e f → Call f g → Calls e g

-- What holds of an event between calls, and cannot be seen from one flag alone.
pub record IsConsistent (e : Event) : Type 0 where
  pub stopped : e.stop_immediate_propagation_flag ≡ true → e.stop_propagation_flag ≡ true
  pub no_phase : e.event_phase ≡ none_phase
  pub no_path : e.path ≡ []

new_event-IsConsistent : (type : ℕ) (init : Option EventInit) → IsConsistent (new_event type init)
unfolding new_event
new_event-IsConsistent type init = record {
  stopped = λ h. absurd (cc h);
  no_phase = refl;
  no_path = refl;
}

Call-IsConsistent : {e f : Event} → Call e f → IsConsistent e → IsConsistent f
unfolding stop_propagation set_cancel_bubble stop_immediate_propagation set_return_value
    prevent_default init_event set_dispatched set_initialized
Call-IsConsistent (stop e) h = ground (arith, h.stopped)
Call-IsConsistent (stop_now e) h = ground (arith, h.stopped)
Call-IsConsistent (bubble e value) h = ground (arith, h.stopped)
Call-IsConsistent (returns e value) h = ground (arith, h.stopped)
Call-IsConsistent (prevent e) h = ground (arith, h.stopped)
Call-IsConsistent (init_call e type bubbles cancelable) h = ground (arith, h.stopped)
Call-IsConsistent (set_dispatch e value) h = ground (arith, h.stopped)
Call-IsConsistent (initialize e value) h = ground (arith, h.stopped)

-- After any calls on a new event: a stop at once is a stop, the phase is still `NONE`, and the path
-- is still empty.
pub Calls-IsConsistent :
    (type : ℕ) (init : Option EventInit) {e : Event}
    → Calls (new_event type init) e
    → IsConsistent e
Calls-IsConsistent type init here = new_event-IsConsistent type init
Calls-IsConsistent type init (next cs c) = Call-IsConsistent c (Calls-IsConsistent type init cs)

-- What a flag that is only ever set keeps.
abbrev pub Kept : Event → Event → Type 0
Kept e f =
    (e.canceled_flag ≡ true → f.canceled_flag ≡ true)
    × (e.stop_propagation_flag ≡ true → f.stop_propagation_flag ≡ true)
    × (e.stop_immediate_propagation_flag ≡ true → f.stop_immediate_propagation_flag ≡ true)
    × (f.type ≡ e.type)

Call-Kept : {e f : Event} → Call e f → Kept e f
unfolding stop_propagation set_cancel_bubble stop_immediate_propagation set_return_value
    prevent_default init_event set_dispatched set_initialized
Call-Kept (stop e) = ground arith
Call-Kept (stop_now e) = ground arith
Call-Kept (bubble e value) = ground arith
Call-Kept (returns e value) = ground arith
Call-Kept (prevent e) = ground arith
Call-Kept (init_call e type bubbles cancelable) = ground arith
Call-Kept (set_dispatch e value) = ground arith
Call-Kept (initialize e value) = ground arith

-- No sequence of calls takes back a cancellation or a stop, or changes the type.
pub Calls-Kept : {e f : Event} → Calls e f → Kept e f
Calls-Kept here = (λ h. h, λ h. h, λ h. h, refl)
Calls-Kept (next cs c) =
    let a = Calls-Kept cs in
    let b = Call-Kept c in (λ h. b.0 (a.0 h), λ h. b.1 (a.1 h), λ h. b.2 (a.2 h), b.3 ∙ a.3)
