-- ===== src/AsyncHooks/Timers/Laws.antt =====
-- What the callbacks of timers and microtasks see.
use winterjs.Common.{ℕ, ◌≡◌, refl, false, List}
use winterjs.Js.Action.{Action, finally}
use winterjs.AsyncHooks.{World, push_async_frame, pop_async_frame, is_dead, current}
use winterjs.AsyncHooks.View.{view, IsValid, Grows}
use winterjs.AsyncHooks.Api.Later.{captured-view, captured-IsValid}
use winterjs.AsyncHooks.Timers.{
  Handler, call_handler, timer_callback, set_timeout, microtask, queue_microtask,
}

-- In a valid world `setTimeout` gives the engine a callback that, in any valid world that grew from it,
-- runs the handler in a valid world with the values that were visible at the call, for keys that are alive, and pops the frame after it.
pub set_timeout-view :
    {V O A T I : Type 0}
    (original : (A → Action (World V O) (Unit {0})) → T → A → Action (World V O) I)
    (eval : List ℕ → Action (World V O) (Unit {0})) (handler : Handler V O A) (timeout : T)
    (args args' : A) (w u : World V O) (k : ℕ)
    → IsValid w
    → IsValid u
    → Grows ((current w).1) u
    → is_dead u k ≡ false
    → (callback : A → Action (World V O) (Unit {0})) × (set_timeout original eval handler timeout
          args w
        ≡ original callback timeout args ((current w).1))
      × (x : World V O) × (callback args' u
          ≡ finally (call_handler eval handler args') pop_async_frame x)
      × IsValid x
      × (view x k ≡ view w k)
unfolding set_timeout
set_timeout-view original eval handler timeout args args' w u k v vu g live = (
  timer_callback eval ((current w).0) handler,
  refl,
  push_async_frame ((current w).0) u,
  refl,
  captured-IsValid w u v vu g,
  captured-view w u k v g live,
)

-- In a valid world `queueMicrotask` gives the engine a task that, in any valid world that grew from it,
-- runs the callback in a valid world with the values that were visible at the call, for keys that are alive, and pops the frame after it.
pub queue_microtask-view :
    {V O : Type 0} (original : Action (World V O) (Unit {0}) → Action (World V O) (Unit {0}))
    (callback : Action (World V O) (Unit {0})) (w u : World V O) (k : ℕ)
    → IsValid w
    → IsValid u
    → Grows ((current w).1) u
    → is_dead u k ≡ false
    → (task : Action (World V O) (Unit {0})) × (queue_microtask original callback w
        ≡ original task ((current w).1))
      × (x : World V O) × (task u ≡ finally callback pop_async_frame x)
      × IsValid x
      × (view x k ≡ view w k)
unfolding queue_microtask
queue_microtask-view original callback w u k v vu g live = (
  microtask ((current w).0) callback,
  refl,
  push_async_frame ((current w).0) u,
  refl,
  captured-IsValid w u v vu g,
  captured-view w u k v g live,
)
