-- ===== src/AsyncHooks/Timers.antt =====
-- async_hooks.js: `setTimeout`, `setInterval` and `queueMicrotask`, which keep the current frame for
-- their callbacks. The functions of the engine that they replace, and `eval`, are arguments.
pub mod Laws
use winterjs.Common.{ℕ, List}
use winterjs.Js.{Result}
use winterjs.Js.Action.{Action, finally}
use winterjs.AsyncHooks.{World, push_async_frame, pop_async_frame, current}

-- A handler that is a string is evaluated.
pub data Handler (V O A : Type 0) : Type 0 where
  source : List ℕ → Handler V O A
  function : (A → Action (World V O) (Unit {0})) → Handler V O A

module _ {V O A : Type 0} where
  abbrev pub call_handler :
      (List ℕ → Action (World V O) (Unit {0})) → Handler V O A → A → Action (World V O) (Unit {0})
  call_handler eval (source text) args = eval text
  call_handler eval (function handler) args = handler args

  -- The callback that the engine is given: the frame is pushed, and popped whatever happens.
  abbrev pub timer_callback :
      (List ℕ → Action (World V O) (Unit {0}))
      → ℕ
      → Handler V O A
      → A
      → Action (World V O) (Unit {0})
  timer_callback eval frame handler args w =
      finally (call_handler eval handler args) pop_async_frame (push_async_frame frame w)

  module _ {T I : Type 0}
      (original : (A → Action (World V O) (Unit {0})) → T → A → Action (World V O) I) where
    -- `setTimeout`, with the original one.
    unfoldable pub set_timeout :
        (List ℕ → Action (World V O) (Unit {0})) → Handler V O A → T → A → Action (World V O) I
    set_timeout eval handler timeout args w =
        let (frame, w1) = current w in original (timer_callback eval frame handler) timeout args w1

    -- `setInterval`, with the original one: the same code.
    unfoldable pub set_interval :
        (List ℕ → Action (World V O) (Unit {0})) → Handler V O A → T → A → Action (World V O) I
    set_interval eval handler timeout args w =
        let (frame, w1) = current w in original (timer_callback eval frame handler) timeout args w1

module _ {V O : Type 0} where
  abbrev pub microtask : ℕ → Action (World V O) (Unit {0}) → Action (World V O) (Unit {0})
  microtask frame callback w = finally callback pop_async_frame (push_async_frame frame w)

  -- `queueMicrotask`, with the original one.
  unfoldable pub queue_microtask :
      (Action (World V O) (Unit {0}) → Action (World V O) (Unit {0}))
      → Action (World V O) (Unit {0})
      → Action (World V O) (Unit {0})
  queue_microtask original callback w =
      let (frame, w1) = current w in original (microtask frame callback) w1
