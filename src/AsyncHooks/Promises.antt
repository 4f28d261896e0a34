-- ===== src/AsyncHooks/Promises.antt =====
-- async_hooks.js: the hooks that `setPromiseHooks` gives to the engine. The state of a promise is the
-- engine's, and an argument of the hooks that ask for it; 2 is rejected.
pub mod Laws
pub mod Context
use winterjs.Common.{ℕ, Bool, true, false, not, ◌&&◌, ◌==◌, if◌then◌else◌, Option, none, some}
use winterjs.Js.{Error, Result, ok, err, has_async_context}
use winterjs.Js.Action.{Action}
use winterjs.AsyncHooks.{World, pop_async_frame, current, enter, is_root, attach_context}

-- `typeof promise[asyncContext] !== "undefined"`
abbrev pub is_some : Option ℕ → Bool
is_some none = false
is_some (some frame) = true

module _ {V O : Type 0} where
  unfoldable pub init : ℕ → Action (World V O) (Unit {0})
  init promise w =
      let (frame, w1) = current w in
      let (root, w2) = is_root frame w1 in
      if root
      then (ok tt, w2)
      else if is_some (w2.async_context promise)
      then (err has_async_context, w2)
      else (ok tt, attach_context promise w2)

  -- `before`: the same choice as in `Scope.enter`.
  unfoldable pub before : ℕ → World V O → World V O
  before promise w = enter (w.async_context promise) w

  -- `promise[asyncContext] = undefined`
  abbrev pub clear_context : ℕ → World V O → World V O
  clear_context promise w = record w {
    async_context = λ p. if p == promise then none else w.async_context p;
  }

  unfoldable pub after : (ℕ → ℕ) → ℕ → World V O → World V O
  after promise_state promise w =
      if promise_state promise == 2
      then pop_async_frame w
      else clear_context promise (pop_async_frame w)

  -- `resolve`: the frame is attached to a promise that is rejected and has none.
  unfoldable pub resolve : (ℕ → ℕ) → ℕ → World V O → World V O
  resolve promise_state promise w =
      let (frame, w1) = current w in
      let (root, w2) = is_root frame w1 in
      if not root && promise_state promise == 2 && not (is_some (w2.async_context promise))
      then attach_context promise w2
      else w2
