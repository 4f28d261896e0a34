-- ===== src/AsyncHooks/Api.antt =====
-- async_hooks.js: the classes `AsyncResource` and `AsyncLocalStorage`. A function is what it does with
-- its arguments and with the world; the `this` that it is applied to is part of it.
pub mod Laws
pub mod Later
use winterjs.Common.{ℕ, Bool, false, List, [], ◌∷◌, ◌++◌, length, Option, none, some}
use winterjs.Js.{Error, Result, ok, err, not_a_function}
use winterjs.Js.Action.{Action, raise, finally}
use winterjs.AsyncHooks.{StorageEntry, World, pop_async_frame, current, create, enter, get}

-- A string is its code units; "AsyncResource".
abbrev pub async_resource_name : List ℕ
async_resource_name = 65 ∷ 115 ∷ 121 ∷ 110 ∷ 99 ∷ 82 ∷ 101 ∷ 115 ∷ 111 ∷ 117 ∷ 114 ∷ 99 ∷ 101 ∷ []

-- `a || b` on strings, where the empty one stands for undefined too.
abbrev pub or_string : List ℕ → List ℕ → List ℕ
or_string [] b = b
or_string (c ∷ a) b = c ∷ a

pub record AsyncResource : Type 0 where
  pub frame : ℕ
  pub type : List ℕ

pub record Function (V O A R : Type 0) : Type 0 where
  pub name : List ℕ
  pub arity : ℕ
  pub call : A → Action (World V O) R

-- What `bind` returns: a function with the properties `length` and `asyncResource`.
pub record BoundFunction (V O A R : Type 0) : Type 0 where
  pub bound_length : ℕ
  pub async_resource : AsyncResource
  pub bound_call : A → Action (World V O) R

module _ {V O : Type 0} where
  -- `new AsyncResource`
  abbrev pub new_async_resource : List ℕ → World V O → AsyncResource × World V O
  new_async_resource type w =
      let (frame, w1) = current w in (record { frame = frame; type = type }, w1)

  -- `new AsyncLocalStorage`; a storage is known by its key.
  abbrev pub new_async_local_storage : World V O → ℕ × World V O
  new_async_local_storage w = (length w.keys, record w { keys = w.keys ++ false ∷ [] })

  -- `getStore`
  unfoldable pub get_store : ℕ → Action (World V O) (Option V)
  get_store key w = let (frame, w1) = current w in get frame key w1

module _ {V O R : Type 0} where
  -- What stands between `Scope.enter` and `Scope.exit`.
  abbrev pub scope : ℕ → Action (World V O) R → Action (World V O) R
  scope frame m w = finally m pop_async_frame (enter (some frame) w)

module _ {V O A R : Type 0} where
  -- `AsyncContextFrame.wrap`
  abbrev pub wrap : (A → Action (World V O) R) → Option ℕ → A → Action (World V O) R
  wrap fn none args w = let (frame, w1) = current w in scope frame (fn args) w1
  wrap fn (some frame) args w = scope frame (fn args) w

  -- `runInAsyncScope`
  unfoldable pub run_in_async_scope :
      AsyncResource → (A → Action (World V O) R) → A → Action (World V O) R
  run_in_async_scope resource fn args = scope resource.frame (fn args)

  -- `bind`; an argument that is not a function is `none`.
  unfoldable pub bind :
      AsyncResource → Option (Function V O A R) → Action (World V O) (BoundFunction V O A R)
  bind resource none w = raise not_a_function w
  bind resource (some fn) w =
      let (frame, w1) = current w in
      (
        ok (record {
          bound_length = fn.arity;
          async_resource = resource;
          bound_call = wrap fn.call (some frame);
        }),
        w1,
      )

  -- The static `AsyncResource.bind`
  unfoldable pub static_bind :
      Function V O A R → List ℕ → Action (World V O) (BoundFunction V O A R)
  static_bind fn type w =
      let (resource, w1) =
        new_async_resource (or_string (or_string type fn.name) async_resource_name) w in
      bind resource (some fn) w1

  -- `AsyncLocalStorage.prototype.run`
  unfoldable pub run : ℕ → Option V → (A → Action (World V O) R) → A → Action (World V O) R
  run key store callback args w =
      let (frame, w1) = create none (some (record { key = key; value = store })) w in
      scope frame (callback args) w1

  -- `AsyncLocalStorage.prototype.exit`: `array` makes an argument list of one argument, the array of those given.
  abbrev pub exit : (A → A) → ℕ → (A → Action (World V O) R) → A → Action (World V O) R
  exit array key callback args = run key none callback (array args)

module _ {V O A R : Type 0} where
  abbrev pub call_first : (A → Action (World V O) R) × A → Action (World V O) R
  call_first (callback, args) = callback args

  -- `AsyncLocalStorage.snapshot`: the function that is bound calls its first argument with the others.
  abbrev pub snapshot : Action (World V O) (BoundFunction V O ((A → Action (World V O) R) × A) R)
  snapshot = static_bind (record { name = []; arity = 1; call = call_first }) []
