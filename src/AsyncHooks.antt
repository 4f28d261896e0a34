-- ===== src/AsyncHooks.antt =====
-- async_hooks.js: the frames of the asynchronous context, with the stack that says which is current.
-- A frame, a key and a promise are known by a number: a frame by its place in the heap, a key by its
-- place in the table of keys. Entries are never shared by two frames, so a storage holds them as values.
pub mod Api
pub mod Timers
pub mod Promises
pub mod View
pub mod Storage
pub mod Growth
pub mod Frames
pub mod Create
mod Runs
use winterjs.Common.{
  ℕ, ◌+◌, Bool, true, false, not, ◌==◌, if◌then◌else◌, List, [], ◌∷◌, ◌++◌, length, get_elem?, set,
  Option, none, some,
}
use winterjs.Js.{Error, Result, ok, err, assertion_failed}
use winterjs.Js.Action.{Action}

-- `StorageEntry`; a value of `none` is undefined.
pub record StorageEntry (V : Type 0) : Type 0 where
  pub key : ℕ
  pub value : Option V

-- The module's variables, the heap of frames, `#dead` of every key, the property `asyncContext` of
-- every promise, and all else that callbacks may change. The top of the stack comes first.
pub record World (V O : Type 0) : Type 0 where
  pub async_context_stack : List ℕ
  pub root_async_frame : Option ℕ
  pub promise_hooks_set : Bool
  pub frames : List (List (StorageEntry V))
  pub keys : List Bool
  pub async_context : ℕ → Option ℕ
  pub other : O

-- The value of the first entry with the key is replaced, or the entry is pushed.
unfoldable pub put_entry :
    {V : Type 0} → StorageEntry V → List (StorageEntry V) → List (StorageEntry V)
put_entry entry [] = entry ∷ []
put_entry entry (e ∷ entries) =
    if e.key == entry.key
    then record e { value = entry.value } ∷ entries
    else e ∷ put_entry entry entries

-- `find((entry) => entry.key === key)`, and its value.
unfoldable pub find_value : {V : Type 0} → ℕ → List (StorageEntry V) → Option V
find_value key [] = none
find_value key (e ∷ entries) = if e.key == key then e.value else find_value key entries

module _ {V O : Type 0} where
  abbrev pub push_async_frame : ℕ → World V O → World V O
  push_async_frame frame w = record w { async_context_stack = frame ∷ w.async_context_stack }

  -- `popAsyncFrame`, by what the stack holds.
  abbrev pub pop_of : List ℕ → World V O → World V O
  pop_of [] w = w
  pop_of (frame ∷ stack) w = record w { async_context_stack = stack }

  abbrev pub pop_async_frame : World V O → World V O
  pop_async_frame w = pop_of w.async_context_stack w

  -- `setPromiseHooks`: the hooks are given to the engine once.
  abbrev pub set_promise_hooks : World V O → World V O
  set_promise_hooks w = if w.promise_hooks_set then w else record w { promise_hooks_set = true }

  -- `this.storage` and `this.storage = storage`, for a frame of the heap.
  abbrev pub storage : ℕ → World V O → List (StorageEntry V)
  storage frame w = elim (get_elem? w.frames frame) [ none ↦ [] | some entries ↦ entries ]

  abbrev pub set_storage : ℕ → List (StorageEntry V) → World V O → World V O
  set_storage frame entries w = record w { frames = set w.frames frame entries }

  -- The start of the constructor: a new frame with an empty storage.
  abbrev pub new_frame : World V O → World V O
  new_frame w = set_promise_hooks (record w { frames = w.frames ++ [] ∷ [] })

  -- `StorageKey`: `isDead`, and `reset` by the finalization registry.
  abbrev pub is_dead : World V O → ℕ → Bool
  is_dead w key = elim (get_elem? w.keys key) [ none ↦ false | some dead ↦ dead ]

  abbrev pub reset : ℕ → World V O → World V O
  reset key w = record w { keys = set w.keys key true }

  -- `filter((entry) => !entry.key.isDead())`
  unfoldable pub filter_live : World V O → List (StorageEntry V) → List (StorageEntry V)
  filter_live w [] = []
  filter_live w (e ∷ entries) =
      let rest = filter_live w entries in if is_dead w e.key then rest else e ∷ rest

  -- `AsyncContextFrame.getRootAsyncContext`, by what the variable holds.
  abbrev pub root_or_new : Option ℕ → World V O → ℕ × World V O
  root_or_new none w =
      (length w.frames, record (new_frame w) { root_async_frame = some (length w.frames) })
  root_or_new (some frame) w = (frame, w)

  unfoldable pub get_root_async_context : World V O → ℕ × World V O
  get_root_async_context w = root_or_new w.root_async_frame w

  -- `AsyncContextFrame.current`, by what the stack holds.
  abbrev pub top_or_root : List ℕ → World V O → ℕ × World V O
  top_or_root [] w = get_root_async_context w
  top_or_root (frame ∷ stack) w = (frame, w)

  unfoldable pub current : World V O → ℕ × World V O
  current w = top_or_root w.async_context_stack w

  -- `propagate`, for the frame that is constructed: the dead entries of the parent go, copies of the
  -- others are pushed, and the new entry is put.
  abbrev pub put_maybe : ℕ → Option (StorageEntry V) → World V O → World V O
  put_maybe this none w = w
  put_maybe this (some entry) w = set_storage this (put_entry entry (storage this w)) w

  unfoldable pub propagate : ℕ → Option (StorageEntry V) → ℕ → World V O → World V O
  propagate this entry parent w =
      let w1 = set_storage parent (filter_live w (storage parent w)) w in
      let w2 = set_storage this (storage this w1 ++ storage parent w1) w1 in put_maybe this entry w2

  -- `AsyncContextFrame.create`, the constructor of a frame that is not the root.
  unfoldable pub create : Option ℕ → Option (StorageEntry V) → World V O → ℕ × World V O
  create none entry w =
      let (parent, w1) = current (new_frame w) in
      (length w.frames, propagate (length w.frames) entry parent w1)
  create (some parent) entry w =
      (length w.frames, propagate (length w.frames) entry parent (new_frame w))

  -- `Scope.enter`; `Scope.exit` is `pop_async_frame`.
  abbrev pub enter : Option ℕ → World V O → World V O
  enter (some frame) w = push_async_frame frame w
  enter none w = let (root, w1) = get_root_async_context w in push_async_frame root w1

  -- `AsyncContextFrame.prototype.get`
  unfoldable pub get : ℕ → ℕ → Action (World V O) (Option V)
  get frame key w =
      if is_dead w key
      then (err assertion_failed, w)
      else let w1 = set_storage frame (filter_live w (storage frame w)) w in
        (ok (find_value key (storage frame w1)), w1)

  -- `AsyncContextFrame.prototype.isRoot`
  abbrev pub is_root : ℕ → World V O → Bool × World V O
  is_root frame w = let (root, w1) = get_root_async_context w in (root == frame, w1)

  -- `AsyncContextFrame.attachContext`
  abbrev pub attach_context : ℕ → World V O → World V O
  attach_context promise w =
      let (frame, w1) = current w in
      record w1 { async_context = λ p. if p == promise then some frame else w1.async_context p }
