-- ===== src/Events/Target.antt =====
-- event.js: the class `EventTarget`. An `AbortSignal` is code of another module: what it answers to
-- `aborted` is an argument, and the closures that it is given are kept in the state, as the hooks
-- that it may call later.
pub mod Registry
pub mod Invariant
pub mod Dispatch
pub mod Abort
use winterjs.Common.{
  ℕ, zero, suc, ◌+◌, Bool, true, false, not, ◌&&◌, ◌||◌, ◌==◌, if◌then◌else◌, List, [], ◌∷◌, ◌++◌,
  length, get_elem?, Option, none, some,
}
use winterjs.Js.{Error, Result, ok, err, property_of_null, invalid_event_state}
use winterjs.Js.Action.{Action, pure, raise, ◌>>=◌, ◌>>◌}
use winterjs.Events.{Event, none_phase}

-- An object of options; a property is `none` where it is missing.
pub record Options : Type 0 where
  pub capture : Option Bool
  pub once : Option Bool
  pub passive : Option Bool
  pub signal : Option ℕ

-- The argument `options`.
pub data OptionsArg : Type 0 where
  undefined null : OptionsArg
  boolean : Bool → OptionsArg
  object : Options → OptionsArg

-- A callback is known by its identity.
pub record Listener : Type 0 where
  pub callback : ℕ
  pub options : Options

-- What `signal.addEventListener("abort", …)` was given: a call of `removeEventListener`.
pub record Hook : Type 0 where
  pub signal : ℕ
  pub type : ℕ
  pub callback : ℕ
  pub options : Options

-- `eventTargetData.listeners`, and the hooks.
pub record Target : Type 0 where
  pub listeners : List (ℕ × List Listener)
  pub hooks : List Hook

abbrev pub new_target : Target
new_target = record { listeners = []; hooks = [] }

-- `listeners[type]`, and `listeners[type] = list`.
unfoldable pub find : ℕ → List (ℕ × List Listener) → Option (List Listener)
find type [] = none
find type ((k, list) ∷ m) = if k == type then some list else find type m

unfoldable pub put : ℕ → List Listener → List (ℕ × List Listener) → List (ℕ × List Listener)
put type list [] = (type, list) ∷ []
put type list ((k, old) ∷ m) = if k == type then (k, list) ∷ m else (k, old) ∷ put type list m

-- `===` on values of `capture`.
abbrev pub same_capture : Option Bool → Option Bool → Bool
same_capture none none = true
same_capture none (some b) = false
same_capture (some a) none = false
same_capture (some true) (some b) = b
same_capture (some false) (some b) = not b

-- `(matchWithBooleanOptions || matchWithObjectOptions) && matchCallback`: the options of a listener
-- are always an object.
abbrev pub matches : ℕ → Option Bool → Listener → Bool
matches callback capture l = same_capture l.options.capture capture && l.callback == callback

abbrev pub default_options : Options
default_options = record { capture = some false; once = some false; passive = none; signal = none }

-- The options of `addEventListener`, by `flattenOptions` where they are truthy.
unfoldable pub add_options : OptionsArg → Options
add_options undefined = default_options
add_options null = default_options
add_options (boolean false) = default_options
add_options (boolean true) = record {
  capture = some true;
  once = some false;
  passive = some false;
  signal = none;
}
add_options (object options) = options

-- The loop over `listenerList`: whether one matches.
unfoldable pub has_match : ℕ → Option Bool → List Listener → Bool
has_match callback capture [] = false
has_match callback capture (l ∷ list) =
    if matches callback capture l then true else has_match callback capture list

-- `listenerList.push(…)`, with the hook on the signal before it.
unfoldable pub push_listener : (ℕ → Bool) → ℕ → ℕ → Options → List Listener → Target → Target
push_listener aborted type callback options list t =
    let pushed =
      put type (list ++ record { callback = callback; options = options } ∷ []) t.listeners in
    elim options.signal [
      | none ↦ record t { listeners = pushed }
      | some s ↦ if aborted s then t else record t {
        listeners = pushed;
        hooks =
            t.hooks
            ++ record { signal = s; type = type; callback = callback; options = options } ∷ [];
      }
    ]

abbrev pub list_or_empty : Option (List Listener) → List Listener
list_or_empty none = []
list_or_empty (some list) = list

-- `addEventListener` with a callback that is not null.
unfoldable pub add_listener : (ℕ → Bool) → ℕ → ℕ → Options → Target → Target
add_listener aborted type callback options t =
    let list = list_or_empty (find type t.listeners) in
    let started = record t { listeners = put type list t.listeners } in
    if has_match callback options.capture list
    then started
    else push_listener aborted type callback options list started

-- `addEventListener`; a callback of `none` is null.
unfoldable pub add_event_listener : (ℕ → Bool) → ℕ → Option ℕ → OptionsArg → Target → Target
add_event_listener aborted type none options t = t
add_event_listener aborted type (some callback) options t =
    add_listener aborted type callback (add_options options) t

-- The loop of `removeEventListener`: the first match is cut out.
unfoldable pub remove_match : ℕ → Option Bool → List Listener → List Listener
remove_match callback capture [] = []
remove_match callback capture (l ∷ list) =
    if matches callback capture l then list else l ∷ remove_match callback capture list

-- `options.capture`, once a boolean or undefined is made an object; null has no properties.
abbrev pub remove_capture : OptionsArg → Result (Option Bool)
remove_capture undefined = ok (some false)
remove_capture null = err property_of_null
remove_capture (boolean b) = ok (some b)
remove_capture (object options) = ok options.capture

-- `removeEventListener`: with no list, or an empty one, it returns before it reads `options`.
unfoldable pub remove_event_listener : ℕ → ℕ → OptionsArg → Target → Result Target
remove_event_listener type callback options t = elim (find type t.listeners) [
  | none ↦ ok t
  | some [] ↦ ok t
  | some (l ∷ list) ↦ elim (remove_capture options) [
    | err e ↦ err e
    | ok capture ↦
        ok
          (record t { listeners = put type (remove_match callback capture (l ∷ list)) t.listeners })
  ]
]

-- What a signal does when it is aborted: the closure of a hook runs.
unfoldable pub fire_hook : Hook → Target → Result Target
fire_hook h t = remove_event_listener h.type h.callback (object h.options) t

-- The event that is dispatched, the target, and all else that callbacks may change.
pub record World (O : Type 0) : Type 0 where
  pub event : Event
  pub target : Target
  pub other : O

-- A callback may do anything to the world, this target's listeners included, and may throw.
module _ {O : Type 0} (run : ℕ → Action (World O) (Unit {0})) where
  -- `forEach` on `listeners[type]`: the rounds left of those that it counted at the start, and the
  -- index. An index that has gone by now is passed over.
  unfoldable pub for_each : ℕ → ℕ → ℕ → Action (World O) (Unit {0})
  for_each type zero k w = (ok tt, w)
  for_each type (suc rounds) k w =
      elim (get_elem? (list_or_empty (find type w.target.listeners)) k) [
        | none ↦ for_each type rounds (k + 1) w
        | some l ↦ (run l.callback >> for_each type rounds (k + 1)) w
      ]

  -- `dispatch`: with no list for the type there is nothing to call `forEach` on.
  unfoldable pub dispatch : Action (World O) Bool
  unfolding for_each
  dispatch w = elim (find w.event.type w.target.listeners) [
    | none ↦ (err property_of_null, w)
    | some list ↦ (for_each w.event.type (length list) 0 >> pure true) w
  ]

  -- `dispatchEvent`
  unfoldable pub dispatch_event : Action (World O) Bool
  unfolding dispatch
  dispatch_event w =
      if w.event.dispatch_flag || not w.event.initialized_flag
      then (err invalid_event_state, w)
      else if not (w.event.event_phase == none_phase)
      then (err invalid_event_state, w)
      else dispatch w
