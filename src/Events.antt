-- ===== src/Events.antt =====
-- src/builtins/js_globals/event.js: the class `Event`, its constructor, flags and getters.
-- Strings that are only compared, such as the type of an event, and objects that are only compared,
-- such as a target, are numbers.
pub mod Path
pub mod Flags
pub mod Target
mod Runs
use winterjs.Common.{ℕ, Bool, true, false, not, ◌||◌, List, [], Option, none, some, if◌then◌else◌}

-- An entry of `path`, with the properties that `composedPath` reads.
pub record PathItem : Type 0 where
  pub item : ℕ
  pub root_of_closed_tree : Bool
  pub slot_in_closed_tree : Bool

pub record EventInit : Type 0 where
  pub bubbles : Bool
  pub cancelable : Bool
  pub composed : Bool

pub record Event : Type 0 where
  pub type : ℕ
  pub target : Option ℕ
  pub src_element : Option ℕ
  pub current_target : Option ℕ
  pub event_phase : ℕ
  pub bubbles : Bool
  pub cancelable : Bool
  pub is_trusted : Bool
  pub time_stamp : ℕ
  pub path : List PathItem
  pub stop_propagation_flag : Bool
  pub stop_immediate_propagation_flag : Bool
  pub canceled_flag : Bool
  pub in_passive_listener_flag : Bool
  pub composed_flag : Bool
  pub initialized_flag : Bool
  pub dispatch_flag : Bool

-- `Event.NONE`
abbrev pub none_phase : ℕ
none_phase = 0

-- `!!eventInitDict?.name`
abbrev pub init_flag : (EventInit → Bool) → Option EventInit → Bool
init_flag name none = false
init_flag name (some init) = name init

-- `new Event(type, eventInitDict)`
unfoldable pub new_event : ℕ → Option EventInit → Event
new_event type init = record {
  type = type;
  target = none;
  src_element = none;
  current_target = none;
  event_phase = none_phase;
  bubbles = init_flag (λ i. i.bubbles) init;
  cancelable = init_flag (λ i. i.cancelable) init;
  is_trusted = false;
  time_stamp = 0;
  path = [];
  stop_propagation_flag = false;
  stop_immediate_propagation_flag = false;
  canceled_flag = false;
  in_passive_listener_flag = false;
  composed_flag = init_flag (λ i. i.composed) init;
  initialized_flag = true;
  dispatch_flag = false;
}

unfoldable pub stop_propagation : Event → Event
stop_propagation e = record e { stop_propagation_flag = true }

-- The getter and the setter of `cancelBubble`.
abbrev pub cancel_bubble : Event → Bool
cancel_bubble e = e.stop_propagation_flag

unfoldable pub set_cancel_bubble : Bool → Event → Event
set_cancel_bubble value e = if value then record e { stop_propagation_flag = true } else e

unfoldable pub stop_immediate_propagation : Event → Event
stop_immediate_propagation e = record e {
  stop_immediate_propagation_flag = true;
  stop_propagation_flag = true;
}

-- The getter and the setter of `returnValue`.
abbrev pub return_value : Event → Bool
return_value e = not e.canceled_flag

unfoldable pub set_return_value : Bool → Event → Event
set_return_value value e = if value then e else record e { canceled_flag = true }

unfoldable pub prevent_default : Event → Event
prevent_default e = record e { canceled_flag = true }

abbrev pub default_prevented : Event → Bool
default_prevented e = e.canceled_flag

abbrev pub composed : Event → Bool
composed e = e.composed_flag

-- `initEvent`, whose body is empty.
unfoldable pub init_event : ℕ → Bool → Bool → Event → Event
init_event type bubbles cancelable e = e

-- The getters and the setters of `dispatched` and `initialized`.
abbrev pub dispatched : Event → Bool
dispatched e = e.dispatch_flag

unfoldable pub set_dispatched : Bool → Event → Event
set_dispatched value e = record e { dispatch_flag = value }

abbrev pub initialized : Event → Bool
initialized e = e.initialized_flag

unfoldable pub set_initialized : Bool → Event → Event
set_initialized value e = record e { initialized_flag = value }
