-- ===== src/Events/Runs.antt =====
-- The theorems on events and targets at concrete inputs.
use winterjs.Common.{
  ℕ, ◌≡◌, refl, sym, Bool, true, false, List, [], ◌∷◌, ◌++◌, append-nil, none, some,
}
use winterjs.Js.{ok}
use winterjs.Js.Action.{Action, pure, ◌>>◌}
use winterjs.Events.{Event, new_event, stop_propagation, prevent_default}
use winterjs.Events.Flags.{Calls, stop, prevent, here, next, IsConsistent, Calls-IsConsistent}
use winterjs.Events.Target.{
  Options, undefined, boolean, Target, Hook, new_target, find, put, add_listener,
  add_event_listener, add_options, has_match, push_listener, remove_match, remove_event_listener,
  fire_hook, default_options, World, dispatch_event,
}
use winterjs.Events.Target.Registry.{
  remove_key, append_key, at_type, registry, registry-add_listener, registry-remove_event_listener,
}
use winterjs.Events.Target.Invariant.{started, stepped, add, remove, IsUnique, Reach-IsUnique}
use winterjs.Events.Target.Abort.{fire_hook-add_listener}
use winterjs.Events.Target.Dispatch.{run_all, IsReady, dispatch_event-run_all}

abbrev never : ℕ → Bool
never s = false

-- Callback 7 for type 1 with both captures, then without the plain one.
abbrev both : Target
both =
    add_event_listener never 1 (some 7) (boolean true)
      (add_event_listener never 1 (some 7) undefined new_target)

abbrev left : Target
left = record {
  listeners =
      (
        1,
        record {
          callback = 7;
          options = record {
            capture = some true;
            once = some false;
            passive = some false;
            signal = none;
          };
        }
            ∷ [],
      )
      ∷ [];
  hooks = [];
}

left_lem : remove_event_listener 1 7 undefined both ≡ ok left
unfolding remove_event_listener add_event_listener add_listener add_options push_listener has_match
    remove_match find put
left_lem = refl

Reach-IsUnique_example : IsUnique left
Reach-IsUnique_example = Reach-IsUnique (
    stepped
      (stepped (stepped started (add never 1 (some 7) undefined new_target)) (
        add never 1 (some 7) (boolean true)
          (add_event_listener never 1 (some 7) undefined new_target)))
      (remove 1 7 undefined left_lem))

registry-add_listener_example :
    registry (add_listener never 1 8 default_options left) 1
    ≡ at_type 1 (append_key (8, some false)) (registry left) 1
registry-add_listener_example = registry-add_listener never 1 8 default_options left 1 tt

registry-remove_event_listener_example :
    (u : Target) × (remove_event_listener 1 7 (boolean true) left ≡ ok u)
    × ((ty : ℕ) → registry u ty ≡ at_type 1 (remove_key (7, some true)) (registry left) ty)
registry-remove_event_listener_example =
    registry-remove_event_listener 1 7 (boolean true) (some true) left refl

-- Options with the signal 3.
abbrev with_signal : Options
with_signal = record { capture = none; once = none; passive = none; signal = some 3 }

fire_hook-add_listener_example :
    (h : Hook) × ((add_listener never 1 9 with_signal left).hooks ≡ left.hooks ++ h ∷ [])
    × (h.signal ≡ 3)
    × (u : Target) × (fire_hook h (add_listener never 1 9 with_signal left) ≡ ok u)
    × ((ty : ℕ) → registry u ty ≡ registry left ty)
fire_hook-add_listener_example =
    fire_hook-add_listener never 1 9 3 with_signal left refl refl (unfold find in refl)

-- Every callback writes its number down.
abbrev log : ℕ → Action (World (List ℕ)) (Unit {0})
log callback w = (ok tt, record w { other = w.other ++ callback ∷ [] })

abbrev world : World (List ℕ)
world = record { event = new_event 1 none; target = left; other = [] }

ready : IsReady (new_event 1 none)
unfolding new_event
ready = (refl, refl, refl)

dispatch_event-run_all_example :
    dispatch_event log world
    ≡ (run_all log (
            record {
              callback = 7;
              options = record {
                capture = some true;
                once = some false;
                passive = some false;
                signal = none;
              };
            }
            ∷ [])
          >> pure true)
        world
dispatch_event-run_all_example =
    dispatch_event-run_all log world _ ready (λ c u. ([], sym (append-nil _)))
      (unfold new_event find in refl)

abbrev stopped : Event
stopped = prevent_default (stop_propagation (new_event 1 none))

calls : Calls (new_event 1 none) stopped
calls = next (next here (stop (new_event 1 none))) (prevent (stop_propagation (new_event 1 none)))

Calls-IsConsistent_example : IsConsistent stopped
Calls-IsConsistent_example = Calls-IsConsistent 1 none calls
