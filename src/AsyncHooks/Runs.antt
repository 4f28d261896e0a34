-- ===== src/AsyncHooks/Runs.antt =====
-- The theorems on the asynchronous context at concrete inputs.
use winterjs.Common.{ℕ, ◌≡◌, refl, false, List, [], ◌∷◌, Option, none, some}
use winterjs.Js.{ok}
use winterjs.Js.Action.{Action, finally}
use winterjs.AsyncHooks.{
  World, pop_async_frame, is_dead, filter_live, put_entry, get_root_async_context, current,
  propagate, create,
}
use winterjs.AsyncHooks.View.{view, IsValid, Grows}
use winterjs.AsyncHooks.Growth.{Keeps-refl}
use winterjs.AsyncHooks.Create.{create-Got}
use winterjs.AsyncHooks.Api.{
  Function, BoundFunction, async_resource_name, get_store, wrap, bind, static_bind, run,
}
use winterjs.AsyncHooks.Api.Laws.{entered, IsTidy, get_store-IsTidy, run-IsTidy, run-view}
use winterjs.AsyncHooks.Api.Later.{get_store-run, static_bind-view}
use winterjs.AsyncHooks.Promises.{init, before}
use winterjs.AsyncHooks.Promises.Context.{before-init}

-- Two storages, and nothing else yet.
abbrev start : World ℕ (List ℕ)
start = record {
  async_context_stack = [];
  root_async_frame = none;
  promise_hooks_set = false;
  frames = [];
  keys = false ∷ false ∷ [];
  async_context = λ p. none;
  other = [];
}

start-IsValid : IsValid start
start-IsValid = record {
  stack_valid = tt;
  root_valid = λ frame h. absurd (cc h);
  context_valid = λ p frame h. absurd (cc h);
}

-- Inside `run` of the storage 0 with the store 5.
abbrev inside : World ℕ (List ℕ)
inside = entered 0 (some 5) start

abbrev seen : Unit {0} → Action (World ℕ (List ℕ)) (Option ℕ)
seen args = get_store 0

inside-IsValid : IsValid inside
inside-IsValid = (run-view 0 (some 5) seen tt start 0 start-IsValid refl).1

get_store-run_example : (run 0 (some 5) (λ (a : Unit {0}). get_store 0) tt start).0 ≡ ok (some 5)
get_store-run_example = get_store-run 0 0 (some 5) tt start start-IsValid refl

run-view_example :
    (run 0 (some 5) seen tt start ≡ finally (seen tt) pop_async_frame inside)
    × IsValid inside
    × (inside.other ≡ [])
    × (inside.keys ≡ false ∷ false ∷ [])
    × (view inside 0 ≡ some 5)
run-view_example = run-view 0 (some 5) seen tt start 0 start-IsValid refl

-- `getStore` of another storage under `run`.
abbrev other_seen : Unit {0} → Action (World ℕ (List ℕ)) (Option ℕ)
other_seen args = get_store 1

run-IsTidy_example : IsTidy (run 0 (some 5) other_seen tt)
run-IsTidy_example = run-IsTidy 0 (some 5) other_seen tt (get_store-IsTidy 1)

abbrev fn : Function ℕ (List ℕ) (Unit {0}) (Option ℕ)
fn = record { name = []; arity = 0; call = seen }

abbrev bound : BoundFunction ℕ (List ℕ) (Unit {0}) (Option ℕ)
bound = record {
  bound_length = 0;
  async_resource = record { frame = 0; type = async_resource_name };
  bound_call = wrap seen (some 0);
}

bound_lem : static_bind fn [] inside ≡ (ok bound, inside)
unfolding static_bind bind current create propagate get_root_async_context filter_live put_entry
bound_lem = refl

-- A later world, with one frame more.
abbrev later : World ℕ (List ℕ)
later = (create none none inside).1

later_live : is_dead later 0 ≡ false
unfolding create current propagate get_root_async_context
later_live = refl

later-Grows : Grows inside later
later-Grows = let c = create-Got none inside inside-IsValid in c.grows

later-IsValid : IsValid later
later-IsValid = let c = create-Got none inside inside-IsValid in c.valid

static_bind-view_example :
    (x : World ℕ (List ℕ)) × (bound.bound_call tt later ≡ finally (seen tt) pop_async_frame x)
    × IsValid x
    × (x.other ≡ later.other)
    × (x.keys ≡ later.keys)
    × (view x 0 ≡ view inside 0)
static_bind-view_example =
    static_bind-view fn [] inside inside later bound tt 0 inside-IsValid bound_lem later-IsValid
      later-Grows later_live

-- The promise 3 is made inside `run`.
abbrev made : World ℕ (List ℕ)
made = (init 3 inside).1

init_lem : init 3 inside ≡ (ok tt, made)
unfolding init create current propagate get_root_async_context filter_live put_entry
init_lem = refl

made_live : is_dead made 0 ≡ false
unfolding init create current propagate get_root_async_context filter_live put_entry
made_live = refl

no_context : inside.async_context 3 ≡ none
unfolding create current propagate get_root_async_context filter_live put_entry
no_context = refl

before-init_example : view (before 3 made) 0 ≡ view inside 0
before-init_example =
    before-init inside made made 3 0 inside-IsValid no_context init_lem (Keeps-refl _ made) refl
      made_live
