-- ===== src/AsyncHooks/Api/Later.antt =====
-- A frame that is captured now and entered later: bound functions, snapshots and resources.
use winterjs.Common.{
  ℕ, ◌≤◌, ◌<◌, ◌≡◌, refl, sym, ap, ◌∙◌, arith, false, ◌==◌, if◌then◌else◌, List, [], ◌∷◌, length,
  Option, none, some,
}
use winterjs.Js.{Result, ok, err}
use winterjs.Js.Action.{Action, finally}
use winterjs.AsyncHooks.{
  World, push_async_frame, pop_async_frame, new_frame, is_dead, root_or_new, get_root_async_context,
  top_or_root, current,
}
use winterjs.AsyncHooks.View.{view, IsValid, Grows}
use winterjs.AsyncHooks.Frames.{Same-new_frame, current-Got, current-view}
use winterjs.AsyncHooks.Create.{live_keys}
use winterjs.AsyncHooks.Api.{
  Function, BoundFunction, new_async_resource, get_store, run_in_async_scope, bind, static_bind,
  run, call_first, snapshot,
}
use winterjs.AsyncHooks.Api.Laws.{get_store-view, push-IsValid, entered, run-view}

module _ {V O : Type 0} where
  -- The frame that is current now, on the stack of a later world.
  pub captured-view :
      (w u : World V O) (k : ℕ)
      → IsValid w
      → Grows ((current w).1) u
      → is_dead u k ≡ false
      → view (push_async_frame ((current w).0) u) k ≡ view w k
  captured-view w u k v g live =
      let c = current-Got w v in g.content_stays ((current w).0) k c.on_heap live ∙ current-view w k

  pub captured-IsValid :
      (w u : World V O)
      → IsValid w
      → IsValid u
      → Grows ((current w).1) u
      → IsValid (push_async_frame ((current w).0) u)
  captured-IsValid w u v vu g =
      let c = current-Got w v in
      let inside : (current w).0 < length (((current w).1).frames) = c.on_heap in
      let more : length (((current w).1).frames) ≤ length u.frames = g.more_frames in
      push-IsValid ((current w).0) u (omega arith) vu

  -- What is current stays current when it is asked for.
  current_again : (w : World V O) → current ((current w).1) ≡ current w
  unfolding current get_root_async_context
  current_again w = by_stack w.async_context_stack refl
    where
      by_root :
          (o : Option ℕ)
          → w.root_async_frame ≡ o
          → w.async_context_stack ≡ []
          → current ((root_or_new o w).1) ≡ root_or_new o w
      by_root none e s =
          let n : World V O = record (new_frame w) { root_async_frame = some (length w.frames) } in
          ap (λ stack. top_or_root stack n) ((Same-new_frame w).stack_same ∙ s)
      by_root (some r) e s = ap (λ stack. top_or_root stack w) s ∙ ap (λ o. root_or_new o w) e

      by_stack :
          (stack : List ℕ)
          → w.async_context_stack ≡ stack
          → current ((top_or_root stack w).1) ≡ top_or_root stack w
      by_stack [] e = by_root w.root_async_frame refl e
      by_stack (f ∷ stack) e = ap (λ s. top_or_root s w) e

  -- In a valid world: under `run` with a store, `getStore` of the same storage returns that store, and
  -- of another storage the value that was visible outside, for storages that are alive.
  pub get_store-run :
      {A : Type 0} (key k : ℕ) (store : Option V) (args : A) (w : World V O)
      → IsValid w
      → is_dead w k ≡ false
      → (run key store (λ (a : A). get_store k) args w).0
        ≡ ok (if key == k then store else view w k)
  get_store-run {A} key k store args w v live =
      let r = run-view key store (λ (a : A). get_store k) args w k v live in
      ap (λ x. x.0) r.0
      ∙ get_store-view k (entered key store w) r.1 (live_keys w (entered key store w) k r.3 live)
      ∙ ap (λ o. ok o) r.4

  -- The frame that `static_bind` and `snapshot` keep.
  static_bind_lem :
      {A R : Type 0} (fn : Function V O A R) (type : List ℕ) (w w1 : World V O)
      (b : BoundFunction V O A R)
      → static_bind fn type w ≡ (ok b, w1)
      → (w1 ≡ (current w).1)
        × ((args : A) (u : World V O)
            → b.bound_call args u
              ≡ finally (fn.call args) pop_async_frame (push_async_frame ((current w).0) u))
  unfolding static_bind bind
  static_bind_lem {A} {R} fn type w w1 b e = (
    sym (ap (λ r. r.1) e) ∙ ap (λ c. c.1) (current_again w),
    λ args u.
        ap (λ r. called r args u) (sym e)
        ∙ ap (λ c. finally (fn.call args) pop_async_frame (push_async_frame c.0 u))
            (current_again w),
  )
    where
      called : Result (BoundFunction V O A R) × World V O → A → Action (World V O) R
      called r args u = elim (r.0) [ ok f ↦ f.bound_call args u | err error ↦ fn.call args u ]

  -- A function that `AsyncResource.bind` bound in a valid world, called in any valid world that grew
  -- from it, runs with the values that were visible where it was bound, for keys that are alive, in a valid
  -- world, and its frame is popped after it.
  pub static_bind-view :
      {A R : Type 0} (fn : Function V O A R) (type : List ℕ) (w w1 u : World V O)
      (b : BoundFunction V O A R) (args : A) (k : ℕ)
      → IsValid w
      → static_bind fn type w ≡ (ok b, w1)
      → IsValid u
      → Grows w1 u
      → is_dead u k ≡ false
      → (x : World V O) × (b.bound_call args u ≡ finally (fn.call args) pop_async_frame x)
        × IsValid x
        × (x.other ≡ u.other)
        × (x.keys ≡ u.keys)
        × (view x k ≡ view w k)
  static_bind-view fn type w w1 u b args k v e vu g live =
      let s = static_bind_lem fn type w w1 b e in
      let g' : Grows ((current w).1) u = rw (s.0) at g in
      (
        push_async_frame ((current w).0) u,
        s.1 args u,
        captured-IsValid w u v vu g',
        refl,
        refl,
        captured-view w u k v g' live,
      )

  -- A snapshot of a valid world, called with `getStore` in a valid world that grew from it, returns the
  -- value that was visible where it was taken, for a storage that is alive.
  pub get_store-snapshot :
      {A : Type 0} (w w1 u : World V O)
      (b : BoundFunction V O ((A → Action (World V O) (Option V)) × A) (Option V)) (args : A)
      (k : ℕ)
      → IsValid w
      → snapshot w ≡ (ok b, w1)
      → IsValid u
      → Grows w1 u
      → is_dead u k ≡ false
      → (b.bound_call ((λ a. get_store k), args) u).0 ≡ ok (view w k)
  get_store-snapshot w w1 u b args k v e vu g live =
      let s =
        static_bind-view (record { name = []; arity = 1; call = call_first }) [] w w1 u b
          ((λ a. get_store k), args) k v e vu g live in
      let x = s.0 in
      ap (λ y. y.0) s.1 ∙ get_store-view k x s.2 (live_keys u x k s.4 live) ∙ ap (λ o. ok o) s.5

  -- `runInAsyncScope` of a resource, called in any valid world that grew from the valid one in which the
  -- resource was made, runs the function with the values that were visible there, for keys that are alive.
  pub run_in_async_scope-view :
      {A R : Type 0} (fn : A → Action (World V O) R) (type : List ℕ) (w u : World V O) (args : A)
      (k : ℕ)
      → IsValid w
      → IsValid u
      → Grows ((new_async_resource type w).1) u
      → is_dead u k ≡ false
      → (x : World V O) × (run_in_async_scope ((new_async_resource type w).0) fn args u
          ≡ finally (fn args) pop_async_frame x)
        × IsValid x
        × (x.other ≡ u.other)
        × (view x k ≡ view w k)
  unfolding run_in_async_scope
  run_in_async_scope-view fn type w u args k v vu g live = (
    push_async_frame ((current w).0) u,
    refl,
    captured-IsValid w u v vu g,
    refl,
    captured-view w u k v g live,
  )
