-- ===== src/AsyncHooks/Promises/Laws.antt =====
-- What a job of a promise leaves between the hooks `before` and `after`.
use winterjs.Common.{
  ℕ, ◌≡◌, refl, ◌⊎◌, inl, inr, arith, true, ◌==◌, length, Option, none, some, Bool-cases,
}
use winterjs.Js.Action.{Action}
use winterjs.AsyncHooks.{World, push_async_frame, pop_async_frame, get_root_async_context, enter}
use winterjs.AsyncHooks.View.{IsValid}
use winterjs.AsyncHooks.Growth.{Keeps-refl}
use winterjs.AsyncHooks.Frames.{Same-refl, Got, root-Got}
use winterjs.AsyncHooks.Api.Laws.{
  Tidies, Tidies-trans, IsTidy, Got-Tidies, push-IsValid, popped-Tidies,
}
use winterjs.AsyncHooks.Promises.{before, clear_context, after}

module _ {V O : Type 0} where
  clear-Tidies : (p : ℕ) (w u : World V O) → Tidies w u → Tidies w (clear_context p u)
  clear-Tidies p w u t = record {
    grows = record {
      more_frames = t.grows.more_frames;
      dead_stays = t.grows.dead_stays;
      root_stays = t.grows.root_stays;
      content_stays = t.grows.content_stays;
    };
    valid = record {
      stack_valid = t.valid.stack_valid;
      root_valid = t.valid.root_valid;
      context_valid = λ q f h. elim (Bool-cases (q == p)) [
        | inl same ↦ absurd (cc (rw same at h))
        | inr other ↦ t.valid.context_valid q f (rw other at h)
      ];
    };
    stack_same = t.stack_same;
  }

  clear_self : (p : ℕ) (w : World V O) → (clear_context p w).async_context p ≡ none
  clear_self p w = ground arith

  -- `before` pushes a frame of the heap.
  before-Got :
      (p : ℕ) (w : World V O)
      → IsValid w
      → (frame : ℕ) × (w1 : World V O) × (before p w ≡ push_async_frame frame w1) × Got w frame w1
  unfolding before
  before-Got p w v = cases (w.async_context p) refl
    where
      cases :
          (o : Option ℕ)
          → w.async_context p ≡ o
          → (frame : ℕ) × (w1 : World V O) × (enter o w ≡ push_async_frame frame w1)
            × Got w frame w1
      cases none e =
          ((get_root_async_context w).0, (get_root_async_context w).1, refl, root-Got w v)
      cases (some frame) e = (
        frame,
        w,
        refl,
        record {
          grows = Keeps-refl (length w.frames) w;
          valid = v;
          same = Same-refl w;
          on_heap = v.context_valid p frame e;
        },
      )

  -- In a valid world, a job of a promise between `before` and `after`, that leaves the stack as it found
  -- it and keeps every frame's values and the world valid, does so with both hooks as well, and a
  -- promise that is not rejected has no context after it.
  pub after-before :
      {A : Type 0} (promise_state : ℕ → ℕ) (p : ℕ) (job : Action (World V O) A) (w : World V O)
      → IsTidy job
      → IsValid w
      → Tidies w (after promise_state p ((job (before p w)).1))
        × ((promise_state p == 2 ≡ true)
            ⊎ ((after promise_state p ((job (before p w)).1)).async_context p ≡ none))
  unfolding after
  after-before promise_state p job w tidy v =
      let b = before-Got p w v in
      let w1 = b.1 in
      let g = b.3 in
      let u = (job (before p w)).1 in
      let t : Tidies (push_async_frame b.0 w1) u =
        rw b.2 (tidy (push_async_frame b.0 w1) (push-IsValid b.0 w1 g.on_heap g.valid)) in
      let done = Tidies-trans (Got-Tidies b.0 g) (popped-Tidies b.0 w1 u g.valid t) in
      elim (Bool-cases (promise_state p == 2)) [
        | inl rejected ↦ (rw rejected done, inl rejected)
        | inr pending ↦ (
          rw pending (clear-Tidies p w (pop_async_frame u) done),
          inr (rw pending (clear_self p (pop_async_frame u))),
        )
      ]
