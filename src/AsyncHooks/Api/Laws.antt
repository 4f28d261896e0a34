-- ===== src/AsyncHooks/Api/Laws.antt =====
-- `run` and `getStore` against the map of visible values, and what they leave.
use winterjs.Common.{
  ℕ, ◌≤◌, ◌<◌, ◌≡◌, refl, ap, ◌∙◌, arith, false, ◌==◌, inl, inr, if◌then◌else◌, length, Option,
  none, some, Bool-cases,
}
use winterjs.Js.{ok}
use winterjs.Js.Action.{Action, finally}
use winterjs.AsyncHooks.{
  StorageEntry, World, push_async_frame, pop_of, pop_async_frame, storage, set_storage, is_dead,
  filter_live, find_value, current, create, get,
}
use winterjs.AsyncHooks.View.{view, IsValid, Grows}
use winterjs.AsyncHooks.Storage.{find_value-filter_live, storage-set_storage}
use winterjs.AsyncHooks.Growth.{Keeps-refl, Grows-trans, Keeps-filter_live}
use winterjs.AsyncHooks.Frames.{Same, All-le, IsValid-more, Got, current-Got, current-view}
use winterjs.AsyncHooks.Create.{live-Same, create-Got, content-create}
use winterjs.AsyncHooks.Api.{scope, get_store, run}

module _ {V O : Type 0} where
  -- `getStore` returns the value that is visible, and refuses a key that is dead.
  pub get_store-view :
      (key : ℕ) (w : World V O)
      → IsValid w
      → is_dead w key ≡ false
      → (get_store key w).0 ≡ ok (view w key)
  unfolding get_store get
  get_store-view key w v live =
      let c = current-Got w v in
      let frame = (current w).0 in
      let w1 = (current w).1 in
      let alive = live-Same c.same key live in
      rw alive (
        ap (λ o. ok o)
          (ap (find_value key)
              (storage-set_storage frame (filter_live w1 (storage frame w1)) w1 c.on_heap)
            ∙ find_value-filter_live w1 key (storage frame w1) alive
            ∙ current-view w key))

  -- What a computation leaves: a valid and later world with the stack that it found, and no key died.
  pub record Tidies (w u : World V O) : Type 0 where
    pub grows : Grows w u
    pub valid : IsValid u
    pub stack_same : u.async_context_stack ≡ w.async_context_stack

  pub Tidies-trans : {w u x : World V O} → Tidies w u → Tidies u x → Tidies w x
  Tidies-trans a b = record {
    grows = Grows-trans a.grows b.grows;
    valid = b.valid;
    stack_same = b.stack_same ∙ a.stack_same;
  }

  pub Got-Tidies : {w u : World V O} (frame : ℕ) → Got w frame u → Tidies w u
  Got-Tidies frame g = record { grows = g.grows; valid = g.valid; stack_same = g.same.stack_same }

  filter_live-Tidies :
      (frame : ℕ) (w : World V O)
      → IsValid w
      → Tidies w (set_storage frame (filter_live w (storage frame w)) w)
  filter_live-Tidies frame w v =
      let k = Keeps-filter_live (length w.frames) frame w in
      let u = set_storage frame (filter_live w (storage frame w)) w in
      let le : length w.frames ≤ length u.frames = k.more_frames in
      let same : Same w u = record {
        stack_same = refl;
        context_same = refl;
        keys_same = refl;
        other_same = refl;
      } in
      record {
        grows = k;
        valid =
            IsValid-more w u v le same
              (λ f h. let before : f < length w.frames = v.root_valid f h in omega arith);
        stack_same = refl;
      }

  abbrev pub IsTidy : {A : Type 0} → Action (World V O) A → Type 0
  IsTidy m = (w : World V O) → IsValid w → Tidies w ((m w).1)

  get-IsTidy : (frame key : ℕ) → IsTidy (get {V = V} {O = O} frame key)
  unfolding get
  get-IsTidy frame key w v = elim (Bool-cases (is_dead w key)) [
    | inl dead ↦
        rw dead (record { grows = Keeps-refl (length w.frames) w; valid = v; stack_same = refl })
    | inr live ↦ rw live (filter_live-Tidies frame w v)
  ]

  pub get_store-IsTidy : (key : ℕ) → IsTidy (get_store {V = V} {O = O} key)
  unfolding get_store
  get_store-IsTidy key w v =
      let c = current-Got w v in
      Tidies-trans (Got-Tidies ((current w).0) c)
        (get-IsTidy ((current w).0) key ((current w).1) c.valid)

  -- A frame of the heap goes on the stack, and what is on top of the stack goes off it.
  pub push-IsValid :
      (frame : ℕ) (w : World V O)
      → frame < length w.frames
      → IsValid w
      → IsValid (push_async_frame frame w)
  push-IsValid frame w h v = record {
    stack_valid = (h, v.stack_valid);
    root_valid = v.root_valid;
    context_valid = v.context_valid;
  }

  -- The frame that was pushed is popped again.
  pub popped-Tidies :
      (frame : ℕ) (w u : World V O)
      → IsValid w
      → Tidies (push_async_frame frame w) u
      → Tidies w (pop_async_frame u)
  popped-Tidies frame w u v t = rw (ap (λ stack. pop_of stack u) t.stack_same) (record {
    grows = record {
      more_frames = t.grows.more_frames;
      dead_stays = t.grows.dead_stays;
      root_stays = t.grows.root_stays;
      content_stays = t.grows.content_stays;
    };
    valid = record {
      stack_valid =
          All-le (length w.frames) (length u.frames) w.async_context_stack t.grows.more_frames
            v.stack_valid;
      root_valid = t.valid.root_valid;
      context_valid = t.valid.context_valid;
    };
    stack_same = refl;
  })

  -- A computation under a frame leaves the stack as it was, also where it throws.
  pub scope-Tidies :
      {R : Type 0} (frame : ℕ) (m : Action (World V O) R) (w : World V O)
      → IsTidy m
      → frame < length w.frames
      → IsValid w
      → Tidies w ((scope frame m w).1)
  scope-Tidies frame m w tidy h v =
      popped-Tidies frame w ((m (push_async_frame frame w)).1) v
        (tidy (push_async_frame frame w) (push-IsValid frame w h v))

  -- `run` with a callback that leaves the stack of a valid world as it found it, keeps every frame's
  -- values and the world valid does the same, whether the callback returns or throws.
  pub run-IsTidy :
      {A R : Type 0} (key : ℕ) (store : Option V) (callback : A → Action (World V O) R) (args : A)
      → IsTidy (callback args)
      → IsTidy (run key store callback args)
  unfolding run
  run-IsTidy key store callback args tidy w v =
      let c = create-Got (some (record { key = key; value = store })) w v in
      Tidies-trans (Got-Tidies _ c) (scope-Tidies _ (callback args) _ tidy c.on_heap c.valid)

  -- The world in which the callback of `run` starts.
  abbrev pub entered : ℕ → Option V → World V O → World V O
  entered key store w =
      let (frame, w1) = create none (some (record { key = key; value = store })) w in
      push_async_frame frame w1

  -- From a valid world the callback of `run` starts in a valid world with the same keys and the same
  -- outside of the module, in which the value for a key that is alive is the one from before, or the
  -- new one for the key of `run`, and then its frame is popped.
  pub run-view :
      {A R : Type 0} (key : ℕ) (store : Option V) (callback : A → Action (World V O) R) (args : A)
      (w : World V O) (k : ℕ)
      → IsValid w
      → is_dead w k ≡ false
      → (run key store callback args w
          ≡ finally (callback args) pop_async_frame (entered key store w))
        × IsValid (entered key store w)
        × ((entered key store w).other ≡ w.other)
        × ((entered key store w).keys ≡ w.keys)
        × (view (entered key store w) k ≡ (if key == k then store else view w k))
  unfolding run
  run-view key store callback args w k v live =
      let entry : Option (StorageEntry V) = some (record { key = key; value = store }) in
      let c = create-Got entry w v in
      (
        refl,
        push-IsValid ((create none entry w).0) ((create none entry w).1) c.on_heap c.valid,
        c.same.other_same,
        c.same.keys_same,
        content-create entry w k v live,
      )
