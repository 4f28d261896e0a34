-- ===== src/AsyncHooks/Create.antt =====
-- What `create` gives: a frame with the values that are visible, and with the new entry.
use winterjs.Common.{
  ℕ, suc, ◌≤◌, ◌<◌, ◌≡◌, ◌≢◌, refl, sym, ap, ◌∙◌, arith, false, ◌==◌, if◌then◌else◌, List, [], ◌∷◌,
  ◌++◌, length, set, length-set, get_elem?, Option, none, some, All,
}
use winterjs.AsyncHooks.{
  StorageEntry, World, storage, set_storage, new_frame, is_dead, filter_live, find_value, put_entry,
  root_or_new, get_root_async_context, top_or_root, current, put_maybe, propagate, create,
}
use winterjs.AsyncHooks.View.{content, root_content, top_content, view, IsValid, Grows}
use winterjs.AsyncHooks.Storage.{
  find_value-put_entry, find_value-filter_live, storage-set_storage, storage-set_storage_ne,
  storage-new_frame, storage-new_frame_self,
}
use winterjs.AsyncHooks.Growth.{
  Keeps-trans, Grows-trans, Keeps-new_frame, new_frame_lem, Keeps-propagate,
}
use winterjs.AsyncHooks.Frames.{
  Same, Same-trans, Same-new_frame, IsValid-more, IsValid-new_frame, Got, length-new_frame,
  current-Got, current-view,
}

-- The value for a key once an entry is put.
abbrev pub with_entry : {V : Type 0} → Option (StorageEntry V) → ℕ → Option V → Option V
with_entry none key old = old
with_entry (some e) key old = if e.key == key then e.value else old

module _ {V O : Type 0} where
  -- `current` writes no frame that is there.
  storage-current :
      (frame : ℕ) (w : World V O)
      → frame < length w.frames
      → storage frame ((current w).1) ≡ storage frame w
  unfolding current get_root_async_context
  storage-current frame w h = by_stack w.async_context_stack
    where
      by_root : (o : Option ℕ) → storage frame ((root_or_new o w).1) ≡ storage frame w
      by_root none = storage-new_frame frame w h
      by_root (some root) = refl

      by_stack : (stack : List ℕ) → storage frame ((top_or_root stack w).1) ≡ storage frame w
      by_stack [] = by_root w.root_async_frame
      by_stack (f ∷ stack) = refl

  -- The current frame is named already, or it is the next on the heap.
  current_ne :
      (bound : ℕ) (w : World V O)
      → bound < length w.frames
      → All (λ f. f < bound) w.async_context_stack
      → ((f : ℕ) → w.root_async_frame ≡ some f → f < bound)
      → bound ≢ (current w).0
  unfolding current get_root_async_context
  current_ne bound w inside hs hr = by_stack w.async_context_stack hs
    where
      by_root : (o : Option ℕ) → w.root_async_frame ≡ o → bound ≢ (root_or_new o w).0
      by_root none e k = omega (arith, k)
      by_root (some root) e k = let below = hr root e in omega (arith, k, below)

      by_stack : (stack : List ℕ) → All (λ f. f < bound) stack → bound ≢ (top_or_root stack w).0
      by_stack [] h k = by_root w.root_async_frame refl k
      by_stack (f ∷ stack) h k = let below = h.0 in omega (arith, k, below)

  content-put_maybe :
      (this : ℕ) (entry : Option (StorageEntry V)) (w : World V O) (key : ℕ)
      → this < length w.frames
      → content this (put_maybe this entry w) key ≡ with_entry entry key (content this w key)
  content-put_maybe this none w key h = refl
  content-put_maybe this (some e) w key h =
      ap (find_value key) (storage-set_storage this (put_entry e (storage this w)) w h)
      ∙ find_value-put_entry key e (storage this w)

  -- `propagate` gives an empty frame the parent's values that are alive, with the new one.
  content-propagate :
      (this : ℕ) (entry : Option (StorageEntry V)) (parent : ℕ) (w : World V O) (key : ℕ)
      → this < length w.frames
      → parent < length w.frames
      → this ≢ parent
      → storage this w ≡ []
      → is_dead w key ≡ false
      → content this (propagate this entry parent w) key
        ≡ with_entry entry key (content parent w key)
  unfolding propagate
  content-propagate this entry parent w key h hp ne empty live =
      content-put_maybe this entry (set_storage this (storage this w1 ++ storage parent w1) w1) key
        inside
      ∙ ap (with_entry entry key) copied
    where
      w1 : World V O
      w1 = set_storage parent (filter_live w (storage parent w)) w

      inside1 : this < length w1.frames
      inside1 = rw (length-set w.frames parent (filter_live w (storage parent w))) h

      inside : this < length (set w1.frames this (storage this w1 ++ storage parent w1))
      inside = rw (length-set w1.frames this (storage this w1 ++ storage parent w1)) inside1

      copied :
          content this (set_storage this (storage this w1 ++ storage parent w1) w1) key
          ≡ content parent w key
      copied =
          ap (find_value key) (
            storage-set_storage this (storage this w1 ++ storage parent w1) w1 inside1
            ∙ ap (◌++ storage parent w1) (
                storage-set_storage_ne parent this (filter_live w (storage parent w)) w
                  (λ e. ne (sym e))
                ∙ empty)
            ∙ storage-set_storage parent (filter_live w (storage parent w)) w hp)
          ∙ find_value-filter_live w key (storage parent w) live

  Same-propagate :
      (this : ℕ) (entry : Option (StorageEntry V)) (parent : ℕ) (w : World V O)
      → Same w (propagate this entry parent w)
  unfolding propagate
  Same-propagate this none parent w = record {
    stack_same = refl;
    context_same = refl;
    keys_same = refl;
    other_same = refl;
  }
  Same-propagate this (some e) parent w = record {
    stack_same = refl;
    context_same = refl;
    keys_same = refl;
    other_same = refl;
  }

  root-propagate :
      (this : ℕ) (entry : Option (StorageEntry V)) (parent : ℕ) (w : World V O)
      → (propagate this entry parent w).root_async_frame ≡ w.root_async_frame
  unfolding propagate
  root-propagate this none parent w = refl
  root-propagate this (some e) parent w = refl

  pub create-Got :
      (entry : Option (StorageEntry V)) (w : World V O)
      → IsValid w
      → Got w ((create none entry w).0) ((create none entry w).1)
  unfolding create
  create-Got entry w v =
      let n = length w.frames in
      let wn = new_frame w in
      let c = current-Got wn (IsValid-new_frame w v) in
      let parent = (current wn).0 in
      let w1 = (current wn).1 in
      let u = propagate n entry parent w1 in
      let kept = Keeps-propagate n entry parent w1 in
      let more1 : suc n ≡ length wn.frames = sym (length-new_frame w) in
      let more2 : length wn.frames ≤ length w1.frames = c.grows.more_frames in
      let more3 : length w1.frames ≤ length u.frames = kept.more_frames in
      let inside : n < length u.frames = omega arith in
      let same2 = Same-trans c.same (Same-propagate n entry parent w1) in
      record {
        grows = Keeps-trans (omega arith) (Grows-trans (Keeps-new_frame w) c.grows) kept;
        valid = IsValid-more w1 u c.valid more3 (Same-propagate n entry parent w1) (λ frame h.
            let before : frame < length w1.frames =
              c.valid.root_valid frame (sym (root-propagate n entry parent w1) ∙ h) in
            omega arith);
        same = Same-trans (Same-new_frame w) same2;
        on_heap = inside;
      }

  pub live_keys :
      (w u : World V O) (key : ℕ) → u.keys ≡ w.keys → is_dead w key ≡ false → is_dead u key ≡ false
  live_keys w u key same live =
      ap (λ keys. elim (get_elem? keys key) [ none ↦ false | some dead ↦ dead ]) same ∙ live

  pub live-Same :
      {w u : World V O} → Same w u → (key : ℕ) → is_dead w key ≡ false → is_dead u key ≡ false
  live-Same {w} {u} same key = live_keys w u key same.keys_same

  -- What running code sees is kept where the world grows under the same stack and root.
  pub view-Grows :
      {w u : World V O} (key : ℕ)
      → Grows w u
      → u.async_context_stack ≡ w.async_context_stack
      → u.root_async_frame ≡ w.root_async_frame
      → IsValid w
      → is_dead u key ≡ false
      → view u key ≡ view w key
  view-Grows {w} {u} key g stack root v live =
      ap (λ s. top_content s u key) stack ∙ by_stack w.async_context_stack refl
    where
      by_root :
          (o : Option ℕ) → w.root_async_frame ≡ o → root_content o u key ≡ root_content o w key
      by_root none e = refl
      by_root (some r) e = g.content_stays r key (v.root_valid r e) live

      by_stack :
          (s : List ℕ) → w.async_context_stack ≡ s → top_content s u key ≡ top_content s w key
      by_stack [] e = ap (λ o. root_content o u key) root ∙ by_root w.root_async_frame refl
      by_stack (f ∷ s) e =
          let h : All (λ f. f < length w.frames) (f ∷ s) = rw e at v.stack_valid in
          g.content_stays f key h.0 live

  view-new_frame :
      (w : World V O) (key : ℕ)
      → IsValid w
      → is_dead w key ≡ false
      → view (new_frame w) key ≡ view w key
  view-new_frame w key v live =
      view-Grows key (Keeps-new_frame w) ((Same-new_frame w).stack_same) (rw (new_frame_lem w) refl)
        v (live-Same (Same-new_frame w) key live)

  -- The new frame has the values that are visible, with the entry.
  pub content-create :
      (entry : Option (StorageEntry V)) (w : World V O) (key : ℕ)
      → IsValid w
      → is_dead w key ≡ false
      → content ((create none entry w).0) ((create none entry w).1) key
        ≡ with_entry entry key (view w key)
  unfolding create
  content-create entry w key v live =
      let n = length w.frames in
      let wn = new_frame w in
      let c = current-Got wn (IsValid-new_frame w v) in
      let more1 : suc n ≡ length wn.frames = sym (length-new_frame w) in
      let more2 : length wn.frames ≤ length (((current wn).1).frames) = c.grows.more_frames in
      content-propagate n entry ((current wn).0) ((current wn).1) key (omega arith) c.on_heap
        (current_ne n wn (omega arith) (rw ((Same-new_frame w).stack_same) v.stack_valid)
          (λ f h. v.root_valid f (rw (new_frame_lem w) at h)))
        (storage-current n wn (omega arith) ∙ storage-new_frame_self w)
        (live-Same (Same-trans (Same-new_frame w) c.same) key live)
      ∙ ap (with_entry entry key) (current-view wn key ∙ view-new_frame w key v live)
