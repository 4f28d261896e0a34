-- ===== src/AsyncHooks/Frames.antt =====
-- What `current` and `create` give: a frame with the values that are visible, and with the new entry.
use winterjs.Common.{
  ℕ, suc, ◌≤◌, ◌<◌, ◌≡◌, refl, sym, ap, ◌∙◌, arith, List, [], ◌∷◌, length, length_snoc, Option,
  none, some, All,
}
use winterjs.AsyncHooks.{
  World, new_frame, find_value, root_or_new, get_root_async_context, top_or_root, current,
}
use winterjs.AsyncHooks.View.{content, root_content, top_content, view, IsValid, Grows}
use winterjs.AsyncHooks.Storage.{storage-new_frame_self}
use winterjs.AsyncHooks.Growth.{Keeps-refl, Keeps-new_frame, new_frame_lem}

pub All-le : (m n : ℕ) (stack : List ℕ) → m ≤ n → All (λ f. f < m) stack → All (λ f. f < n) stack
All-le m n [] le h = tt
All-le m n (f ∷ stack) le (hf, h) = (omega arith, All-le m n stack le h)

module _ {V O : Type 0} where
  -- What stays when only frames are added or written.
  pub record Same (w u : World V O) : Type 0 where
    pub stack_same : u.async_context_stack ≡ w.async_context_stack
    pub context_same : u.async_context ≡ w.async_context
    pub keys_same : u.keys ≡ w.keys
    pub other_same : u.other ≡ w.other

  pub Same-refl : (w : World V O) → Same w w
  Same-refl w = record {
    stack_same = refl;
    context_same = refl;
    keys_same = refl;
    other_same = refl;
  }

  pub Same-trans : {w u v : World V O} → Same w u → Same u v → Same w v
  Same-trans a b = record {
    stack_same = b.stack_same ∙ a.stack_same;
    context_same = b.context_same ∙ a.context_same;
    keys_same = b.keys_same ∙ a.keys_same;
    other_same = b.other_same ∙ a.other_same;
  }

  pub Same-new_frame : (w : World V O) → Same w (new_frame w)
  Same-new_frame w =
      rw (new_frame_lem w)
        (record { stack_same = refl; context_same = refl; keys_same = refl; other_same = refl })

  -- More frames, and no other names of frames.
  pub IsValid-more :
      (w u : World V O)
      → IsValid w
      → length w.frames ≤ length u.frames
      → Same w u
      → ((frame : ℕ) → u.root_async_frame ≡ some frame → frame < length u.frames)
      → IsValid u
  IsValid-more w u v le same root = record {
    stack_valid =
        rw same.stack_same
          (All-le (length w.frames) (length u.frames) w.async_context_stack le v.stack_valid);
    root_valid = root;
    context_valid = λ p frame h.
        let before : frame < length w.frames =
          v.context_valid p frame (ap (λ c. c p) (sym same.context_same) ∙ h) in
        omega arith;
  }

  -- A frame that is got, and the world after it.
  pub record Got (w : World V O) (frame : ℕ) (u : World V O) : Type 0 where
    pub grows : Grows w u
    pub valid : IsValid u
    pub same : Same w u
    pub on_heap : frame < length u.frames

  pub length-new_frame : (w : World V O) → length ((new_frame w).frames) ≡ suc (length w.frames)
  length-new_frame w = rw (new_frame_lem w, length_snoc w.frames []) refl

  pub IsValid-new_frame : (w : World V O) → IsValid w → IsValid (new_frame w)
  IsValid-new_frame w v =
      IsValid-more w (new_frame w) v ((Keeps-new_frame w).more_frames) (Same-new_frame w) (
        rw (new_frame_lem w, length_snoc w.frames [])
          (λ frame h. let before : frame < length w.frames = v.root_valid frame h in omega arith))

  -- What a root that is made for the first time leaves.
  new_root-Got :
      (w : World V O)
      → IsValid w
      → w.root_async_frame ≡ none
      → Got w (length w.frames) (record (new_frame w) { root_async_frame = some (length w.frames) })
  new_root-Got w v missing =
      let more : length ((new_frame w).frames) ≡ suc (length w.frames) = length-new_frame w in
      let n = Same-new_frame w in
      let same : Same w (record (new_frame w) { root_async_frame = some (length w.frames) }) =
        record {
          stack_same = n.stack_same;
          context_same = n.context_same;
          keys_same = n.keys_same;
          other_same = n.other_same;
        } in
      let inside : length w.frames < length ((new_frame w).frames) = omega arith in
      record {
        grows = record {
          more_frames = (Keeps-new_frame w).more_frames;
          dead_stays = (Keeps-new_frame w).dead_stays;
          root_stays = λ frame h. absurd (cc (sym missing ∙ h));
          content_stays = (Keeps-new_frame w).content_stays;
        };
        valid =
            IsValid-more w _ v ((Keeps-new_frame w).more_frames) same
              (λ frame h. let e : length w.frames ≡ frame = cc h in omega (arith, e));
        same = same;
        on_heap = inside;
      }

  pub root-Got :
      (w : World V O)
      → IsValid w
      → Got w ((get_root_async_context w).0) ((get_root_async_context w).1)
  unfolding get_root_async_context
  root-Got w v = cases w.root_async_frame refl
    where
      cases :
          (o : Option ℕ)
          → w.root_async_frame ≡ o
          → Got w ((root_or_new o w).0) ((root_or_new o w).1)
      cases none missing = new_root-Got w v missing
      cases (some frame) there = record {
        grows = Keeps-refl (length w.frames) w;
        valid = v;
        same = Same-refl w;
        on_heap = v.root_valid frame there;
      }

  pub current-Got : (w : World V O) → IsValid w → Got w ((current w).0) ((current w).1)
  unfolding current
  current-Got w v = cases w.async_context_stack refl
    where
      cases :
          (stack : List ℕ)
          → w.async_context_stack ≡ stack
          → Got w ((top_or_root stack w).0) ((top_or_root stack w).1)
      cases [] e = root-Got w v
      cases (frame ∷ stack) e = record {
        grows = Keeps-refl (length w.frames) w;
        valid = v;
        same = Same-refl w;
        on_heap =
            let h : All (λ f. f < length w.frames) (frame ∷ stack) = rw e at v.stack_valid in h.0;
      }

  root-content :
      (w : World V O) (key : ℕ)
      → content ((get_root_async_context w).0) ((get_root_async_context w).1) key
        ≡ root_content w.root_async_frame w key
  unfolding get_root_async_context
  root-content w key = cases w.root_async_frame
    where
      cases :
          (o : Option ℕ)
          → content ((root_or_new o w).0) ((root_or_new o w).1) key ≡ root_content o w key
      cases none = ap (find_value key) (storage-new_frame_self w) ∙ (unfold find_value in refl)
      cases (some frame) = refl

  -- The current frame has the values that are visible.
  pub current-view :
      (w : World V O) (key : ℕ) → content ((current w).0) ((current w).1) key ≡ view w key
  unfolding current
  current-view w key = cases w.async_context_stack
    where
      cases :
          (stack : List ℕ)
          → content ((top_or_root stack w).0) ((top_or_root stack w).1) key
            ≡ top_content stack w key
      cases [] = root-content w key
      cases (frame ∷ stack) = refl
