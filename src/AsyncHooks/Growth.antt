-- ===== src/AsyncHooks/Growth.antt =====
-- Which operations on frames only let the world grow.
use winterjs.Common.{
  ℕ, ◌≤◌, ◌≡◌, refl, sym, ap, ◌∙◌, inl, inr, arith, Bool, true, false, if◌then◌else◌, List, [], ◌∷◌,
  ◌++◌, length, length-set, set_beyond, length_snoc, Option, none, some, Bool-cases, dec_lt,
  ℕ_discrete,
}
use winterjs.AsyncHooks.{
  StorageEntry, World, storage, set_storage, new_frame, is_dead, filter_live, find_value, put_entry,
  put_maybe, propagate,
}
use winterjs.AsyncHooks.View.{content, Keeps, Grows}
use winterjs.AsyncHooks.Storage.{
  find_value-filter_live, storage-set_storage, storage-set_storage_ne, storage-new_frame,
}

module _ {V O : Type 0} where
  pub Keeps-refl : (bound : ℕ) (w : World V O) → Keeps bound w w
  Keeps-refl bound w = record {
    more_frames = omega arith;
    dead_stays = λ key h. h;
    root_stays = λ frame h. h;
    content_stays = λ frame key h a. refl;
  }

  -- A key that is alive later was alive before.
  pub live_before :
      {bound : ℕ} {w u : World V O}
      → Keeps bound w u
      → (key : ℕ) → is_dead u key ≡ false
      → is_dead w key ≡ false
  live_before {w} k key h = elim (Bool-cases (is_dead w key)) [
    | inl dead ↦ absurd (cc (sym (k.dead_stays key dead) ∙ h))
    | inr live ↦ live
  ]

  pub Keeps-trans : {m n : ℕ} {w u v : World V O} → m ≤ n → Keeps m w u → Keeps n u v → Keeps m w v
  Keeps-trans {w} {u} {v} le k l =
      let k1 : length w.frames ≤ length u.frames = k.more_frames in
      let l1 : length u.frames ≤ length v.frames = l.more_frames in
      record {
        more_frames = omega arith;
        dead_stays = λ key h. l.dead_stays key (k.dead_stays key h);
        root_stays = λ frame h. l.root_stays frame (k.root_stays frame h);
        content_stays = λ frame key h live.
            l.content_stays frame key (omega arith) live
            ∙ k.content_stays frame key h (live_before l key live);
      }

  pub Grows-trans : {w u v : World V O} → Grows w u → Grows u v → Grows w v
  Grows-trans k l = Keeps-trans k.more_frames k l

  -- Filtering a frame changes no value of a key that is alive, of that frame or of another.
  content-filter_live :
      (frame f : ℕ) (w : World V O) (key : ℕ)
      → is_dead w key ≡ false
      → content f (set_storage frame (filter_live w (storage frame w)) w) key ≡ content f w key
  content-filter_live frame f w key live =
      let entries = filter_live w (storage frame w) in
      elim (ℕ_discrete frame f) [
        | no other ↦ ap (find_value key) (storage-set_storage_ne frame f entries w other)
        | yes same ↦ elim (dec_lt frame (length w.frames)) [
          | yes inside ↦
              ap (λ i. content i (set_storage frame entries w) key) (sym same)
              ∙ ap (find_value key) (storage-set_storage frame entries w inside)
              ∙ find_value-filter_live w key (storage frame w) live
              ∙ ap (λ i. content i w key) same
          | no outside ↦
              ap (λ fs. content f (record w { frames = fs }) key)
                (set_beyond w.frames frame entries (omega arith))
        ]
      ]

  -- Dead entries go from a frame.
  pub Keeps-filter_live :
      (bound frame : ℕ) (w : World V O)
      → Keeps bound w (set_storage frame (filter_live w (storage frame w)) w)
  Keeps-filter_live bound frame w = record {
    more_frames = rw (length-set w.frames frame (filter_live w (storage frame w))) (omega arith);
    dead_stays = λ key h. h;
    root_stays = λ frame h. h;
    content_stays = λ f key h live. content-filter_live frame f w key live;
  }

  -- The first frame beyond the bound is written.
  pub Keeps-set_storage :
      (frame : ℕ) (entries : List (StorageEntry V)) (w : World V O)
      → Keeps frame w (set_storage frame entries w)
  Keeps-set_storage frame entries w = record {
    more_frames = rw (length-set w.frames frame entries) (omega arith);
    dead_stays = λ key h. h;
    root_stays = λ frame h. h;
    content_stays = λ f key h live.
        ap (find_value key) (storage-set_storage_ne frame f entries w (λ e. absurd (omega arith)));
  }

  pub new_frame_lem :
      (w : World V O)
      → new_frame w ≡ record w { promise_hooks_set = true; frames = w.frames ++ [] ∷ [] }
  new_frame_lem w = step w.promise_hooks_set refl
    where
      step :
          (b : Bool)
          → b ≡ w.promise_hooks_set
          → (if b
              then record w { frames = w.frames ++ [] ∷ [] }
              else record w { promise_hooks_set = true; frames = w.frames ++ [] ∷ [] })
            ≡ record w { promise_hooks_set = true; frames = w.frames ++ [] ∷ [] }
      step true e =
          ap (λ b. record w { promise_hooks_set = b; frames = w.frames ++ [] ∷ [] }) (sym e)
      step false e = refl

  pub Keeps-new_frame : (w : World V O) → Grows w (new_frame w)
  Keeps-new_frame w = record {
    more_frames = rw (new_frame_lem w, length_snoc w.frames []) (omega arith);
    dead_stays = λ key h. rw (new_frame_lem w) h;
    root_stays = λ frame h. rw (new_frame_lem w) h;
    content_stays = λ f key h live. ap (find_value key) (storage-new_frame f w h);
  }

  -- The frame that `propagate` fills is the first beyond the bound.
  pub Keeps-propagate :
      (this : ℕ) (entry : Option (StorageEntry V)) (parent : ℕ) (w : World V O)
      → Keeps this w (propagate this entry parent w)
  unfolding propagate
  Keeps-propagate this entry parent w = after entry
    where
      w1 : World V O
      w1 = set_storage parent (filter_live w (storage parent w)) w

      w2 : World V O
      w2 = set_storage this (storage this w1 ++ storage parent w1) w1

      filled : Keeps this w w2
      filled =
          Keeps-trans (omega arith) (Keeps-filter_live this parent w) (Keeps-set_storage this _ w1)

      after : (o : Option (StorageEntry V)) → Keeps this w (put_maybe this o w2)
      after none = filled
      after (some e) =
          Keeps-trans (omega arith) filled
            (Keeps-set_storage this (put_entry e (storage this w2)) w2)
