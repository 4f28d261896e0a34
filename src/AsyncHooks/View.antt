-- ===== src/AsyncHooks/View.antt =====
-- What the storages of the asynchronous context look like from outside, and how they may change.
use winterjs.Common.{ℕ, ◌≤◌, ◌<◌, ◌≡◌, true, false, List, [], ◌∷◌, length, Option, none, some, All}
use winterjs.AsyncHooks.{World, storage, is_dead, find_value}

module _ {V O : Type 0} where
  -- The value that a frame has for a key.
  abbrev pub content : ℕ → World V O → ℕ → Option V
  content frame w key = find_value key (storage frame w)

  abbrev pub root_content : Option ℕ → World V O → ℕ → Option V
  root_content none w key = none
  root_content (some root) w key = content root w key

  abbrev pub top_content : List ℕ → World V O → ℕ → Option V
  top_content [] w key = root_content w.root_async_frame w key
  top_content (frame ∷ stack) w key = content frame w key

  -- The value that running code sees for a key: a map from keys to values, without frames.
  abbrev pub view : World V O → ℕ → Option V
  view w key = top_content w.async_context_stack w key

  -- All frames that are named somewhere are on the heap.
  pub record IsValid (w : World V O) : Type 0 where
    pub stack_valid : All (λ frame. frame < length w.frames) w.async_context_stack
    pub root_valid : (frame : ℕ) → w.root_async_frame ≡ some frame → frame < length w.frames
    pub context_valid : (p frame : ℕ) → w.async_context p ≡ some frame → frame < length w.frames

  -- A later world: no frame is taken from the heap, keys stay dead, the root stays, and the frames
  -- below a bound keep their values for all keys that are alive.
  pub record Keeps (bound : ℕ) (w u : World V O) : Type 0 where
    pub more_frames : length w.frames ≤ length u.frames
    pub dead_stays : (key : ℕ) → is_dead w key ≡ true → is_dead u key ≡ true
    pub root_stays : (frame : ℕ) → w.root_async_frame ≡ some frame → u.root_async_frame ≡ some frame
    pub content_stays :
        (frame key : ℕ)
        → frame < bound
        → is_dead u key ≡ false
        → content frame u key ≡ content frame w key

  -- All frames that are on the heap keep their values.
  abbrev pub Grows : World V O → World V O → Type 0
  Grows w u = Keeps (length w.frames) w u
