-- ===== src/AsyncHooks/Storage.antt =====
-- The lists of entries, and reading and writing the storage of a frame.
use winterjs.Common.{
  ℕ, ◌<◌, ◌≡◌, ◌≢◌, refl, ap, ◌∙◌, inl, inr, arith, false, ◌==◌, if◌then◌else◌, List, [], ◌∷◌,
  length, get_elem?-append_left, get_elem?_front, get_elem?-set_self, get_elem?-set_ne, none, some,
  Bool-cases,
}
use winterjs.AsyncHooks.{
  StorageEntry, World, storage, set_storage, new_frame, is_dead, filter_live, put_entry, find_value,
}

pub find_value-put_entry :
    {V : Type 0} (key : ℕ) (e : StorageEntry V) (entries : List (StorageEntry V))
    → find_value key (put_entry e entries)
      ≡ (if e.key == key then e.value else find_value key entries)
unfolding find_value put_entry
find_value-put_entry key e [] = refl
find_value-put_entry key e (x ∷ entries) = ground (arith, find_value-put_entry key e entries)

module _ {V O : Type 0} where
  pub find_value-filter_live :
      (w : World V O) (key : ℕ) (entries : List (StorageEntry V))
      → is_dead w key ≡ false
      → find_value key (filter_live w entries) ≡ find_value key entries
  unfolding find_value filter_live
  find_value-filter_live w key [] h = refl
  find_value-filter_live w key (e ∷ entries) h =
      let ih = find_value-filter_live w key entries h in
      elim (Bool-cases (e.key == key)) [
        | inl same ↦
            let k : e.key ≡ key = ground arith in
            let live : is_dead w e.key ≡ false = ap (is_dead w) k ∙ h in rw (live, same) refl
        | inr other ↦ elim (Bool-cases (is_dead w e.key)) [
          | inl dead ↦ rw (dead, other) ih
          | inr live ↦ rw (live, other) ih
        ]
      ]

  pub storage-set_storage :
      (frame : ℕ) (entries : List (StorageEntry V)) (w : World V O)
      → frame < length w.frames
      → storage frame (set_storage frame entries w) ≡ entries
  storage-set_storage frame entries w h =
      rw (get_elem?-set_self w.frames frame entries h, storage) refl

  pub storage-set_storage_ne :
      (frame other : ℕ) (entries : List (StorageEntry V)) (w : World V O)
      → frame ≢ other
      → storage other (set_storage frame entries w) ≡ storage other w
  storage-set_storage_ne frame other entries w h =
      ap (λ o. elim o [ none ↦ [] | some es ↦ es ])
        (get_elem?-set_ne w.frames frame other entries h)

  -- A new frame is empty, and does not touch those on the heap.
  pub storage-new_frame :
      (frame : ℕ) (w : World V O)
      → frame < length w.frames
      → storage frame (new_frame w) ≡ storage frame w
  storage-new_frame frame w h = elim (Bool-cases w.promise_hooks_set) [
    | inl done ↦ rw (done, get_elem?-append_left w.frames ([] ∷ []) frame h, storage) refl
    | inr first ↦ rw (first, get_elem?-append_left w.frames ([] ∷ []) frame h, storage) refl
  ]

  pub storage-new_frame_self : (w : World V O) → storage (length w.frames) (new_frame w) ≡ []
  storage-new_frame_self w = elim (Bool-cases w.promise_hooks_set) [
    | inl done ↦ rw (done, get_elem?_front w.frames [] [], storage) refl
    | inr first ↦ rw (first, get_elem?_front w.frames [] [], storage) refl
  ]
