-- ===== src/Buffer/From/Laws.antt =====
-- `from` copies: the bytes of an array, of a buffer and of the object that `toJSON` makes of one.
use winterjs.Common.{
  ℕ, zero, suc, ◌+◌, ◌%◌, ◌<◌, ◌≤◌, ◌≡◌, refl, sym, ap, ap₂, ◌∙◌, arith, ltb, leb, ◌==◌, false,
  List, [], ◌∷◌, ◌++◌, length, length-set, length-replicate, take_all, drop, replicate, map, set,
  get_elem?, Option, some, append-nil,
}
use winterjs.Common.Int.{ℤ, pos, ltb_ℤ, ◌+ℤ◌}
use winterjs.Js.{ok, IsBytes}
use winterjs.Js.Int32.{wrap, wrap-lt}
use winterjs.Buffer.Window.{window, splice, splice-nil, splice-set}
use winterjs.Buffer.Copy.Laws.{copy-splice}
use winterjs.Buffer.Concat.{checked, create_buffer, k_max_length}
use winterjs.Buffer.Fill.{FillArg}
use winterjs.Buffer.From.{
  masked, copy_elements, from_array_like, uint8_view, from_array_buffer, uint8_array, typed_array,
  array_like, buffer_like, plain, json_data, to_json, copy_buffer, from_object, from,
}

-- The elements as bytes.
abbrev pub bytes_from : List ℤ → List ℕ
bytes_from items = map (wrap 256) items

length-bytes_from : (items : List ℤ) → length (bytes_from items) ≡ length items
length-bytes_from [] = refl
length-bytes_from (x ∷ items) = ap suc (length-bytes_from items)

copy_elements-splice :
    (items rest : List ℤ) (i : ℕ) (buf : List ℕ)
    → drop i items ≡ rest
    → i + length rest ≤ length buf
    → copy_elements items (length rest) i buf ≡ splice buf i (bytes_from rest)
unfolding copy_elements
copy_elements-splice items [] i buf at h = sym (splice-nil buf i)
copy_elements-splice items (x ∷ rest) i buf at h =
    let found : get_elem? items i ≡ some x = first_of items i x rest at in
    let small : wrap 256 x % 256 ≡ wrap 256 x = omega (arith, wrap-lt 256 x (omega arith)) in
    let stored : masked (get_elem? items i) % 256 ≡ wrap 256 x = rw found small in
    ap (λ v. copy_elements items (length rest) (i + 1) (set buf i v)) stored
    ∙ copy_elements-splice items rest (i + 1) (set buf i (wrap 256 x)) (rest_of items i x rest at)
        (omega (arith, length-set buf i (wrap 256 x)))
    ∙ splice-set buf i (wrap 256 x) (bytes_from rest) (omega (arith, length-bytes_from rest))
  where
    first_of :
        (items : List ℤ) (i : ℕ) (x : ℤ) (rest : List ℤ)
        → drop i items ≡ x ∷ rest
        → get_elem? items i ≡ some x
    first_of [] zero x rest at = absurd (cc at)
    first_of [] (suc i) x rest at = absurd (cc at)
    first_of (y ∷ items) zero x rest at = cc at
    first_of (y ∷ items) (suc i) x rest at = first_of items i x rest at

    rest_of :
        (items : List ℤ) (i : ℕ) (x : ℤ) (rest : List ℤ)
        → drop i items ≡ x ∷ rest
        → drop (i + 1) items ≡ rest
    rest_of [] zero x rest at = absurd (cc at)
    rest_of [] (suc i) x rest at = absurd (cc at)
    rest_of (y ∷ items) zero x rest at = cc at
    rest_of (y ∷ items) (suc i) x rest at =
        let e : suc i + 1 ≡ suc (i + 1) = omega arith in rw e (rest_of items i x rest at)

-- A buffer of zeros that is overwritten as a whole.
splice_all : (n : ℕ) (ds : List ℕ) → length ds ≡ n → splice (replicate n 0) 0 ds ≡ ds
splice_all n ds size = rw size (ap (ds ++◌) (drop_all n) ∙ append-nil ds)
  where
    drop_all : (n : ℕ) → Path (List ℕ) (drop n (replicate n 0)) []
    drop_all zero = refl
    drop_all (suc n) = drop_all n

checked_fits : (n : ℕ) → n < k_max_length → checked n ≡ ok n
unfolding checked
checked_fits n h = let fits : leb k_max_length n ≡ false = ground arith in rw fits refl

created_fits : (n : ℕ) → n < k_max_length → create_buffer n ≡ ok (replicate n 0)
unfolding create_buffer
created_fits n h = let fits : ltb k_max_length n ≡ false = ground arith in rw fits refl

from_array_like-bytes_from :
    (items : List ℤ)
    → length items < k_max_length
    → from_array_like (pos (length items)) items ≡ ok (bytes_from items)
unfolding from_array_like
from_array_like-bytes_from items h =
    rw (checked_fits (length items) h, created_fits (length items) h)
      (ap ok (
        copy_elements-splice items items 0 (replicate (length items) 0) refl
          (omega (arith, length-replicate {A = ℕ} (length items) 0))
        ∙ splice_all (length items) (bytes_from items) (length-bytes_from items)))

length-json_data : (buf : List ℕ) → length (json_data buf) ≡ length buf
length-json_data [] = refl
length-json_data (b ∷ buf) = ap suc (length-json_data buf)

bytes_from-json_data : (buf : List ℕ) → IsBytes buf → bytes_from (json_data buf) ≡ buf
bytes_from-json_data [] h = refl
bytes_from-json_data (b ∷ buf) (hb, h) = ap₂ ◌∷◌ (omega arith) (bytes_from-json_data buf h)

copied_all :
    (buf : List ℕ) (n : ℕ)
    → n ≡ length buf
    → splice (replicate (length buf) 0) 0 (window buf 0 n) ≡ buf
copied_all buf n e =
    ap (splice (replicate (length buf) 0) 0) (take_all n buf (omega arith))
    ∙ splice_all (length buf) buf refl

copy_buffer_all : (buf : List ℕ) → length buf < k_max_length → copy_buffer buf ≡ ok buf
unfolding copy_buffer
copy_buffer_all [] h = unfold checked create_buffer in refl
copy_buffer_all (b ∷ buf) h =
    let size : length (replicate {A = ℕ} (length (b ∷ buf)) 0) ≡ length (b ∷ buf) =
      length-replicate {A = ℕ} (length (b ∷ buf)) 0 in
    let some_left : (length (replicate {A = ℕ} (length (b ∷ buf)) 0) == 0) ≡ false = ground arith in
    rw
      (
        checked_fits (length (b ∷ buf)) h,
        created_fits (length (b ∷ buf)) h,
        some_left,
        copy-splice (b ∷ buf) (replicate (length (b ∷ buf)) 0) 0 0 (length (b ∷ buf))
            (omega (arith, size)) (omega arith) (omega arith),
      )
      (ap ok (copied_all (b ∷ buf) _ (omega (arith, size))))

module _ (lower : List ℕ → List ℕ) (second : FillArg) (len : Option ℤ) where
  -- From an array of integers, typed or not, `from` makes a buffer of their low bytes.
  pub from-bytes_from :
      (items : List ℤ)
      → length items < k_max_length
      → (from lower (typed_array items) second len ≡ ok (bytes_from items))
        × (from lower (plain (array_like (some (pos (length items))) items)) second len
            ≡ ok (bytes_from items))
  unfolding from from_object
  from-bytes_from items h = (from_array_like-bytes_from items h, from_array_like-bytes_from items h)

  -- From a buffer of less than `kMaxLength` bytes, from the object that `toJSON` makes of it and from an
  -- object that passes for one, `from` makes an equal buffer.
  pub from-to_json :
      (buf : List ℕ)
      → IsBytes buf
      → length buf < k_max_length
      → (from lower (uint8_array buf) second len ≡ ok buf)
        × (from lower (plain (to_json buf)) second len ≡ ok buf)
        × (from lower (plain (buffer_like buf)) second len ≡ ok buf)
  unfolding from from_object to_json from_array_buffer uint8_view
  from-to_json buf h small = (
    whole,
    from_array_like-bytes_from (json_data buf) (omega (arith, length-json_data buf))
        ∙ ap ok (bytes_from-json_data buf h),
    copy_buffer_all buf small,
  )
    where
      whole : from lower (uint8_array buf) second len ≡ ok buf
      whole =
          let first : ltb (length buf) 0 ≡ false = ground arith in
          let second : ltb_ℤ (pos (length buf)) (pos 0 +ℤ pos (length buf)) ≡ false =
            unfold ◌+ℤ◌ in ground arith in
          let third : ltb (length buf) (0 + length buf) ≡ false = ground arith in
          rw (first, second, third) (ap ok (take_all (length buf) buf (omega arith)))
