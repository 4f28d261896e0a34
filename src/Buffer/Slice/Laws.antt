-- ===== src/Buffer/Slice/Laws.antt =====
-- The bounds of a view, and views of views.
use winterjs.Common.{ltb, if◌then◌else◌}
use winterjs.Common.{ℕ, ◌+◌, ◌-◌, ◌^◌, ◌<◌, ◌≤◌, ◌≡◌, refl, ap, sym, ◌∙◌, arith, min}
use winterjs.Common.{
  List, [], ◌∷◌, zero, suc, length, take, take_all, drop, drop-drop, Option, none, some,
}
use winterjs.Common.Int.{ℤ, pos, negsuc}
use winterjs.Buffer.Window.{window, length-window}
use winterjs.Buffer.Slice.{to_int32, slice_index, slice_end, slice_bounds, slice}

slice_index-le : (len : ℕ) (i : ℤ) → slice_index len i ≤ len
unfolding slice_index
slice_index-le len (pos i) = ground arith
slice_index-le len (negsuc i) = omega arith

slice_end-le : (len : ℕ) (end : Option ℤ) → slice_end len end ≤ len
unfolding slice_end
slice_end-le len none = omega arith
slice_end-le len (some end) = slice_index-le len (to_int32 end)

-- Whatever the arguments, the bounds of a view are in order and inside the buffer.
pub slice_bounds-le :
    (len : ℕ) (start : ℤ) (end : Option ℤ)
    → ((slice_bounds len start end).0 ≤ (slice_bounds len start end).1)
      × ((slice_bounds len start end).1 ≤ len)
unfolding slice_bounds
slice_bounds-le len start end =
    order (slice_index len (to_int32 start)) (slice_end len end)
      (slice_index-le len (to_int32 start)) (slice_end-le len end)
  where
    order :
        (s e : ℕ)
        → s ≤ len
        → e ≤ len
        → (s ≤ (if ltb e s then s else e)) × ((if ltb e s then s else e) ≤ len)
    order s e hs he = ground arith

take-take {ℓ} : {A : Type ℓ} (m n : ℕ) (xs : List A) → m ≤ n → take m (take n xs) ≡ take m xs
take-take zero n xs h = refl
take-take (suc m) zero xs h = absurd (omega arith)
take-take (suc m) (suc n) [] h = refl
take-take (suc m) (suc n) (x ∷ xs) h = ap (x ∷◌) (take-take m n xs (omega arith))

take-nil {ℓ} : {A : Type ℓ} (k : ℕ) → Path (List A) [] (take k [])
take-nil zero = refl
take-nil (suc k) = refl

pub drop-take {ℓ} :
    {A : Type ℓ} (m n : ℕ) (xs : List A) → drop m (take n xs) ≡ take (n - m) (drop m xs)
drop-take zero n xs = let e : n ≡ n - 0 = omega arith in ap (λ k. take k xs) e
drop-take (suc m) zero [] = take-nil (0 - suc m)
drop-take (suc m) zero (x ∷ xs) =
    let e : 0 ≡ 0 - suc m = omega arith in ap (λ k. take k (drop m xs)) e
drop-take (suc m) (suc n) [] = take-nil (suc n - suc m)
drop-take (suc m) (suc n) (x ∷ xs) =
    drop-take m n xs
    ∙ (let e : n - m ≡ suc n - suc m = omega arith in ap (λ k. take k (drop m xs)) e)

pub window-window :
    (buf : List ℕ) (o n p m : ℕ) → p + m ≤ n → window (window buf o n) p m ≡ window buf (o + p) m
window-window buf o n p m h =
    ap (take m) (drop-take p n (drop o buf))
    ∙ take-take m (n - p) (drop p (drop o buf)) (omega arith)
    ∙ ap (take m) (drop-drop o p buf)

slice_index-of : (len i : ℕ) → i ≤ len → i < 2 ^ 31 → slice_index len (to_int32 (pos i)) ≡ i
unfolding slice_index
slice_index-of len i h small = ground arith

slice_bounds-of :
    (len start end : ℕ)
    → start ≤ end
    → end ≤ len
    → end < 2 ^ 31
    → slice_bounds len (pos start) (some (pos end)) ≡ (start, end)
unfolding slice_bounds slice_end
slice_bounds-of len start end h k small =
    rw (slice_index-of len start (omega arith) (omega arith), slice_index-of len end k small)
      (in_order start end h)
  where
    in_order : (s e : ℕ) → s ≤ e → Path (ℕ × ℕ) (s, if ltb e s then s else e) (s, e)
    in_order s e h = ground arith

-- With indices inside the buffer and below 2 ^ 31, a view is the bytes from `start` to `end`.
pub slice-window :
    (buf : List ℕ) (start end : ℕ)
    → start ≤ end
    → end ≤ length buf
    → end < 2 ^ 31
    → slice buf (pos start) (some (pos end)) ≡ window buf start (end - start)
unfolding slice
slice-window buf start end h k small =
    ap (λ b. window buf b.0 (b.1 - b.0)) (slice_bounds-of (length buf) start end h k small)

-- With indices in order, inside the buffer and the view, and below 2 ^ 31, a view of a view is a view
-- of the buffer: the indices add up.
pub slice-slice :
    (buf : List ℕ) (start end first last : ℕ)
    → start ≤ end
    → end ≤ length buf
    → end < 2 ^ 31
    → first ≤ last
    → last ≤ end - start
    → slice (slice buf (pos start) (some (pos end))) (pos first) (some (pos last))
      ≡ slice buf (pos (start + first)) (some (pos (start + last)))
slice-slice buf start end first last h k small h' k' =
    rw
      (
        slice-window buf start end h k small,
        slice-window (window buf start (end - start)) first last h'
            (omega (arith, length-window buf start (end - start) (omega arith))) (omega arith),
        slice-window buf (start + first) (start + last) (omega arith) (omega arith) (omega arith),
        window-window buf start (end - start) first (last - first) (omega arith),
      )
      same
  where
    same :
        window buf (start + first) (last - first)
        ≡ window buf (start + first) (start + last - (start + first))
    same = ap (window buf (start + first)) (omega arith)

-- The place that an index means in a buffer of `len` bytes: from the end where it is negative, and
-- no place outside of the buffer.
abbrev pub place : ℕ → ℤ → ℕ
place len (pos i) = min i len
place len (negsuc i) = len - suc i

slice_index-place : (len : ℕ) (z : ℤ) → to_int32 z ≡ z → slice_index len (to_int32 z) ≡ place len z
unfolding slice_index
slice_index-place len (pos i) h = rw h (ground arith)
slice_index-place len (negsuc i) h = rw h (omega arith)

-- With indices of 32 bits, whatever their signs and their order, `slice` is the bytes before the place
-- of the end without those before the place of the start; a missing end is that of the buffer.
pub slice-drop-take :
    (buf : List ℕ) (start end : ℤ)
    → to_int32 start ≡ start
    → to_int32 end ≡ end
    → (slice buf start (some end)
        ≡ drop (place (length buf) start) (take (place (length buf) end) buf))
      × (slice buf start none ≡ drop (place (length buf) start) buf)
unfolding slice slice_bounds slice_end
slice-drop-take buf start end hs he =
    rw (slice_index-place (length buf) start hs, slice_index-place (length buf) end he)
      (
        cut (place (length buf) start) (place (length buf) end),
        cut (place (length buf) start) (length buf)
            ∙ ap (drop (place (length buf) start)) (take_all (length buf) buf (omega arith)),
      )
  where
    cut : (s e : ℕ) → window buf s ((if ltb e s then s else e) - s) ≡ drop s (take e buf)
    cut s e =
        let same : (if ltb e s then s else e) - s ≡ e - s = ground arith in
        ap (λ n. take n (drop s buf)) same ∙ sym (drop-take s e buf)
