-- ===== src/Buffer/Concat/Laws.antt =====
-- `Buffer.concat` against the concatenation of the lists.
use winterjs.Common.{ℕ, zero, suc, ◌+◌, ◌≤◌, ◌<◌, ◌≡◌, refl, sym, ap, ◌∙◌, ◌⊎◌, inl, inr, arith}
use winterjs.Common.{List, [], ◌∷◌, ◌++◌, length, take, take_all, length-append, none, some}
use winterjs.Common.Int.{pos}
use winterjs.Js.{ok}
use winterjs.Buffer.Window.{splice}
use winterjs.Buffer.Copy.{copy}
use winterjs.Buffer.Copy.Laws.{copied, copy_count, copy-splice, copy-beyond}
use winterjs.Buffer.Concat.{k_max_length, total_length, place, place_all, concat, alloc_unsafe}
use winterjs.Buffer.Concat.Overlay.{
  zeros, overlay, overlay-nil, overlay-overlay, overlay-beyond, splice-overlay, overlay-zeros,
}

-- The bytes of all buffers, one behind the other.
abbrev pub joined : List (List ℕ) → List ℕ
joined [] = []
joined (buf ∷ list) = buf ++ joined list

place-overlay : (buf buffer : List ℕ) (at : ℕ) → place buf at buffer ≡ ok (overlay buffer at buf)
unfolding place
place-overlay buf buffer at = elim cases [
  | inl fits ↦ ground (arith, whole fits)
  | inr (inl (at_end, over)) ↦ rw (copy-beyond buf buffer at at_end) (ground (arith, beyond at_end))
  | inr (inr (inside, over)) ↦ rw (part inside (omega arith)) (ground (arith, fitting inside))
]
  where
    cases :
        (at + length buf ≤ length buffer)
        ⊎ ((((length buffer ≤ at) ⊎ (length buf ≡ 0)) × (length buffer < at + length buf))
            ⊎ ((at < length buffer) × (length buffer < at + length buf)))
    cases = omega arith

    whole : at + length buf ≤ length buffer → splice buffer at buf ≡ overlay buffer at buf
    whole h =
        ap (splice buffer at) (sym (take_all (length buf) buf (omega arith)))
        ∙ splice-overlay buffer at (length buf) buf (omega arith) (omega arith)

    empty : (buf : List ℕ) → length buf ≡ 0 → buffer ≡ overlay buffer at buf
    empty [] h = sym (overlay-nil buffer at)
    empty (x ∷ buf) h = absurd (omega arith)

    beyond : (length buffer ≤ at) ⊎ (length buf ≡ 0) → buffer ≡ overlay buffer at buf
    beyond (inl h) = sym (overlay-beyond buffer at buf h)
    beyond (inr h) = empty buf h

    part :
        at < length buffer
        → 0 < length buf
        → copy buf buffer (some (pos at)) none none
          ≡ ok (copied buf buffer at 0 (copy_count buf buffer at 0 (length buf)))
    part h k = unfold copy in copy-splice buf buffer at 0 (length buf) h k (omega arith)

    fitting :
        at < length buffer
        → splice buffer at (take (copy_count buf buffer at 0 (length buf)) buf)
          ≡ overlay buffer at buf
    fitting h =
        splice-overlay buffer at (copy_count buf buffer at 0 (length buf)) buf (omega arith)
          (omega arith)

place_all-overlay :
    (list : List (List ℕ)) (at : ℕ) (buffer : List ℕ)
    → place_all list at buffer ≡ ok (overlay buffer at (joined list))
unfolding place_all
place_all-overlay [] at buffer = ap ok (sym (overlay-nil buffer at))
place_all-overlay (buf ∷ list) at buffer = rw (place-overlay buf buffer at) (
    place_all-overlay list (at + length buf) (overlay buffer at buf)
    ∙ ap ok (overlay-overlay buffer at buf (joined list)))

zeros_ok : (n : ℕ) → n < k_max_length → alloc_unsafe (pos n) ≡ ok (zeros n)
unfolding alloc_unsafe
zeros_ok n h = ground arith

-- `Buffer.concat` of a list that is not empty, with a length below the greatest one, gives the bytes
-- of its buffers one behind the other, cut to that length or filled up with zeros.
pub concat-take :
    (buf : List ℕ) (list : List (List ℕ)) (n : ℕ)
    → n < k_max_length
    → concat (buf ∷ list) (some (pos n)) ≡ ok (take n (joined (buf ∷ list) ++ zeros n))
unfolding concat
concat-take buf list n h = rw (zeros_ok n h) (
    place_all-overlay (buf ∷ list) 0 (zeros n)
    ∙ ap ok (overlay-zeros n n (joined (buf ∷ list)) (omega arith)))

length-joined : (list : List (List ℕ)) → length (joined list) ≡ total_length list
length-joined [] = refl
length-joined (buf ∷ list) = omega (arith, length-append buf (joined list), length-joined list)

take-append_exact : (n : ℕ) (xs ys : List ℕ) → length xs ≡ n → take n (xs ++ ys) ≡ xs
take-append_exact zero [] ys h = refl
take-append_exact zero (x ∷ xs) ys h = absurd (omega arith)
take-append_exact (suc n) [] ys h = absurd (omega arith)
take-append_exact (suc n) (x ∷ xs) ys h = ap (x ∷◌) (take-append_exact n xs ys (omega arith))

-- `Buffer.concat` without a length gives the bytes of the buffers one behind the other, when they are
-- fewer than the greatest length.
pub concat-joined :
    (list : List (List ℕ)) → total_length list < k_max_length → concat list none ≡ ok (joined list)
concat-joined [] h = unfold concat in refl
concat-joined (buf ∷ list) h =
    default
    ∙ concat-take buf list (total_length (buf ∷ list)) h
    ∙ ap ok (
        take-append_exact (total_length (buf ∷ list)) (joined (buf ∷ list))
          (zeros (total_length (buf ∷ list))) (length-joined (buf ∷ list)))
  where
    default :
        concat (buf ∷ list) none ≡ concat (buf ∷ list) (some (pos (total_length (buf ∷ list))))
    default = unfold concat in refl
