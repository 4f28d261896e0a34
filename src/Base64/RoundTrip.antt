-- ===== src/Base64/RoundTrip.antt =====
-- `toByteArray` reads back what `fromByteArray` wrote.
use winterjs.Common.{ℕ, ◌+◌, ◌-◌, ◌*◌, ◌/◌, ◌%◌, ◌^◌, ◌≤◌, bit_and, arith}
use winterjs.Common.{
  ◌≡◌, refl, ap, ◌∙◌, List, [], ◌∷◌, ◌++◌, append-nil, append_assoc, ltb, if◌then◌else◌,
}
use winterjs.Common.{
  length, length-append, take, drop, length-drop, length-take, replicate, replicate-add, All-append,
  All-drop, take-append-drop,
}
use winterjs.Js.{IsByte, IsBytes, ok}
use winterjs.Base64.{lookup, encode_chunk, encode_tail, get_lens, decode_loop, decode_tail}
use winterjs.Base64.{to_byte_array, from_byte_array}
use winterjs.Base64.Table.{lookup-ne-pad}
use winterjs.Base64.Encode.{
  NoPad, encode_chunk-NoPad, length-encode_chunk, from_byte_array-eq, masked-ne-pad,
  index_of_pad-NoPad, index_of_pad-append,
}
use winterjs.Base64.Decode.{
  decode_loop-encode_chunk, decode_tail-one, decode_tail-two, to_byte_array-lens,
}

pub get_lens-NoPad : (cs : List ℕ) → NoPad cs → length cs % 4 ≡ 0 → get_lens cs ≡ ok (length cs, 0)
unfolding get_lens
get_lens-NoPad cs h e = rw (index_of_pad-NoPad cs h) (ground arith)

pub get_lens-pad :
    (cs rest : List ℕ)
    → NoPad cs
    → length (cs ++ b'=' ∷ rest) % 4 ≡ 0
    → get_lens (cs ++ b'=' ∷ rest) ≡ ok (length cs, 4 - length cs % 4)
unfolding get_lens
get_lens-pad cs rest h e =
    rw (index_of_pad-append cs rest h) (ground (arith, length-append cs (b'=' ∷ rest)))

-- The padding of one byte and of two bytes: two or three characters, then `=`.
encode_tail-one :
    (x : ℕ)
    → IsByte x
    → (cs : List ℕ) × (encode_tail 1 (x ∷ []) ≡ cs ++ b'=' ∷ b'=' ∷ []) × NoPad cs × (length cs ≡ 2)
unfolding encode_tail
encode_tail-one x h = (
  lookup (x / 2 ^ 2) ∷ lookup (bit_and (x * 2 ^ 4) 0x3f) ∷ [],
  refl,
  (lookup-ne-pad (x / 2 ^ 2) (omega arith), (masked-ne-pad (x * 2 ^ 4), tt)),
  refl,
)

encode_tail-two :
    (x y : ℕ)
    → IsByte x
    → IsByte y
    → (cs : List ℕ) × (encode_tail 2 (x ∷ y ∷ []) ≡ cs ++ b'=' ∷ []) × NoPad cs × (length cs ≡ 3)
unfolding encode_tail
encode_tail-two x y hx hy = (
  lookup ((x * 2 ^ 8 + y) / 2 ^ 10)
      ∷ lookup (bit_and ((x * 2 ^ 8 + y) / 2 ^ 4) 0x3f)
      ∷ lookup (bit_and ((x * 2 ^ 8 + y) * 2 ^ 2) 0x3f)
      ∷ [],
  refl,
  (
    lookup-ne-pad ((x * 2 ^ 8 + y) / 2 ^ 10) (omega arith),
    (masked-ne-pad ((x * 2 ^ 8 + y) / 2 ^ 4), (masked-ne-pad ((x * 2 ^ 8 + y) * 2 ^ 2), tt)),
  ),
  refl,
)

-- The decoder on whole triplets and a padded rest.
module _ (k : ℕ) (xs : List ℕ) (bytes : IsBytes xs) (enough : 3 * k ≤ length xs) where
  length_front : length (take (3 * k) xs) ≡ 3 * k
  length_front = omega (arith, length-take (3 * k) xs)

  -- The loop leaves the padded rest, and as many zeros as bytes are missing.
  loop_ends :
      (rest : List ℕ) (n : ℕ)
      → decode_loop k (encode_chunk k xs ++ rest) 0 (replicate (3 * k + n) 0)
        ≡ (rest, length (take (3 * k) xs), take (3 * k) xs ++ replicate n 0)
  loop_ends rest n =
      rw (replicate-add {A = ℕ} (3 * k) n 0, length_front)
        (decode_loop-encode_chunk k xs rest [] (replicate n 0) bytes enough
          ∙ ap (λ m. (rest, m, take (3 * k) xs ++ replicate n 0))
              (let e : 0 + 3 * k ≡ 3 * k = omega arith in e))

  decodes :
      (rest out : List ℕ) (v p n : ℕ)
      → get_lens (encode_chunk k xs ++ rest) ≡ ok (v, p)
      → p ≤ (v + p) * 3 / 4
      → (v + p) * 3 / 4 - p ≡ 3 * k + n
      → ((if ltb 0 p then v - 4 else v) + 3) / 4 ≡ k
      → decode_tail p (rest, length (take (3 * k) xs), take (3 * k) xs ++ replicate n 0) ≡ out
      → to_byte_array (encode_chunk k xs ++ rest) ≡ ok out
  decodes rest out v p n lens below size rounds tail =
      to_byte_array-lens (encode_chunk k xs ++ rest) v p lens below
      ∙ rw (size, rounds, loop_ends rest n, tail)

  whole_lens : get_lens (encode_chunk k xs ++ []) ≡ ok (4 * k, 0)
  whole_lens = rw append-nil (
      get_lens-NoPad (encode_chunk k xs) (encode_chunk-NoPad k xs)
        (omega (arith, length-encode_chunk k xs))
      ∙ ap (λ n. ok (n, 0)) (length-encode_chunk k xs))

  tail_lens :
      (cs rest : List ℕ) (c : ℕ) {tail : List ℕ}
      → tail ≡ cs ++ b'=' ∷ rest
      → NoPad cs
      → length cs ≡ c
      → (4 * k + c + 1 + length rest) % 4 ≡ 0
      → get_lens (encode_chunk k xs ++ tail) ≡ ok (4 * k + c, 4 - (4 * k + c) % 4)
  tail_lens cs rest c split clean count e =
      rw (split, ← append_assoc (encode_chunk k xs) cs (b'=' ∷ rest))
        (get_lens-pad (encode_chunk k xs ++ cs) rest
            (All-append _ (encode_chunk k xs) cs (encode_chunk-NoPad k xs) clean)
            (omega (arith, length-append (encode_chunk k xs ++ cs) (b'=' ∷ rest), whole))
          ∙ ap (λ n. ok (n, 4 - n % 4)) whole)
    where
      whole : length (encode_chunk k xs ++ cs) ≡ 4 * k + c
      whole = omega (arith, length-append (encode_chunk k xs) cs, length-encode_chunk k xs)

  decodes_none : to_byte_array (encode_chunk k xs ++ []) ≡ ok (take (3 * k) xs ++ [])
  decodes_none =
      decodes [] (take (3 * k) xs ++ []) (4 * k) 0 0 whole_lens (omega arith) (omega arith)
        (ground arith) (unfold decode_tail in refl)

  decodes_one :
      (x : ℕ)
      → IsByte x
      → to_byte_array (encode_chunk k xs ++ encode_tail 1 (x ∷ [])) ≡ ok (take (3 * k) xs ++ x ∷ [])
  decodes_one x h =
      let (cs, split, clean, two) = encode_tail-one x h in
      decodes (encode_tail 1 (x ∷ [])) (take (3 * k) xs ++ x ∷ []) (4 * k + 2) 2 1
        (tail_lens cs (b'=' ∷ []) 2 split clean two (omega arith)
          ∙ ap (λ p. ok (4 * k + 2, p)) (omega arith))
        (omega arith) (omega arith) (ground arith) (decode_tail-one (take (3 * k) xs) x h)

  decodes_two :
      (x y : ℕ)
      → IsByte x
      → IsByte y
      → to_byte_array (encode_chunk k xs ++ encode_tail 2 (x ∷ y ∷ []))
        ≡ ok (take (3 * k) xs ++ x ∷ y ∷ [])
  decodes_two x y hx hy =
      let (cs, split, clean, three) = encode_tail-two x y hx hy in
      decodes (encode_tail 2 (x ∷ y ∷ [])) (take (3 * k) xs ++ x ∷ y ∷ []) (4 * k + 3) 1 2
        (tail_lens cs [] 3 split clean three (omega arith)
          ∙ ap (λ p. ok (4 * k + 3, p)) (omega arith))
        (omega arith) (omega arith) (ground arith) (decode_tail-two (take (3 * k) xs) x y hx hy)

-- `tl` is what the whole triplets of `xs` leave.
decodes_any :
    (xs tl : List ℕ)
    → IsBytes xs
    → IsBytes tl
    → length tl ≡ length xs % 3
    → to_byte_array (encode_chunk (length xs / 3) xs ++ encode_tail (length tl) tl)
      ≡ ok (take (3 * (length xs / 3)) xs ++ tl)
decodes_any xs [] h b e = unfold encode_tail in decodes_none (length xs / 3) xs h (omega arith)
decodes_any xs (x ∷ []) h (hx, _) e = decodes_one (length xs / 3) xs h (omega arith) x hx
decodes_any xs (x ∷ y ∷ []) h (hx, (hy, _)) e =
    decodes_two (length xs / 3) xs h (omega arith) x y hx hy
decodes_any xs (x ∷ y ∷ z ∷ tl) h b e = absurd (omega arith)

-- Decoding the base64 text of an array of bytes gives the array back, at every length.
pub to_byte_array-from_byte_array :
    (xs : List ℕ) → IsBytes xs → to_byte_array (from_byte_array xs) ≡ ok xs
to_byte_array-from_byte_array xs h =
    rw (from_byte_array-eq xs, ← rest_length)
      (decodes_any xs rest h (All-drop _ (3 * (length xs / 3)) xs h) rest_length
        ∙ ap ok (take-append-drop (3 * (length xs / 3)) xs))
  where
    rest : List ℕ
    rest = drop (3 * (length xs / 3)) xs

    rest_length : length (drop (3 * (length xs / 3)) xs) ≡ length xs % 3
    rest_length = omega (arith, length-drop (3 * (length xs / 3)) xs)
