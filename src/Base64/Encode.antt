-- ===== src/Base64/Encode.antt =====
-- `encodeChunk` and `fromByteArray`: what the rounds add up to, and the characters they write.
use winterjs.Common.{◌^◌, ℕ, zero, suc, ◌+◌, ◌-◌, ◌*◌, ◌/◌, ◌%◌, ◌≤◌, ◌<◌, min, bit_and, arith}
use winterjs.Common.{◌≡◌, ◌≢◌, refl, List, [], ◌∷◌, ◌++◌}
use winterjs.Common.{append-nil, append_assoc, drop-drop, length, length-append, drop, All}
use winterjs.Common.Bits.{bit_and-mod}
use winterjs.Base64.{
  lookup, chunk_bits, triplet_to_base64, encode_chunk, encode_chunks, encode_tail,
}
use winterjs.Base64.{from_byte_array, max_chunk, index_of_pad}
use winterjs.Base64.Table.{lookup-ne-pad}
use native.Mathlib.Decide.{dec_le}
use Prim.Native.Nat.add

-- Rounds of `encodeChunk` can be split anywhere.
pub encode_chunk-add :
    (m n : ℕ) (xs : List ℕ)
    → encode_chunk (m + n) xs ≡ encode_chunk m xs ++ encode_chunk n (drop (3 * m) xs)
unfolding encode_chunk
encode_chunk-add zero n xs = rw add.zero
encode_chunk-add (suc m) n xs =
    rw (
      add.suc,
      encode_chunk-add m n (drop 3 xs),
      drop-drop 3 (3 * m) xs,
      append_assoc,
      mul_suc_left,
    )
  where
    mul_suc_left : 3 * suc m ≡ 3 + 3 * m
    mul_suc_left = omega arith

-- One call of `encodeChunk` for each part of the array, or one for the whole: with a part length
-- that is a multiple of 3 the text is the same.
encode_chunks-eq :
    (m rounds n : ℕ) (xs : List ℕ)
    → n ≤ rounds * m
    → encode_chunks (3 * m) rounds xs (3 * n) ≡ encode_chunk n xs
unfolding encode_chunks
encode_chunks-eq m zero zero xs h = unfold encode_chunk in refl
encode_chunks-eq m zero (suc n) xs h = absurd (omega arith)
encode_chunks-eq m (suc rounds) n xs h = elim (dec_le n m) [
  | yes below ↦
      rw
        (
          here_all below,
          nothing_left below,
          encode_chunks-eq m rounds 0 (drop (3 * m) xs) (omega arith),
        )
        (unfold encode_chunk in append-nil _)
  | no above ↦ rw (
    here_part above,
    rest_left above,
    encode_chunks-eq m rounds (n - m) (drop (3 * m) xs) (grind arith),
    ← encode_chunk-add m (n - m) xs,
    (let e : m + (n - m) ≡ n = omega arith in e),
  )
]
  where
    here_all : n ≤ m → (min (3 * m) (3 * n) + 2) / 3 ≡ n
    here_all k = omega arith

    here_part : ¬ (n ≤ m) → (min (3 * m) (3 * n) + 2) / 3 ≡ m
    here_part k = omega arith

    nothing_left : n ≤ m → 3 * n - 3 * m ≡ 3 * 0
    nothing_left k = omega arith

    rest_left : ¬ (n ≤ m) → 3 * n - 3 * m ≡ 3 * (n - m)
    rest_left k = omega arith

-- The text is the whole triplets in one run and then the padded rest, however long the parts are
-- that `fromByteArray` cuts the array into.
pub from_byte_array-eq :
    (xs : List ℕ)
    → from_byte_array xs
      ≡ encode_chunk (length xs / 3) xs
        ++ encode_tail (length xs % 3) (drop (3 * (length xs / 3)) xs)
unfolding from_byte_array
from_byte_array-eq xs = rw (
  (let e : length xs - length xs % 3 ≡ 3 * (length xs / 3) = omega arith in e),
  encode_chunks-eq 5461 ((3 * (length xs / 3) + (max_chunk - 1)) / max_chunk) (length xs / 3) xs
      (omega arith),
)

-- A triplet becomes four characters, none of them `=`.
abbrev pub NoPad : List ℕ → Type 0
NoPad = All (λ c. c ≢ b'=')

pub masked-ne-pad : (a : ℕ) → lookup (bit_and a 0x3f) ≢ b'='
masked-ne-pad a = lookup-ne-pad (bit_and a 0x3f) (omega (arith, bit_and-mod 6 a))

triplet_to_base64-NoPad : (t : ℕ) (rest : List ℕ) → NoPad rest → NoPad (triplet_to_base64 t ++ rest)
unfolding triplet_to_base64
triplet_to_base64-NoPad t rest h = (
  masked-ne-pad (t / 2 ^ 18),
  (masked-ne-pad (t / 2 ^ 12), (masked-ne-pad (t / 2 ^ 6), (masked-ne-pad t, h))),
)

pub encode_chunk-NoPad : (k : ℕ) (xs : List ℕ) → NoPad (encode_chunk k xs)
unfolding encode_chunk
encode_chunk-NoPad zero xs = tt
encode_chunk-NoPad (suc k) xs =
    triplet_to_base64-NoPad (chunk_bits xs) _ (encode_chunk-NoPad k (drop 3 xs))

pub length-encode_chunk : (k : ℕ) (xs : List ℕ) → length (encode_chunk k xs) ≡ 4 * k
unfolding encode_chunk triplet_to_base64
length-encode_chunk zero xs = refl
length-encode_chunk (suc k) xs = omega (arith, length-encode_chunk k (drop 3 xs))

pub length-encode_tail :
    (r : ℕ) (xs : List ℕ) → r < 3 → length (encode_tail r xs) ≡ 4 * ((r + 2) / 3)
unfolding encode_tail
length-encode_tail r xs h = ground arith

-- The text has four characters for every three bytes, the last three rounded up.
pub length-from_byte_array : (xs : List ℕ) → length (from_byte_array xs) ≡ 4 * ((length xs + 2) / 3)
length-from_byte_array xs =
    rw (from_byte_array-eq xs, length-append)
      (omega (
        arith,
        length-encode_chunk (length xs / 3) xs,
        length-encode_tail (length xs % 3) (drop (3 * (length xs / 3)) xs) (omega arith),
      ))

-- Where the first `=` stands behind a text without one.
pub index_of_pad-NoPad : (cs : List ℕ) → NoPad cs → index_of_pad cs ≡ length cs
unfolding index_of_pad
index_of_pad-NoPad [] h = refl
index_of_pad-NoPad (c ∷ cs) h = ground (arith, index_of_pad-NoPad cs h.1)

pub index_of_pad-append :
    (cs rest : List ℕ) → NoPad cs → index_of_pad (cs ++ b'=' ∷ rest) ≡ length cs
unfolding index_of_pad
index_of_pad-append [] rest h = refl
index_of_pad-append (c ∷ cs) rest h = ground (arith, index_of_pad-append cs rest h.1)
