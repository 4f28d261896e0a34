-- ===== src/Base64/Decode.antt =====
-- `toByteArray` on what `encodeChunk` and the padding code write.
use Prim.Native.Nat.add
use winterjs.Common.{
  if◌then◌else◌, ltb, ℕ, zero, suc, ◌+◌, ◌-◌, ◌*◌, ◌/◌, ◌%◌, ◌^◌, ◌≤◌, ◌<◌, bit_and, bit_or, arith,
}
use winterjs.Common.{◌≡◌, refl, ap, ◌∙◌, List, [], ◌∷◌, ◌++◌, append_assoc}
use winterjs.Common.{length, length-append, take, set, replicate}
use winterjs.Common.Bits.{agree_below, agree_below-eq, bit_and-mod, bit_or-add}
use winterjs.Js.{IsByte, IsBytes, store, ok}
use winterjs.Base64.{
  get_lens, chunk_bits, lookup, sextet, quantum, triplet_to_base64, encode_chunk, encode_tail,
}
use winterjs.Base64.{decode_loop, decode_tail, to_byte_array}
use winterjs.Base64.Table.{quantum-lookup, sextet-lookup, sextet-suc}

-- The masks of `encodeChunk` keep a shifted byte whole.
mask_high : (a : ℕ) → a < 256 → bit_and (a * 2 ^ 16) 0xff0000 ≡ a * 65536
unfolding agree_below
mask_high a h = agree_below-eq (λ a. bit_and (a * 2 ^ 16) 0xff0000) (λ a. a * 65536) 256 a refl h

mask_middle : (a : ℕ) → a < 256 → bit_and (a * 2 ^ 8) 0xff00 ≡ a * 256
unfolding agree_below
mask_middle a h = agree_below-eq (λ a. bit_and (a * 2 ^ 8) 0xff00) (λ a. a * 256) 256 a refl h

quantum-triplet : (t : ℕ) (rest : List ℕ) → t < 2 ^ 24 → quantum (triplet_to_base64 t ++ rest) ≡ t
unfolding triplet_to_base64
quantum-triplet t rest h = omega (
  arith,
  bit_and-mod 6 (t / 2 ^ 18),
  bit_and-mod 6 (t / 2 ^ 12),
  bit_and-mod 6 (t / 2 ^ 6),
  bit_and-mod 6 t,
  quantum-lookup (bit_and (t / 2 ^ 18) 0x3f) (bit_and (t / 2 ^ 12) 0x3f) (bit_and (t / 2 ^ 6) 0x3f)
      (bit_and t 0x3f) rest (omega (arith, bit_and-mod 6 (t / 2 ^ 18)))
      (omega (arith, bit_and-mod 6 (t / 2 ^ 12))) (omega (arith, bit_and-mod 6 (t / 2 ^ 6)))
      (omega (arith, bit_and-mod 6 t)),
)

set_three :
    (front zs : List ℕ) (x y z a b c : ℕ)
    → set
        (set (set (front ++ x ∷ y ∷ z ∷ zs) (length front) a) (length front + 1) b)
        (length front + 2)
        c
      ≡ front ++ a ∷ b ∷ c ∷ zs
set_three [] zs x y z a b c = refl
set_three (w ∷ front) zs x y z a b c =
    rw (add.suc, add.suc) (ap (w ∷◌) (set_three front zs x y z a b c))

set_one : (front : List ℕ) (x a : ℕ) → set (front ++ x ∷ []) (length front) a ≡ front ++ a ∷ []
set_one [] x a = refl
set_one (w ∷ front) x a = ap (w ∷◌) (set_one front x a)

set_two :
    (front : List ℕ) (x y a b : ℕ)
    → set (set (front ++ x ∷ y ∷ []) (length front) a) (length front + 1) b ≡ front ++ a ∷ b ∷ []
set_two [] x y a b = refl
set_two (w ∷ front) x y a b = rw add.suc (ap (w ∷◌) (set_two front x y a b))

-- One round of the decoder on the four characters of a triplet.
decode_loop-triplet :
    (k t : ℕ) (rest front : List ℕ) (x y z : ℕ) (zs : List ℕ)
    → t < 2 ^ 24
    → decode_loop (suc k) (triplet_to_base64 t ++ rest) (length front) (front ++ x ∷ y ∷ z ∷ zs)
      ≡ decode_loop k rest
          (length front + 3)
          (front ++ (t / 65536) ∷ (t / 256 % 256) ∷ (t % 256) ∷ zs)
decode_loop-triplet k t rest front x y z zs h =
    round ∙ rw (quantum-triplet t rest h, set_three front zs x y z, first, second, third)
  where
    cut : ℕ → ℕ
    cut v = bit_and v 0xff % 256

    q : ℕ
    q = quantum (triplet_to_base64 t ++ rest)

    round :
        decode_loop (suc k) (triplet_to_base64 t ++ rest) (length front) (front ++ x ∷ y ∷ z ∷ zs)
        ≡ decode_loop k rest (length front + 3) (
            store
              (store
                (store (front ++ x ∷ y ∷ z ∷ zs) (length front) (bit_and (q / 2 ^ 16) 0xff))
                (length front + 1)
                (bit_and (q / 2 ^ 8) 0xff))
              (length front + 2)
              (bit_and q 0xff))
    round = unfold decode_loop triplet_to_base64 in refl

    first : bit_and (t / 2 ^ 16) 0xff % 256 ≡ t / 65536
    first = omega (arith, bit_and-mod 8 (t / 2 ^ 16))

    second : bit_and (t / 2 ^ 8) 0xff % 256 ≡ t / 256 % 256
    second = omega (arith, bit_and-mod 8 (t / 2 ^ 8))

    third : bit_and t 0xff % 256 ≡ t % 256
    third = omega (arith, bit_and-mod 8 t)

chunk_bits-bytes :
    (a b c : ℕ) (xs : List ℕ)
    → IsByte a
    → IsByte b
    → IsByte c
    → chunk_bits (a ∷ b ∷ c ∷ xs) ≡ a * 65536 + b * 256 + c
chunk_bits-bytes a b c xs ha hb hc =
    omega (arith, mask_high a ha, mask_middle b hb, bit_and-mod 8 c)

-- One round on the characters of three bytes.
decode_loop-bytes :
    (k a b c : ℕ) (rest front zs : List ℕ)
    → IsByte a
    → IsByte b
    → IsByte c
    → decode_loop
        (suc k)
        (triplet_to_base64 (a * 65536 + b * 256 + c) ++ rest)
        (length front)
        (front ++ 0 ∷ 0 ∷ 0 ∷ zs)
      ≡ decode_loop k rest (length front + 3) (front ++ a ∷ b ∷ c ∷ zs)
decode_loop-bytes k a b c rest front zs ha hb hc =
    decode_loop-triplet k (a * 65536 + b * 256 + c) rest front 0 0 0 zs (omega arith)
    ∙ rw (high, middle, low)
  where
    high : (a * 65536 + b * 256 + c) / 65536 ≡ a
    high = omega arith

    middle : (a * 65536 + b * 256 + c) / 256 % 256 ≡ b
    middle = omega arith

    low : (a * 65536 + b * 256 + c) % 256 ≡ c
    low = omega arith

three_more : (k : ℕ) → 3 * suc k ≡ suc (suc (suc (3 * k)))
three_more k = omega arith

-- The decoder's loop over the whole triplets: the bytes stand where the zeros stood.
pub decode_loop-encode_chunk :
    (k : ℕ) (xs rest front zs : List ℕ)
    → IsBytes xs
    → 3 * k ≤ length xs
    → decode_loop k
        (encode_chunk k xs ++ rest)
        (length front)
        (front ++ (replicate (3 * k) 0 ++ zs))
      ≡ (rest, length front + 3 * k, front ++ (take (3 * k) xs ++ zs))
decode_loop-encode_chunk zero xs rest front zs b h =
    unfold decode_loop encode_chunk in
    ap (λ n. (rest, n, front ++ zs)) (let e : length front ≡ length front + 0 = omega arith in e)
decode_loop-encode_chunk (suc k) [] rest front zs b h = absurd (omega arith)
decode_loop-encode_chunk (suc k) (a ∷ []) rest front zs b h = absurd (omega arith)
decode_loop-encode_chunk (suc k) (a ∷ b ∷ []) rest front zs h k' = absurd (omega arith)
decode_loop-encode_chunk (suc k) (a ∷ b ∷ c ∷ xs) rest front zs (ha, (hb, (hc, hs))) h =
    rw
      (
        three_more k,
        first_triplet,
        append_assoc (triplet_to_base64 (a * 65536 + b * 256 + c)),
        decode_loop-bytes k a b c (encode_chunk k xs ++ rest) front _ ha hb hc,
        count,
      )
      (rw
        (
          length-append front (a ∷ b ∷ c ∷ []),
          append_assoc front (a ∷ b ∷ c ∷ []) (replicate (3 * k) 0 ++ zs),
          append_assoc front (a ∷ b ∷ c ∷ []) (take (3 * k) xs ++ zs),
        )
        at (decode_loop-encode_chunk k xs rest (front ++ a ∷ b ∷ c ∷ []) zs hs (omega arith)))
  where
    count : length front + suc (suc (suc (3 * k))) ≡ length front + 3 + 3 * k
    count = omega arith

    first_triplet :
        encode_chunk (suc k) (a ∷ b ∷ c ∷ xs)
        ≡ triplet_to_base64 (a * 65536 + b * 256 + c) ++ encode_chunk k xs
    first_triplet =
        unfold encode_chunk in
        ap (λ n. triplet_to_base64 n ++ encode_chunk k xs) (chunk_bits-bytes a b c xs ha hb hc)

-- What `toByteArray` does once the lengths are known.
pub to_byte_array-lens :
    (text : List ℕ) (v p : ℕ)
    → get_lens text ≡ ok (v, p)
    → p ≤ (v + p) * 3 / 4
    → to_byte_array text
      ≡ ok (
          decode_tail p (
            decode_loop
              (((if ltb 0 p then v - 4 else v) + 3) / 4)
              text
              0
              (replicate ((v + p) * 3 / 4 - p) 0)))
unfolding to_byte_array
to_byte_array-lens text v p e h = rw e (ground arith)

-- The last byte, from two characters.
last_byte :
    (x : ℕ)
    → IsByte x
    → let text = encode_tail 1 (x ∷ []) in
      bit_and (bit_or (sextet text 0 * 2 ^ 2) (sextet text 1 / 2 ^ 4)) 0xff % 256 ≡ x
unfolding encode_tail agree_below lookup sextet
last_byte x h =
    agree_below-eq
      (λ x.
        let text = encode_tail 1 (x ∷ []) in
        bit_and (bit_or (sextet text 0 * 2 ^ 2) (sextet text 1 / 2 ^ 4)) 0xff % 256)
      (λ x. x) 256 x refl h

pub decode_tail-one :
    (ys : List ℕ) (x : ℕ)
    → IsByte x
    → decode_tail 2 (encode_tail 1 (x ∷ []), length ys, ys ++ 0 ∷ []) ≡ ys ++ x ∷ []
unfolding decode_tail
decode_tail-one ys x h = rw (last_byte x h) (set_one ys 0 x)

-- The last two bytes, from three characters.
pub decode_tail-two :
    (ys : List ℕ) (x y : ℕ)
    → IsByte x
    → IsByte y
    → decode_tail 1 (encode_tail 2 (x ∷ y ∷ []), length ys, ys ++ 0 ∷ 0 ∷ []) ≡ ys ++ x ∷ y ∷ []
unfolding decode_tail encode_tail
decode_tail-two ys x y hx hy =
    rw
      (
        sextet-suc,
        sextet-suc,
        sextet-suc,
        sextet-lookup ((x * 256 + y) / 2 ^ 10) _ (omega arith),
        sextet-lookup (bit_and ((x * 256 + y) / 2 ^ 4) 0x3f) _ (omega (arith, middle)),
        sextet-lookup (bit_and ((x * 256 + y) * 2 ^ 2) 0x3f) _ (omega (arith, low)),
        middle,
        low,
        joined,
        high_byte,
        low_byte,
      )
      (set_two ys 0 0 x y)
  where
    w : ℕ
    w = x * 256 + y

    middle : bit_and ((x * 256 + y) / 2 ^ 4) 0x3f ≡ (x * 256 + y) / 2 ^ 4 % 64
    middle = bit_and-mod 6 ((x * 256 + y) / 2 ^ 4)

    low : bit_and ((x * 256 + y) * 2 ^ 2) 0x3f ≡ (x * 256 + y) * 2 ^ 2 % 64
    low = bit_and-mod 6 ((x * 256 + y) * 2 ^ 2)

    joined :
        bit_or
          (bit_or ((x * 256 + y) / 2 ^ 10 * 2 ^ 10) ((x * 256 + y) / 2 ^ 4 % 64 * 2 ^ 4))
          ((x * 256 + y) * 2 ^ 2 % 64 / 2 ^ 2)
        ≡ x * 256 + y
    joined =
        rw
          (
            bit_or-add 10 (w / 2 ^ 10) (w / 2 ^ 4 % 64 * 2 ^ 4) (omega arith),
            (let e : w / 2 ^ 10 * 2 ^ 10 + w / 2 ^ 4 % 64 * 2 ^ 4 ≡ w / 2 ^ 4 * 2 ^ 4 =
                  omega arith in
                e),
            bit_or-add 4 (w / 2 ^ 4) (w * 2 ^ 2 % 64 / 2 ^ 2) (omega arith),
          )
          (omega arith)

    high_byte : bit_and ((x * 256 + y) / 2 ^ 8) 0xff % 256 ≡ x
    high_byte = omega (arith, bit_and-mod 8 ((x * 256 + y) / 2 ^ 8))

    low_byte : bit_and (x * 256 + y) 0xff % 256 ≡ y
    low_byte = omega (arith, bit_and-mod 8 (x * 256 + y))
