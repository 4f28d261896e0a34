-- ===== src/Buffer/Encoding/Clean/Laws.antt =====
-- `base64clean` leaves what `fromByteArray` writes.
use winterjs.Common.{
  ℕ, zero, suc, ◌+◌, ◌*◌, ◌/◌, ◌%◌, ◌^◌, ◌≤◌, ◌<◌, Bool, true, false, ◌==◌, ltb, if◌then◌else◌, ◌≡◌,
  refl, sym, ap, ◌∙◌, List, [], ◌∷◌, ◌++◌, length, length-append, append_assoc, append-nil,
  replicate, All, All-append, All-drop, length-drop, drop, bit_and, arith,
}
use winterjs.Common.Bits.{agree_below, agree_below-eq, bit_and-mod}
use winterjs.Js.{IsBytes, ok}
use winterjs.Base64.{
  lookup, chunk_bits, triplet_to_base64, encode_chunk, encode_tail, from_byte_array,
}
use winterjs.Base64.Encode.{from_byte_array-eq, length-encode_chunk}
use winterjs.Base64.RoundTrip.{to_byte_array-from_byte_array}
use winterjs.Buffer.Encoding.Clean.{
  before_pad, is_space, trim_start, trim_end, is_base64, drop_invalid, pad_loop, base64_clean,
  base64_to_bytes,
}

-- Characters that the cleaning keeps.
abbrev pub IsKept : ℕ → Type 0
IsKept c = is_base64 c ≡ true

is_base64-lookup : (i : ℕ) → i < 64 → IsKept (lookup i)
unfolding lookup agree_below
is_base64-lookup i h =
    yes_of (is_base64 (lookup i))
      (agree_below-eq (λ i. if is_base64 (lookup i) then 1 else 0) (λ i. 1) 64 i refl h)
  where
    yes_of : (b : Bool) → Path ℕ (if b then 1 else 0) 1 → b ≡ true
    yes_of true e = refl
    yes_of false e = absurd (omega arith)

masked-IsKept : (a : ℕ) → IsKept (lookup (bit_and a 0x3f))
masked-IsKept a = is_base64-lookup (bit_and a 0x3f) (omega (arith, bit_and-mod 6 a))

pad-dropped : is_base64 b'=' ≡ false
pad-dropped = refl

kept-ne-pad : (c : ℕ) → IsKept c → (c == b'=') ≡ false
kept-ne-pad c h = ground arith

pub kept-lt : (c : ℕ) → IsKept c → c < 128
kept-lt c h = ground arith

kept_no_space : (c : ℕ) → IsKept c → is_space c ≡ false
unfolding agree_below
kept_no_space c h = no_of (is_space c) (
    (let e : Path ℕ (if is_base64 c then (if is_space c then 1 else 0) else 0) 0 =
        agree_below-eq (λ i. if is_base64 i then (if is_space i then 1 else 0) else 0) (λ i. 0) 128
          c refl (kept-lt c h) in
      rw h at e))
  where
    no_of : (b : Bool) → Path ℕ (if b then 1 else 0) 0 → b ≡ false
    no_of true e = absurd (omega arith)
    no_of false e = refl

module _ (p : ℕ) where
  before_pad-kept : (cs : List ℕ) → All IsKept cs → before_pad (cs ++ replicate p b'=') ≡ cs
  before_pad-kept [] h = no_more p
    where
      no_more : (p : ℕ) → before_pad (replicate p b'=') ≡ []
      no_more zero = refl
      no_more (suc p) = refl
  before_pad-kept (c ∷ cs) (hc, h) = rw (kept-ne-pad c hc) (ap (c ∷◌) (before_pad-kept cs h))

trim_end-kept : (cs : List ℕ) → All IsKept cs → trim_end cs ≡ cs
trim_end-kept [] h = refl
trim_end-kept (c ∷ []) (hc, h) = rw (kept_no_space c hc) refl
trim_end-kept (c ∷ d ∷ cs) (hc, h) = rw (trim_end-kept (d ∷ cs) h) refl

trim_start-kept : (cs : List ℕ) → All IsKept cs → trim_start cs ≡ cs
trim_start-kept [] h = refl
trim_start-kept (c ∷ cs) (hc, h) = rw (kept_no_space c hc) refl

drop_invalid-kept : (cs : List ℕ) → All IsKept cs → drop_invalid cs ≡ cs
drop_invalid-kept [] h = refl
drop_invalid-kept (c ∷ cs) (hc, h) = rw hc (ap (c ∷◌) (drop_invalid-kept cs h))

-- As many rounds as characters are missing, or more.
pub pad_loop-replicate :
    (rounds p : ℕ) (cs : List ℕ)
    → p ≤ rounds
    → p < 4
    → (length cs + p) % 4 ≡ 0
    → pad_loop rounds cs ≡ cs ++ replicate p b'='
unfolding pad_loop
pad_loop-replicate zero zero cs le h e = sym (append-nil cs)
pad_loop-replicate zero (suc p) cs le h e = absurd (omega arith)
pad_loop-replicate (suc rounds) zero cs le h e =
    let whole : (length cs % 4 == 0) ≡ true = ground arith in rw whole (sym (append-nil cs))
pad_loop-replicate (suc rounds) (suc p) cs le h e =
    let part : (length cs % 4 == 0) ≡ false = ground arith in
    rw part (
      pad_loop-replicate rounds p (cs ++ b'=' ∷ []) (omega arith) (omega arith)
        (omega (arith, length-append cs (b'=' ∷ [])))
      ∙ append_assoc cs (b'=' ∷ []) (replicate p b'='))

-- Base64 text with its padding.
abbrev pub IsText : List ℕ → Type 0
IsText text =
    (cs : List ℕ) × (p : ℕ) × (text ≡ cs ++ replicate p b'=')
    × All IsKept cs
    × (p < 3)
    × ((length cs + p) % 4 ≡ 0)

base64_clean-IsText : (text : List ℕ) → IsText text → base64_clean text ≡ text
unfolding base64_clean
base64_clean-IsText text (cs, p, split, kept, few, whole) =
    rw
      (
        split,
        before_pad-kept p cs kept,
        trim_start-kept cs kept,
        trim_end-kept cs kept,
        drop_invalid-kept cs kept,
      )
      (by_length cs refl)
  where
    by_length :
        (ds : List ℕ)
        → cs ≡ ds
        → (if ltb (length cs) 2 then [] else pad_loop 3 cs) ≡ cs ++ replicate p b'='
    by_length [] e = let none : p ≡ 0 = omega (arith, ap length e) in rw (e, none) refl
    by_length (c ∷ []) e = absurd (omega (arith, ap length e))
    by_length (c ∷ d ∷ ds) e =
        let long : ltb (length cs) 2 ≡ false = ground (arith, ap length e) in
        rw long (pad_loop-replicate 3 p cs (omega arith) (omega arith) whole)

triplet_to_base64-IsKept :
    (t : ℕ) (rest : List ℕ) → All IsKept rest → All IsKept (triplet_to_base64 t ++ rest)
unfolding triplet_to_base64
triplet_to_base64-IsKept t rest h = (
  masked-IsKept (t / 2 ^ 18),
  (masked-IsKept (t / 2 ^ 12), (masked-IsKept (t / 2 ^ 6), (masked-IsKept t, h))),
)

encode_chunk-IsKept : (k : ℕ) (xs : List ℕ) → All IsKept (encode_chunk k xs)
unfolding encode_chunk
encode_chunk-IsKept zero xs = tt
encode_chunk-IsKept (suc k) xs =
    triplet_to_base64-IsKept (chunk_bits xs) _ (encode_chunk-IsKept k (drop 3 xs))

-- What the padding code writes behind a text of whole triplets.
encode_tail-IsText :
    (text tl : List ℕ)
    → All IsKept text
    → length text % 4 ≡ 0
    → IsBytes tl
    → length tl < 3
    → IsText (text ++ encode_tail (length tl) tl)
unfolding encode_tail
encode_tail-IsText text [] h e b few = (text, 0, refl, h, omega arith, omega arith)
encode_tail-IsText text (x ∷ []) h e (hx, _) few = (
  text ++ chars,
  2,
  sym (append_assoc text chars (b'=' ∷ b'=' ∷ [])),
  All-append _ text chars h
      (is_base64-lookup (x / 2 ^ 2) (omega arith), (masked-IsKept (x * 2 ^ 4), tt)),
  omega arith,
  omega (arith, length-append text chars),
)
  where
    chars : List ℕ
    chars = lookup (x / 2 ^ 2) ∷ lookup (bit_and (x * 2 ^ 4) 0x3f) ∷ []
encode_tail-IsText text (x ∷ y ∷ []) h e (hx, (hy, _)) few = (
  text ++ chars,
  1,
  sym (append_assoc text chars (b'=' ∷ [])),
  All-append _ text chars h (
    is_base64-lookup ((x * 2 ^ 8 + y) / 2 ^ 10) (omega arith),
    (masked-IsKept ((x * 2 ^ 8 + y) / 2 ^ 4), (masked-IsKept ((x * 2 ^ 8 + y) * 2 ^ 2), tt)),
  ),
  omega arith,
  omega (arith, length-append text chars),
)
  where
    chars : List ℕ
    chars =
        lookup ((x * 2 ^ 8 + y) / 2 ^ 10)
        ∷ lookup (bit_and ((x * 2 ^ 8 + y) / 2 ^ 4) 0x3f)
        ∷ lookup (bit_and ((x * 2 ^ 8 + y) * 2 ^ 2) 0x3f)
        ∷ []
encode_tail-IsText text (x ∷ y ∷ z ∷ tl) h e b few = absurd (omega arith)

pub from_byte_array-IsText : (xs : List ℕ) → IsBytes xs → IsText (from_byte_array xs)
from_byte_array-IsText xs h =
    rw (from_byte_array-eq xs, ← rest_length)
      (encode_tail-IsText (encode_chunk k xs) (drop (3 * k) xs) (encode_chunk-IsKept k xs)
        (omega (arith, length-encode_chunk k xs)) (All-drop _ (3 * k) xs h)
        (omega (arith, rest_length)))
  where
    k : ℕ
    k = length xs / 3

    rest_length : length (drop (3 * (length xs / 3)) xs) ≡ length xs % 3
    rest_length = omega (arith, length-drop (3 * (length xs / 3)) xs)

-- The base64 text of bytes, cleaned and decoded.
pub base64_to_bytes-from_byte_array :
    (xs : List ℕ) → IsBytes xs → base64_to_bytes (from_byte_array xs) ≡ ok xs
unfolding base64_to_bytes
base64_to_bytes-from_byte_array xs h =
    rw (base64_clean-IsText (from_byte_array xs) (from_byte_array-IsText xs h))
      (to_byte_array-from_byte_array xs h)
