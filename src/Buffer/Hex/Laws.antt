-- ===== src/Buffer/Hex/Laws.antt =====
-- What `hexWrite` reads and writes, and that `hexSlice` is undone by it.
use winterjs.Common.{
  ℕ, zero, suc, ◌+◌, ◌-◌, ◌*◌, ◌/◌, ◌%◌, ◌^◌, ◌<◌, ◌≤◌, ◌≡◌, refl, sym, ap, ap₂, ◌∙◌, ◌⊎◌, inl, inr,
  arith, bit_or,
}
use winterjs.Common.Int.{pos}
use winterjs.Common.{
  take_all, List, [], ◌∷◌, length, length-set, set, take, drop, drop-drop, get_elem?,
  get_elem?-drop, Option, none, some, ltb, if◌then◌else◌, true, false,
}
use winterjs.Common.Bits.{bit_or-add}
use winterjs.Js.{IsBytes, store}
use winterjs.Js.Int32.{shl}
use winterjs.Buffer.Window.{splice, splice-nil, splice-set}
use winterjs.Buffer.Hex.{
  hex_digit, hex_value, hex_round, hex_codes, hex_slice, hex_write_loop, hex_limit, hex_write,
}

-- One byte for two digits, and then the rest.
abbrev pub hex_pair : Option ℕ → Option ℕ → List ℕ → List ℕ
hex_pair none y rest = []
hex_pair (some a) none rest = []
hex_pair (some a) (some b) rest = (a * 16 + b) ∷ rest

-- The bytes that a string spells in hexadecimal, up to the first pair that is not two digits.
abbrev pub hex_bytes : List ℕ → List ℕ
hex_bytes [] = []
hex_bytes (c ∷ []) = []
hex_bytes (c ∷ d ∷ string) = hex_pair (hex_value (some c)) (hex_value (some d)) (hex_bytes string)

hex_value-none : hex_value none ≡ none
unfolding hex_value
hex_value-none = refl

hex_value-lt : (o : Option ℕ) (a : ℕ) → hex_value o ≡ some a → a < 16
unfolding hex_value
hex_value-lt none a h = absurd (cc h)
hex_value-lt (some c) a h = ground arith

digits-byte : (a b : ℕ) → a < 16 → b < 16 → bit_or (shl a 4) b % 256 ≡ a * 16 + b
digits-byte a b ha hb =
    let e : a * 2 ^ 4 % 2 ^ 32 ≡ a * 2 ^ 4 = omega arith in
    rw e (omega (arith, bit_or-add 4 a b hb))

-- The result of a loop that stops in its round `i`.
stopped :
    (offset i : ℕ) (buf : List ℕ) → Path (ℕ × List ℕ) (i, buf) (i + 0, splice buf (offset + i) [])
stopped offset i buf = ap₂ (λ a b. (a, b)) (omega arith) (sym (splice-nil buf (offset + i)))

-- The two characters that round `i` reads.
module _ (string s : List ℕ) (i : ℕ) (at : drop (i * 2) string ≡ s) where
  first_digit : get_elem? string (i * 2) ≡ get_elem? s 0
  first_digit =
      let e : i * 2 + 0 ≡ i * 2 = omega arith in
      rw at at (rw e at (sym (get_elem?-drop (i * 2) 0 string)))

  second_digit : get_elem? string (i * 2 + 1) ≡ get_elem? s 1
  second_digit = rw at at (sym (get_elem?-drop (i * 2) 1 string))

next_pair :
    (string s : List ℕ) (c d i : ℕ)
    → drop (i * 2) string ≡ c ∷ d ∷ s
    → drop ((i + 1) * 2) string ≡ s
next_pair string s c d i at =
    let e : (i + 1) * 2 ≡ i * 2 + 2 = omega arith in
    rw e (sym (drop-drop (i * 2) 2 string) ∙ ap (drop 2) at)

-- The loop at the code units that it has not read.
hex_write_loop-splice :
    (string : List ℕ) (offset rounds i : ℕ) (buf s : List ℕ)
    → drop (i * 2) string ≡ s
    → offset + i + rounds ≤ length buf
    → hex_write_loop string offset rounds i buf ≡ (
      i + length (take rounds (hex_bytes s)),
      splice buf (offset + i) (take rounds (hex_bytes s)),
    )
unfolding hex_write_loop
hex_write_loop-splice string offset zero i buf s at room = stopped offset i buf
hex_write_loop-splice string offset (suc rounds) i buf [] at room =
    rw (first_digit string [] i at, hex_value-none) (stopped offset i buf)
hex_write_loop-splice string offset (suc rounds) i buf (c ∷ []) at room =
    rw (second_digit string (c ∷ []) i at, hex_value-none)
      (half (hex_value (get_elem? string (i * 2))))
  where
    half :
        (o : Option ℕ)
        → hex_round
            (i, buf)
            (λ a b.
              hex_write_loop string offset rounds
                (i + 1)
                (store buf (offset + i) (bit_or (shl a 4) b)))
            o
            none
          ≡ (i + 0, splice buf (offset + i) [])
    half none = stopped offset i buf
    half (some a) = stopped offset i buf
hex_write_loop-splice string offset (suc rounds) i buf (c ∷ d ∷ s) at room =
    rw (first_digit string (c ∷ d ∷ s) i at, second_digit string (c ∷ d ∷ s) i at)
      (round (hex_value (some c)) (hex_value (some d)) (hex_value-lt (some c))
        (hex_value-lt (some d))
        (λ a b.
          hex_write_loop-splice string offset rounds (i + 1) (set buf (offset + i) (a * 16 + b)) s
            (next_pair string s c d i at)
            (omega (arith, length-set buf (offset + i) (a * 16 + b)))))
  where
    round :
        (o p : Option ℕ)
        → ((a : ℕ) → o ≡ some a → a < 16)
        → ((b : ℕ) → p ≡ some b → b < 16)
        → ((a b : ℕ)
            → hex_write_loop string offset rounds (i + 1) (set buf (offset + i) (a * 16 + b)) ≡ (
              i + 1 + length (take rounds (hex_bytes s)),
              splice
                  (set buf (offset + i) (a * 16 + b))
                  (offset + (i + 1))
                  (take rounds (hex_bytes s)),
            ))
        → hex_round
            (i, buf)
            (λ a b.
              hex_write_loop string offset rounds
                (i + 1)
                (store buf (offset + i) (bit_or (shl a 4) b)))
            o
            p
          ≡ (
            i + length (take (suc rounds) (hex_pair o p (hex_bytes s))),
            splice buf (offset + i) (take (suc rounds) (hex_pair o p (hex_bytes s))),
          )
    round none p ho hp ih = stopped offset i buf
    round (some a) none ho hp ih = stopped offset i buf
    round (some a) (some b) ho hp ih =
        let same : offset + (i + 1) ≡ offset + i + 1 = omega arith in
        rw (digits-byte a b (ho a refl) (hp b refl)) (
          ih a b
          ∙ ap₂ (λ a b. (a, b)) (omega arith)
              (rw same (
                splice-set buf (offset + i) (a * 16 + b) (take rounds (hex_bytes s))
                  (omega arith))))

-- A string spells at most half as many bytes.
pub length-hex_bytes : (string : List ℕ) → 2 * length (hex_bytes string) ≤ length string
length-hex_bytes [] = omega arith
length-hex_bytes (c ∷ []) = omega arith
length-hex_bytes (c ∷ d ∷ string) =
    pairs (hex_value (some c)) (hex_value (some d)) (length-hex_bytes string)
  where
    pairs :
        (o p : Option ℕ)
        → 2 * length (hex_bytes string) ≤ length string
        → 2 * length (hex_pair o p (hex_bytes string)) ≤ suc (suc (length string))
    pairs none p h = omega arith
    pairs (some a) none h = omega arith
    pairs (some a) (some b) h = omega arith

pub hex_bytes-IsBytes : (string : List ℕ) → IsBytes (hex_bytes string)
hex_bytes-IsBytes [] = tt
hex_bytes-IsBytes (c ∷ []) = tt
hex_bytes-IsBytes (c ∷ d ∷ string) =
    pairs (hex_value (some c)) (hex_value (some d)) (hex_value-lt (some c)) (hex_value-lt (some d))
      (hex_bytes-IsBytes string)
  where
    pairs :
        (o p : Option ℕ)
        → ((a : ℕ) → o ≡ some a → a < 16)
        → ((b : ℕ) → p ≡ some b → b < 16)
        → IsBytes (hex_bytes string)
        → IsBytes (hex_pair o p (hex_bytes string))
    pairs none p ho hp h = tt
    pairs (some a) none ho hp h = tt
    pairs (some a) (some b) ho hp h = (omega (arith, ho a refl, hp b refl), h)

-- At an offset inside the buffer `hexWrite` writes the bytes that the string spells, up to the first
-- pair that is not two digits, as many as the limit allows, and returns how many.
pub hex_write-splice :
    (buf string : List ℕ) (offset len : ℕ)
    → offset ≤ length buf
    → hex_write buf string offset len ≡ (
        let ds = take (hex_limit (length buf - offset) len) (hex_bytes string) in
        (length ds, splice buf offset ds))
unfolding hex_write
hex_write-splice buf string offset len h =
    at_limit (hex_limit (length buf - offset) len) (limit-le (length buf - offset) len)
  where
    limit-le : (remaining len : ℕ) → hex_limit remaining len ≤ remaining
    limit-le remaining len = ground arith

    rounds-room :
        (limit : ℕ)
        → limit ≤ length buf - offset
        → offset + 0 + (if ltb (length string) (2 * limit) then (length string + 1) / 2 else limit)
          ≤ length buf
    rounds-room limit hl = ground arith

    short_or_not :
        (limit : ℕ)
        → ((ltb (length string) (2 * limit) ≡ true) × (length string < 2 * limit))
          ⊎ (ltb (length string) (2 * limit) ≡ false)
    short_or_not limit = ground arith

    same :
        (limit : ℕ)
        → take
            (if ltb (length string) (2 * limit) then (length string + 1) / 2 else limit)
            (hex_bytes string)
          ≡ take limit (hex_bytes string)
    same limit = elim (short_or_not limit) [
      | inl short ↦ rw short.0 (
          take_all ((length string + 1) / 2) (hex_bytes string)
            (omega (arith, length-hex_bytes string))
          ∙ sym (take_all limit (hex_bytes string) (omega (arith, length-hex_bytes string))))
      | inr long ↦ rw long
    ]

    at_limit :
        (limit : ℕ)
        → limit ≤ length buf - offset
        → hex_write_loop string offset
            (if ltb (length string) (2 * limit) then (length string + 1) / 2 else limit)
            0
            buf
          ≡ (
            length (take limit (hex_bytes string)),
            splice buf offset (take limit (hex_bytes string)),
          )
    at_limit limit hl =
        hex_write_loop-splice string offset
          (if ltb (length string) (2 * limit) then (length string + 1) / 2 else limit) 0 buf string
          refl (rounds-room limit hl)
        ∙ ap₂ (λ a b. (a, b))
            (let e : 0 + length (take limit (hex_bytes string))
                  ≡ length (take limit (hex_bytes string)) =
                omega arith in
              ap (λ ds. 0 + length ds) (same limit) ∙ e)
            (let e : offset + 0 ≡ offset = omega arith in
              ap₂ (λ o ds. splice buf o ds) e (same limit))

hex_value-hex_digit : (d : ℕ) → d < 16 → hex_value (some (hex_digit d)) ≡ some d
unfolding hex_value
hex_value-hex_digit d h = ground arith

pub hex_bytes-hex_codes : (bytes : List ℕ) → IsBytes bytes → hex_bytes (hex_codes bytes) ≡ bytes
hex_bytes-hex_codes [] h = refl
hex_bytes-hex_codes (b ∷ bytes) (hb, h) =
    rw
      (
        hex_value-hex_digit (b / 16) (omega arith),
        hex_value-hex_digit (b % 16) (omega arith),
        hex_bytes-hex_codes bytes h,
      )
      (ap (λ x. x ∷ bytes) (omega arith))

hex_slice-all : (src : List ℕ) → hex_slice src (pos 0) (pos 0) ≡ hex_codes src
unfolding hex_slice
hex_slice-all src = ap hex_codes (take_all (length src - 0) src (omega arith))

-- What `hexSlice` spells of a whole buffer, `hexWrite` without a length writes into another one that
-- has the room, and returns how many bytes it wrote.
pub hex_write-hex_slice :
    (src buf : List ℕ) (offset : ℕ)
    → IsBytes src
    → offset + length src ≤ length buf
    → hex_write buf (hex_slice src (pos 0) (pos 0)) offset 0 ≡ (length src, splice buf offset src)
hex_write-hex_slice src buf offset h room = rw (hex_slice-all src) (
    hex_write-splice buf (hex_codes src) offset 0 (omega arith)
    ∙ (rw (hex_bytes-hex_codes src h, take_all (length buf - offset) src (omega arith))))
