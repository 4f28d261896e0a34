-- ===== src/Buffer/Utf8/RoundTrip.antt =====
-- UTF-8 of well-formed strings, and back.
use winterjs.Common.{
  ℕ, zero, suc, ◌+◌, ◌-◌, ◌*◌, ◌/◌, ◌%◌, ◌^◌, ◌≤◌, ◌<◌, ◌≡◌, refl, ap, ap₂, ◌∙◌, ◌⊎◌, arith, true,
  false, ◌||◌, ltb, bit_and, bit_or, if◌then◌else◌, List, [], ◌∷◌, ◌++◌, All, take, drop, take_all,
  length, length-append, min, none, some, dec_lt,
}
use mathlib.Core.Path.{subst}
use winterjs.Common.Bits.{bit_or-add, bit_or_comm, bit_and-mod}
use winterjs.Js.{ok}
use winterjs.Buffer.Utf8.{
  code_point_bytes, emit_bytes, is_surrogate, surrogate_pair, encode, utf8_to_bytes,
  bytes_per_sequence, code_point, code_units, decode, utf8_slice,
}
use winterjs.Buffer.Utf8.Bytes.{
  bytes_one, bytes_two, bytes_three, bytes_four, point_one_lem, point_two_lem, point_three_lem,
  point_four_lem,
}

-- A code point that is not a surrogate.
abbrev pub IsScalar : ℕ → Type 0
IsScalar c = (c < 0xD800) ⊎ ((0xDFFF < c) × (c < 0x110000))

-- The UTF-16 code units of a code point, and of a sequence of them.
abbrev pub units_of : ℕ → List ℕ
units_of c =
    if ltb c 0x10000
    then c ∷ []
    else (0xD800 + (c - 0x10000) / 1024) ∷ (0xDC00 + (c - 0x10000) % 1024) ∷ []

abbrev pub utf16 : List ℕ → List ℕ
utf16 [] = []
utf16 (c ∷ cs) = units_of c ++ utf16 cs

-- The bytes of a code point: they are those of the encoder, and the decoder takes them back.
record Coded (c : ℕ) : Type 0 where
  first : ℕ
  others : List ℕ
  encoded : code_point_bytes c ≡ some (first ∷ others)
  decoded : (more : List ℕ) → code_point first (others ++ more) ≡ some c
  counted : bytes_per_sequence first - 1 ≡ length others

Coded-three :
    (x y z : ℕ)
    → 32 ≤ x * 64 + y
    → x < 16
    → y < 64
    → z < 64
    → (ltb ((x * 64 + y) * 64 + z) 0xD800 || ltb 0xDFFF ((x * 64 + y) * 64 + z)) ≡ true
    → Coded ((x * 64 + y) * 64 + z)
Coded-three x y z h hx hy hz scalar = record {
  first = 224 + x;
  others = (128 + y) ∷ (128 + z) ∷ [];
  encoded = bytes_three x y z h hx hy hz;
  decoded = λ more. point_three_lem x y z more h hx hy hz scalar;
  counted = ground arith;
}

Coded-four :
    (x y z v : ℕ)
    → 16 ≤ x * 64 + y
    → x * 64 + y < 272
    → y < 64
    → z < 64
    → v < 64
    → Coded (((x * 64 + y) * 64 + z) * 64 + v)
Coded-four x y z v h below hy hz hv = record {
  first = 240 + x;
  others = (128 + y) ∷ (128 + z) ∷ (128 + v) ∷ [];
  encoded = bytes_four x y z v h below hy hz hv;
  decoded = λ more. point_four_lem x y z v more h below hy hz hv;
  counted = ground arith;
}

Coded-two : (x y : ℕ) → 2 ≤ x → x < 32 → y < 64 → Coded (x * 64 + y)
Coded-two x y h hx hy = record {
  first = 192 + x;
  others = (128 + y) ∷ [];
  encoded = bytes_two x y h hx hy;
  decoded = λ more. point_two_lem x y more h hx hy;
  counted = ground arith;
}

Coded-one : (x : ℕ) → x < 128 → Coded x
Coded-one x h = record {
  first = x;
  others = [];
  encoded = bytes_one x h;
  decoded = λ more. point_one_lem x more h;
  counted = ground arith;
}

coded : (c : ℕ) → IsScalar c → Coded c
coded c s = elim (dec_lt c 128) [
  | yes one ↦ Coded-one c one
  | no more1 ↦ elim (dec_lt c 2048) [
    | yes two ↦
        let e : c / 64 * 64 + c % 64 ≡ c = omega arith in
        subst Coded e (Coded-two (c / 64) (c % 64) (omega arith) (omega arith) (omega arith))
    | no more2 ↦ elim (dec_lt c 65536) [
      | yes three ↦
          let e : (c / 4096 * 64 + c / 64 % 64) * 64 + c % 64 ≡ c = omega arith in
          let scalar : (ltb c 0xD800 || ltb 0xDFFF c) ≡ true = ground arith in
          subst Coded e (
            Coded-three (c / 4096) (c / 64 % 64) (c % 64) (omega arith) (omega arith) (omega arith)
              (omega arith) (rw e scalar))
      | no more3 ↦
          let e : ((c / 262144 * 64 + c / 4096 % 64) * 64 + c / 64 % 64) * 64 + c % 64 ≡ c =
            omega arith in
          subst Coded e (
            Coded-four (c / 262144) (c / 4096 % 64) (c / 64 % 64) (c % 64) (omega arith)
              (omega arith) (omega arith) (omega arith) (omega arith))
    ]
  ]
]

-- The surrogates of a code point, in the arithmetic of the decoder and of the encoder.
high_surrogate : (x : ℕ) → x < 1024 → bit_or (bit_and x 0x3FF) 0xD800 ≡ 0xD800 + x
high_surrogate x h =
    let low : x % 1024 ≡ x = omega arith in
    ap (λ t. bit_or t 0xD800) (bit_and-mod 10 x ∙ low) ∙ bit_or_comm x 0xD800 ∙ bit_or-add 10 54 x h

low_surrogate : (x : ℕ) → bit_or 0xDC00 (bit_and x 0x3FF) ≡ 0xDC00 + x % 1024
low_surrogate x = ap (bit_or 0xDC00) (bit_and-mod 10 x) ∙ bit_or-add 10 55 (x % 1024) (omega arith)

code_units-units_of : (c : ℕ) → c < 0x110000 → code_units c ≡ units_of c
unfolding code_units
code_units-units_of c h = elim (dec_lt c 0x10000) [
  | yes small ↦
      let a : ltb 0xFFFF c ≡ false = ground arith in
      let b : ltb c 0x10000 ≡ true = ground arith in rw (a, b) refl
  | no large ↦
      let a : ltb 0xFFFF c ≡ true = ground arith in
      let b : ltb c 0x10000 ≡ false = ground arith in
      rw (a, b)
        (ap₂ (λ x y. x ∷ y ∷ []) (high_surrogate ((c - 0x10000) / 1024) (omega arith))
          (low_surrogate (c - 0x10000)))
]

pair_lem :
    (q r : ℕ)
    → q < 1024
    → r < 1024
    → surrogate_pair (0xD800 + q) (0xDC00 + r) ≡ q * 1024 + r + 0x10000
pair_lem q r hq hr =
    let a : 0xD800 + q - 0xD800 ≡ q = omega arith in
    let b : 0xDC00 + r - 0xDC00 ≡ r = omega arith in
    let s : q * 2 ^ 10 % 2 ^ 32 ≡ q * 2 ^ 10 = omega arith in
    rw (a, b, s, bit_or-add 10 q r hr) refl

-- The encoder takes the code units of a code point as that code point.
encode-pair :
    (q r : ℕ) (rest : List ℕ)
    → q < 1024
    → r < 1024
    → encode ((0xD800 + q) ∷ (0xDC00 + r) ∷ rest) none none
      ≡ emit_bytes (code_point_bytes (q * 1024 + r + 0x10000)) none (encode rest none)
unfolding encode
encode-pair q r rest hq hr =
    let a : is_surrogate (0xD800 + q) ≡ true = ground arith in
    let b : ltb 0xDBFF (0xD800 + q) ≡ false = ground arith in
    let c : is_surrogate (0xDC00 + r) ≡ true = ground arith in
    let d : ltb (0xDC00 + r) 0xDC00 ≡ false = ground arith in
    rw (a, b, c, d, pair_lem q r hq hr) refl

encode-units_of :
    (c : ℕ) (rest : List ℕ)
    → IsScalar c
    → encode (units_of c ++ rest) none none
      ≡ emit_bytes (code_point_bytes c) none (encode rest none)
unfolding encode
encode-units_of c rest s = elim (dec_lt c 0x10000) [
  | yes small ↦
      let a : ltb c 0x10000 ≡ true = ground arith in
      let b : is_surrogate c ≡ false = ground arith in rw (a, b) refl
  | no large ↦
      let a : ltb c 0x10000 ≡ false = ground arith in
      let e : (c - 0x10000) / 1024 * 1024 + (c - 0x10000) % 1024 + 0x10000 ≡ c = omega arith in
      rw a (
        encode-pair ((c - 0x10000) / 1024) ((c - 0x10000) % 1024) rest (ground arith) (omega arith)
        ∙ ap (λ t. emit_bytes (code_point_bytes t) none (encode rest none)) e)
]

decode-nil : (rounds : ℕ) → decode rounds [] ≡ []
unfolding decode
decode-nil zero = refl
decode-nil (suc rounds) = refl

drop_front : (xs ys : List ℕ) → drop (length xs) (xs ++ ys) ≡ ys
drop_front [] ys = refl
drop_front (x ∷ xs) ys = drop_front xs ys

below_top : (c : ℕ) → IsScalar c → c < 0x110000
below_top c s = ground arith

decode-Coded :
    (c : ℕ) (k : Coded c) (more units : List ℕ) (rounds : ℕ)
    → c < 0x110000
    → ((r : ℕ) → length more ≤ r → decode r more ≡ units)
    → length (k.first ∷ (k.others ++ more)) ≤ rounds
    → decode rounds (k.first ∷ (k.others ++ more)) ≡ units_of c ++ units
unfolding decode
decode-Coded c k more units zero h ih le = absurd (omega arith)
decode-Coded c k more units (suc rounds) h ih le =
    rw (k.decoded more, k.counted, drop_front k.others more, code_units-units_of c h, decode)
      (ap (units_of c ++◌) (ih rounds (omega (arith, length-append k.others more))))

pub codes :
    (cs : List ℕ)
    → All IsScalar cs
    → (bs : List ℕ) × (encode (utf16 cs) none none ≡ ok bs)
      × ((rounds : ℕ) → length bs ≤ rounds → decode rounds bs ≡ utf16 cs)
codes [] h = ([], (unfold encode in refl), λ rounds le. decode-nil rounds)
codes (c ∷ cs) (s, h) =
    let k = coded c s in
    let ih = codes cs h in
    (
      k.first ∷ (k.others ++ ih.0),
      encode-units_of c (utf16 cs) s ∙ (rw (k.encoded, ih.1) refl),
      λ rounds le. decode-Coded c k ih.0 (utf16 cs) rounds (below_top c s) ih.2 le,
    )

-- A well-formed string is encoded without an error, and decoding its bytes gives the string back.
pub utf8_slice-utf8_to_bytes :
    (cs : List ℕ)
    → All IsScalar cs
    → (bs : List ℕ) × (utf8_to_bytes (utf16 cs) none ≡ ok bs)
      × (utf8_slice bs 0 (length bs) ≡ utf16 cs)
unfolding utf8_to_bytes utf8_slice
utf8_slice-utf8_to_bytes cs h =
    let r = codes cs h in
    let whole : take (min (length r.0) (length r.0)) r.0 ≡ r.0 = take_all _ r.0 (omega arith) in
    (r.0, r.1, rw whole (r.2 (length r.0) (omega arith)))
