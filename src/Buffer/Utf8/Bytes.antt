-- ===== src/Buffer/Utf8/Bytes.antt =====
-- The bytes of one code point, in arithmetic, and back.
use winterjs.Common.{
  ℕ, ◌+◌, ◌*◌, ◌/◌, ◌%◌, ◌^◌, ◌≤◌, ◌<◌, ◌≡◌, refl, ap, ◌∙◌, arith, true, false, ◌||◌, ltb, bit_and,
  bit_or, List, [], ◌∷◌, some,
}
use winterjs.Common.Bits.{bit_or-add, bit_and-mod, agree_below, agree_below-eq}
use winterjs.Js.Int32.{shl}
use winterjs.Buffer.Utf8.{code_point_bytes, continues, code_point}

-- A continuation byte.
cont-or : (x : ℕ) → x < 64 → bit_or x 0x80 ≡ 128 + x
unfolding agree_below
cont-or x h = agree_below-eq (λ i. bit_or i 0x80) (λ i. 128 + i) 64 x refl h

cont_continues : (x : ℕ) → x < 64 → continues (128 + x) ≡ true
unfolding agree_below
cont_continues x h = rw (agree_below-eq (λ i. bit_and (128 + i) 0xC0) (λ i. 0x80) 64 x refl h) refl

cont_low : (x : ℕ) → x < 64 → bit_and (128 + x) 0x3F ≡ x
unfolding agree_below
cont_low x h = agree_below-eq (λ i. bit_and (128 + i) 0x3F) (λ i. i) 64 x refl h

-- A first byte of two, three and four.
pub lead_two : (x : ℕ) → x < 32 → bit_or x 0xC0 ≡ 192 + x
unfolding agree_below
lead_two x h = agree_below-eq (λ i. bit_or i 0xC0) (λ i. 192 + i) 32 x refl h

pub lead_three : (x : ℕ) → x < 16 → bit_or x 0xE0 ≡ 224 + x
unfolding agree_below
lead_three x h = agree_below-eq (λ i. bit_or i 0xE0) (λ i. 224 + i) 16 x refl h

pub lead_four : (x : ℕ) → x < 8 → bit_or x 0xF0 ≡ 240 + x
unfolding agree_below
lead_four x h = agree_below-eq (λ i. bit_or i 0xF0) (λ i. 240 + i) 8 x refl h

low_two : (x : ℕ) → x < 32 → bit_and (192 + x) 0x1F ≡ x
unfolding agree_below
low_two x h = agree_below-eq (λ i. bit_and (192 + i) 0x1F) (λ i. i) 32 x refl h

low_three : (x : ℕ) → x < 16 → bit_and (224 + x) 0xF ≡ x
unfolding agree_below
low_three x h = agree_below-eq (λ i. bit_and (224 + i) 0xF) (λ i. i) 16 x refl h

low_four : (x : ℕ) → x < 8 → bit_and (240 + x) 0xF ≡ x
unfolding agree_below
low_four x h = agree_below-eq (λ i. bit_and (240 + i) 0xF) (λ i. i) 8 x refl h

-- `c >> k & 0x3F | 0x80`
pub cont_byte : (c : ℕ) → bit_or (bit_and c 0x3F) 0x80 ≡ 128 + c % 64
cont_byte c = ap (λ x. bit_or x 0x80) (bit_and-mod 6 c) ∙ cont-or (c % 64) (omega arith)

mod_small : (a : ℕ) → a < 2 ^ 32 → a % 2 ^ 32 ≡ a
mod_small a h = omega arith

shl_small : (x k : ℕ) → x * 2 ^ k < 2 ^ 32 → shl x k ≡ x * 2 ^ k
shl_small x k h = mod_small (x * 2 ^ k) h

pub bytes_one : (x : ℕ) → x < 128 → code_point_bytes x ≡ some (x ∷ [])
unfolding code_point_bytes
bytes_one x h = let a : ltb x 0x80 ≡ true = ground arith in rw a refl

pub bytes_two :
    (x y : ℕ)
    → 2 ≤ x
    → x < 32
    → y < 64
    → code_point_bytes (x * 64 + y) ≡ some ((192 + x) ∷ (128 + y) ∷ [])
unfolding code_point_bytes
bytes_two x y h hx hy =
    let c = x * 64 + y in
    let a : ltb c 0x80 ≡ false = ground arith in
    let b : ltb c 0x800 ≡ true = ground arith in
    let d : c / 64 ≡ x = omega arith in
    let e : c % 64 ≡ y = omega arith in rw (a, b, cont_byte c, d, e, lead_two x hx) refl

pub bytes_three :
    (x y z : ℕ)
    → 32 ≤ x * 64 + y
    → x < 16
    → y < 64
    → z < 64
    → code_point_bytes ((x * 64 + y) * 64 + z) ≡ some ((224 + x) ∷ (128 + y) ∷ (128 + z) ∷ [])
unfolding code_point_bytes
bytes_three x y z h hx hy hz =
    let c = (x * 64 + y) * 64 + z in
    let a : ltb c 0x80 ≡ false = ground arith in
    let b : ltb c 0x800 ≡ false = ground arith in
    let b' : ltb c 0x10000 ≡ true = ground arith in
    let d : c / 4096 ≡ x = omega arith in
    let e : c / 64 % 64 ≡ y = omega arith in
    let f : c % 64 ≡ z = omega arith in
    rw (a, b, b', cont_byte c, cont_byte (c / 64), d, e, f, lead_three x hx) refl

pub bytes_four :
    (x y z v : ℕ)
    → 16 ≤ x * 64 + y
    → x * 64 + y < 272
    → y < 64
    → z < 64
    → v < 64
    → code_point_bytes (((x * 64 + y) * 64 + z) * 64 + v)
      ≡ some ((240 + x) ∷ (128 + y) ∷ (128 + z) ∷ (128 + v) ∷ [])
unfolding code_point_bytes
bytes_four x y z v h hx hy hz hv =
    let c = ((x * 64 + y) * 64 + z) * 64 + v in
    let a : ltb c 0x80 ≡ false = ground arith in
    let b : ltb c 0x800 ≡ false = ground arith in
    let b' : ltb c 0x10000 ≡ false = ground arith in
    let b2 : ltb c 0x110000 ≡ true = ground arith in
    let d : c / 262144 ≡ x = omega arith in
    let e : c / 4096 % 64 ≡ y = omega arith in
    let f : c / 64 % 64 ≡ z = omega arith in
    let g : c % 64 ≡ v = omega arith in
    rw
      (
        a,
        b,
        b',
        b2,
        cont_byte c,
        cont_byte (c / 64),
        cont_byte (c / 4096),
        d,
        e,
        f,
        g,
        lead_four x (omega arith),
      )
      refl

pub point_one_lem : (x : ℕ) (rest : List ℕ) → x < 128 → code_point x rest ≡ some x
unfolding code_point
point_one_lem x rest h =
    let a : ltb 0xEF x ≡ false = ground arith in
    let b : ltb 0xDF x ≡ false = ground arith in
    let c : ltb 0xBF x ≡ false = ground arith in
    let d : ltb x 0x80 ≡ true = ground arith in rw (a, b, c, d) refl

pub point_two_lem :
    (x y : ℕ) (rest : List ℕ)
    → 2 ≤ x
    → x < 32
    → y < 64
    → code_point (192 + x) ((128 + y) ∷ rest) ≡ some (x * 64 + y)
unfolding code_point
point_two_lem x y rest h hx hy =
    let a : ltb 0xEF (192 + x) ≡ false = ground arith in
    let b : ltb 0xDF (192 + x) ≡ false = ground arith in
    let c : ltb 0xBF (192 + x) ≡ true = ground arith in
    let big : ltb 0x7F (x * 64 + y) ≡ true = ground arith in
    rw
      (
        a,
        b,
        c,
        cont_continues y hy,
        low_two x hx,
        cont_low y hy,
        shl_small x 6 (omega arith),
        bit_or-add 6 x y hy,
        big,
      )
      refl

or_three :
    (x y z : ℕ)
    → y < 64
    → z < 64
    → bit_or (bit_or (x * 2 ^ 12) (y * 2 ^ 6)) z ≡ (x * 64 + y) * 64 + z
or_three x y z hy hz =
    ap (λ t. bit_or t z) (bit_or-add 12 x (y * 2 ^ 6) (omega arith) ∙ same)
    ∙ bit_or-add 6 (x * 64 + y) z hz
  where
    same : x * 2 ^ 12 + y * 2 ^ 6 ≡ (x * 64 + y) * 2 ^ 6
    same = omega arith

pub point_three_lem :
    (x y z : ℕ) (rest : List ℕ)
    → 32 ≤ x * 64 + y
    → x < 16
    → y < 64
    → z < 64
    → (ltb ((x * 64 + y) * 64 + z) 0xD800 || ltb 0xDFFF ((x * 64 + y) * 64 + z)) ≡ true
    → code_point (224 + x) ((128 + y) ∷ (128 + z) ∷ rest) ≡ some ((x * 64 + y) * 64 + z)
unfolding code_point
point_three_lem x y z rest h hx hy hz scalar =
    let a : ltb 0xEF (224 + x) ≡ false = ground arith in
    let b : ltb 0xDF (224 + x) ≡ true = ground arith in
    let big : ltb 0x7FF ((x * 64 + y) * 64 + z) ≡ true = ground arith in
    rw
      (
        a,
        b,
        cont_continues y hy,
        cont_continues z hz,
        low_three x hx,
        cont_low y hy,
        cont_low z hz,
        shl_small x 12 (omega arith),
        shl_small y 6 (omega arith),
        or_three x y z hy hz,
        big,
        scalar,
      )
      refl

or_four :
    (x y z v : ℕ)
    → y < 64
    → z < 64
    → v < 64
    → bit_or (bit_or (bit_or (x * 2 ^ 18) (y * 2 ^ 12)) (z * 2 ^ 6)) v
      ≡ ((x * 64 + y) * 64 + z) * 64 + v
or_four x y z v hy hz hv =
    ap (λ t. bit_or (bit_or t (z * 2 ^ 6)) v) (bit_or-add 18 x (y * 2 ^ 12) (omega arith) ∙ same)
    ∙ or_three (x * 64 + y) z v hz hv
  where
    same : x * 2 ^ 18 + y * 2 ^ 12 ≡ (x * 64 + y) * 2 ^ 12
    same = omega arith

pub point_four_lem :
    (x y z v : ℕ) (rest : List ℕ)
    → 16 ≤ x * 64 + y
    → x * 64 + y < 272
    → y < 64
    → z < 64
    → v < 64
    → code_point (240 + x) ((128 + y) ∷ (128 + z) ∷ (128 + v) ∷ rest)
      ≡ some (((x * 64 + y) * 64 + z) * 64 + v)
unfolding code_point
point_four_lem x y z v rest h below hy hz hv =
    let a : ltb 0xEF (240 + x) ≡ true = ground arith in
    let hx : x < 8 = omega arith in
    let big : ltb 0xFFFF (((x * 64 + y) * 64 + z) * 64 + v) ≡ true = ground arith in
    let small : ltb (((x * 64 + y) * 64 + z) * 64 + v) 0x110000 ≡ true = ground arith in
    rw
      (
        a,
        cont_continues y hy,
        cont_continues z hz,
        cont_continues v hv,
        low_four x hx,
        cont_low y hy,
        cont_low z hz,
        cont_low v hv,
        shl_small x 18 (omega arith),
        shl_small y 12 (omega arith),
        shl_small z 6 (omega arith),
        or_four x y z v hy hz hv,
        big,
        small,
      )
      refl
