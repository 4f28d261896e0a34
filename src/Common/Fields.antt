-- ===== src/Common/Fields.antt =====
-- Bytes joined by `|` and shifts on 32-bit patterns.
use winterjs.Common.{ℕ, ◌+◌, ◌*◌, ◌%◌, ◌^◌, ◌<◌, ◌≡◌, ◌∙◌, arith, bit_or}
use winterjs.Common.Bits.{bit_or-add, bit_or_comm}

-- The same fields with the low one first.
pub bit_or-add_low : (k q r : ℕ) → r < 2 ^ k → bit_or r (q * 2 ^ k) ≡ q * 2 ^ k + r
bit_or-add_low k q r h = bit_or_comm r (q * 2 ^ k) ∙ bit_or-add k q r h

-- A byte shifted within 32 bits loses nothing.
pub shift_fits : (b k : ℕ) → b * 2 ^ k < 2 ^ 32 → b * 2 ^ k % 2 ^ 32 ≡ b * 2 ^ k
shift_fits b k h = omega arith

pub join_low_first :
    (a b c d : ℕ)
    → a < 256
    → b < 256
    → c < 256
    → d < 256
    → (bit_or a (b * 2 ^ 8 % 2 ^ 32) ≡ a + 256 * b)
      × (bit_or (bit_or a (b * 2 ^ 8 % 2 ^ 32)) (c * 2 ^ 16 % 2 ^ 32) ≡ a + 256 * b + 65536 * c)
      × (bit_or (bit_or (bit_or a (b * 2 ^ 8 % 2 ^ 32)) (c * 2 ^ 16 % 2 ^ 32)) (d * 2 ^ 24 % 2 ^ 32)
          ≡ a + 256 * b + 65536 * c + 16777216 * d)
join_low_first a b c d ha hb hc hd = (two, three, four)
  where
    two : bit_or a (b * 2 ^ 8 % 2 ^ 32) ≡ a + 256 * b
    two = rw (shift_fits b 8 (omega arith), bit_or-add_low 8 b a (omega arith)) (omega arith)

    three : bit_or (bit_or a (b * 2 ^ 8 % 2 ^ 32)) (c * 2 ^ 16 % 2 ^ 32) ≡ a + 256 * b + 65536 * c
    three =
        rw (two, shift_fits c 16 (omega arith), bit_or-add_low 16 c (a + 256 * b) (omega arith))
          (omega arith)

    four :
        bit_or (bit_or (bit_or a (b * 2 ^ 8 % 2 ^ 32)) (c * 2 ^ 16 % 2 ^ 32)) (d * 2 ^ 24 % 2 ^ 32)
        ≡ a + 256 * b + 65536 * c + 16777216 * d
    four =
        rw
          (
            three,
            shift_fits d 24 (omega arith),
            bit_or-add_low 24 d (a + 256 * b + 65536 * c) (omega arith),
          )
          (omega arith)

pub join_high_first :
    (a b c d : ℕ)
    → a < 256
    → b < 256
    → c < 256
    → d < 256
    → (bit_or (c * 2 ^ 8 % 2 ^ 32) d ≡ c * 256 + d)
      × (bit_or (bit_or (b * 2 ^ 16 % 2 ^ 32) (c * 2 ^ 8 % 2 ^ 32)) d ≡ b * 65536 + c * 256 + d)
      × (bit_or (bit_or (bit_or (a * 2 ^ 24 % 2 ^ 32) (b * 2 ^ 16 % 2 ^ 32)) (c * 2 ^ 8 % 2 ^ 32)) d
          ≡ a * 16777216 + b * 65536 + c * 256 + d)
join_high_first a b c d ha hb hc hd = (two, three, four)
  where
    two : bit_or (c * 2 ^ 8 % 2 ^ 32) d ≡ c * 256 + d
    two = rw (shift_fits c 8 (omega arith)) (bit_or-add 8 c d (omega arith))

    regroup : b * 2 ^ 16 + c * 2 ^ 8 ≡ (b * 256 + c) * 2 ^ 8
    regroup = omega arith

    three : bit_or (bit_or (b * 2 ^ 16 % 2 ^ 32) (c * 2 ^ 8 % 2 ^ 32)) d ≡ b * 65536 + c * 256 + d
    three =
        rw
          (
            shift_fits b 16 (omega arith),
            shift_fits c 8 (omega arith),
            bit_or-add 16 b (c * 2 ^ 8) (omega arith),
            regroup,
            bit_or-add 8 (b * 256 + c) d (omega arith),
          )
          (omega arith)

    regroup_high : a * 2 ^ 24 + b * 2 ^ 16 ≡ (a * 256 + b) * 2 ^ 16
    regroup_high = omega arith

    regroup_all : (a * 256 + b) * 2 ^ 16 + c * 2 ^ 8 ≡ (a * 65536 + b * 256 + c) * 2 ^ 8
    regroup_all = omega arith

    four :
        bit_or (bit_or (bit_or (a * 2 ^ 24 % 2 ^ 32) (b * 2 ^ 16 % 2 ^ 32)) (c * 2 ^ 8 % 2 ^ 32)) d
        ≡ a * 16777216 + b * 65536 + c * 256 + d
    four =
        rw
          (
            shift_fits a 24 (omega arith),
            shift_fits b 16 (omega arith),
            shift_fits c 8 (omega arith),
            bit_or-add 24 a (b * 2 ^ 16) (omega arith),
            regroup_high,
            bit_or-add 16 (a * 256 + b) (c * 2 ^ 8) (omega arith),
            regroup_all,
            bit_or-add 8 (a * 65536 + b * 256 + c) d (omega arith),
          )
          (omega arith)
