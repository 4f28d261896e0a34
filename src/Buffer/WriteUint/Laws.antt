-- ===== src/Buffer/WriteUint/Laws.antt =====
-- Every accessor of unsigned numbers writes the bytes of its value, and nothing else.
use native.Mathlib.Nat.{div-div-eq-div-mul}
use winterjs.Common.{ℕ, zero, suc, ◌+◌, ◌-◌, ◌*◌, ◌/◌, ◌%◌, ◌^◌, ◌<◌, ◌≤◌, ◌≡◌, sym, ap, arith}
use winterjs.Common.{Bool, List, length, set, length-set}
use winterjs.Common.Bits.{bit_and-mod}
use winterjs.Common.Int.{ℤ, pos}
use winterjs.Js.{ok}
use winterjs.Js.Int32.{to_uint32, shr}
use winterjs.Buffer.{assert_int}
use winterjs.Buffer.Window.{
  splice, splice-set, splice-nil, le_bytes, be_bytes, length-be_bytes, set_two, set_four,
  set_four_down, splice-set_end, pow-bits,
}
use winterjs.Common.{ltb, if◌then◌else◌}
use winterjs.Buffer.WriteUint.{
  max_bytes, low_byte, write_up, write_down, write_uint_le, write_uint_be, store_before,
  write_uint16_le, write_uint16_be, write_uint32_le, write_uint32_be,
}

max_bytes-le : (n v : ℕ) → v < 256 ^ n → v ≤ max_bytes n
unfolding max_bytes
max_bytes-le n v h = at_most (2 ^ (8 * n)) (omega (arith, pow-bits n))
  where
    at_most : (p : ℕ) → v < p → v ≤ (if ltb 6 n then p else p - 1)
    at_most p h = ground arith

-- The checks pass for a value that fits, inside the buffer.
pub assert_int-ok :
    (no_assert : Bool) (len v o ext max : ℕ)
    → v ≤ max
    → o + ext ≤ len
    → assert_int no_assert len (pos v) o ext (pos max) (pos 0) ≡ ok tt
unfolding assert_int
assert_int-ok no_assert len v o ext max h k = ground arith

low_byte-mod : (v : ℕ) → low_byte (pos v) % 256 ≡ v % 256
low_byte-mod v = omega (arith, bit_and-mod 8 (v % 2 ^ 32))

write_up-splice :
    (rounds o mul v : ℕ) (buf : List ℕ)
    → o + rounds ≤ length buf
    → write_up rounds o mul (pos v) buf ≡ splice buf o (le_bytes rounds (v / (mul * 256)))
unfolding write_up
write_up-splice zero o mul v buf h = sym (splice-nil buf o)
write_up-splice (suc rounds) o mul v buf h = rw (
  low_byte-mod (v / (mul * 256)),
  write_up-splice rounds (o + 1) (mul * 256) v (set buf o (v / (mul * 256) % 256))
      (omega (arith, length-set buf o (v / (mul * 256) % 256))),
  splice-set buf o (v / (mul * 256) % 256) _ (omega arith),
  div-div-eq-div-mul v (mul * 256) 256,
)

write_down-splice :
    (rounds o mul v : ℕ) (buf : List ℕ)
    → o + rounds ≤ length buf
    → write_down rounds o mul (pos v) buf ≡ splice buf o (be_bytes rounds (v / (mul * 256)))
unfolding write_down
write_down-splice zero o mul v buf h = sym (splice-nil buf o)
write_down-splice (suc rounds) o mul v buf h = rw (
  low_byte-mod (v / (mul * 256)),
  write_down-splice rounds o (mul * 256) v (set buf (o + rounds) (v / (mul * 256) % 256))
      (omega (arith, length-set buf (o + rounds) (v / (mul * 256) % 256))),
  splice-set_end buf o rounds (v / (mul * 256) % 256) _
      (length-be_bytes rounds (v / (mul * 256 * 256))) (omega arith),
  div-div-eq-div-mul v (mul * 256) 256,
)

module _ (buf : List ℕ) (v : ℕ) (offset : ℤ) (no_assert : Bool) where
  abbrev o : ℕ
  o = to_uint32 offset

  -- `writeUInt16LE` of a value that fits, at an offset with room for it.
  pub write_uint16_le-splice :
      v < 2 ^ 16
      → to_uint32 offset + 2 ≤ length buf
      → write_uint16_le buf (pos v) offset no_assert
        ≡ ok (splice buf (to_uint32 offset) (le_bytes 2 v), to_uint32 offset + 2)
  unfolding write_uint16_le
  write_uint16_le-splice fits h = rw (
    assert_int-ok no_assert (length buf) v o 2 0xffff (omega arith) h,
    low_byte-mod v,
    set_two buf o (v % 256) (shr (to_uint32 (pos v)) 8 % 256) h,
    (let e : v % 2 ^ 32 / 2 ^ 8 % 256 ≡ v / 256 % 256 = omega arith in e),
  )

  pub write_uint16_be-splice :
      v < 2 ^ 16
      → to_uint32 offset + 2 ≤ length buf
      → write_uint16_be buf (pos v) offset no_assert
        ≡ ok (splice buf (to_uint32 offset) (be_bytes 2 v), to_uint32 offset + 2)
  unfolding write_uint16_be
  write_uint16_be-splice fits h = rw (
    assert_int-ok no_assert (length buf) v o 2 0xffff (omega arith) h,
    low_byte-mod v,
    set_two buf o (shr (to_uint32 (pos v)) 8 % 256) (v % 256) h,
    (let e : v % 2 ^ 32 / 2 ^ 8 % 256 ≡ v / 256 % 256 = omega arith in e),
  )

  pub write_uint32_le-splice :
      v < 2 ^ 32
      → to_uint32 offset + 4 ≤ length buf
      → write_uint32_le buf (pos v) offset no_assert
        ≡ ok (splice buf (to_uint32 offset) (le_bytes 4 v), to_uint32 offset + 4)
  unfolding write_uint32_le
  write_uint32_le-splice fits h = rw (
    assert_int-ok no_assert (length buf) v o 4 0xffffffff (omega arith) h,
    low_byte-mod v,
    set_four_down buf o (v % 256) (shr (to_uint32 (pos v)) 8 % 256)
        (shr (to_uint32 (pos v)) 16 % 256) (shr (to_uint32 (pos v)) 24 % 256) h,
    (let e : v % 2 ^ 32 / 2 ^ 8 % 256 ≡ v / 256 % 256 = omega arith in e),
    (let e : v % 2 ^ 32 / 2 ^ 16 % 256 ≡ v / 256 / 256 % 256 = omega arith in e),
    (let e : v % 2 ^ 32 / 2 ^ 24 % 256 ≡ v / 256 / 256 / 256 % 256 = omega arith in e),
  )

  pub write_uint32_be-splice :
      v < 2 ^ 32
      → to_uint32 offset + 4 ≤ length buf
      → write_uint32_be buf (pos v) offset no_assert
        ≡ ok (splice buf (to_uint32 offset) (be_bytes 4 v), to_uint32 offset + 4)
  unfolding write_uint32_be
  write_uint32_be-splice fits h = rw (
    assert_int-ok no_assert (length buf) v o 4 0xffffffff (omega arith) h,
    low_byte-mod v,
    set_four buf o (shr (to_uint32 (pos v)) 24 % 256) (shr (to_uint32 (pos v)) 16 % 256)
        (shr (to_uint32 (pos v)) 8 % 256) (v % 256) h,
    (let e : v % 2 ^ 32 / 2 ^ 8 % 256 ≡ v / 256 % 256 = omega arith in e),
    (let e : v % 2 ^ 32 / 2 ^ 16 % 256 ≡ v / 256 / 256 % 256 = omega arith in e),
    (let e : v % 2 ^ 32 / 2 ^ 24 % 256 ≡ v / 256 / 256 / 256 % 256 = omega arith in e),
  )

  -- `writeUIntLE` of one byte or more, of a value that fits them.
  pub write_uint_le-splice :
      (byte_length : ℤ)
      → 0 < to_uint32 byte_length
      → v < 256 ^ to_uint32 byte_length
      → to_uint32 offset + to_uint32 byte_length ≤ length buf
      → write_uint_le buf (pos v) offset byte_length no_assert
        ≡ ok (
          splice buf (to_uint32 offset) (le_bytes (to_uint32 byte_length) v),
          to_uint32 offset + to_uint32 byte_length,
        )
  unfolding write_uint_le
  write_uint_le-splice byte_length some_byte fits h =
      let n = to_uint32 byte_length in
      rw
        (
          assert_int-ok no_assert (length buf) v o n (max_bytes n) (max_bytes-le n v fits) h,
          low_byte-mod v,
          write_up-splice (n - 1) (o + 1) 1 v (set buf o (v % 256))
              (omega (arith, length-set buf o (v % 256))),
          splice-set buf o (v % 256) _ (omega arith),
        )
        (ap (λ t. ok (splice buf o (le_bytes t v), o + n))
          (let e : suc (to_uint32 byte_length - 1) ≡ to_uint32 byte_length = omega arith in e))

  pub write_uint_be-splice :
      (byte_length : ℤ)
      → 0 < to_uint32 byte_length
      → v < 256 ^ to_uint32 byte_length
      → to_uint32 offset + to_uint32 byte_length ≤ length buf
      → write_uint_be buf (pos v) offset byte_length no_assert
        ≡ ok (
          splice buf (to_uint32 offset) (be_bytes (to_uint32 byte_length) v),
          to_uint32 offset + to_uint32 byte_length,
        )
  unfolding write_uint_be
  write_uint_be-splice byte_length some_byte fits h =
      let n = to_uint32 byte_length in
      rw
        (
          assert_int-ok no_assert (length buf) v o n (max_bytes n) (max_bytes-le n v fits) h,
          store_last (n - 1) (omega arith),
          write_down-splice (n - 1) o 1 v (set buf (o + (n - 1)) (v % 256))
              (omega (arith, length-set buf (o + (n - 1)) (v % 256))),
          splice-set_end buf o (n - 1) (v % 256) _ (length-be_bytes (n - 1) (v / (1 * 256)))
              (omega arith),
        )
        (ap (λ t. ok (splice buf o (be_bytes t v), o + n))
          (let e : suc (to_uint32 byte_length - 1) ≡ to_uint32 byte_length = omega arith in e))
    where
      store_last :
          (m : ℕ)
          → to_uint32 byte_length ≡ suc m
          → store_before buf (o + to_uint32 byte_length) (low_byte (pos v))
            ≡ set buf (o + m) (v % 256)
      store_last m e =
          rw (e, (let n : o + suc m ≡ suc (o + m) = omega arith in n))
            (unfold store_before in ap (set buf (o + m)) (low_byte-mod v))
