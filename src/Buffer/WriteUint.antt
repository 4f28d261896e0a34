-- ===== src/Buffer/WriteUint.antt =====
-- buffer.js: `writeUIntLE` to `writeUInt32BE`. A method returns the new bytes and the offset behind
-- what it wrote.
pub mod Laws
use winterjs.Common.{ℕ, zero, suc, ◌+◌, ◌-◌, ◌*◌, ◌/◌, ◌%◌, ◌^◌, bit_and, Bool}
use winterjs.Common.{List, length, set, ltb, if◌then◌else◌}
use winterjs.Common.Int.{ℤ, pos}
use winterjs.Js.{Result, ok, err, ◌>>=◌, ◌>>◌, store}
use winterjs.Js.Int32.{to_uint32, shr, trunc_div}
use winterjs.Buffer.{assert_int}

-- `value & 0xFF`
abbrev pub low_byte : ℤ → ℕ
low_byte value = bit_and (to_uint32 value) 0xff

-- `maxBytes = Math.pow(2, 8 * byteLength) - 1`, which is `2 ** (8 * byteLength)` as a double from
-- seven bytes on.
unfoldable pub max_bytes : ℕ → ℕ
max_bytes n = if ltb 6 n then 2 ^ (8 * n) else 2 ^ (8 * n) - 1

-- `while (++i < byteLength && (mul *= 0x100)) this[offset + i] = (value / mul) & 0xFF`: the rounds
-- left, the position `offset + i` of the round, and `mul` before it.
unfoldable pub write_up : ℕ → ℕ → ℕ → ℤ → List ℕ → List ℕ
write_up zero at_pos mul value buf = buf
write_up (suc rounds) at_pos mul value buf =
    write_up rounds (at_pos + 1) (mul * 0x100) value
      (store buf at_pos (low_byte (trunc_div value (mul * 0x100))))

-- `writeUIntLE`
unfoldable pub write_uint_le : List ℕ → ℤ → ℤ → ℤ → Bool → Result (List ℕ × ℕ)
unfolding write_up
write_uint_le buf value offset byte_length no_assert = do
  let o = to_uint32 offset
  let n = to_uint32 byte_length
  assert_int no_assert (length buf) value o n (pos (max_bytes n)) (pos 0)
  ok (write_up (n - 1) (o + 1) 1 value (store buf o (low_byte value)), o + n)

-- `this[i - 1] = v`, which writes nothing at `i` = 0.
unfoldable pub store_before : List ℕ → ℕ → ℕ → List ℕ
store_before buf zero v = buf
store_before buf (suc i) v = store buf i v

-- `while (--i >= 0 && (mul *= 0x100)) this[offset + i] = (value / mul) & 0xFF`: `i` is the rounds
-- left.
unfoldable pub write_down : ℕ → ℕ → ℕ → ℤ → List ℕ → List ℕ
write_down zero offset mul value buf = buf
write_down (suc i) offset mul value buf =
    write_down i offset (mul * 0x100) value
      (store buf (offset + i) (low_byte (trunc_div value (mul * 0x100))))

-- `writeUIntBE`; at a `byteLength` of 0 it writes the byte before the offset.
unfoldable pub write_uint_be : List ℕ → ℤ → ℤ → ℤ → Bool → Result (List ℕ × ℕ)
unfolding write_down store_before
write_uint_be buf value offset byte_length no_assert = do
  let o = to_uint32 offset
  let n = to_uint32 byte_length
  assert_int no_assert (length buf) value o n (pos (max_bytes n)) (pos 0)
  ok (write_down (n - 1) o 1 value (store_before buf (o + n) (low_byte value)), o + n)

-- `writeUInt8`
unfoldable pub write_uint8 : List ℕ → ℤ → ℤ → Bool → Result (List ℕ × ℕ)
write_uint8 buf value offset no_assert = do
  let o = to_uint32 offset
  assert_int no_assert (length buf) value o 1 (pos 0xff) (pos 0)
  ok (store buf o (low_byte value), o + 1)

-- `writeUInt16LE`
unfoldable pub write_uint16_le : List ℕ → ℤ → ℤ → Bool → Result (List ℕ × ℕ)
write_uint16_le buf value offset no_assert = do
  let o = to_uint32 offset
  assert_int no_assert (length buf) value o 2 (pos 0xffff) (pos 0)
  ok (store (store buf o (low_byte value)) (o + 1) (shr (to_uint32 value) 8), o + 2)

-- `writeUInt16BE`
unfoldable pub write_uint16_be : List ℕ → ℤ → ℤ → Bool → Result (List ℕ × ℕ)
write_uint16_be buf value offset no_assert = do
  let o = to_uint32 offset
  assert_int no_assert (length buf) value o 2 (pos 0xffff) (pos 0)
  ok (store (store buf o (shr (to_uint32 value) 8)) (o + 1) (low_byte value), o + 2)

-- `writeUInt32LE`, which stores the highest byte first.
unfoldable pub write_uint32_le : List ℕ → ℤ → ℤ → Bool → Result (List ℕ × ℕ)
write_uint32_le buf value offset no_assert = do
  let o = to_uint32 offset
  assert_int no_assert (length buf) value o 4 (pos 0xffffffff) (pos 0)
  let buf3 = store buf (o + 3) (shr (to_uint32 value) 24)
  let buf2 = store buf3 (o + 2) (shr (to_uint32 value) 16)
  let buf1 = store buf2 (o + 1) (shr (to_uint32 value) 8)
  ok (store buf1 o (low_byte value), o + 4)

-- `writeUInt32BE`
unfoldable pub write_uint32_be : List ℕ → ℤ → ℤ → Bool → Result (List ℕ × ℕ)
write_uint32_be buf value offset no_assert = do
  let o = to_uint32 offset
  assert_int no_assert (length buf) value o 4 (pos 0xffffffff) (pos 0)
  let buf0 = store buf o (shr (to_uint32 value) 24)
  let buf1 = store buf0 (o + 1) (shr (to_uint32 value) 16)
  let buf2 = store buf1 (o + 2) (shr (to_uint32 value) 8)
  ok (store buf2 (o + 3) (low_byte value), o + 4)
