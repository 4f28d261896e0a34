-- ===== src/Buffer/ReadInt.antt =====
-- buffer.js: `readIntLE` to `readBigInt64BE`, the accessors that read a signed number.
-- A result of `none` is undefined or NaN, as in `ReadUint`.
pub mod Laws
use winterjs.Common.{ℕ, zero, suc, ◌+◌, ◌-◌, ◌*◌, ◌^◌, ◌%◌, bit_or, bit_and, Bool}
use winterjs.Common.{List, Option, none, some, length, get_elem?, leb, ◌==◌, if◌then◌else◌}
use winterjs.Common.Int.{ℤ, pos, sub_ℕ, ◌+ℤ◌, ◌*ℤ◌}
use winterjs.Js.{Result, ok, err, ◌>>=◌, ◌>>◌}
use winterjs.Js.Int32.{to_uint32, shl, word, signed32}
use winterjs.Buffer.{assert_offset}
use winterjs.Buffer.ReadUint.{ByteLength, read_up, read_down, elem_before, both_ends}

-- `mul *= 0x80; if (val >= mul) val -= Math.pow(2, 8 * byteLength)`, where the loop has left 0x100 to
-- the number of its rounds in `mul`. NaN fails the test.
unfoldable pub to_signed : ℕ → Option ℕ → Option ℤ
to_signed n none = none
to_signed n (some val) =
    if leb (0x100 ^ (n - 1) * 0x80) val then some (sub_ℕ val (2 ^ (8 * n))) else some (pos val)

-- `readIntLE`
unfoldable pub read_int_le : List ℕ → ℤ → ByteLength → Bool → Result (Option ℤ)
unfolding read_up to_signed
read_int_le buf offset byte_length no_assert = do
  let o = to_uint32 offset
  let n = to_uint32 byte_length.0
  assert_offset no_assert o n (length buf)
  ok (to_signed n (read_up buf (n - 1) (o + 1) 1 (get_elem? buf o)))

-- `readIntBE`
unfoldable pub read_int_be : List ℕ → ℤ → ByteLength → Bool → Result (Option ℤ)
unfolding read_down elem_before to_signed
read_int_be buf offset byte_length no_assert = do
  let o = to_uint32 offset
  let n = to_uint32 byte_length.0
  assert_offset no_assert o n (length buf)
  ok (to_signed n (read_down buf (n - 1) o 1 (elem_before buf (o + n))))

-- The value of one byte, with its sign.
unfoldable pub byte_signed : Option ℕ → Option ℤ
byte_signed none = none
byte_signed (some b) = if bit_and b 0x80 == 0 then some (pos b) else some (sub_ℕ 0 (0xff - b + 1))

-- `readInt8`
unfoldable pub read_int8 : List ℕ → ℤ → Bool → Result (Option ℤ)
unfolding byte_signed
read_int8 buf offset no_assert = do
  let o = to_uint32 offset
  assert_offset no_assert o 1 (length buf)
  ok (byte_signed (get_elem? buf o))

-- `(val & 0x8000) ? val | 0xFFFF0000 : val`
unfoldable pub sign_extend16 : ℕ → ℤ
sign_extend16 val = if bit_and val 0x8000 == 0 then pos val else signed32 (bit_or val 0xFFFF0000)

-- `readInt16LE`
unfoldable pub read_int16_le : List ℕ → ℤ → Bool → Result (Option ℤ)
unfolding sign_extend16
read_int16_le buf offset no_assert = do
  let o = to_uint32 offset
  assert_offset no_assert o 2 (length buf)
  let val = bit_or (word (get_elem? buf o)) (shl (word (get_elem? buf (o + 1))) 8)
  ok (some (sign_extend16 val))

-- `readInt16BE`
unfoldable pub read_int16_be : List ℕ → ℤ → Bool → Result (Option ℤ)
unfolding sign_extend16
read_int16_be buf offset no_assert = do
  let o = to_uint32 offset
  assert_offset no_assert o 2 (length buf)
  let val = bit_or (word (get_elem? buf (o + 1))) (shl (word (get_elem? buf o)) 8)
  ok (some (sign_extend16 val))

-- `readInt32LE`
unfoldable pub read_int32_le : List ℕ → ℤ → Bool → Result (Option ℤ)
read_int32_le buf offset no_assert = do
  let o = to_uint32 offset
  assert_offset no_assert o 4 (length buf)
  let low =
      bit_or (bit_or (word (get_elem? buf o)) (shl (word (get_elem? buf (o + 1))) 8))
        (shl (word (get_elem? buf (o + 2))) 16)
  ok (some (signed32 (bit_or low (shl (word (get_elem? buf (o + 3))) 24))))

-- `readInt32BE`
unfoldable pub read_int32_be : List ℕ → ℤ → Bool → Result (Option ℤ)
read_int32_be buf offset no_assert = do
  let o = to_uint32 offset
  assert_offset no_assert o 4 (length buf)
  let high =
      bit_or (bit_or (shl (word (get_elem? buf o)) 24) (shl (word (get_elem? buf (o + 1))) 16))
        (shl (word (get_elem? buf (o + 2))) 8)
  ok (some (signed32 (bit_or high (word (get_elem? buf (o + 3))))))

-- `readBigInt64LE`; `last << 24` is an int32.
unfoldable pub read_big_int64_le : List ℕ → ℤ → Result ℤ
read_big_int64_le buf offset = do
  let o = to_uint32 offset
  (first, last) ← both_ends buf o
  let val =
      pos (
        word (get_elem? buf (o + 4))
        + word (get_elem? buf (o + 5)) * 2 ^ 8
        + word (get_elem? buf (o + 6)) * 2 ^ 16)
      +ℤ signed32 (shl last 24)
  let lo =
      first
      + word (get_elem? buf (o + 1)) * 2 ^ 8
      + word (get_elem? buf (o + 2)) * 2 ^ 16
      + word (get_elem? buf (o + 3)) * 2 ^ 24
  ok (val *ℤ pos (2 ^ 32) +ℤ pos lo)

-- `readBigInt64BE`; `first << 24` is an int32.
unfoldable pub read_big_int64_be : List ℕ → ℤ → Result ℤ
read_big_int64_be buf offset = do
  let o = to_uint32 offset
  (first, last) ← both_ends buf o
  let val =
      signed32 (shl first 24)
      +ℤ pos (
          word (get_elem? buf (o + 1)) * 2 ^ 16
          + word (get_elem? buf (o + 2)) * 2 ^ 8
          + word (get_elem? buf (o + 3)))
  let lo =
      word (get_elem? buf (o + 4)) * 2 ^ 24
      + word (get_elem? buf (o + 5)) * 2 ^ 16
      + word (get_elem? buf (o + 6)) * 2 ^ 8
      + last
  ok (val *ℤ pos (2 ^ 32) +ℤ pos lo)
