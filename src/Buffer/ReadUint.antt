-- ===== src/Buffer/ReadUint.antt =====
-- buffer.js: `readUIntLE` to `readBigUInt64BE`, the accessors that read an unsigned number.
-- A result of `none` is undefined or NaN, which a read past the end gives under `noAssert`.
pub mod Laws
use winterjs.Common.{ℕ, zero, suc, ◌+◌, ◌-◌, ◌*◌, ◌^◌, ◌%◌, bit_or, ◌≤◌, Bool}
use winterjs.Common.{List, Option, none, some, length, get_elem?}
use winterjs.Common.Int.{ℤ}
use winterjs.Js.{Result, ok, err, ◌>>=◌, ◌>>◌}
use winterjs.Js.Int32.{to_uint32, shl, word, ◌+?◌, ◌*?◌}
use winterjs.Buffer.{assert_offset, bounds_error}

-- The argument `byteLength`, where the arithmetic of the loops is exact: behind `>>> 0` it is at most
-- six, so that every number stays below 2 ^ 48. With more bytes a double would round.
abbrev pub ByteLength : Type 0
ByteLength = (n : ℤ) × (to_uint32 n ≤ 6)

-- `while (++i < byteLength && (mul *= 0x100)) val += this[offset + i] * mul`: the rounds left, the
-- position `offset + i` of the round, `mul` before it, and `val`.
unfoldable pub read_up : List ℕ → ℕ → ℕ → ℕ → Option ℕ → Option ℕ
read_up buf zero at_pos mul val = val
read_up buf (suc rounds) at_pos mul val =
    read_up buf rounds (at_pos + 1) (mul * 0x100) (val +? get_elem? buf at_pos *? (mul * 0x100))

-- `readUIntLE`
unfoldable pub read_uint_le : List ℕ → ℤ → ByteLength → Bool → Result (Option ℕ)
unfolding read_up
read_uint_le buf offset byte_length no_assert = do
  let o = to_uint32 offset
  let n = to_uint32 byte_length.0
  assert_offset no_assert o n (length buf)
  ok (read_up buf (n - 1) (o + 1) 1 (get_elem? buf o))

-- `this[i - 1]`, which is undefined at `i` = 0.
unfoldable pub elem_before : List ℕ → ℕ → Option ℕ
elem_before buf zero = none
elem_before buf (suc i) = get_elem? buf i

-- `while (byteLength > 0 && (mul *= 0x100)) val += this[offset + --byteLength] * mul`: `byteLength`
-- is the rounds left.
unfoldable pub read_down : List ℕ → ℕ → ℕ → ℕ → Option ℕ → Option ℕ
read_down buf zero offset mul val = val
read_down buf (suc rounds) offset mul val =
    read_down buf rounds offset (mul * 0x100)
      (val +? get_elem? buf (offset + rounds) *? (mul * 0x100))

-- `readUIntBE`; at a `byteLength` of 0 it reads the byte before the offset.
unfoldable pub read_uint_be : List ℕ → ℤ → ByteLength → Bool → Result (Option ℕ)
unfolding read_down elem_before
read_uint_be buf offset byte_length no_assert = do
  let o = to_uint32 offset
  let n = to_uint32 byte_length.0
  assert_offset no_assert o n (length buf)
  ok (read_down buf (n - 1) o 1 (elem_before buf (o + n)))

-- `readUInt8`
unfoldable pub read_uint8 : List ℕ → ℤ → Bool → Result (Option ℕ)
read_uint8 buf offset no_assert = do
  let o = to_uint32 offset
  assert_offset no_assert o 1 (length buf)
  ok (get_elem? buf o)

-- `readUInt16LE`
unfoldable pub read_uint16_le : List ℕ → ℤ → Bool → Result (Option ℕ)
read_uint16_le buf offset no_assert = do
  let o = to_uint32 offset
  assert_offset no_assert o 2 (length buf)
  ok (some (bit_or (word (get_elem? buf o)) (shl (word (get_elem? buf (o + 1))) 8)))

-- `readUInt16BE`
unfoldable pub read_uint16_be : List ℕ → ℤ → Bool → Result (Option ℕ)
read_uint16_be buf offset no_assert = do
  let o = to_uint32 offset
  assert_offset no_assert o 2 (length buf)
  ok (some (bit_or (shl (word (get_elem? buf o)) 8) (word (get_elem? buf (o + 1)))))

-- `readUInt32LE`
unfoldable pub read_uint32_le : List ℕ → ℤ → Bool → Result (Option ℕ)
read_uint32_le buf offset no_assert = do
  let o = to_uint32 offset
  assert_offset no_assert o 4 (length buf)
  let low =
      bit_or (bit_or (word (get_elem? buf o)) (shl (word (get_elem? buf (o + 1))) 8))
        (shl (word (get_elem? buf (o + 2))) 16)
  ok (some low +? get_elem? buf (o + 3) *? 0x1000000)

-- `readUInt32BE`
unfoldable pub read_uint32_be : List ℕ → ℤ → Bool → Result (Option ℕ)
read_uint32_be buf offset no_assert = do
  let o = to_uint32 offset
  assert_offset no_assert o 4 (length buf)
  let low =
      bit_or (bit_or (shl (word (get_elem? buf (o + 1))) 16) (shl (word (get_elem? buf (o + 2))) 8))
        (word (get_elem? buf (o + 3)))
  ok (get_elem? buf o *? 0x1000000 +? some low)

-- The test that `first` and `last` are defined, before a 64-bit read at `o`.
unfoldable pub both_ends : List ℕ → ℕ → Result (ℕ × ℕ)
unfolding bounds_error
both_ends buf o = elim (get_elem? buf o) [
  | none ↦ bounds_error (length buf)
  | some first ↦ elim (get_elem? buf (o + 7)) [
    | none ↦ bounds_error (length buf)
    | some last ↦ ok (first, last)
  ]
]

-- `readBigUInt64LE`: the elements between two that are defined are defined.
unfoldable pub read_big_uint64_le : List ℕ → ℤ → Result ℕ
read_big_uint64_le buf offset = do
  let o = to_uint32 offset
  (first, last) ← both_ends buf o
  let lo =
      first
      + word (get_elem? buf (o + 1)) * 2 ^ 8
      + word (get_elem? buf (o + 2)) * 2 ^ 16
      + word (get_elem? buf (o + 3)) * 2 ^ 24
  let hi =
      word (get_elem? buf (o + 4))
      + word (get_elem? buf (o + 5)) * 2 ^ 8
      + word (get_elem? buf (o + 6)) * 2 ^ 16
      + last * 2 ^ 24
  ok (lo + hi * 2 ^ 32)

-- `readBigUInt64BE`
unfoldable pub read_big_uint64_be : List ℕ → ℤ → Result ℕ
read_big_uint64_be buf offset = do
  let o = to_uint32 offset
  (first, last) ← both_ends buf o
  let hi =
      first * 2 ^ 24
      + word (get_elem? buf (o + 1)) * 2 ^ 16
      + word (get_elem? buf (o + 2)) * 2 ^ 8
      + word (get_elem? buf (o + 3))
  let lo =
      word (get_elem? buf (o + 4)) * 2 ^ 24
      + word (get_elem? buf (o + 5)) * 2 ^ 16
      + word (get_elem? buf (o + 6)) * 2 ^ 8
      + last
  ok (hi * 2 ^ 32 + lo)
