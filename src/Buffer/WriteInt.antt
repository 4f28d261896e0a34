-- ===== src/Buffer/WriteInt.antt =====
-- buffer.js: `writeIntLE` to `writeInt32BE`.
pub mod Laws
use winterjs.Common.{
  ℕ, zero, suc, ◌+◌, ◌-◌, ◌*◌, ◌/◌, ◌%◌, ◌^◌, bit_and, Bool, true, false, ◌&&◌, ◌||◌, not,
}
use winterjs.Common.{List, Option, none, some, length, set, get_elem?, ltb, ◌==◌, if◌then◌else◌}
use winterjs.Common.Int.{ℤ, pos, negsuc, pos_part, ltb_ℤ, ◌-ℤ◌, ◌+ℤ◌}
use winterjs.Js.{Result, ok, err, ◌>>=◌, ◌>>◌, throw_if, store, value_out_of_bounds}
use winterjs.Js.Int32.{to_uint32, shr, trunc_div, signed32}
use winterjs.Buffer.{assert_int}
use winterjs.Buffer.WriteUint.{low_byte}

-- The check of `writeIntLE` and `writeIntBE`, with `limit = 2 ** (8 * byteLength - 1)`. At a
-- `byteLength` that is not positive the limit is at most 1/2, and every integer lies outside. As
-- doubles, `limit - 1` and `limit` are the same from seven bytes on.
unfoldable pub assert_signed : Bool → ℕ → ℤ → ℕ → ℤ → Result (Unit {0})
assert_signed true len value o n = ok tt
assert_signed false len value o (negsuc m) = err value_out_of_bounds
assert_signed false len value o (pos zero) = err value_out_of_bounds
assert_signed false len value o (pos (suc m)) =
    let limit = 2 ^ (8 * suc m - 1) in
    let highest = if ltb 6 (suc m) then limit else limit - 1 in
    assert_int false len value o (suc m) (pos highest) (pos 0 -ℤ pos limit)

-- `value < 0 && sub === 0 && b !== 0` for the byte `b` just written; undefined is not 0.
unfoldable pub borrows : ℤ → ℕ → Option ℕ → Bool
borrows value sub none = ltb_ℤ value (pos 0) && sub == 0
borrows value sub (some b) = ltb_ℤ value (pos 0) && sub == 0 && not (b == 0)

-- `((value / mul) >> 0) - sub & 0xFF`
abbrev pub signed_byte : ℤ → ℕ → ℕ → ℕ
signed_byte value mul sub =
    bit_and (to_uint32 (signed32 (to_uint32 (trunc_div value mul)) -ℤ pos sub)) 0xff

-- The loop of `writeIntLE`: the rounds left, the position of the round, and `mul` and `sub`.
unfoldable pub write_signed_up : ℕ → ℕ → ℕ → ℕ → ℤ → List ℕ → List ℕ
unfolding borrows
write_signed_up zero at_pos mul sub value buf = buf
write_signed_up (suc rounds) at_pos mul sub value buf =
    let mul' = mul * 0x100 in
    let sub' = if borrows value sub (get_elem? buf (at_pos - 1)) then 1 else sub in
    write_signed_up rounds (at_pos + 1) mul' sub' value
      (store buf at_pos (signed_byte value mul' sub'))

-- `writeIntLE`, which does not convert `byteLength`.
unfoldable pub write_int_le : List ℕ → ℤ → ℤ → ℤ → Bool → Result (List ℕ × ℤ)
unfolding write_signed_up assert_signed
write_int_le buf value offset byte_length no_assert = do
  let o = to_uint32 offset
  assert_signed no_assert (length buf) value o byte_length
  let stored = store buf o (low_byte value)
  ok (write_signed_up (pos_part byte_length - 1) (o + 1) 1 0 value stored, pos o +ℤ byte_length)

-- The loop of `writeIntBE`: `i` is the rounds left.
unfoldable pub write_signed_down : ℕ → ℕ → ℕ → ℕ → ℤ → List ℕ → List ℕ
unfolding borrows
write_signed_down zero offset mul sub value buf = buf
write_signed_down (suc i) offset mul sub value buf =
    let mul' = mul * 0x100 in
    let sub' = if borrows value sub (get_elem? buf (offset + i + 1)) then 1 else sub in
    write_signed_down i offset mul' sub' value
      (store buf (offset + i) (signed_byte value mul' sub'))

-- `this[z - 1] = v`, which is no element where the index is negative.
abbrev pub store_behind : List ℕ → ℤ → ℕ → List ℕ
store_behind buf (pos zero) v = buf
store_behind buf (pos (suc i)) v = store buf i v
store_behind buf (negsuc i) v = buf

-- `writeIntBE`, which does not convert `byteLength`.
unfoldable pub write_int_be : List ℕ → ℤ → ℤ → ℤ → Bool → Result (List ℕ × ℤ)
unfolding write_signed_down assert_signed
write_int_be buf value offset byte_length no_assert = do
  let o = to_uint32 offset
  assert_signed no_assert (length buf) value o byte_length
  let stored = store_behind buf (pos o +ℤ byte_length) (low_byte value)
  ok (write_signed_down (pos_part byte_length - 1) o 1 0 value stored, pos o +ℤ byte_length)

-- `writeInt8`
unfoldable pub write_int8 : List ℕ → ℤ → ℤ → Bool → Result (List ℕ × ℕ)
write_int8 buf value offset no_assert = do
  let o = to_uint32 offset
  assert_int no_assert (length buf) value o 1 (pos 0x7f) (negsuc 0x7f)
  let value' = if ltb_ℤ value (pos 0) then pos 0xff +ℤ value +ℤ pos 1 else value
  ok (store buf o (low_byte value'), o + 1)

-- `writeInt16LE`
unfoldable pub write_int16_le : List ℕ → ℤ → ℤ → Bool → Result (List ℕ × ℕ)
write_int16_le buf value offset no_assert = do
  let o = to_uint32 offset
  assert_int no_assert (length buf) value o 2 (pos 0x7fff) (negsuc 0x7fff)
  ok (store (store buf o (low_byte value)) (o + 1) (shr (to_uint32 value) 8), o + 2)

-- `writeInt16BE`
unfoldable pub write_int16_be : List ℕ → ℤ → ℤ → Bool → Result (List ℕ × ℕ)
write_int16_be buf value offset no_assert = do
  let o = to_uint32 offset
  assert_int no_assert (length buf) value o 2 (pos 0x7fff) (negsuc 0x7fff)
  ok (store (store buf o (shr (to_uint32 value) 8)) (o + 1) (low_byte value), o + 2)

-- `writeInt32LE`
unfoldable pub write_int32_le : List ℕ → ℤ → ℤ → Bool → Result (List ℕ × ℕ)
write_int32_le buf value offset no_assert = do
  let o = to_uint32 offset
  assert_int no_assert (length buf) value o 4 (pos 0x7fffffff) (negsuc 0x7fffffff)
  let buf0 = store buf o (low_byte value)
  let buf1 = store buf0 (o + 1) (shr (to_uint32 value) 8)
  let buf2 = store buf1 (o + 2) (shr (to_uint32 value) 16)
  ok (store buf2 (o + 3) (shr (to_uint32 value) 24), o + 4)

-- `writeInt32BE`
unfoldable pub write_int32_be : List ℕ → ℤ → ℤ → Bool → Result (List ℕ × ℕ)
write_int32_be buf value offset no_assert = do
  let o = to_uint32 offset
  assert_int no_assert (length buf) value o 4 (pos 0x7fffffff) (negsuc 0x7fffffff)
  let value' = if ltb_ℤ value (pos 0) then pos 0xffffffff +ℤ value +ℤ pos 1 else value
  let buf0 = store buf o (shr (to_uint32 value') 24)
  let buf1 = store buf0 (o + 1) (shr (to_uint32 value') 16)
  let buf2 = store buf1 (o + 2) (shr (to_uint32 value') 8)
  ok (store buf2 (o + 3) (low_byte value'), o + 4)
