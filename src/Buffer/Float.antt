-- ===== src/Buffer/Float.antt =====
-- buffer.js: `readFloatLE` to `readDoubleBE`, `checkIEEE754`, and `writeFloat` to `writeDoubleBE`.
-- The library `ieee754` is an argument, with the type `Num` of its numbers.
pub mod Laws
use winterjs.Common.{ℕ, ◌+◌, Bool, true, false, ltb, if◌then◌else◌, List, length}
use winterjs.Common.Int.{ℤ}
use winterjs.Js.{Result, ok, ◌>>=◌, ◌>>◌, throw_if, index_out_of_range}
use winterjs.Js.Int32.{to_uint32}
use winterjs.Buffer.{assert_offset}

-- `ieee754`: `read(buffer, offset, isLE, mLen, nBytes)`, and what `write(buffer, value, offset, isLE,
-- mLen, nBytes)` makes of the buffer.
pub record Ieee754 {ℓ} (Num : Type ℓ) : Type ℓ where
  pub read : List ℕ → ℕ → Bool → ℕ → ℕ → Num
  pub write : List ℕ → Num → ℕ → Bool → ℕ → ℕ → List ℕ

-- `checkIEEE754`, of which the first test is the only one that can fail behind `>>> 0`.
unfoldable pub check_ieee754 : ℕ → ℕ → ℕ → Result (Unit {0})
check_ieee754 len offset ext = throw_if (ltb len (offset + ext)) index_out_of_range

unfoldable pub assert_ieee754 : Bool → ℕ → ℕ → ℕ → Result (Unit {0})
unfolding check_ieee754
assert_ieee754 no_assert len offset ext = if no_assert then ok tt else check_ieee754 len offset ext

module _ {ℓ} {Num : Type ℓ} (lib : Ieee754 Num) where
  -- `readFloatLE`
  unfoldable pub read_float_le : List ℕ → ℤ → Bool → Result Num
  read_float_le buf offset no_assert = do
    let o = to_uint32 offset
    assert_offset no_assert o 4 (length buf)
    ok (lib.read buf o true 23 4)

  -- `readFloatBE`
  unfoldable pub read_float_be : List ℕ → ℤ → Bool → Result Num
  read_float_be buf offset no_assert = do
    let o = to_uint32 offset
    assert_offset no_assert o 4 (length buf)
    ok (lib.read buf o false 23 4)

  -- `readDoubleLE`
  unfoldable pub read_double_le : List ℕ → ℤ → Bool → Result Num
  read_double_le buf offset no_assert = do
    let o = to_uint32 offset
    assert_offset no_assert o 8 (length buf)
    ok (lib.read buf o true 52 8)

  -- `readDoubleBE`
  unfoldable pub read_double_be : List ℕ → ℤ → Bool → Result Num
  read_double_be buf offset no_assert = do
    let o = to_uint32 offset
    assert_offset no_assert o 8 (length buf)
    ok (lib.read buf o false 52 8)

  -- `writeFloat`: the buffer, and the offset behind the number.
  unfoldable pub write_float : List ℕ → Num → ℤ → Bool → Bool → Result (List ℕ × ℕ)
  unfolding assert_ieee754
  write_float buf value offset little_endian no_assert = do
    let o = to_uint32 offset
    assert_ieee754 no_assert (length buf) o 4
    ok (lib.write buf value o little_endian 23 4, o + 4)

  -- `writeFloatLE` and `writeFloatBE`
  unfoldable pub write_float_le : List ℕ → Num → ℤ → Bool → Result (List ℕ × ℕ)
  unfolding write_float
  write_float_le buf value offset no_assert = write_float buf value offset true no_assert

  unfoldable pub write_float_be : List ℕ → Num → ℤ → Bool → Result (List ℕ × ℕ)
  unfolding write_float
  write_float_be buf value offset no_assert = write_float buf value offset false no_assert

  -- `writeDouble`
  unfoldable pub write_double : List ℕ → Num → ℤ → Bool → Bool → Result (List ℕ × ℕ)
  unfolding assert_ieee754
  write_double buf value offset little_endian no_assert = do
    let o = to_uint32 offset
    assert_ieee754 no_assert (length buf) o 8
    ok (lib.write buf value o little_endian 52 8, o + 8)

  -- `writeDoubleLE` and `writeDoubleBE`
  unfoldable pub write_double_le : List ℕ → Num → ℤ → Bool → Result (List ℕ × ℕ)
  unfolding write_double
  write_double_le buf value offset no_assert = write_double buf value offset true no_assert

  unfoldable pub write_double_be : List ℕ → Num → ℤ → Bool → Result (List ℕ × ℕ)
  unfolding write_double
  write_double_be buf value offset no_assert = write_double buf value offset false no_assert
