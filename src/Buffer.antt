-- ===== src/Buffer.antt =====
-- src/builtins/internal_js_modules/node/buffer.js: the checks that the accessors share.
-- A buffer is the list of its bytes, and a method that writes returns the new list. Offsets, lengths
-- and values are integers; `x >>> 0` is `to_uint32`.
pub mod Window
pub mod Checks
pub mod Kept
pub mod ReadUint
pub mod WriteUint
pub mod ReadInt
pub mod WriteInt
pub mod BigInt
pub mod RoundTrip
pub mod Compare
pub mod Swap
pub mod Search
pub mod Slice
pub mod Copy
pub mod Blit
pub mod Hex
pub mod Utf16
pub mod Utf8
pub mod Concat
pub mod Encoding
pub mod Fill
pub mod From
pub mod Float
pub mod Mutation
mod Runs
use winterjs.Common.{ℕ, ◌+◌, ◌-◌, ◌<◌, Bool, true, false, ◌||◌, ltb, if◌then◌else◌}
use winterjs.Common.{List, Option, none, some, length, get_elem?}
use winterjs.Common.Int.{ℤ, pos, negsuc, ltb_ℤ}
use winterjs.Js.{Result, ok, err, ◌>>=◌, ◌>>◌, throw_if}
use winterjs.Js.{beyond_length, value_out_of_bounds, index_out_of_range}
use winterjs.Js.{err_out_of_range, err_buffer_out_of_bounds}

-- `checkOffset` on an offset that `>>> 0` has made a uint32, which its first test lets pass.
unfoldable pub check_offset : ℕ → ℕ → ℕ → Result (Unit {0})
check_offset offset ext len = throw_if (ltb len (offset + ext)) beyond_length

-- `checkOffset` unless `noAssert` is set.
unfoldable pub assert_offset : Bool → ℕ → ℕ → ℕ → Result (Unit {0})
unfolding check_offset
assert_offset no_assert offset ext len = if no_assert then ok tt else check_offset offset ext len

-- `checkInt`; the first argument is the buffer's length, and the test that it is a buffer holds.
unfoldable pub check_int : ℕ → ℤ → ℕ → ℕ → ℤ → ℤ → Result (Unit {0})
check_int len value offset ext max min = do
  throw_if (ltb_ℤ max value || ltb_ℤ value min) value_out_of_bounds
  throw_if (ltb len (offset + ext)) index_out_of_range

-- `checkInt` unless `noAssert` is set.
unfoldable pub assert_int : Bool → ℕ → ℤ → ℕ → ℕ → ℤ → ℤ → Result (Unit {0})
unfolding check_int
assert_int no_assert len value offset ext max min =
    if no_assert then ok tt else check_int len value offset ext max min

-- `boundsError(value, length)` at an integer value: `length` is the buffer's length less 8.
unfoldable pub bounds_error {ℓ} : {A : Type ℓ} → ℕ → Result A
bounds_error len = if ltb len 8 then err err_buffer_out_of_bounds else err err_out_of_range

-- `checkBounds(buf, offset, 7)`
unfoldable pub check_bounds : List ℕ → ℤ → Result (Unit {0})
unfolding bounds_error
check_bounds buf (pos offset) = elim (get_elem? buf offset) [
  | none ↦ bounds_error (length buf)
  | some _ ↦ elim (get_elem? buf (offset + 7)) [ none ↦ bounds_error (length buf) | some _ ↦ ok tt ]
]
check_bounds buf (negsuc n) = bounds_error (length buf)

-- `checkIntBI(value, min, max, buf, offset, 7)`
unfoldable pub check_int_bi : ℤ → ℤ → ℤ → List ℕ → ℤ → Result (Unit {0})
unfolding check_bounds
check_int_bi value min max buf offset = do
  throw_if (ltb_ℤ max value || ltb_ℤ value min) err_out_of_range
  check_bounds buf offset
