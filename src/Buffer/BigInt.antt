-- ===== src/Buffer/BigInt.antt =====
-- buffer.js: `wrtBigUInt64LE`, `wrtBigUInt64BE` and the four methods that call them.
pub mod Laws
use winterjs.Common.{ℕ, suc, ◌+◌, ◌-◌, ◌%◌, ◌^◌, List}
use winterjs.Common.Int.{ℤ, pos, negsuc, ◌-ℤ◌}
use winterjs.Js.{Result, ok, err, ◌>>=◌, ◌>>◌, store}
use winterjs.Js.Int32.{to_uint32, sar8, floor_div}
use winterjs.Buffer.{check_int_bi}

-- The offset, once `checkIntBI` has found elements there.
abbrev checked_offset : ℤ → ℕ
checked_offset (pos offset) = offset
checked_offset (negsuc n) = 0

-- Four stores of `lo`, each followed by `lo = lo >> 8`, upwards.
unfoldable pub store_four_up : List ℕ → ℕ → ℕ → List ℕ
store_four_up buf o lo =
    let lo1 = sar8 lo in
    let lo2 = sar8 lo1 in
    let lo3 = sar8 lo2 in store (store (store (store buf o lo) (o + 1) lo1) (o + 2) lo2) (o + 3) lo3

-- The same downwards, from `o + 3`.
unfoldable pub store_four_down : List ℕ → ℕ → ℕ → List ℕ
store_four_down buf o lo =
    let lo1 = sar8 lo in
    let lo2 = sar8 lo1 in
    let lo3 = sar8 lo2 in store (store (store (store buf (o + 3) lo) (o + 2) lo1) (o + 1) lo2) o lo3

-- `wrtBigUInt64LE`; `value & 0xffffffff` and `value >> 32 & 0xffffffff` are the halves.
unfoldable pub wrt_big_uint64_le : List ℕ → ℤ → ℤ → ℤ → ℤ → Result (List ℕ × ℕ)
unfolding store_four_up
wrt_big_uint64_le buf value offset min max = do
  check_int_bi value min max buf offset
  let o = checked_offset offset
  let buf' = store_four_up buf o (to_uint32 value)
  ok (store_four_up buf' (o + 4) (to_uint32 (floor_div value (2 ^ 32))), o + 8)

-- `wrtBigUInt64BE`
unfoldable pub wrt_big_uint64_be : List ℕ → ℤ → ℤ → ℤ → ℤ → Result (List ℕ × ℕ)
unfolding store_four_down
wrt_big_uint64_be buf value offset min max = do
  check_int_bi value min max buf offset
  let o = checked_offset offset
  let buf' = store_four_down buf (o + 4) (to_uint32 value)
  ok (store_four_down buf' o (to_uint32 (floor_div value (2 ^ 32))), o + 8)

-- `writeBigUInt64LE`
unfoldable pub write_big_uint64_le : List ℕ → ℤ → ℤ → Result (List ℕ × ℕ)
unfolding wrt_big_uint64_le
write_big_uint64_le buf value offset =
    wrt_big_uint64_le buf value offset (pos 0) (pos 0xffffffffffffffff)

-- `writeBigUInt64BE`
unfoldable pub write_big_uint64_be : List ℕ → ℤ → ℤ → Result (List ℕ × ℕ)
unfolding wrt_big_uint64_be
write_big_uint64_be buf value offset =
    wrt_big_uint64_be buf value offset (pos 0) (pos 0xffffffffffffffff)

-- `writeBigInt64LE`
unfoldable pub write_big_int64_le : List ℕ → ℤ → ℤ → Result (List ℕ × ℕ)
unfolding wrt_big_uint64_le
write_big_int64_le buf value offset =
    wrt_big_uint64_le buf value offset (pos 0 -ℤ pos 0x8000000000000000) (pos 0x7fffffffffffffff)

-- `writeBigInt64BE`
unfoldable pub write_big_int64_be : List ℕ → ℤ → ℤ → Result (List ℕ × ℕ)
unfolding wrt_big_uint64_be
write_big_int64_be buf value offset =
    wrt_big_uint64_be buf value offset (pos 0 -ℤ pos 0x8000000000000000) (pos 0x7fffffffffffffff)
