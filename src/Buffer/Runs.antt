-- ===== src/Buffer/Runs.antt =====
-- The theorems on the accessors at concrete inputs.
mod Bytes
mod Search
mod Utf8
mod Encoding
mod Calls
use winterjs.Common.{
  ℕ, ◌≡◌, ◌≢◌, ◌↔◌, ◌<◌, refl, arith, ◌+◌, ◌*◌, ◌/◌, ◌%◌, ◌^◌, ◌-◌, List, [], ◌∷◌, length, true,
  some,
}
use winterjs.Common.Int.{ℤ, pos, negsuc}
use winterjs.Js.{ok, err, ◌>>=◌, IsByte, IsBytes}
use winterjs.Js.Int32.{to_uint32}
use winterjs.Buffer.Window.{window, splice, le_num, be_num, signed_num}
use winterjs.Buffer.WriteInt.Laws.{FitsSigned}
use winterjs.Buffer.RoundTrip.{
  read_big_int64_be-write_big_int64_be, read_big_int64_le-write_big_int64_le,
  read_big_uint64_be-write_big_uint64_be, read_big_uint64_le-write_big_uint64_le,
  read_int16_be-write_int16_be, read_int16_le-write_int16_le, read_int32_be-write_int32_be,
  read_int32_le-write_int32_le, read_uint16_be-write_uint16_be, read_uint16_le-write_uint16_le,
  read_uint32_be-write_uint32_be, read_uint32_le-write_uint32_le, read_uint_be-write_uint_be,
  read_uint_le-write_uint_le,
}
use winterjs.Buffer.WriteUint.{
  write_uint16_be, write_uint16_le, write_uint32_be, write_uint32_le, write_uint_be, write_uint_le,
}
use winterjs.Buffer.ReadUint.{
  ByteLength, read_big_uint64_be, read_big_uint64_le, read_uint16_be, read_uint16_le,
  read_uint32_be, read_uint32_le, read_uint_be, read_uint_le,
}
use winterjs.Buffer.WriteInt.{write_int16_be, write_int16_le, write_int32_be, write_int32_le}
use winterjs.Buffer.ReadInt.{
  read_big_int64_be, read_big_int64_le, read_int16_be, read_int16_le, read_int32_be, read_int32_le,
  read_int_be, read_int_le,
}
use winterjs.Buffer.BigInt.{
  write_big_int64_be, write_big_int64_le, write_big_uint64_be, write_big_uint64_le,
}
use winterjs.Buffer.ReadUint.Laws.{read_uint_be-be_num, read_uint_le-le_num}
use winterjs.Buffer.ReadInt.Laws.{read_int_be-signed_num, read_int_le-signed_num}

-- Twelve bytes, to write into.
abbrev buf : List ℕ
buf = 200 ∷ 1 ∷ 2 ∷ 3 ∷ 254 ∷ 255 ∷ 6 ∷ 7 ∷ 8 ∷ 9 ∷ 10 ∷ 11 ∷ []

buf-IsBytes : IsBytes buf
buf-IsBytes = (
  omega arith,
  (
    omega arith,
    (
      omega arith,
      (
        omega arith,
        (
          omega arith,
          (
            omega arith,
            (
              omega arith,
              (omega arith, (omega arith, (omega arith, (omega arith, (omega arith, tt))))),
            ),
          ),
        ),
      ),
    ),
  ),
)

abbrev three : ByteLength
three = (pos 3, omega arith)

read_uint_le-write_uint_le_example :
    (write_uint_le buf (pos 70000) (pos 2) (pos 3) true >>= λ r.
    read_uint_le r.0 (pos 2) three true)
    ≡ ok (some 70000)
read_uint_le-write_uint_le_example =
    read_uint_le-write_uint_le buf (pos 2) true buf-IsBytes 70000 three (omega arith) (omega arith)
      (omega arith)
