-- ===== src/Buffer/RoundTrip.antt =====
-- buffer.js: what an accessor has written is read back by the one that matches it.
use winterjs.Common.{ℕ, zero, suc, ◌+◌, ◌/◌, ◌%◌, ◌^◌, ◌<◌, ◌≤◌, ◌≡◌, sym, ap, ◌∙◌, arith}
use winterjs.Common.{
  Bool, true, List, [], ◌∷◌, ◌++◌, some, length, All-append, All-take, All-drop, take, drop,
}
use winterjs.Common.Int.{ℤ, pos, negsuc, ◌-ℤ◌}
use winterjs.Js.{ok, ◌>>=◌, IsByte, IsBytes}
use winterjs.Js.Int32.{to_uint32, wrap, wrap-lt}
use winterjs.Buffer.Window.{
  splice, window-splice, length-splice, window, le_num, be_num, le_bytes, be_bytes, length-le_bytes,
  length-be_bytes, le_num-le_bytes, be_num-be_bytes, signed_num,
}
use winterjs.Buffer.ReadUint.{
  ByteLength, read_uint_le, read_uint_be, read_uint16_le, read_uint16_be, read_uint32_le,
  read_uint32_be, read_big_uint64_le, read_big_uint64_be,
}
use winterjs.Buffer.ReadUint.Laws.{
  read_uint_le-le_num, read_uint_be-be_num, read_uint16_le-le_num, read_uint16_be-be_num,
  read_uint32_le-le_num, read_uint32_be-be_num, read_big_uint64_le-le_num,
  read_big_uint64_be-be_num,
}
use winterjs.Buffer.WriteUint.{
  write_uint_le, write_uint_be, write_uint16_le, write_uint16_be, write_uint32_le, write_uint32_be,
}
use winterjs.Buffer.WriteUint.Laws.{
  write_uint_le-splice, write_uint_be-splice, write_uint16_le-splice, write_uint16_be-splice,
  write_uint32_le-splice, write_uint32_be-splice,
}
use winterjs.Buffer.ReadInt.{
  read_int16_le, read_int16_be, read_int32_le, read_int32_be, read_big_int64_le, read_big_int64_be,
}
use winterjs.Buffer.ReadInt.Laws.{
  read_int16_le-signed_num, read_int16_be-signed_num, read_int32_le-signed_num,
  read_int32_be-signed_num, read_big_int64_le-signed_num, read_big_int64_be-signed_num,
}
use winterjs.Buffer.WriteInt.{write_int16_le, write_int16_be, write_int32_le, write_int32_be}
use winterjs.Buffer.WriteInt.Laws.{
  FitsSigned, signed_num-wrap, write_int16_le-splice, write_int16_be-splice, write_int32_le-splice,
  write_int32_be-splice,
}
use winterjs.Buffer.BigInt.{
  write_big_uint64_le, write_big_uint64_be, write_big_int64_le, write_big_int64_be,
}
use winterjs.Buffer.BigInt.Laws.{Within, wrt_big_uint64_le-splice, wrt_big_uint64_be-splice}

le_bytes-IsBytes : (n v : ℕ) → IsBytes (le_bytes n v)
le_bytes-IsBytes zero v = tt
le_bytes-IsBytes (suc n) v = (omega arith, le_bytes-IsBytes n (v / 256))

be_bytes-IsBytes : (n v : ℕ) → IsBytes (be_bytes n v)
be_bytes-IsBytes zero v = tt
be_bytes-IsBytes (suc n) v =
    All-append IsByte (be_bytes n (v / 256)) ((v % 256) ∷ []) (be_bytes-IsBytes n (v / 256))
      (omega arith, tt)

splice-IsBytes :
    (buf : List ℕ) (offset : ℕ) (ds : List ℕ)
    → IsBytes buf
    → IsBytes ds
    → IsBytes (splice buf offset ds)
splice-IsBytes buf offset ds h k =
    All-append IsByte (take offset buf) (ds ++ drop (length ds) (drop offset buf))
      (All-take IsByte offset buf h)
      (All-append IsByte ds (drop (length ds) (drop offset buf)) k
        (All-drop IsByte (length ds) (drop offset buf) (All-drop IsByte offset buf h)))

-- A splice of `n` bytes, seen through a window of `n` bytes.
module _ (buf : List ℕ) (o n v : ℕ) (room : o + n ≤ length buf) where
  length_le : length (splice buf o (le_bytes n v)) ≡ length buf
  length_le = length-splice buf o (le_bytes n v) (omega (arith, length-le_bytes n v))

  length_be : length (splice buf o (be_bytes n v)) ≡ length buf
  length_be = length-splice buf o (be_bytes n v) (omega (arith, length-be_bytes n v))

  le_num_written : v < 256 ^ n → le_num (window (splice buf o (le_bytes n v)) o n) ≡ v
  le_num_written h =
      ap le_num (
        ap (window (splice buf o (le_bytes n v)) o) (sym (length-le_bytes n v))
        ∙ window-splice buf o (le_bytes n v) (omega (arith, length-le_bytes n v)))
      ∙ le_num-le_bytes n v h

  be_num_written : v < 256 ^ n → be_num (window (splice buf o (be_bytes n v)) o n) ≡ v
  be_num_written h =
      ap be_num (
        ap (window (splice buf o (be_bytes n v)) o) (sym (length-be_bytes n v))
        ∙ window-splice buf o (be_bytes n v) (omega (arith, length-be_bytes n v)))
      ∙ be_num-be_bytes n v h

module _ (buf : List ℕ) (offset : ℤ) (no_assert : Bool) (bytes : IsBytes buf) where
  abbrev o : ℕ
  o = to_uint32 offset

  -- A number of `byteLength` bytes written by `writeUIntLE` at an offset with room for them is read
  -- back by `readUIntLE`, for a `byteLength` from one to six.
  pub read_uint_le-write_uint_le :
      (v : ℕ) (byte_length : ByteLength)
      → 0 < to_uint32 byte_length.0
      → v < 256 ^ to_uint32 byte_length.0
      → to_uint32 offset + to_uint32 byte_length.0 ≤ length buf
      → (write_uint_le buf (pos v) offset byte_length.0 no_assert >>= λ r.
          read_uint_le r.0 offset byte_length no_assert)
        ≡ ok (some v)
  read_uint_le-write_uint_le v byte_length some_byte fits room =
      let n = to_uint32 byte_length.0 in
      rw (write_uint_le-splice buf v offset no_assert byte_length.0 some_byte fits room) (
        read_uint_le-le_num (splice buf o (le_bytes n v)) offset no_assert
          (splice-IsBytes buf o (le_bytes n v) bytes (le_bytes-IsBytes n v)) byte_length some_byte
          (rw (length_le buf o n v room) room)
        ∙ ap (λ w. ok (some w)) (le_num_written buf o n v room fits))

  -- A number of `byteLength` bytes written by `writeUIntBE` at an offset with room for them is read
  -- back by `readUIntBE`, for a `byteLength` from one to six.
  pub read_uint_be-write_uint_be :
      (v : ℕ) (byte_length : ByteLength)
      → 0 < to_uint32 byte_length.0
      → v < 256 ^ to_uint32 byte_length.0
      → to_uint32 offset + to_uint32 byte_length.0 ≤ length buf
      → (write_uint_be buf (pos v) offset byte_length.0 no_assert >>= λ r.
          read_uint_be r.0 offset byte_length no_assert)
        ≡ ok (some v)
  read_uint_be-write_uint_be v byte_length some_byte fits room =
      let n = to_uint32 byte_length.0 in
      rw (write_uint_be-splice buf v offset no_assert byte_length.0 some_byte fits room) (
        read_uint_be-be_num (splice buf o (be_bytes n v)) offset no_assert
          (splice-IsBytes buf o (be_bytes n v) bytes (be_bytes-IsBytes n v)) byte_length some_byte
          (rw (length_be buf o n v room) room)
        ∙ ap (λ w. ok (some w)) (be_num_written buf o n v room fits))

  -- A number below 2 ^ 16 written by `writeUInt16LE` at an offset with room for it is read back by
  -- `readUInt16LE`.
  pub read_uint16_le-write_uint16_le :
      (v : ℕ)
      → v < 2 ^ 16
      → to_uint32 offset + 2 ≤ length buf
      → (write_uint16_le buf (pos v) offset no_assert >>= λ r. read_uint16_le r.0 offset no_assert)
        ≡ ok (some v)
  read_uint16_le-write_uint16_le v fits room =
      rw (write_uint16_le-splice buf v offset no_assert fits room) (
        read_uint16_le-le_num (splice buf o (le_bytes 2 v)) offset no_assert
          (splice-IsBytes buf o (le_bytes 2 v) bytes (le_bytes-IsBytes 2 v))
          (rw (length_le buf o 2 v room) room)
        ∙ ap (λ w. ok (some w)) (le_num_written buf o 2 v room (omega arith)))

  -- A number below 2 ^ 32 written by `writeUInt32LE` at an offset with room for it is read back by
  -- `readUInt32LE`.
  pub read_uint32_le-write_uint32_le :
      (v : ℕ)
      → v < 2 ^ 32
      → to_uint32 offset + 4 ≤ length buf
      → (write_uint32_le buf (pos v) offset no_assert >>= λ r. read_uint32_le r.0 offset no_assert)
        ≡ ok (some v)
  read_uint32_le-write_uint32_le v fits room =
      rw (write_uint32_le-splice buf v offset no_assert fits room) (
        read_uint32_le-le_num (splice buf o (le_bytes 4 v)) offset no_assert
          (splice-IsBytes buf o (le_bytes 4 v) bytes (le_bytes-IsBytes 4 v))
          (rw (length_le buf o 4 v room) room)
        ∙ ap (λ w. ok (some w)) (le_num_written buf o 4 v room (omega arith)))

  -- A number below 2 ^ 16 written by `writeUInt16BE` at an offset with room for it is read back by
  -- `readUInt16BE`.
  pub read_uint16_be-write_uint16_be :
      (v : ℕ)
      → v < 2 ^ 16
      → to_uint32 offset + 2 ≤ length buf
      → (write_uint16_be buf (pos v) offset no_assert >>= λ r. read_uint16_be r.0 offset no_assert)
        ≡ ok (some v)
  read_uint16_be-write_uint16_be v fits room =
      rw (write_uint16_be-splice buf v offset no_assert fits room) (
        read_uint16_be-be_num (splice buf o (be_bytes 2 v)) offset no_assert
          (splice-IsBytes buf o (be_bytes 2 v) bytes (be_bytes-IsBytes 2 v))
          (rw (length_be buf o 2 v room) room)
        ∙ ap (λ w. ok (some w)) (be_num_written buf o 2 v room (omega arith)))

  -- A number below 2 ^ 32 written by `writeUInt32BE` at an offset with room for it is read back by
  -- `readUInt32BE`.
  pub read_uint32_be-write_uint32_be :
      (v : ℕ)
      → v < 2 ^ 32
      → to_uint32 offset + 4 ≤ length buf
      → (write_uint32_be buf (pos v) offset no_assert >>= λ r. read_uint32_be r.0 offset no_assert)
        ≡ ok (some v)
  read_uint32_be-write_uint32_be v fits room =
      rw (write_uint32_be-splice buf v offset no_assert fits room) (
        read_uint32_be-be_num (splice buf o (be_bytes 4 v)) offset no_assert
          (splice-IsBytes buf o (be_bytes 4 v) bytes (be_bytes-IsBytes 4 v))
          (rw (length_be buf o 4 v room) room)
        ∙ ap (λ w. ok (some w)) (be_num_written buf o 4 v room (omega arith)))

  -- A signed number of 16 bits written by `writeInt16LE` at an offset with room for it is read back by
  -- `readInt16LE`.
  pub read_int16_le-write_int16_le :
      (value : ℤ)
      → FitsSigned 2 value
      → to_uint32 offset + 2 ≤ length buf
      → (write_int16_le buf value offset no_assert >>= λ r. read_int16_le r.0 offset no_assert)
        ≡ ok (some value)
  read_int16_le-write_int16_le value fits room =
      let v = wrap (256 ^ 2) value in
      rw (write_int16_le-splice buf value offset no_assert fits room) (
        read_int16_le-signed_num (splice buf o (le_bytes 2 v)) offset no_assert
          (splice-IsBytes buf o (le_bytes 2 v) bytes (le_bytes-IsBytes 2 v))
          (rw (length_le buf o 2 v room) room)
        ∙ ap (λ w. ok (some (signed_num 2 w)))
            (le_num_written buf o 2 v room (wrap-lt (256 ^ 2) value (omega arith)))
        ∙ ap (λ z. ok (some z)) (signed_num-wrap 2 value fits))

  -- A signed number of 32 bits written by `writeInt32LE` at an offset with room for it is read back by
  -- `readInt32LE`.
  pub read_int32_le-write_int32_le :
      (value : ℤ)
      → FitsSigned 4 value
      → to_uint32 offset + 4 ≤ length buf
      → (write_int32_le buf value offset no_assert >>= λ r. read_int32_le r.0 offset no_assert)
        ≡ ok (some value)
  read_int32_le-write_int32_le value fits room =
      let v = wrap (256 ^ 4) value in
      rw (write_int32_le-splice buf value offset no_assert fits room) (
        read_int32_le-signed_num (splice buf o (le_bytes 4 v)) offset no_assert
          (splice-IsBytes buf o (le_bytes 4 v) bytes (le_bytes-IsBytes 4 v))
          (rw (length_le buf o 4 v room) room)
        ∙ ap (λ w. ok (some (signed_num 4 w)))
            (le_num_written buf o 4 v room (wrap-lt (256 ^ 4) value (omega arith)))
        ∙ ap (λ z. ok (some z)) (signed_num-wrap 4 value fits))

  -- A signed number of 16 bits written by `writeInt16BE` at an offset with room for it is read back by
  -- `readInt16BE`.
  pub read_int16_be-write_int16_be :
      (value : ℤ)
      → FitsSigned 2 value
      → to_uint32 offset + 2 ≤ length buf
      → (write_int16_be buf value offset no_assert >>= λ r. read_int16_be r.0 offset no_assert)
        ≡ ok (some value)
  read_int16_be-write_int16_be value fits room =
      let v = wrap (256 ^ 2) value in
      rw (write_int16_be-splice buf value offset no_assert fits room) (
        read_int16_be-signed_num (splice buf o (be_bytes 2 v)) offset no_assert
          (splice-IsBytes buf o (be_bytes 2 v) bytes (be_bytes-IsBytes 2 v))
          (rw (length_be buf o 2 v room) room)
        ∙ ap (λ w. ok (some (signed_num 2 w)))
            (be_num_written buf o 2 v room (wrap-lt (256 ^ 2) value (omega arith)))
        ∙ ap (λ z. ok (some z)) (signed_num-wrap 2 value fits))

  -- A signed number of 32 bits written by `writeInt32BE` at an offset with room for it is read back by
  -- `readInt32BE`.
  pub read_int32_be-write_int32_be :
      (value : ℤ)
      → FitsSigned 4 value
      → to_uint32 offset + 4 ≤ length buf
      → (write_int32_be buf value offset no_assert >>= λ r. read_int32_be r.0 offset no_assert)
        ≡ ok (some value)
  read_int32_be-write_int32_be value fits room =
      let v = wrap (256 ^ 4) value in
      rw (write_int32_be-splice buf value offset no_assert fits room) (
        read_int32_be-signed_num (splice buf o (be_bytes 4 v)) offset no_assert
          (splice-IsBytes buf o (be_bytes 4 v) bytes (be_bytes-IsBytes 4 v))
          (rw (length_be buf o 4 v room) room)
        ∙ ap (λ w. ok (some (signed_num 4 w)))
            (be_num_written buf o 4 v room (wrap-lt (256 ^ 4) value (omega arith)))
        ∙ ap (λ z. ok (some z)) (signed_num-wrap 4 value fits))

-- The 64-bit methods; an offset is below 2 ^ 32, which `>>> 0` leaves as it is.
module _ (buf : List ℕ) (o : ℕ) (bytes : IsBytes buf) (small : o < 2 ^ 32)
    (room : o + 8 ≤ length buf) where
  same_offset : to_uint32 (pos o) ≡ o
  same_offset = omega arith

  in_range :
      (z : ℤ) → FitsSigned 8 z → Within (pos 0 -ℤ pos 0x8000000000000000) (pos 0x7fffffffffffffff) z
  in_range (pos v) f = unfold ◌-ℤ◌ in omega arith
  in_range (negsuc m) f = unfold ◌-ℤ◌ in omega arith

  -- A number below 2 ^ 64 written by `writeBigUInt64LE` at an offset with room for it is read back by
  -- `readBigUInt64LE`.
  pub read_big_uint64_le-write_big_uint64_le :
      (v : ℕ)
      → v < 2 ^ 64
      → (write_big_uint64_le buf (pos v) (pos o) >>= λ r. read_big_uint64_le r.0 (pos o)) ≡ ok v
  unfolding write_big_uint64_le
  read_big_uint64_le-write_big_uint64_le v fits =
      let w = wrap (256 ^ 8) (pos v) in
      rw
        (wrt_big_uint64_le-splice buf (pos v) (pos 0) (pos 0xffffffffffffffff) o (omega arith) room)
        (read_big_uint64_le-le_num (splice buf o (le_bytes 8 w)) (pos o) true
            (splice-IsBytes buf o (le_bytes 8 w) bytes (le_bytes-IsBytes 8 w))
            (rw (same_offset, length_le buf o 8 w room) room)
          ∙ rw same_offset (
              ap ok (
                le_num_written buf o 8 w room (wrap-lt (256 ^ 8) (pos v) (omega arith))
                ∙ (let e : v % 256 ^ 8 ≡ v = omega arith in e))))

  -- A signed number of 64 bits written by `writeBigInt64LE` at an offset with room for it is read back by
  -- `readBigInt64LE`.
  pub read_big_int64_le-write_big_int64_le :
      (value : ℤ)
      → FitsSigned 8 value
      → (write_big_int64_le buf value (pos o) >>= λ r. read_big_int64_le r.0 (pos o)) ≡ ok value
  unfolding write_big_int64_le
  read_big_int64_le-write_big_int64_le value fits =
      let w = wrap (256 ^ 8) value in
      rw
        (wrt_big_uint64_le-splice buf value (pos 0 -ℤ pos 0x8000000000000000)
          (pos 0x7fffffffffffffff) o (in_range value fits) room)
        (read_big_int64_le-signed_num (splice buf o (le_bytes 8 w)) (pos o) true
            (splice-IsBytes buf o (le_bytes 8 w) bytes (le_bytes-IsBytes 8 w))
            (rw (same_offset, length_le buf o 8 w room) room)
          ∙ rw same_offset (
              ap (λ n. ok (signed_num 8 n))
                (le_num_written buf o 8 w room (wrap-lt (256 ^ 8) value (omega arith)))
              ∙ ap ok (signed_num-wrap 8 value fits)))

  -- A number below 2 ^ 64 written by `writeBigUInt64BE` at an offset with room for it is read back by
  -- `readBigUInt64BE`.
  pub read_big_uint64_be-write_big_uint64_be :
      (v : ℕ)
      → v < 2 ^ 64
      → (write_big_uint64_be buf (pos v) (pos o) >>= λ r. read_big_uint64_be r.0 (pos o)) ≡ ok v
  unfolding write_big_uint64_be
  read_big_uint64_be-write_big_uint64_be v fits =
      let w = wrap (256 ^ 8) (pos v) in
      rw
        (wrt_big_uint64_be-splice buf (pos v) (pos 0) (pos 0xffffffffffffffff) o (omega arith) room)
        (read_big_uint64_be-be_num (splice buf o (be_bytes 8 w)) (pos o) true
            (splice-IsBytes buf o (be_bytes 8 w) bytes (be_bytes-IsBytes 8 w))
            (rw (same_offset, length_be buf o 8 w room) room)
          ∙ rw same_offset (
              ap ok (
                be_num_written buf o 8 w room (wrap-lt (256 ^ 8) (pos v) (omega arith))
                ∙ (let e : v % 256 ^ 8 ≡ v = omega arith in e))))

  -- A signed number of 64 bits written by `writeBigInt64BE` at an offset with room for it is read back by
  -- `readBigInt64BE`.
  pub read_big_int64_be-write_big_int64_be :
      (value : ℤ)
      → FitsSigned 8 value
      → (write_big_int64_be buf value (pos o) >>= λ r. read_big_int64_be r.0 (pos o)) ≡ ok value
  unfolding write_big_int64_be
  read_big_int64_be-write_big_int64_be value fits =
      let w = wrap (256 ^ 8) value in
      rw
        (wrt_big_uint64_be-splice buf value (pos 0 -ℤ pos 0x8000000000000000)
          (pos 0x7fffffffffffffff) o (in_range value fits) room)
        (read_big_int64_be-signed_num (splice buf o (be_bytes 8 w)) (pos o) true
            (splice-IsBytes buf o (be_bytes 8 w) bytes (be_bytes-IsBytes 8 w))
            (rw (same_offset, length_be buf o 8 w room) room)
          ∙ rw same_offset (
              ap (λ n. ok (signed_num 8 n))
                (be_num_written buf o 8 w room (wrap-lt (256 ^ 8) value (omega arith)))
              ∙ ap ok (signed_num-wrap 8 value fits)))
