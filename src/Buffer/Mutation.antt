-- ===== src/Buffer/Mutation.antt =====
-- buffer.js: the methods that change the bytes of a buffer, one after another, but for those that
-- write floats and doubles. A call that throws
-- has changed nothing, as every method checks its arguments before it stores.
pub mod Keeps
pub mod Moves
pub mod Safety
use winterjs.Common.{ℕ, Bool, List, [], ◌∷◌, Option}
use winterjs.Common.Int.{ℤ}
use winterjs.Js.{Result, ok, err, ◌>>=◌}
use winterjs.Buffer.WriteUint.{
  write_uint8, write_uint16_le, write_uint16_be, write_uint32_le, write_uint32_be, write_uint_le,
  write_uint_be,
}
use winterjs.Buffer.WriteInt.{
  write_int8, write_int16_le, write_int16_be, write_int32_le, write_int32_be, write_int_le,
  write_int_be,
}
use winterjs.Buffer.BigInt.{
  write_big_uint64_le, write_big_uint64_be, write_big_int64_le, write_big_int64_be,
}
use winterjs.Buffer.Swap.{swap16, swap32, swap64}
use winterjs.Buffer.Copy.{copy}
use winterjs.Buffer.Encoding.Write.{WriteArgs, write}
use winterjs.Buffer.Fill.{FillValue, FillArgs, fill}

-- `writeUIntLE` and its kin, which are given the number of bytes.
pub data Sized : Type 0 where
  uint_le uint_be : Sized

pub data SignedSized : Type 0 where
  int_le int_be : SignedSized

-- `writeUInt8` and its kin.
pub data Fixed : Type 0 where
  uint8 uint16_le uint16_be uint32_le uint32_be : Fixed
  int8 int16_le int16_be int32_le int32_be : Fixed

pub data Big : Type 0 where
  big_uint64_le big_uint64_be big_int64_le big_int64_be : Big

-- A call of a method, with its arguments.
pub data Call : Type 0 where
  sized : Sized → (value offset byte_length : ℤ) → Bool → Call
  signed : SignedSized → (value offset byte_length : ℤ) → Bool → Call
  fixed : Fixed → (value offset : ℤ) → Bool → Call
  big : Big → (value offset : ℤ) → Call
  swapped16 swapped32 swapped64 : Call
  -- `source.copy(this, targetStart, start, end)`
  copied : (source : List ℕ) → (target_start start end : Option ℤ) → Call
  written : List ℕ → WriteArgs → Call
  filled : FillValue → FillArgs → Call

abbrev pub Writer : Type 0
Writer = List ℕ → ℤ → ℤ → Bool → Result (List ℕ × ℕ)

unfoldable pub write_sized : Sized → List ℕ → ℤ → ℤ → ℤ → Bool → Result (List ℕ × ℕ)
write_sized uint_le = write_uint_le
write_sized uint_be = write_uint_be

unfoldable pub write_signed : SignedSized → List ℕ → ℤ → ℤ → ℤ → Bool → Result (List ℕ × ℤ)
write_signed int_le = write_int_le
write_signed int_be = write_int_be

unfoldable pub write_fixed : Fixed → Writer
write_fixed uint8 = write_uint8
write_fixed uint16_le = write_uint16_le
write_fixed uint16_be = write_uint16_be
write_fixed uint32_le = write_uint32_le
write_fixed uint32_be = write_uint32_be
write_fixed int8 = write_int8
write_fixed int16_le = write_int16_le
write_fixed int16_be = write_int16_be
write_fixed int32_le = write_int32_le
write_fixed int32_be = write_int32_be

unfoldable pub write_big : Big → List ℕ → ℤ → ℤ → Result (List ℕ × ℕ)
write_big big_uint64_le = write_big_uint64_le
write_big big_uint64_be = write_big_uint64_be
write_big big_int64_le = write_big_int64_le
write_big big_int64_be = write_big_int64_be

abbrev pub first_of {ℓ κ} : {A : Type ℓ} {B : Type κ} → Result (A × B) → Result A
first_of r = r >>= λ p. ok p.0

abbrev pub second_of {ℓ κ} : {A : Type ℓ} {B : Type κ} → Result (A × B) → Result B
second_of r = r >>= λ p. ok p.1

-- The bytes that a call leaves.
unfoldable pub apply : (List ℕ → List ℕ) → Call → List ℕ → Result (List ℕ)
unfolding write_sized write_signed write_fixed write_big
apply lower (sized method value offset byte_length no_assert) buf =
    first_of (write_sized method buf value offset byte_length no_assert)
apply lower (signed method value offset byte_length no_assert) buf =
    first_of (write_signed method buf value offset byte_length no_assert)
apply lower (fixed method value offset no_assert) buf =
    first_of (write_fixed method buf value offset no_assert)
apply lower (big method value offset) buf = first_of (write_big method buf value offset)
apply lower swapped16 buf = swap16 buf
apply lower swapped32 buf = swap32 buf
apply lower swapped64 buf = swap64 buf
apply lower (copied source target_start start end) buf =
    second_of (copy source buf target_start start end)
apply lower (written string args) buf = second_of (write lower buf string args)
apply lower (filled value args) buf = fill lower buf value args

abbrev pub or_unchanged : List ℕ → Result (List ℕ) → List ℕ
or_unchanged buf (err e) = buf
or_unchanged buf (ok changed) = changed

-- Calls in a row.
unfoldable pub run_calls : (List ℕ → List ℕ) → List Call → List ℕ → List ℕ
unfolding apply
run_calls lower [] buf = buf
run_calls lower (call ∷ calls) buf = run_calls lower calls (or_unchanged buf (apply lower call buf))
