-- ===== src/Buffer/Mutation/Keeps.antt =====
-- Whatever is called with whatever arguments, a number that is written leaves an array of bytes of the
-- same length.
use winterjs.Common.{ℕ, zero, suc, ◌+◌, ◌-◌, ◌*◌, Bool, List, length, min}
use winterjs.Common.Int.{ℤ, pos, negsuc, pos_part, ◌+ℤ◌}
use winterjs.Js.{Error, Result, ok, err, ◌>>◌, store}
use winterjs.Js.Int32.{to_uint32}
use winterjs.Buffer.{check_int_bi, assert_int}
use winterjs.Buffer.WriteUint.{
  low_byte, write_up, write_down, store_before, write_uint_le, write_uint_be, write_uint8,
  write_uint16_le, write_uint16_be, write_uint32_le, write_uint32_be,
}
use winterjs.Buffer.WriteInt.{
  store_behind, assert_signed, write_signed_up, write_signed_down, write_int_le, write_int_be,
  write_int8, write_int16_le, write_int16_be, write_int32_le, write_int32_be,
}
use winterjs.Buffer.BigInt.{
  store_four_up, store_four_down, wrt_big_uint64_le, wrt_big_uint64_be, write_big_uint64_le,
  write_big_uint64_be, write_big_int64_le, write_big_int64_be,
}
use winterjs.Buffer.Kept.{Kept, store-Kept}
use winterjs.Buffer.Mutation.{
  Sized, SignedSized, write_signed, Fixed, Big, uint_le, uint_be, int_le, int_be, uint8, uint16_le,
  uint16_be, uint32_le, uint32_be, int8, int16_le, int16_be, int32_le, int32_be, big_uint64_le,
  big_uint64_be, big_int64_le, big_int64_be, write_sized, write_fixed, write_big,
}

-- A result that holds a kept buffer where there is one.
pub data KeptFirst {A : Type 0} (n : ℕ) : Result (List ℕ × A) → Type 0 where
  threw : (e : Error) → KeptFirst n (err e)
  returned : (buf : List ℕ) (next : A) → Kept n buf → KeptFirst n (ok (buf, next))

-- Behind a check, whatever that says.
checked-Kept :
    {A : Type 0} (n : ℕ) (check : Result (Unit {0})) {rest : Result (List ℕ × A)}
    → KeptFirst n rest
    → KeptFirst n (check >> rest)
checked-Kept n (err e) k = threw e
checked-Kept n (ok _) k = k

module _ (n : ℕ) where
  write_up-Kept :
      (rounds at_pos mul : ℕ) (value : ℤ) (buf : List ℕ)
      → Kept n buf
      → Kept n (write_up rounds at_pos mul value buf)
  unfolding write_up
  write_up-Kept zero at_pos mul value buf k = k
  write_up-Kept (suc rounds) at_pos mul value buf k =
      write_up-Kept rounds (at_pos + 1) (mul * 0x100) value _ (store-Kept n buf at_pos _ k)

  write_down-Kept :
      (rounds offset mul : ℕ) (value : ℤ) (buf : List ℕ)
      → Kept n buf
      → Kept n (write_down rounds offset mul value buf)
  unfolding write_down
  write_down-Kept zero offset mul value buf k = k
  write_down-Kept (suc i) offset mul value buf k =
      write_down-Kept i offset (mul * 0x100) value _ (store-Kept n buf (offset + i) _ k)

  write_signed_up-Kept :
      (rounds at_pos mul sub : ℕ) (value : ℤ) (buf : List ℕ)
      → Kept n buf
      → Kept n (write_signed_up rounds at_pos mul sub value buf)
  unfolding write_signed_up
  write_signed_up-Kept zero at_pos mul sub value buf k = k
  write_signed_up-Kept (suc rounds) at_pos mul sub value buf k =
      write_signed_up-Kept rounds (at_pos + 1) (mul * 0x100) _ value _ (store-Kept n buf at_pos _ k)

  write_signed_down-Kept :
      (rounds offset mul sub : ℕ) (value : ℤ) (buf : List ℕ)
      → Kept n buf
      → Kept n (write_signed_down rounds offset mul sub value buf)
  unfolding write_signed_down
  write_signed_down-Kept zero offset mul sub value buf k = k
  write_signed_down-Kept (suc i) offset mul sub value buf k =
      write_signed_down-Kept i offset (mul * 0x100) _ value _ (store-Kept n buf (offset + i) _ k)

  store_before-Kept : (buf : List ℕ) (i v : ℕ) → Kept n buf → Kept n (store_before buf i v)
  unfolding store_before
  store_before-Kept buf zero v k = k
  store_before-Kept buf (suc i) v k = store-Kept n buf i v k

  pub write_sized-Kept :
      (method : Sized) (buf : List ℕ) (value offset byte_length : ℤ) (no_assert : Bool)
      → Kept n buf
      → KeptFirst n (write_sized method buf value offset byte_length no_assert)
  unfolding write_sized write_uint_le write_uint_be
  write_sized-Kept uint_le buf value offset byte_length no_assert k =
      checked-Kept n (assert_int no_assert (length buf) value _ _ _ _) (
        returned _ (to_uint32 offset + to_uint32 byte_length) (
          write_up-Kept (to_uint32 byte_length - 1) (to_uint32 offset + 1) 1 value _
            (store-Kept n buf (to_uint32 offset) (low_byte value) k)))
  write_sized-Kept uint_be buf value offset byte_length no_assert k =
      checked-Kept n (assert_int no_assert (length buf) value _ _ _ _) (
        returned _ (to_uint32 offset + to_uint32 byte_length) (
          write_down-Kept (to_uint32 byte_length - 1) (to_uint32 offset) 1 value _
            (store_before-Kept buf (to_uint32 offset + to_uint32 byte_length) (low_byte value) k)))

  store_behind-Kept : (buf : List ℕ) (z : ℤ) (v : ℕ) → Kept n buf → Kept n (store_behind buf z v)
  store_behind-Kept buf (pos zero) v k = k
  store_behind-Kept buf (pos (suc i)) v k = store-Kept n buf i v k
  store_behind-Kept buf (negsuc i) v k = k

  pub write_signed-Kept :
      (method : SignedSized) (buf : List ℕ) (value offset byte_length : ℤ) (no_assert : Bool)
      → Kept n buf
      → KeptFirst n (write_signed method buf value offset byte_length no_assert)
  unfolding write_signed write_int_le write_int_be
  write_signed-Kept int_le buf value offset byte_length no_assert k =
      checked-Kept n (assert_signed no_assert (length buf) value _ _) (
        returned _ _ (
          write_signed_up-Kept (pos_part byte_length - 1) (to_uint32 offset + 1) 1 0 value _
            (store-Kept n buf (to_uint32 offset) (low_byte value) k)))
  write_signed-Kept int_be buf value offset byte_length no_assert k =
      checked-Kept n (assert_signed no_assert (length buf) value _ _) (
        returned _ _ (
          write_signed_down-Kept (pos_part byte_length - 1) (to_uint32 offset) 1 0 value _
            (store_behind-Kept buf (pos (to_uint32 offset) +ℤ byte_length) (low_byte value) k)))

  two_stores : (buf : List ℕ) (i j a b : ℕ) → Kept n buf → Kept n (store (store buf i a) j b)
  two_stores buf i j a b k = store-Kept n (store buf i a) j b (store-Kept n buf i a k)

  four_stores :
      (buf : List ℕ) (i j l m a b c d : ℕ)
      → Kept n buf
      → Kept n (store (store (store (store buf i a) j b) l c) m d)
  four_stores buf i j l m a b c d k = two_stores _ l m c d (two_stores buf i j a b k)

  pub write_fixed-Kept :
      (method : Fixed) (buf : List ℕ) (value offset : ℤ) (no_assert : Bool)
      → Kept n buf
      → KeptFirst n (write_fixed method buf value offset no_assert)
  unfolding write_fixed write_uint8 write_uint16_le write_uint16_be write_uint32_le write_uint32_be
      write_int8 write_int16_le write_int16_be write_int32_le write_int32_be
  write_fixed-Kept uint8 buf value offset no_assert k =
      checked-Kept n (assert_int no_assert (length buf) value _ _ _ _)
        (returned _ _ (store-Kept n buf _ _ k))
  write_fixed-Kept uint16_le buf value offset no_assert k =
      checked-Kept n (assert_int no_assert (length buf) value _ _ _ _)
        (returned _ _ (two_stores buf _ _ _ _ k))
  write_fixed-Kept uint16_be buf value offset no_assert k =
      checked-Kept n (assert_int no_assert (length buf) value _ _ _ _)
        (returned _ _ (two_stores buf _ _ _ _ k))
  write_fixed-Kept uint32_le buf value offset no_assert k =
      checked-Kept n (assert_int no_assert (length buf) value _ _ _ _)
        (returned _ _ (four_stores buf _ _ _ _ _ _ _ _ k))
  write_fixed-Kept uint32_be buf value offset no_assert k =
      checked-Kept n (assert_int no_assert (length buf) value _ _ _ _)
        (returned _ _ (four_stores buf _ _ _ _ _ _ _ _ k))
  write_fixed-Kept int8 buf value offset no_assert k =
      checked-Kept n (assert_int no_assert (length buf) value _ _ _ _)
        (returned _ _ (store-Kept n buf _ _ k))
  write_fixed-Kept int16_le buf value offset no_assert k =
      checked-Kept n (assert_int no_assert (length buf) value _ _ _ _)
        (returned _ _ (two_stores buf _ _ _ _ k))
  write_fixed-Kept int16_be buf value offset no_assert k =
      checked-Kept n (assert_int no_assert (length buf) value _ _ _ _)
        (returned _ _ (two_stores buf _ _ _ _ k))
  write_fixed-Kept int32_le buf value offset no_assert k =
      checked-Kept n (assert_int no_assert (length buf) value _ _ _ _)
        (returned _ _ (four_stores buf _ _ _ _ _ _ _ _ k))
  write_fixed-Kept int32_be buf value offset no_assert k =
      checked-Kept n (assert_int no_assert (length buf) value _ _ _ _)
        (returned _ _ (four_stores buf _ _ _ _ _ _ _ _ k))

  store_four_up-Kept : (buf : List ℕ) (o lo : ℕ) → Kept n buf → Kept n (store_four_up buf o lo)
  unfolding store_four_up
  store_four_up-Kept buf o lo k = four_stores buf _ _ _ _ _ _ _ _ k

  store_four_down-Kept : (buf : List ℕ) (o lo : ℕ) → Kept n buf → Kept n (store_four_down buf o lo)
  unfolding store_four_down
  store_four_down-Kept buf o lo k = four_stores buf _ _ _ _ _ _ _ _ k

  wrt_big_uint64_le-Kept :
      (buf : List ℕ) (value offset min max : ℤ)
      → Kept n buf
      → KeptFirst n (wrt_big_uint64_le buf value offset min max)
  unfolding wrt_big_uint64_le
  wrt_big_uint64_le-Kept buf value offset min max k =
      checked-Kept n (check_int_bi value min max buf offset)
        (returned _ _ (store_four_up-Kept _ _ _ (store_four_up-Kept buf _ _ k)))

  wrt_big_uint64_be-Kept :
      (buf : List ℕ) (value offset min max : ℤ)
      → Kept n buf
      → KeptFirst n (wrt_big_uint64_be buf value offset min max)
  unfolding wrt_big_uint64_be
  wrt_big_uint64_be-Kept buf value offset min max k =
      checked-Kept n (check_int_bi value min max buf offset)
        (returned _ _ (store_four_down-Kept _ _ _ (store_four_down-Kept buf _ _ k)))

  pub write_big-Kept :
      (method : Big) (buf : List ℕ) (value offset : ℤ)
      → Kept n buf
      → KeptFirst n (write_big method buf value offset)
  unfolding write_big write_big_uint64_le write_big_uint64_be write_big_int64_le write_big_int64_be
  write_big-Kept big_uint64_le buf value offset k = wrt_big_uint64_le-Kept buf value offset _ _ k
  write_big-Kept big_uint64_be buf value offset k = wrt_big_uint64_be-Kept buf value offset _ _ k
  write_big-Kept big_int64_le buf value offset k = wrt_big_uint64_le-Kept buf value offset _ _ k
  write_big-Kept big_int64_be buf value offset k = wrt_big_uint64_be-Kept buf value offset _ _ k
