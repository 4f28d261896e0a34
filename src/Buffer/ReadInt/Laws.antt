-- ===== src/Buffer/ReadInt/Laws.antt =====
-- Every accessor of signed numbers reads its window in two's complement.
use native.Mathlib.Nat.{pow-suc}
use winterjs.Common.{ℕ, zero, suc, ◌+◌, ◌-◌, ◌*◌, ◌^◌, ◌<◌, ◌≤◌, ◌≡◌, ap, arith}
use winterjs.Common.{Bool, List, some, length, drop}
use winterjs.Common.{length-drop, All-drop}
use winterjs.Common.Bits.{bit_and-one_bit}
use winterjs.Common.Fields.{join_low_first, join_high_first, bit_or-add_low}
use winterjs.Common.Int.{ℤ, pos, ◌+ℤ◌, ◌*ℤ◌, +ℤ_comm}
use winterjs.Js.{ok, IsByte, IsBytes}
use winterjs.Js.Int32.{to_uint32, shl, signed32}
use winterjs.Buffer.ReadUint.{ByteLength}
use winterjs.Buffer.Window.{
  window, signed_num, le_num, be_num, le_num-window-lt, be_num-window-lt, pow-bits,
}
use winterjs.Buffer.Checks.{
  assert_offset-ok, elem_at, elem_at_zero, Two-bytes, Four-bytes, Eight, Eight-bytes,
}
use winterjs.Buffer.ReadUint.Laws.{read_up_all, read_down_all, both_ends-ok}
use winterjs.Buffer.ReadInt.{
  to_signed, read_int_le, read_int_be, sign_extend16, read_int16_le, read_int16_be, read_int32_le,
  read_int32_be, read_big_int64_le, read_big_int64_be,
}

to_signed-signed_num :
    (n w : ℕ) → 0 < n → w < 256 ^ n → to_signed n (some w) ≡ some (signed_num n w)
unfolding to_signed
to_signed-signed_num zero w h k = elim h [ ]
to_signed-signed_num (suc m) w h k = ground (
  arith,
  pow-bits (suc m),
  pow-suc 256 m,
  (let e : suc m - 1 ≡ m = omega arith in ap (λ (t : ℕ). 256 ^ t) e),
)

sign_extend16-signed_num : (w : ℕ) → w < 2 ^ 16 → sign_extend16 w ≡ signed_num 2 w
unfolding sign_extend16
sign_extend16-signed_num w h = ground (arith, bit_and-one_bit 15 w, bit_or-add_low 16 0xffff w)

-- The two halves of a 64-bit number, the upper one signed by its highest byte.
halves_signed :
    (lo mid top : ℕ)
    → lo < 2 ^ 32
    → mid < 2 ^ 24
    → top < 256
    → (pos mid +ℤ signed32 (shl top 24)) *ℤ pos (2 ^ 32) +ℤ pos lo
      ≡ signed_num 8 (lo + 2 ^ 32 * (mid + 2 ^ 24 * top))
unfolding ◌+ℤ◌ ◌*ℤ◌
halves_signed lo mid top hl hm ht = ground arith

+ℤ_comm_pos : (a : ℤ) (b : ℕ) → a +ℤ pos b ≡ pos b +ℤ a
+ℤ_comm_pos a b = +ℤ_comm a (pos b)

module _ (buf : List ℕ) (offset : ℤ) (no_assert : Bool) (bytes : IsBytes buf) where
  abbrev o : ℕ
  o = to_uint32 offset

  tail-IsBytes : IsBytes (drop o buf)
  tail-IsBytes = All-drop IsByte o buf bytes

  -- `readIntLE` of one byte or more, inside a buffer of bytes, reads the two's complement number that
  -- they stand for, the lowest first.
  pub read_int_le-signed_num :
      (byte_length : ByteLength)
      → 0 < to_uint32 byte_length.0
      → to_uint32 offset + to_uint32 byte_length.0 ≤ length buf
      → read_int_le buf offset byte_length no_assert
        ≡ ok (
            some (
              signed_num
                (to_uint32 byte_length.0)
                (le_num (window buf (to_uint32 offset) (to_uint32 byte_length.0)))))
  unfolding read_int_le
  read_int_le-signed_num byte_length some_byte h =
      let n = to_uint32 byte_length.0 in
      let whole : suc (to_uint32 byte_length.0 - 1) ≡ to_uint32 byte_length.0 = omega arith in
      rw
        (
          assert_offset-ok no_assert o n (length buf) h,
          read_up_all buf (n - 1) o (omega arith),
          whole,
        )
        (ap ok (
          to_signed-signed_num n (le_num (window buf o n)) some_byte
            (le_num-window-lt buf o n bytes h)))

  -- `readIntBE` of one byte or more, inside a buffer of bytes, reads the two's complement number that
  -- they stand for, the highest first.
  pub read_int_be-signed_num :
      (byte_length : ByteLength)
      → 0 < to_uint32 byte_length.0
      → to_uint32 offset + to_uint32 byte_length.0 ≤ length buf
      → read_int_be buf offset byte_length no_assert
        ≡ ok (
            some (
              signed_num
                (to_uint32 byte_length.0)
                (be_num (window buf (to_uint32 offset) (to_uint32 byte_length.0)))))
  unfolding read_int_be
  read_int_be-signed_num byte_length some_byte h =
      let n = to_uint32 byte_length.0 in
      let whole : suc (to_uint32 byte_length.0 - 1) ≡ to_uint32 byte_length.0 = omega arith in
      rw
        (
          assert_offset-ok no_assert o n (length buf) h,
          (let e : o + to_uint32 byte_length.0 ≡ o + suc (to_uint32 byte_length.0 - 1) =
                omega arith in
              e),
          read_down_all buf (n - 1) o (omega arith),
          whole,
        )
        (ap ok (
          to_signed-signed_num n (be_num (window buf o n)) some_byte
            (be_num-window-lt buf o n bytes h)))

  pub read_int16_le-signed_num :
      to_uint32 offset + 2 ≤ length buf
      → read_int16_le buf offset no_assert
        ≡ ok (some (signed_num 2 (le_num (window buf (to_uint32 offset) 2))))
  unfolding read_int16_le
  read_int16_le-signed_num h =
      let z = Two-bytes (drop o buf) tail-IsBytes (omega (arith, length-drop o buf)) in
      rw
        (
          assert_offset-ok no_assert o 2 (length buf) h,
          elem_at buf o 1,
          elem_at_zero buf o,
          z.shape,
          (join_low_first z.a z.b 0 0 z.fits.0 z.fits.1 (omega arith) (omega arith)).0,
          sign_extend16-signed_num (z.a + 256 * z.b) (omega arith),
        )
        (ap (λ w. ok (some (signed_num 2 w)))
          (let e : z.a + 256 * z.b ≡ z.a + 256 * (z.b + 256 * 0) = omega arith in e))

  pub read_int32_le-signed_num :
      to_uint32 offset + 4 ≤ length buf
      → read_int32_le buf offset no_assert
        ≡ ok (some (signed_num 4 (le_num (window buf (to_uint32 offset) 4))))
  unfolding read_int32_le
  read_int32_le-signed_num h =
      let z = Four-bytes (drop o buf) tail-IsBytes (omega (arith, length-drop o buf)) in
      rw
        (
          assert_offset-ok no_assert o 4 (length buf) h,
          elem_at buf o 1,
          elem_at buf o 2,
          elem_at buf o 3,
          elem_at_zero buf o,
          z.shape,
          (join_low_first z.a z.b z.c z.d z.fits.0 z.fits.1 z.fits.2 z.fits.3).2,
        )
        (ap (λ v. ok (some v)) (ground arith))

  pub read_int16_be-signed_num :
      to_uint32 offset + 2 ≤ length buf
      → read_int16_be buf offset no_assert
        ≡ ok (some (signed_num 2 (be_num (window buf (to_uint32 offset) 2))))
  unfolding read_int16_be
  read_int16_be-signed_num h =
      let z = Two-bytes (drop o buf) tail-IsBytes (omega (arith, length-drop o buf)) in
      rw
        (
          assert_offset-ok no_assert o 2 (length buf) h,
          elem_at buf o 1,
          elem_at_zero buf o,
          z.shape,
          (join_low_first z.b z.a 0 0 z.fits.1 z.fits.0 (omega arith) (omega arith)).0,
          sign_extend16-signed_num (z.b + 256 * z.a) (omega arith),
        )
        (ap (λ w. ok (some (signed_num 2 w)))
          (let e : z.b + 256 * z.a ≡ z.a * 256 ^ 1 + (z.b * 256 ^ 0 + 0) = omega arith in e))

  pub read_int32_be-signed_num :
      to_uint32 offset + 4 ≤ length buf
      → read_int32_be buf offset no_assert
        ≡ ok (some (signed_num 4 (be_num (window buf (to_uint32 offset) 4))))
  unfolding read_int32_be
  read_int32_be-signed_num h =
      let z = Four-bytes (drop o buf) tail-IsBytes (omega (arith, length-drop o buf)) in
      rw
        (
          assert_offset-ok no_assert o 4 (length buf) h,
          elem_at buf o 1,
          elem_at buf o 2,
          elem_at buf o 3,
          elem_at_zero buf o,
          z.shape,
          (join_high_first z.a z.b z.c z.d z.fits.0 z.fits.1 z.fits.2 z.fits.3).2,
        )
        (ap (λ v. ok (some v)) (ground arith))

  -- `readBigInt64LE`
  pub read_big_int64_le-signed_num :
      to_uint32 offset + 8 ≤ length buf
      → read_big_int64_le buf offset ≡ ok (signed_num 8 (le_num (window buf (to_uint32 offset) 8)))
  unfolding read_big_int64_le
  read_big_int64_le-signed_num h =
      go (Eight-bytes (drop o buf) tail-IsBytes (omega (arith, length-drop o buf)))
    where
      go :
          Eight (drop o buf)
          → read_big_int64_le buf offset
            ≡ ok (signed_num 8 (le_num (window buf (to_uint32 offset) 8)))
      go z =
          rw
            (
              both_ends-ok buf o z.lo.a z.hi.d (rw (elem_at_zero buf o, z.lo.shape))
                  (rw (elem_at buf o 7, z.lo.shape, z.hi.shape)),
              elem_at buf o 1,
              elem_at buf o 2,
              elem_at buf o 3,
              elem_at buf o 4,
              elem_at buf o 5,
              elem_at buf o 6,
              z.lo.shape,
              z.hi.shape,
              halves_signed (z.lo.a + z.lo.b * 2 ^ 8 + z.lo.c * 2 ^ 16 + z.lo.d * 2 ^ 24)
                  (z.hi.a + z.hi.b * 2 ^ 8 + z.hi.c * 2 ^ 16) z.hi.d
                  (omega (arith, z.lo.fits, z.hi.fits)) (omega (arith, z.lo.fits, z.hi.fits))
                  (omega (arith, z.lo.fits, z.hi.fits)),
            )
            (ap (λ w. ok (signed_num 8 w)) (omega arith))

  -- `readBigInt64BE`
  pub read_big_int64_be-signed_num :
      to_uint32 offset + 8 ≤ length buf
      → read_big_int64_be buf offset ≡ ok (signed_num 8 (be_num (window buf (to_uint32 offset) 8)))
  unfolding read_big_int64_be
  read_big_int64_be-signed_num h =
      go (Eight-bytes (drop o buf) tail-IsBytes (omega (arith, length-drop o buf)))
    where
      go :
          Eight (drop o buf)
          → read_big_int64_be buf offset
            ≡ ok (signed_num 8 (be_num (window buf (to_uint32 offset) 8)))
      go z =
          rw
            (
              both_ends-ok buf o z.lo.a z.hi.d (rw (elem_at_zero buf o, z.lo.shape))
                  (rw (elem_at buf o 7, z.lo.shape, z.hi.shape)),
              elem_at buf o 1,
              elem_at buf o 2,
              elem_at buf o 3,
              elem_at buf o 4,
              elem_at buf o 5,
              elem_at buf o 6,
              z.lo.shape,
              z.hi.shape,
              +ℤ_comm_pos (signed32 (shl z.lo.a 24)),
              halves_signed (z.hi.a * 2 ^ 24 + z.hi.b * 2 ^ 16 + z.hi.c * 2 ^ 8 + z.hi.d)
                  (z.lo.b * 2 ^ 16 + z.lo.c * 2 ^ 8 + z.lo.d) z.lo.a
                  (omega (arith, z.lo.fits, z.hi.fits)) (omega (arith, z.lo.fits, z.hi.fits))
                  (omega (arith, z.lo.fits, z.hi.fits)),
            )
            (ap (λ w. ok (signed_num 8 w)) (omega arith))
