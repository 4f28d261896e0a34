-- ===== src/Buffer/WriteInt/Laws.antt =====
-- Every accessor of signed numbers writes its value in two's complement, and nothing else.
use native.Mathlib.Nat.{mod-eq_of_lt}
use winterjs.Common.{ℕ, suc, ◌+◌, ◌*◌, ◌/◌, ◌%◌, ◌^◌, ◌<◌, ◌≤◌, ◌≡◌, refl, ap, arith}
use winterjs.Common.{Bool, List, [], ◌∷◌, length, if◌then◌else◌}
use winterjs.Common.Bits.{bit_and-mod}
use winterjs.Common.Int.{ℤ, pos, negsuc, ◌+ℤ◌, ltb_ℤ}
use winterjs.Js.{ok}
use winterjs.Js.Int32.{to_uint32, wrap, shr}
use winterjs.Buffer.{assert_int}
use winterjs.Buffer.Window.{splice, le_bytes, be_bytes, signed_num, set_two, set_four}
use winterjs.Buffer.WriteUint.{low_byte}
use winterjs.Buffer.WriteInt.{write_int16_le, write_int16_be, write_int32_le, write_int32_be}

-- The integers of `n` bytes in two's complement.
abbrev pub FitsSigned : ℕ → ℤ → Type 0
FitsSigned n (pos v) = 2 * v < 256 ^ n
FitsSigned n (negsuc m) = 2 * m + 2 ≤ 256 ^ n

-- Such an integer is what its pattern stands for.
pub signed_num-wrap : (n : ℕ) (z : ℤ) → FitsSigned n z → signed_num n (wrap (256 ^ n) z) ≡ z
signed_num-wrap n (pos v) h = ground (arith, mod-eq_of_lt {n = v} {m = 256 ^ n} (omega arith))
signed_num-wrap n (negsuc m) h = ground (arith, mod-eq_of_lt {n = m} {m = 256 ^ n} (omega arith))

low_byte-wrap : (z : ℤ) → low_byte z % 256 ≡ wrap (2 ^ 32) z % 256
low_byte-wrap z = omega (arith, bit_and-mod 8 (wrap (2 ^ 32) z))

assert_int-signed :
    (no_assert : Bool) (len o n limit : ℕ) (z : ℤ)
    → FitsSigned n z
    → 256 ^ n ≡ 2 * suc limit
    → o + n ≤ len
    → assert_int no_assert len z o n (pos limit) (negsuc limit) ≡ ok tt
unfolding assert_int
assert_int-signed no_assert len o n limit (pos v) f e h = ground arith
assert_int-signed no_assert len o n limit (negsuc m) f e h = ground arith

module _ (buf : List ℕ) (value offset : ℤ) (no_assert : Bool) where
  abbrev o : ℕ
  o = to_uint32 offset

  -- `writeInt16LE` of a value that fits, at an offset with room for it.
  pub write_int16_le-splice :
      FitsSigned 2 value
      → to_uint32 offset + 2 ≤ length buf
      → write_int16_le buf value offset no_assert
        ≡ ok (
          splice buf (to_uint32 offset) (le_bytes 2 (wrap (256 ^ 2) value)),
          to_uint32 offset + 2,
        )
  unfolding write_int16_le
  write_int16_le-splice fits h =
      rw
        (
          assert_int-signed no_assert (length buf) o 2 0x7fff value fits refl h,
          low_byte-wrap value,
          set_two buf o (wrap (2 ^ 32) value % 256) (shr (to_uint32 value) 8 % 256) h,
        )
        (ap (λ ds. ok (splice buf o ds, o + 2)) (bytes value))
    where
      bytes :
          (z : ℤ)
          → wrap (2 ^ 32) z % 256 ∷ shr (to_uint32 z) 8 % 256 ∷ [] ≡ le_bytes 2 (wrap (256 ^ 2) z)
      bytes (pos v) = ground arith
      bytes (negsuc m) = ground arith

  pub write_int16_be-splice :
      FitsSigned 2 value
      → to_uint32 offset + 2 ≤ length buf
      → write_int16_be buf value offset no_assert
        ≡ ok (
          splice buf (to_uint32 offset) (be_bytes 2 (wrap (256 ^ 2) value)),
          to_uint32 offset + 2,
        )
  unfolding write_int16_be
  write_int16_be-splice fits h =
      rw
        (
          assert_int-signed no_assert (length buf) o 2 0x7fff value fits refl h,
          low_byte-wrap value,
          set_two buf o (shr (to_uint32 value) 8 % 256) (wrap (2 ^ 32) value % 256) h,
        )
        (ap (λ ds. ok (splice buf o ds, o + 2)) (bytes value))
    where
      bytes :
          (z : ℤ)
          → shr (to_uint32 z) 8 % 256 ∷ wrap (2 ^ 32) z % 256 ∷ [] ≡ be_bytes 2 (wrap (256 ^ 2) z)
      bytes (pos v) = ground arith
      bytes (negsuc m) = ground arith

  pub write_int32_le-splice :
      FitsSigned 4 value
      → to_uint32 offset + 4 ≤ length buf
      → write_int32_le buf value offset no_assert
        ≡ ok (
          splice buf (to_uint32 offset) (le_bytes 4 (wrap (256 ^ 4) value)),
          to_uint32 offset + 4,
        )
  unfolding write_int32_le
  write_int32_le-splice fits h =
      rw
        (
          assert_int-signed no_assert (length buf) o 4 0x7fffffff value fits refl h,
          low_byte-wrap value,
          set_four buf o (wrap (2 ^ 32) value % 256) (shr (to_uint32 value) 8 % 256)
              (shr (to_uint32 value) 16 % 256) (shr (to_uint32 value) 24 % 256) h,
        )
        (ap (λ ds. ok (splice buf o ds, o + 4)) (digits (wrap (2 ^ 32) value)))
    where
      digits :
          (w : ℕ)
          → w % 256 ∷ w / 2 ^ 8 % 256 ∷ w / 2 ^ 16 % 256 ∷ w / 2 ^ 24 % 256 ∷ [] ≡ le_bytes 4 w
      digits w = ground arith

  pub write_int32_be-splice :
      FitsSigned 4 value
      → to_uint32 offset + 4 ≤ length buf
      → write_int32_be buf value offset no_assert
        ≡ ok (
          splice buf (to_uint32 offset) (be_bytes 4 (wrap (256 ^ 4) value)),
          to_uint32 offset + 4,
        )
  unfolding write_int32_be
  write_int32_be-splice fits h =
      rw
        (
          assert_int-signed no_assert (length buf) o 4 0x7fffffff value fits refl h,
          low_byte-wrap value',
          set_four buf o (shr (to_uint32 value') 24 % 256) (shr (to_uint32 value') 16 % 256)
              (shr (to_uint32 value') 8 % 256) (wrap (2 ^ 32) value' % 256) h,
          same_pattern value fits,
        )
        (ap (λ ds. ok (splice buf o ds, o + 4)) (digits (wrap (2 ^ 32) value)))
    where
      value' : ℤ
      value' = if ltb_ℤ value (pos 0) then pos 0xffffffff +ℤ value +ℤ pos 1 else value

      same_pattern :
          (z : ℤ)
          → FitsSigned 4 z
          → wrap (2 ^ 32) (if ltb_ℤ z (pos 0) then pos 0xffffffff +ℤ z +ℤ pos 1 else z)
            ≡ wrap (2 ^ 32) z
      same_pattern (pos v) f = unfold ◌+ℤ◌ in ground arith
      same_pattern (negsuc m) f = unfold ◌+ℤ◌ in ground arith

      digits :
          (w : ℕ)
          → w / 2 ^ 24 % 256 ∷ w / 2 ^ 16 % 256 ∷ w / 2 ^ 8 % 256 ∷ w % 256 ∷ [] ≡ be_bytes 4 w
      digits w = ground arith
