-- ===== src/Buffer/ReadUint/Laws.antt =====
-- Every accessor of unsigned numbers reads the number that the bytes of its window stand for.
use winterjs.Common.{ℕ, zero, suc, ◌+◌, ◌-◌, ◌*◌, ◌<◌, ◌≤◌, ◌≡◌, refl, ap, arith}
use winterjs.Common.{Bool, List, ◌∷◌, some, length, get_elem?-some, drop, get_elem?}
use winterjs.Common.{drop-drop, length-drop, All-drop}
use winterjs.Common.Fields.{join_low_first, join_high_first}
use winterjs.Common.Int.{ℤ}
use winterjs.Js.{ok, IsByte, IsBytes}
use winterjs.Js.Int32.{to_uint32}
use winterjs.Buffer.Window.{window, window_snoc, le_num, be_num, be_num-append}
use winterjs.Buffer.Checks.{
  assert_offset-ok, elem_at, elem_at_zero, uncons, Two-bytes, Four-bytes, Eight, Eight-bytes,
}
use winterjs.Buffer.ReadUint.{
  ByteLength, read_up, read_uint_le, read_down, read_uint_be, elem_before, both_ends,
  read_uint16_le, read_uint16_be,
}
use winterjs.Buffer.ReadUint.{
  read_uint32_le, read_uint32_be, read_big_uint64_le, read_big_uint64_be,
}

-- What is behind a known element.
drop_tail : (buf : List ℕ) (o x : ℕ) (r : List ℕ) → drop o buf ≡ x ∷ r → drop (o + 1) buf ≡ r
drop_tail buf o x r e = rw (← drop-drop o 1 buf, e) refl

-- The loops, over the bytes that they have still to read.
read_up-le_num :
    (buf : List ℕ) (rounds o mul a : ℕ)
    → o + rounds ≤ length buf
    → read_up buf rounds o mul (some a) ≡ some (a + mul * 256 * le_num (window buf o rounds))
unfolding read_up
read_up-le_num buf zero o mul a h = ap some (omega arith)
read_up-le_num buf (suc rounds) o mul a h =
    step (uncons (drop o buf) (omega (arith, length-drop o buf)))
      (λ b. read_up-le_num buf rounds (o + 1) (mul * 256) b (omega arith))
  where
    step :
        (x : ℕ) × (r : List ℕ) × (drop o buf ≡ x ∷ r)
        → ((b : ℕ)
            → read_up buf rounds (o + 1) (mul * 256) (some b)
              ≡ some (b + mul * 256 * 256 * le_num (window buf (o + 1) rounds)))
        → read_up buf (suc rounds) o mul (some a)
          ≡ some (a + mul * 256 * le_num (window buf o (suc rounds)))
    step (x, r, e) ih =
        rw (elem_at_zero buf o, e, ih (a + x * (mul * 256)), drop_tail buf o x r e)
          (ap some (omega arith))

read_down-be_num :
    (buf : List ℕ) (rounds o mul a : ℕ)
    → o + rounds ≤ length buf
    → read_down buf rounds o mul (some a) ≡ some (a + mul * 256 * be_num (window buf o rounds))
unfolding read_down
read_down-be_num buf zero o mul a h = ap some (omega arith)
read_down-be_num buf (suc rounds) o mul a h =
    step (get_elem?-some buf (o + rounds) (omega arith))
      (λ b. read_down-be_num buf rounds o (mul * 256) b (omega arith))
  where
    step :
        (x : ℕ) × (get_elem? buf (o + rounds) ≡ some x)
        → ((b : ℕ)
            → read_down buf rounds o (mul * 256) (some b)
              ≡ some (b + mul * 256 * 256 * be_num (window buf o rounds)))
        → read_down buf (suc rounds) o mul (some a)
          ≡ some (a + mul * 256 * be_num (window buf o (suc rounds)))
    step (x, e) ih =
        rw
          (
            e,
            ih (a + x * (mul * 256)),
            window_snoc buf o rounds x e,
            be_num-append (window buf o rounds) x,
          )
          (ap some (omega arith))

pub read_up_all :
    (buf : List ℕ) (m o : ℕ)
    → o + suc m ≤ length buf
    → read_up buf m (o + 1) 1 (get_elem? buf o) ≡ some (le_num (window buf o (suc m)))
read_up_all buf m o h = step (uncons (drop o buf) (omega (arith, length-drop o buf)))
  where
    step :
        (x : ℕ) × (r : List ℕ) × (drop o buf ≡ x ∷ r)
        → read_up buf m (o + 1) 1 (get_elem? buf o) ≡ some (le_num (window buf o (suc m)))
    step (x, r, e) =
        rw
          (
            elem_at_zero buf o,
            e,
            read_up-le_num buf m (o + 1) 1 x (omega arith),
            drop_tail buf o x r e,
          )
          (ap some (omega arith))

pub read_down_all :
    (buf : List ℕ) (m o : ℕ)
    → o + suc m ≤ length buf
    → read_down buf m o 1 (elem_before buf (o + suc m)) ≡ some (be_num (window buf o (suc m)))
read_down_all buf m o h = step (get_elem?-some buf (o + m) (omega arith))
  where
    step :
        (x : ℕ) × (get_elem? buf (o + m) ≡ some x)
        → read_down buf m o 1 (elem_before buf (o + suc m)) ≡ some (be_num (window buf o (suc m)))
    step (x, e) =
        rw
          (
            (let n : o + suc m ≡ suc (o + m) = omega arith in n),
            (let b : elem_before buf (suc (o + m)) ≡ get_elem? buf (o + m) =
                  unfold elem_before in refl in
                b),
            e,
            read_down-be_num buf m o 1 x (omega arith),
            window_snoc buf o m x e,
            be_num-append (window buf o m) x,
          )
          (ap some (omega arith))

pub both_ends-ok :
    (buf : List ℕ) (o first last : ℕ)
    → get_elem? buf o ≡ some first
    → get_elem? buf (o + 7) ≡ some last
    → both_ends buf o ≡ ok (first, last)
unfolding both_ends
both_ends-ok buf o first last h k = ground arith

module _ (buf : List ℕ) (offset : ℤ) (no_assert : Bool) (bytes : IsBytes buf) where
  abbrev o : ℕ
  o = to_uint32 offset

  tail-IsBytes : IsBytes (drop o buf)
  tail-IsBytes = All-drop IsByte o buf bytes

  -- `readUInt16LE` at an offset with two bytes behind it.
  pub read_uint16_le-le_num :
      to_uint32 offset + 2 ≤ length buf
      → read_uint16_le buf offset no_assert ≡ ok (some (le_num (window buf (to_uint32 offset) 2)))
  unfolding read_uint16_le
  read_uint16_le-le_num h =
      let z = Two-bytes (drop o buf) tail-IsBytes (omega (arith, length-drop o buf)) in
      rw
        (
          assert_offset-ok no_assert o 2 (length buf) h,
          elem_at buf o 1,
          elem_at_zero buf o,
          z.shape,
          (join_low_first z.a z.b 0 0 z.fits.0 z.fits.1 (omega arith) (omega arith)).0,
        )
        (ap (λ v. ok (some v)) (omega arith))

  pub read_uint16_be-be_num :
      to_uint32 offset + 2 ≤ length buf
      → read_uint16_be buf offset no_assert ≡ ok (some (be_num (window buf (to_uint32 offset) 2)))
  unfolding read_uint16_be
  read_uint16_be-be_num h =
      let z = Two-bytes (drop o buf) tail-IsBytes (omega (arith, length-drop o buf)) in
      rw
        (
          assert_offset-ok no_assert o 2 (length buf) h,
          elem_at buf o 1,
          elem_at_zero buf o,
          z.shape,
          (join_high_first 0 0 z.a z.b (omega arith) (omega arith) z.fits.0 z.fits.1).0,
        )
        (ap (λ v. ok (some v)) (omega arith))

  pub read_uint32_le-le_num :
      to_uint32 offset + 4 ≤ length buf
      → read_uint32_le buf offset no_assert ≡ ok (some (le_num (window buf (to_uint32 offset) 4)))
  unfolding read_uint32_le
  read_uint32_le-le_num h =
      let z = Four-bytes (drop o buf) tail-IsBytes (omega (arith, length-drop o buf)) in
      rw
        (
          assert_offset-ok no_assert o 4 (length buf) h,
          elem_at buf o 1,
          elem_at buf o 2,
          elem_at buf o 3,
          elem_at_zero buf o,
          z.shape,
          (join_low_first z.a z.b z.c 0 z.fits.0 z.fits.1 z.fits.2 (omega arith)).1,
        )
        (ap (λ v. ok (some v)) (omega arith))

  pub read_uint32_be-be_num :
      to_uint32 offset + 4 ≤ length buf
      → read_uint32_be buf offset no_assert ≡ ok (some (be_num (window buf (to_uint32 offset) 4)))
  unfolding read_uint32_be
  read_uint32_be-be_num h =
      let z = Four-bytes (drop o buf) tail-IsBytes (omega (arith, length-drop o buf)) in
      rw
        (
          assert_offset-ok no_assert o 4 (length buf) h,
          elem_at buf o 1,
          elem_at buf o 2,
          elem_at buf o 3,
          elem_at_zero buf o,
          z.shape,
          (join_high_first 0 z.b z.c z.d (omega arith) z.fits.1 z.fits.2 z.fits.3).1,
        )
        (ap (λ v. ok (some v)) (omega arith))

  -- `readUIntLE` of one byte or more, inside a buffer of bytes, reads the number that they stand for,
  -- the lowest first.
  pub read_uint_le-le_num :
      (byte_length : ByteLength)
      → 0 < to_uint32 byte_length.0
      → to_uint32 offset + to_uint32 byte_length.0 ≤ length buf
      → read_uint_le buf offset byte_length no_assert
        ≡ ok (some (le_num (window buf (to_uint32 offset) (to_uint32 byte_length.0))))
  unfolding read_uint_le
  read_uint_le-le_num byte_length some_byte h =
      let n = to_uint32 byte_length.0 in
      rw (assert_offset-ok no_assert o n (length buf) h, read_up_all buf (n - 1) o (omega arith))
        (ap (λ t. ok (some (le_num (window buf o t))))
          (let e : suc (to_uint32 byte_length.0 - 1) ≡ to_uint32 byte_length.0 = omega arith in e))

  -- `readUIntBE` of one byte or more, inside a buffer of bytes, reads the number that they stand for,
  -- the highest first.
  pub read_uint_be-be_num :
      (byte_length : ByteLength)
      → 0 < to_uint32 byte_length.0
      → to_uint32 offset + to_uint32 byte_length.0 ≤ length buf
      → read_uint_be buf offset byte_length no_assert
        ≡ ok (some (be_num (window buf (to_uint32 offset) (to_uint32 byte_length.0))))
  unfolding read_uint_be
  read_uint_be-be_num byte_length some_byte h =
      let n = to_uint32 byte_length.0 in
      rw
        (
          assert_offset-ok no_assert o n (length buf) h,
          (let e : o + n ≡ o + suc (n - 1) = omega arith in e),
          read_down_all buf (n - 1) o (omega arith),
        )
        (ap (λ t. ok (some (be_num (window buf o t))))
          (let e : suc (to_uint32 byte_length.0 - 1) ≡ to_uint32 byte_length.0 = omega arith in e))

  -- `readBigUInt64LE`
  pub read_big_uint64_le-le_num :
      to_uint32 offset + 8 ≤ length buf
      → read_big_uint64_le buf offset ≡ ok (le_num (window buf (to_uint32 offset) 8))
  unfolding read_big_uint64_le
  read_big_uint64_le-le_num h =
      go (Eight-bytes (drop o buf) tail-IsBytes (omega (arith, length-drop o buf)))
    where
      go :
          Eight (drop o buf)
          → read_big_uint64_le buf offset ≡ ok (le_num (window buf (to_uint32 offset) 8))
      go z =
          rw
            (
              both_ends-ok buf o z.lo.a z.hi.d (rw (elem_at_zero buf o, z.lo.shape))
                  (rw (elem_at buf o 7, z.lo.shape, z.hi.shape)),
              elem_at buf o 1,
              elem_at buf o 2,
              elem_at buf o 3,
              elem_at buf o 4,
              elem_at buf o 5,
              elem_at buf o 6,
              z.lo.shape,
              z.hi.shape,
            )
            (ap ok (omega arith))

  -- `readBigUInt64BE`
  pub read_big_uint64_be-be_num :
      to_uint32 offset + 8 ≤ length buf
      → read_big_uint64_be buf offset ≡ ok (be_num (window buf (to_uint32 offset) 8))
  unfolding read_big_uint64_be
  read_big_uint64_be-be_num h =
      go (Eight-bytes (drop o buf) tail-IsBytes (omega (arith, length-drop o buf)))
    where
      go :
          Eight (drop o buf)
          → read_big_uint64_be buf offset ≡ ok (be_num (window buf (to_uint32 offset) 8))
      go z =
          rw
            (
              both_ends-ok buf o z.lo.a z.hi.d (rw (elem_at_zero buf o, z.lo.shape))
                  (rw (elem_at buf o 7, z.lo.shape, z.hi.shape)),
              elem_at buf o 1,
              elem_at buf o 2,
              elem_at buf o 3,
              elem_at buf o 4,
              elem_at buf o 5,
              elem_at buf o 6,
              z.lo.shape,
              z.hi.shape,
            )
            (ap ok (omega arith))
