-- ===== src/Buffer/BigInt/Laws.antt =====
-- The 64-bit writers store the eight bytes of their value, and nothing else.
use winterjs.Common.{ℕ, ◌+◌, ◌/◌, ◌%◌, ◌^◌, ◌<◌, ◌≤◌, ◌≡◌, ap, ◌∙◌, arith}
use winterjs.Common.{List, ◌++◌, length, get_elem?-some}
use winterjs.Common.Int.{ℤ, pos, negsuc, ◌≤ℤ◌}
use winterjs.Js.{ok}
use winterjs.Js.Int32.{to_uint32, wrap, wrap-lt, sar8, floor_div}
use winterjs.Buffer.{check_int_bi}
use winterjs.Buffer.Window.{
  splice, le_bytes, be_bytes, set_four, set_four_down, length-splice, splice-splice_up,
  splice-splice_down,
}
use winterjs.Buffer.BigInt.{store_four_up, store_four_down, wrt_big_uint64_le, wrt_big_uint64_be}

-- Copying the sign bit on the way down does not reach the low byte.
sar_bytes :
    (w : ℕ)
    → w < 2 ^ 32
    → (sar8 w % 256 ≡ w / 256 % 256)
      × (sar8 (sar8 w) % 256 ≡ w / 256 / 256 % 256)
      × (sar8 (sar8 (sar8 w)) % 256 ≡ w / 256 / 256 / 256 % 256)
sar_bytes w h = ground arith

store_four_up-splice :
    (buf : List ℕ) (o w : ℕ)
    → w < 2 ^ 32
    → o + 4 ≤ length buf
    → store_four_up buf o w ≡ splice buf o (le_bytes 4 w)
unfolding store_four_up
store_four_up-splice buf o w h k =
    let e = sar_bytes w h in
    set_four buf o (w % 256) (sar8 w % 256) (sar8 (sar8 w) % 256) (sar8 (sar8 (sar8 w)) % 256) k
    ∙ rw (e.0, e.1, e.2)

store_four_down-splice :
    (buf : List ℕ) (o w : ℕ)
    → w < 2 ^ 32
    → o + 4 ≤ length buf
    → store_four_down buf o w ≡ splice buf o (be_bytes 4 w)
unfolding store_four_down
store_four_down-splice buf o w h k =
    let e = sar_bytes w h in
    set_four_down buf o (sar8 (sar8 (sar8 w)) % 256) (sar8 (sar8 w) % 256) (sar8 w % 256) (w % 256)
      k
    ∙ rw (e.0, e.1, e.2)

-- The integers of the unsigned and of the signed methods.
abbrev pub Within : ℤ → ℤ → ℤ → Type 0
Within min max value = (min ≤ℤ value) × (value ≤ℤ max)

check_int_bi-ok :
    (value min max : ℤ) (buf : List ℕ) (o : ℕ)
    → Within min max value
    → o + 8 ≤ length buf
    → check_int_bi value min max buf (pos o) ≡ ok tt
unfolding check_int_bi
check_int_bi-ok value min max buf o h k =
    let (x, ex) = get_elem?-some buf o (omega arith) in
    let (y, ey) = get_elem?-some buf (o + 7) (omega arith) in ground arith

-- The low and the high half of a value are those of its 64-bit pattern.
low_half : (z : ℤ) → wrap (2 ^ 32) z ≡ wrap (256 ^ 8) z % 2 ^ 32
low_half (pos v) = omega arith
low_half (negsuc m) = omega arith

high_half : (z : ℤ) → to_uint32 (floor_div z (2 ^ 32)) ≡ wrap (256 ^ 8) z / 2 ^ 32
high_half (pos v) = omega arith
high_half (negsuc m) = omega arith

le_bytes_halves : (w : ℕ) → le_bytes 4 (w % 2 ^ 32) ++ le_bytes 4 (w / 2 ^ 32) ≡ le_bytes 8 w
le_bytes_halves w = rw (
  (let e : w % 2 ^ 32 % 256 ≡ w % 256 = omega arith in e),
  (let e : w % 2 ^ 32 / 256 % 256 ≡ w / 256 % 256 = omega arith in e),
  (let e : w % 2 ^ 32 / 256 / 256 % 256 ≡ w / 256 / 256 % 256 = omega arith in e),
  (let e : w % 2 ^ 32 / 256 / 256 / 256 % 256 ≡ w / 256 / 256 / 256 % 256 = omega arith in e),
  (let e : w / 2 ^ 32 ≡ w / 256 / 256 / 256 / 256 = omega arith in e),
)

be_bytes_halves : (w : ℕ) → be_bytes 4 (w / 2 ^ 32) ++ be_bytes 4 (w % 2 ^ 32) ≡ be_bytes 8 w
be_bytes_halves w = rw (
  (let e : w % 2 ^ 32 % 256 ≡ w % 256 = omega arith in e),
  (let e : w % 2 ^ 32 / 256 % 256 ≡ w / 256 % 256 = omega arith in e),
  (let e : w % 2 ^ 32 / 256 / 256 % 256 ≡ w / 256 / 256 % 256 = omega arith in e),
  (let e : w % 2 ^ 32 / 256 / 256 / 256 % 256 ≡ w / 256 / 256 / 256 % 256 = omega arith in e),
  (let e : w / 2 ^ 32 ≡ w / 256 / 256 / 256 / 256 = omega arith in e),
)

module _ (buf : List ℕ) (value min max : ℤ) (o : ℕ) (h : Within min max value)
    (k : o + 8 ≤ length buf) where
  -- `wrtBigUInt64LE` at an offset with room for eight bytes.
  pub wrt_big_uint64_le-splice :
      wrt_big_uint64_le buf value (pos o) min max
      ≡ ok (splice buf o (le_bytes 8 (wrap (256 ^ 8) value)), o + 8)
  unfolding wrt_big_uint64_le
  wrt_big_uint64_le-splice =
      rw
        (
          check_int_bi-ok value min max buf o h k,
          store_four_up-splice buf o (to_uint32 value) (omega (arith, low_half value))
              (omega arith),
          store_four_up-splice (splice buf o (le_bytes 4 (to_uint32 value))) (o + 4)
              (to_uint32 (floor_div value (2 ^ 32)))
              (omega (arith, high_half value, wrap-lt (256 ^ 8) value (omega arith)))
              (omega (arith, length-splice buf o (le_bytes 4 (to_uint32 value)))),
          splice-splice_up buf o (le_bytes 4 (to_uint32 value))
              (le_bytes 4 (to_uint32 (floor_div value (2 ^ 32)))) (omega arith),
          high_half value,
          low_half value,
        )
        (ap (λ ds. ok (splice buf o ds, o + 8)) (le_bytes_halves (wrap (256 ^ 8) value)))

  pub wrt_big_uint64_be-splice :
      wrt_big_uint64_be buf value (pos o) min max
      ≡ ok (splice buf o (be_bytes 8 (wrap (256 ^ 8) value)), o + 8)
  unfolding wrt_big_uint64_be
  wrt_big_uint64_be-splice =
      rw
        (
          check_int_bi-ok value min max buf o h k,
          store_four_down-splice buf (o + 4) (to_uint32 value) (omega (arith, low_half value))
              (omega arith),
          store_four_down-splice (splice buf (o + 4) (be_bytes 4 (to_uint32 value))) o
              (to_uint32 (floor_div value (2 ^ 32)))
              (omega (arith, high_half value, wrap-lt (256 ^ 8) value (omega arith)))
              (omega (arith, length-splice buf (o + 4) (be_bytes 4 (to_uint32 value)))),
          splice-splice_down buf o (be_bytes 4 (to_uint32 (floor_div value (2 ^ 32))))
              (be_bytes 4 (to_uint32 value)) (omega arith),
          high_half value,
          low_half value,
        )
        (ap (λ ds. ok (splice buf o ds, o + 8)) (be_bytes_halves (wrap (256 ^ 8) value)))
