-- ===== src/Buffer/Compare.antt =====
-- buffer.js: `Buffer.compare`, `equals`, and the loop that `compare` of the prototype shares.
-- The arguments are buffers, so the type checks pass; both are copied before the identity test.
pub mod Laws
pub mod Ranges
use winterjs.Common.{ℕ, zero, suc, Bool, false, ltb, ◌==◌, if◌then◌else◌, List, [], ◌∷◌, length}
use winterjs.Common.Int.{ℤ, pos, negsuc}
use winterjs.Common.{Option, none, some, ◌-◌, ◌&&◌, ◌||◌, min, take}
use winterjs.Common.Int.{ltb_ℤ, leb_ℤ}
use winterjs.Js.{Result, ok, err, ◌>>=◌, ◌>>◌, throw_if, or_default, out_of_range_index}
use winterjs.Js.Int32.{to_uint32}
use winterjs.Buffer.Slice.{slice}

-- `for (i = 0; i < Math.min(x, y); ++i)`: the first pair of bytes that differ, or the two lengths
-- that `x` and `y` hold before.
unfoldable pub differ : List ℕ → List ℕ → ℕ → ℕ → ℕ × ℕ
differ [] bs x y = (x, y)
differ (a ∷ as') [] x y = (x, y)
differ (a ∷ as') (b ∷ bs) x y = if a == b then differ as' bs x y else (a, b)

-- `if (x < y) return -1; if (y < x) return 1; return 0`
unfoldable pub three_way : ℕ × ℕ → ℤ
three_way (x, y) = if ltb x y then negsuc 0 else if ltb y x then pos 1 else pos 0

-- `Buffer.compare`
unfoldable pub compare_buffers : List ℕ → List ℕ → ℤ
unfolding differ three_way
compare_buffers a b = three_way (differ a b (length a) (length b))

-- `equals`
unfoldable pub equals : List ℕ → List ℕ → Bool
unfolding compare_buffers
equals a b = elim (compare_buffers a b) [ pos n ↦ n == 0 | negsuc n ↦ false ]

-- `start < 0 || end > target.length || thisStart < 0 || thisEnd > this.length`
abbrev pub outside : List ℕ → List ℕ → ℤ → ℤ → ℤ → ℤ → Bool
outside this target start end this_start this_end =
    (ltb_ℤ start (pos 0) || ltb_ℤ (pos (length target)) end)
    || (ltb_ℤ this_start (pos 0) || ltb_ℤ (pos (length this)) this_end)

-- From `start >>>= 0` on, where both ranges have a byte: the copies are views that are only read.
unfoldable pub compare_views : List ℕ → List ℕ → ℕ → ℕ → ℕ → ℕ → ℤ
unfolding differ three_way slice
compare_views this target start end this_start this_end =
    let x = this_end - this_start in
    let y = end - start in
    let this_copy = slice this (pos this_start) (some (pos this_end)) in
    let target_copy = slice target (pos start) (some (pos end)) in
    three_way (differ (take (min x y) this_copy) (take (min x y) target_copy) x y)

-- `compare` of the prototype, once the missing arguments have their defaults.
unfoldable pub compare_ranges : List ℕ → List ℕ → ℤ → ℤ → ℤ → ℤ → Result ℤ
compare_ranges this target start end this_start this_end = do
  throw_if (outside this target start end this_start this_end) out_of_range_index
  ok (
      if leb_ℤ this_end this_start && leb_ℤ end start
      then pos 0
      else if leb_ℤ this_end this_start
      then negsuc 0
      else if leb_ℤ end start
      then pos 1
      else compare_views this target (to_uint32 start) (to_uint32 end) (to_uint32 this_start)
          (to_uint32 this_end))

-- `compare` of the prototype.
unfoldable pub compare : List ℕ → List ℕ → Option ℤ → Option ℤ → Option ℤ → Option ℤ → Result ℤ
unfolding compare_ranges
compare this target start end this_start this_end =
    compare_ranges this target (or_default (pos 0) start) (or_default (pos (length target)) end)
      (or_default (pos 0) this_start) (or_default (pos (length this)) this_end)
