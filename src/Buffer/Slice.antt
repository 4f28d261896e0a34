-- ===== src/Buffer/Slice.antt =====
-- buffer.js: `slice`. The view that it returns is its bounds in the buffer that it shares.
pub mod Laws
use winterjs.Common.{ℕ, ◌+◌, ◌-◌, List, length, Option, none, some, ltb, if◌then◌else◌}
use winterjs.Common.Int.{ℤ, pos, negsuc}
use winterjs.Js.Int32.{to_uint32, signed32}
use winterjs.Buffer.Window.{window}

-- `~~x`
abbrev pub to_int32 : ℤ → ℤ
to_int32 x = signed32 (to_uint32 x)

-- An index, counted from the end when it is negative, and cut to the bounds.
unfoldable pub slice_index : ℕ → ℤ → ℕ
slice_index len (pos i) = if ltb len i then len else i
slice_index len (negsuc i) = len - (i + 1)

unfoldable pub slice_end : ℕ → Option ℤ → ℕ
unfolding slice_index
slice_end len none = len
slice_end len (some end) = slice_index len (to_int32 end)

-- The bounds `start` and `end` of the view.
unfoldable pub slice_bounds : ℕ → ℤ → Option ℤ → ℕ × ℕ
unfolding slice_end
slice_bounds len start end =
    let s = slice_index len (to_int32 start) in
    let e = slice_end len end in (s, if ltb e s then s else e)

-- The bytes seen through the view.
unfoldable pub slice : List ℕ → ℤ → Option ℤ → List ℕ
unfolding slice_bounds
slice buf start end =
    let bounds = slice_bounds (length buf) start end in window buf bounds.0 (bounds.1 - bounds.0)
