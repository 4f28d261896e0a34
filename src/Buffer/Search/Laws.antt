-- ===== src/Buffer/Search/Laws.antt =====
-- A search with an offset is a search from a start inside the buffer.
use winterjs.Common.{
  ℕ, ◌-◌, ◌<◌, ◌≡◌, ap, arith, Bool, true, false, ◌==◌, if◌then◌else◌, List, length, Option, none,
  some,
}
use winterjs.Common.Int.{ℤ, pos, negsuc}
use winterjs.Buffer.Search.{
  in_buffer, search_start, from_end, clamp_offset, Value, Native, search_value, search_from,
  bidirectional_index_of,
}

in_buffer-lt :
    (len : ℕ) (dir : Bool) (z : ℤ) (start : ℕ)
    → 0 < len
    → in_buffer len dir z ≡ some start
    → start < len
in_buffer-lt len true (pos n) start h e = ground arith
in_buffer-lt len false (pos n) start h e = ground arith
in_buffer-lt len true (negsuc n) start h e = ground arith
in_buffer-lt len false (negsuc n) start h e = ground arith

-- A search starts inside the buffer.
pub search_start-lt :
    (len : ℕ) (offset : Option ℤ) (dir : Bool) (start : ℕ)
    → 0 < len
    → search_start len offset dir ≡ some start
    → start < len
unfolding search_start
search_start-lt len none dir start h e =
    in_buffer-lt len dir (if dir then pos 0 else pos (len - 1)) start h e
search_start-lt len (some offset) dir start h e =
    in_buffer-lt len dir (from_end len (clamp_offset offset)) start h e

pub bidirectional_lem :
    (native : Native) (buffer : List ℕ) (val : Value) (offset : Option ℤ) (dir : Bool) (start : ℕ)
    → 0 < length buffer
    → search_start (length buffer) offset dir ≡ some start
    → bidirectional_index_of native buffer val offset dir ≡ search_value native buffer val start dir
unfolding bidirectional_index_of
bidirectional_lem native buffer val offset dir start h e =
    let full : (length buffer == 0) ≡ false = ground arith in
    rw full (ap (search_from native buffer val dir) e)
