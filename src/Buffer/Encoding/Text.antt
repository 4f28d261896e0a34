-- ===== src/Buffer/Encoding/Text.antt =====
-- buffer.js: `slowToString` and `toString`.
pub mod Laws
use winterjs.Common.{
  ℕ, zero, suc, ◌-◌, ltb, leb, ◌==◌, if◌then◌else◌, List, [], length, Option, none, some,
}
use winterjs.Common.Int.{ℤ, pos, negsuc}
use winterjs.Js.{Result, ok, ◌>>=◌}
use winterjs.Js.Int32.{to_uint32}
use winterjs.Buffer.Blit.{ascii_slice, latin1_slice}
use winterjs.Buffer.Hex.{hex_slice}
use winterjs.Buffer.Utf8.{utf8_slice}
use winterjs.Buffer.Utf16.{utf16le_slice}
use winterjs.Buffer.Encoding.{
  Encoding, hex, utf8, ascii, latin1, base64, utf16le, select, known, or_utf8,
}
use winterjs.Buffer.Encoding.Clean.{base64_slice}

-- The cases of the switch.
unfoldable pub slice_as : Encoding → List ℕ → ℕ → ℕ → List ℕ
unfolding hex_slice utf8_slice ascii_slice latin1_slice base64_slice utf16le_slice
slice_as hex buf start end = hex_slice buf (pos start) (pos end)
slice_as utf8 buf start end = utf8_slice buf start end
slice_as ascii buf start end = ascii_slice buf start end
slice_as latin1 buf start end = latin1_slice buf start end
slice_as base64 buf start end = base64_slice buf start end
slice_as utf16le buf start end = utf16le_slice buf (pos start) (some (pos end))

-- `if (start === undefined || start < 0) start = 0`
abbrev pub clamp_text_start : Option ℤ → ℕ
clamp_text_start none = 0
clamp_text_start (some (pos n)) = n
clamp_text_start (some (negsuc n)) = 0

-- `if (end === undefined || end > this.length) end = this.length`; a negative end, which the next
-- test treats as 0, is 0.
abbrev pub clamp_text_end : ℕ → Option ℤ → ℕ
clamp_text_end len none = len
clamp_text_end len (some (pos n)) = if ltb len n then len else n
clamp_text_end len (some (negsuc n)) = 0

-- `slowToString`
unfoldable pub slow_to_string :
    (List ℕ → List ℕ) → List ℕ → Option (List ℕ) → Option ℤ → Option ℤ → Result (List ℕ)
unfolding slice_as
slow_to_string lower buf encoding start end =
    let first = clamp_text_start start in
    let last = clamp_text_end (length buf) end in
    if ltb (length buf) first
    then ok []
    else if leb last 0
    then ok []
    else if leb (to_uint32 (pos last)) (to_uint32 (pos first))
    then ok []
    else known (select lower (or_utf8 encoding)) >>= λ e.
        ok (slice_as e buf (to_uint32 (pos first)) (to_uint32 (pos last)))

-- The arguments of `toString`, `none` where there are none.
abbrev pub TextArgs : Type 0
TextArgs = Option (Option (List ℕ) × Option ℤ × Option ℤ)

abbrev pub text_or_slow : (List ℕ → List ℕ) → List ℕ → TextArgs → Result (List ℕ)
text_or_slow lower buf none = ok (utf8_slice buf 0 (length buf))
text_or_slow lower buf (some (encoding, start, end)) = slow_to_string lower buf encoding start end

-- `toString`
unfoldable pub to_string : (List ℕ → List ℕ) → List ℕ → TextArgs → Result (List ℕ)
unfolding slow_to_string utf8_slice
to_string lower buf args = if length buf == 0 then ok [] else text_or_slow lower buf args
