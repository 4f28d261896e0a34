-- ===== src/Buffer/From.antt =====
-- buffer.js: `from`, what it makes a buffer of besides a string, and `toJSON`.
pub mod Laws
use winterjs.Common.{
  ℕ, zero, suc, ◌+◌, ◌-◌, Bool, false, true, ◌||◌, ◌==◌, ltb, if◌then◌else◌, List, [], ◌∷◌, length,
  get_elem?, Option, none, some,
}
use winterjs.Common.Int.{ℤ, pos, negsuc, ltb_ℤ, ◌+ℤ◌}
use winterjs.Js.{
  Result, ok, err, ◌>>=◌, ◌>>◌, throw_if, store, or_default, unsupported_value, offset_outside,
  length_outside, invalid_array_length,
}
use winterjs.Js.Int32.{wrap}
use winterjs.Buffer.Window.{window}
use winterjs.Buffer.Copy.{copy}
use winterjs.Buffer.Concat.{checked, create_buffer}
use winterjs.Buffer.Encoding.Construct.{from_string}
use winterjs.Buffer.Fill.{FillArg, absent, at, named}

-- `array[i] & 255`, where undefined counts as 0.
abbrev pub masked : Option ℤ → ℕ
masked none = 0
masked (some n) = wrap 256 n

-- The loop of `fromArrayLike`: the rounds left, and `i`.
unfoldable pub copy_elements : List ℤ → ℕ → ℕ → List ℕ → List ℕ
copy_elements array zero i buf = buf
copy_elements array (suc rounds) i buf =
    copy_elements array rounds (i + 1) (store buf i (masked (get_elem? array i)))

-- `array.length < 0 ? 0 : checked(array.length) | 0`
abbrev pub checked_length : ℤ → Result ℕ
checked_length (pos n) = checked n
checked_length (negsuc n) = ok 0

-- `fromArrayLike` of an object with a `length` and elements.
unfoldable pub from_array_like : ℤ → List ℤ → Result (List ℕ)
unfolding copy_elements
from_array_like len array = do
  n ← checked_length len
  buf ← create_buffer n
  ok (copy_elements array n 0 buf)

-- `new Uint8Array(array, byteOffset, length)`, with an offset that the callers have checked.
unfoldable pub uint8_view : List ℕ → ℕ → Option ℤ → Result (List ℕ)
uint8_view array offset none = ok (window array offset (length array - offset))
uint8_view array offset (some (pos n)) =
    if ltb (length array) (offset + n) then err invalid_array_length else ok (window array offset n)
uint8_view array offset (some (negsuc n)) = err invalid_array_length

-- `fromArrayBuffer`: the bytes that the buffer shares with the `ArrayBuffer`. An offset of `none` is
-- undefined or not a number.
unfoldable pub from_array_buffer : List ℕ → Option ℤ → Option ℤ → Result (List ℕ)
unfolding uint8_view
from_array_buffer array none len = uint8_view array 0 len
from_array_buffer array (some (negsuc n)) len = err offset_outside
from_array_buffer array (some (pos offset)) len = do
  throw_if (ltb (length array) offset) offset_outside
  throw_if (ltb_ℤ (pos (length array)) (pos offset +ℤ or_default (pos 0) len)) length_outside
  uint8_view array offset len

-- A value that `fromObject` can be given.
pub data Plain : Type 0 where
  -- an object that `isBuffer` accepts, and one with a `length`, which `none` says is not a number
  buffer_like : List ℕ → Plain
  array_like : Option ℤ → List ℤ → Plain
  -- what `JSON.parse` makes of the text of a buffer: its `type` and `data`
  json : List ℤ → Plain
  -- any other object, with the string of `Symbol.toPrimitive` where it has that method
  other : Option (List ℕ) → Plain

-- The values that `from` tells apart. `boxed` is an object whose `valueOf` is another value.
pub data Source : Type 0 where
  text : List ℕ → Source
  uint8_array : List ℕ → Source
  typed_array : List ℤ → Source
  missing : Source
  array_buffer : List ℕ → Source
  number : Source
  boxed : Source → Source
  plain : Plain → Source

-- `toJSON`, as `from` sees it.
abbrev pub json_data : List ℕ → List ℤ
json_data [] = []
json_data (b ∷ buf) = pos b ∷ json_data buf

unfoldable pub to_json : List ℕ → Plain
to_json buf = json (json_data buf)

-- `fromObject` of an object that `isBuffer` accepts.
unfoldable pub copy_buffer : List ℕ → Result (List ℕ)
copy_buffer obj = do
  len ← checked (length obj)
  buf ← create_buffer len
  (if length buf == 0
      then ok buf
      else (copy obj buf (some (pos 0)) (some (pos 0)) (some (pos len)) >>= λ r. ok r.1))

abbrev pub from_array_like_of : Option ℤ → List ℤ → Result (List ℕ)
from_array_like_of none array = create_buffer 0
from_array_like_of (some len) array = from_array_like len array

abbrev pub encoding_of : FillArg → Option (List ℕ)
encoding_of absent = none
encoding_of (at n) = none
encoding_of (named s) = some s

abbrev pub offset_of : FillArg → Option ℤ
offset_of absent = none
offset_of (at n) = some n
offset_of (named s) = none

abbrev pub from_primitive : (List ℕ → List ℕ) → Option (List ℕ) → FillArg → Result (List ℕ)
from_primitive lower none encoding = err unsupported_value
from_primitive lower (some s) encoding = from_string lower s (encoding_of encoding)

-- `fromObject`, and what `from` does behind it.
unfoldable pub from_object : (List ℕ → List ℕ) → Plain → FillArg → Result (List ℕ)
unfolding from_array_like copy_buffer
from_object lower (buffer_like obj) encoding = copy_buffer obj
from_object lower (array_like len array) encoding = from_array_like_of len array
from_object lower (json data_items) encoding = from_array_like (pos (length data_items)) data_items
from_object lower (other primitive) encoding = from_primitive lower primitive encoding

-- `from(value, encodingOrOffset, length)`
unfoldable pub from : (List ℕ → List ℕ) → Source → FillArg → Option ℤ → Result (List ℕ)
unfolding from_array_like from_array_buffer from_object
from lower (text string) second len = from_string lower string (encoding_of second)
from lower (uint8_array bytes) second len =
    from_array_buffer bytes (some (pos 0)) (some (pos (length bytes)))
from lower (typed_array items) second len = from_array_like (pos (length items)) items
from lower missing second len = err unsupported_value
from lower (array_buffer bytes) second len = from_array_buffer bytes (offset_of second) len
from lower number second len = err unsupported_value
from lower (boxed value) second len = from lower value second len
from lower (plain obj) second len = from_object lower obj second
